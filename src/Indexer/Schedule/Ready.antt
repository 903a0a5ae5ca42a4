-- ===== src/Indexer/Schedule/Ready.antt =====
-- A coin that a seen block creates can be found from then on: in the cache or in the storage.
use rosetta_thought.Prelude.{
  ◌≡◌, refl, ◌⊎◌, inl, inr, ◌∙◌, false, Option, none, some, List, [], ◌∷◌, All, Bool-cases,
}
use rosetta_thought.Map.{Map, lookup}
use rosetta_thought.Outcome.{ok, err}
use rosetta_thought.Text.{Text}
use rosetta_thought.Sdk
use rosetta_thought.Sdk.{AccountCoin, coin_not_found}
use rosetta_thought.Indexer.Events.{load_coins, clean_coins, seen_load, seen_count, added_clean}
use rosetta_thought.Indexer.Events.Cache.{clean_coins-lookup, block_creates}
use rosetta_thought.Indexer.Schedule.{
  CoinStorage, World, Event, load, count, store, clean, remove, table, later, block_made,
  block_spends, as_stored, store_on_head, clean_pending, is_head, follows, remove_head, happen, run,
}
use rosetta_thought.Indexer.Schedule.Created.{load_coins-lookup, clean_coins-other}

-- A block that creates no coin `k`, or creates it as `v`.
abbrev pub Agrees : Text → AccountCoin → Sdk.Block → Type 0
Agrees k v block =
    (block_made k block.transactions ≡ none) ⊎ (block_made k block.transactions ≡ some v)

-- An event that leaves the coin unspent, where it exists.
abbrev pub Leaves : Text → AccountCoin → Event → Type 0
Leaves k v (load block) = Agrees k v block
Leaves k v (store block) = (block_spends k block.transactions ≡ false) × Agrees k v block
Leaves k v (remove block) =
    (block_spends k block.transactions ≡ false) × (block_made k block.transactions ≡ none)
Leaves k v _ = Unit

-- Cleaning after this block leaves the coin in the cache.
abbrev pub Spared : Text → Option Sdk.Block → Type 0
Spared k none = Unit
Spared k (some block) = block_made k block.transactions ≡ none

module _ (storage : CoinStorage) (k : Text) (v : AccountCoin) where
  abbrev pub IsStored : World storage → Type 0
  IsStored w = storage.get_coin k w.coins ≡ ok (as_stored v)

  abbrev pub IsCached : World storage → Type 0
  IsCached w = lookup k w.shared.coin_cache ≡ some v

  abbrev pub IsMissing : World storage → Type 0
  IsMissing w = storage.get_coin k w.coins ≡ err coin_not_found

  -- The cache has the coin or none.
  abbrev pub Fits : Option AccountCoin → Type 0
  Fits o = (o ≡ none) ⊎ (o ≡ some v)

  -- The coin is in the storage, or it is in the cache and will not be cleaned before it is stored.
  abbrev pub IsReady : World storage → Type 0
  IsReady w =
      (IsStored w × Fits (lookup k w.shared.coin_cache))
      ⊎ (IsCached w × Spared k w.adding × IsMissing w)

  Agrees-later :
      (block : Sdk.Block) (old : Option AccountCoin)
      → Agrees k v block
      → old ≡ some v
      → later old (block_made k block.transactions) ≡ some v
  Agrees-later block old (inl not_made) h = rw not_made h
  Agrees-later block old (inr is_made) h = rw is_made refl

  load-IsCached :
      (block : Sdk.Block) (w : World storage)
      → Agrees k v block
      → IsCached w
      → IsCached (happen storage (load block) w)
  unfolding happen seen_load
  load-IsCached block w agrees cached =
      load_coins-lookup k block.transactions w.shared.coin_cache
      ∙ Agrees-later block (lookup k w.shared.coin_cache) agrees cached

  Fits-later :
      (block : Sdk.Block) (old : Option AccountCoin)
      → Agrees k v block
      → Fits old
      → Fits (later old (block_made k block.transactions))
  Fits-later block old (inl not_made) fits = rw not_made fits
  Fits-later block old (inr is_made) fits = rw is_made (inr refl)

  pub load-Fits :
      (block : Sdk.Block) (m : Map AccountCoin)
      → Agrees k v block
      → Fits (lookup k m)
      → Fits (lookup k (load_coins block.transactions m))
  load-Fits block m agrees fits =
      rw (load_coins-lookup k block.transactions m) (Fits-later block (lookup k m) agrees fits)

  pub clean-Fits :
      (block : Sdk.Block) (m : Map AccountCoin)
      → Fits (lookup k m)
      → Fits (lookup k (clean_coins block.transactions m))
  clean-Fits block m fits =
      rw (clean_coins-lookup k block.transactions m)
        (elim (Bool-cases (block_creates k block.transactions)) [
          | inl yes_it ↦ rw yes_it (inl refl)
          | inr not_it ↦ rw not_it fits
        ])

  IsReady-Fits : (w : World storage) → IsReady w → Fits (lookup k w.shared.coin_cache)
  IsReady-Fits w (inl (stored, fits)) = fits
  IsReady-Fits w (inr (cached, spared, missing)) = inr cached

  store-IsReady :
      (block : Sdk.Block) (w : World storage) (adding : Option Sdk.Block)
      → block_spends k block.transactions ≡ false
      → Agrees k v block
      → IsReady w
      → w.adding ≡ adding
      → IsReady (store_on_head storage block adding w)
  store-IsReady block w (some before) unspent agrees ready e = ready
  store-IsReady block w none unspent agrees ready e = elim (Bool-cases (follows block w.head)) [
    | inr skip ↦ rw skip ready
    | inl next ↦ rw next (elim agrees [
      | inr is_made ↦
          inl (storage.add_block-stores k v block w.coins unspent is_made, IsReady-Fits w ready)
      | inl not_made ↦ elim ready [
        | inl (stored, fits) ↦
            inl (storage.add_block-keeps k block w.coins unspent not_made ∙ stored, fits)
        | inr (cached, spared, missing) ↦
            inr
              (cached, not_made, storage.add_block-keeps k block w.coins unspent not_made ∙ missing)
      ]
    ])
  ]

  clean-IsReady :
      (w : World storage) (adding : Option Sdk.Block)
      → (IsStored w × Fits (lookup k w.shared.coin_cache))
        ⊎ (IsCached w × Spared k adding × IsMissing w)
      → w.adding ≡ adding
      → IsReady (clean_pending storage adding w)
  unfolding added_clean
  clean-IsReady w none (inl stored) e = inl stored
  clean-IsReady w none (inr (cached, spared, missing)) e = inr (cached, rw e tt, missing)
  clean-IsReady w (some block) (inl (stored, fits)) e =
      inl (stored, clean-Fits block w.shared.coin_cache fits)
  clean-IsReady w (some block) (inr (cached, spared, missing)) e =
      inr (clean_coins-other k block.transactions w.shared.coin_cache spared ∙ cached, tt, missing)

  remove-IsReady :
      (block : Sdk.Block) (w : World storage) (adding : Option Sdk.Block)
      → block_spends k block.transactions ≡ false
      → block_made k block.transactions ≡ none
      → IsReady w
      → IsReady (remove_head storage block adding w)
  remove-IsReady block w (some before) unspent not_made ready = ready
  remove-IsReady block w none unspent not_made ready = elim (Bool-cases (is_head block w.head)) [
    | inr skip ↦ rw skip ready
    | inl here ↦ rw here (elim ready [
      | inl (stored, fits) ↦
          inl (storage.remove_block-keeps k block w.coins unspent not_made ∙ stored, fits)
      | inr (cached, spared, missing) ↦
          inr (cached, tt, storage.remove_block-keeps k block w.coins unspent not_made ∙ missing)
    ])
  ]

  pub happen-IsReady :
      (e : Event) (w : World storage) → Leaves k v e → IsReady w → IsReady (happen storage e w)
  unfolding happen seen_count seen_load
  happen-IsReady (load block) w agrees (inl (stored, fits)) =
      inl (stored, load-Fits block w.shared.coin_cache agrees fits)
  happen-IsReady (load block) w agrees (inr (cached, spared, missing)) =
      inr (load-IsCached block w agrees cached, spared, missing)
  happen-IsReady count w leaves ready = ready
  happen-IsReady (store block) w (unspent, agrees) ready =
      store-IsReady block w w.adding unspent agrees ready refl
  happen-IsReady clean w leaves ready = clean-IsReady w w.adding ready refl
  happen-IsReady (remove block) w (unspent, not_made) ready =
      remove-IsReady block w w.adding unspent not_made ready
  happen-IsReady (table t) w leaves ready = ready

  pub run-IsReady :
      (events : List Event) (w : World storage)
      → All (Leaves k v) events
      → IsReady w
      → IsReady (run storage events w)
  unfolding run
  run-IsReady [] w leaves ready = ready
  run-IsReady (e ∷ events) w (leaves, rest) ready =
      run-IsReady events (happen storage e w) rest (happen-IsReady e w leaves ready)

-- If BlockSeen loads a block that creates a coin which the storage does not have, while no block
-- that creates the same coin is between its storing and its cleaning in BlockAdded, then after any
-- later order of sections of BlockSeen, BlockAdded and BlockRemoved the storage has the coin as the
-- block creates it, or else the cache has it so, as long as no stored or removed block spends it,
-- no removed block creates it, and every other block that creates a coin of that identifier creates
-- the same one.
pub seen_stays-IsReady :
    (storage : CoinStorage) (k : Text) (v : AccountCoin) (block : Sdk.Block) (events : List Event)
    (w : World storage)
    → block_made k block.transactions ≡ some v
    → storage.get_coin k w.coins ≡ err coin_not_found
    → Spared k w.adding
    → All (Leaves k v) events
    → IsReady storage k v (run storage (load block ∷ events) w)
unfolding run happen seen_load
seen_stays-IsReady storage k v block events w is_made missing spared leaves =
    run-IsReady storage k v events (happen storage (load block) w) leaves (
      inr (
        load_coins-lookup k block.transactions w.shared.coin_cache ∙ rw is_made refl,
        spared,
        missing,
      ))
