-- ===== src/Indexer/Schedule/Fresh.antt =====
-- A coin that no block has created yet, up to the section of `BlockSeen` that loads it.
use rosetta_thought.Prelude.{
  ◌≡◌, refl, ◌⊎◌, inl, inr, ◌∙◌, false, Option, none, some, List, [], ◌∷◌, ◌++◌, All, Bool-cases,
}
use rosetta_thought.Map.{lookup}
use rosetta_thought.Text.{Text}
use rosetta_thought.Sdk
use rosetta_thought.Sdk.{AccountCoin}
use rosetta_thought.Indexer.Events.{seen_load, seen_count, added_clean}
use rosetta_thought.Indexer.Schedule.{
  CoinStorage, World, Event, load, count, store, clean, remove, table, block_made, block_spends,
  store_on_head, clean_pending, is_head, follows, remove_head, happen, run,
}
use rosetta_thought.Indexer.Schedule.Created.{load_coins-lookup}
use rosetta_thought.Indexer.Schedule.Ready.{
  Agrees, Leaves, Spared, IsMissing, Fits, IsReady, load-Fits, clean-Fits, happen-IsReady,
  run-IsReady,
}

module _ (storage : CoinStorage) (k : Text) (v : AccountCoin) where
  -- The coin is not stored, the cache has no other under its identifier, and none is being added.
  abbrev pub IsFresh : World storage → Type 0
  IsFresh w =
      IsMissing storage k v w × Fits storage k v (lookup k w.shared.coin_cache) × Spared k w.adding

  abbrev pub IsKnown : World storage → Type 0
  IsKnown w = IsFresh w ⊎ IsReady storage k v w

  load_made-IsReady :
      (block : Sdk.Block) (w : World storage)
      → block_made k block.transactions ≡ some v
      → IsKnown w
      → IsReady storage k v (happen storage (load block) w)
  unfolding happen seen_load
  load_made-IsReady block w is_made (inl (missing, fits, spared)) = inr (
    load_coins-lookup k block.transactions w.shared.coin_cache ∙ rw is_made refl,
    spared,
    missing,
  )
  load_made-IsReady block w is_made (inr ready) =
      happen-IsReady storage k v (load block) w (inr is_made) ready

  store-IsKnown :
      (block : Sdk.Block) (w : World storage) (adding : Option Sdk.Block)
      → block_spends k block.transactions ≡ false
      → Agrees k v block
      → IsFresh w
      → IsKnown (store_on_head storage block adding w)
  store-IsKnown block w (some before) unspent agrees fresh = inl fresh
  store-IsKnown block w none unspent agrees (missing, fits, spared) =
      elim (Bool-cases (follows block w.head)) [
        | inr skip ↦ rw skip (inl (missing, fits, spared))
        | inl next ↦ rw next (elim agrees [
          | inr is_made ↦
              inr (inl (storage.add_block-stores k v block w.coins unspent is_made, fits))
          | inl not_made ↦
              inl
                (storage.add_block-keeps k block w.coins unspent not_made ∙ missing, fits, not_made)
        ])
      ]

  clean-IsFresh :
      (w : World storage) (adding : Option Sdk.Block)
      → IsFresh w
      → IsFresh (clean_pending storage adding w)
  unfolding added_clean
  clean-IsFresh w none fresh = fresh
  clean-IsFresh w (some block) (missing, fits, spared) =
      (missing, clean-Fits storage k v block w.shared.coin_cache fits, tt)

  remove-IsFresh :
      (block : Sdk.Block) (w : World storage) (adding : Option Sdk.Block)
      → block_spends k block.transactions ≡ false
      → block_made k block.transactions ≡ none
      → IsFresh w
      → IsFresh (remove_head storage block adding w)
  remove-IsFresh block w (some before) unspent not_made fresh = fresh
  remove-IsFresh block w none unspent not_made (missing, fits, spared) =
      elim (Bool-cases (is_head block w.head)) [
        | inr skip ↦ rw skip (missing, fits, spared)
        | inl here ↦
            rw here
              (storage.remove_block-keeps k block w.coins unspent not_made ∙ missing, fits, tt)
      ]

  happen-IsKnown :
      (e : Event) (w : World storage) → Leaves k v e → IsKnown w → IsKnown (happen storage e w)
  unfolding happen seen_count seen_load
  happen-IsKnown e w leaves (inr ready) = inr (happen-IsReady storage k v e w leaves ready)
  happen-IsKnown (load block) w (inl not_made) (inl (missing, fits, spared)) =
      inl (missing, load-Fits storage k v block w.shared.coin_cache (inl not_made) fits, spared)
  happen-IsKnown (load block) w (inr is_made) (inl fresh) =
      inr (load_made-IsReady block w is_made (inl fresh))
  happen-IsKnown count w leaves (inl fresh) = inl fresh
  happen-IsKnown (store block) w (unspent, agrees) (inl fresh) =
      store-IsKnown block w w.adding unspent agrees fresh
  happen-IsKnown clean w leaves (inl fresh) = inl (clean-IsFresh w w.adding fresh)
  happen-IsKnown (remove block) w (unspent, not_made) (inl fresh) =
      inl (remove-IsFresh block w w.adding unspent not_made fresh)
  happen-IsKnown (table t) w leaves (inl fresh) = inl fresh

  pub run-IsKnown :
      (events : List Event) (w : World storage)
      → All (Leaves k v) events
      → IsKnown w
      → IsKnown (run storage events w)
  unfolding run
  run-IsKnown [] w leaves known = known
  run-IsKnown (e ∷ events) w (leaves, rest) known =
      run-IsKnown events (happen storage e w) rest (happen-IsKnown e w leaves known)

  -- Once a block that creates the coin is loaded, the coin is ready.
  pub run_load-IsReady :
      (front back : List Event) (block : Sdk.Block) (w : World storage)
      → block_made k block.transactions ≡ some v
      → All (Leaves k v) (front ++ load block ∷ back)
      → IsKnown w
      → IsReady storage k v (run storage (front ++ load block ∷ back) w)
  unfolding run
  run_load-IsReady [] back block w is_made (leaves, rest) known =
      run-IsReady storage k v back (happen storage (load block) w) rest
        (load_made-IsReady block w is_made known)
  run_load-IsReady (e ∷ front) back block w is_made (leaves, rest) known =
      run_load-IsReady front back block (happen storage e w) is_made rest
        (happen-IsKnown e w leaves known)
