-- ===== src/Indexer/Events/Cache.antt =====
-- What `BlockSeen` and `BlockAdded` make of the coin cache.
use rosetta_thought.Prelude.{
  ◌≡◌, ◌≢◌, refl, Bool, true, false, ◌||◌, Option, none, some, List, [], ◌∷◌, arith, if◌then◌else◌,
  Bool-cases, inl, inr, ◌∙◌,
}
use rosetta_thought.Map.{Map, lookup, insert, delete, lookup-insert, lookup-delete}
use rosetta_thought.Text.{Text, text_eq}
use rosetta_thought.Sdk
use rosetta_thought.Sdk.{AccountCoin, Operation}
use rosetta_thought.Thought.Created.{created_coin, add_coin, add_coins, add_coins_keeps}
use rosetta_thought.Indexer.WaitTable.{State}
use rosetta_thought.Indexer.Events.{
  load_coins, drop_coin, drop_coins, clean_coins, seen_load, added_clean,
}

abbrev is_key : Text → Option (Text × AccountCoin) → Bool
is_key k none = false
is_key k (some (j, coin)) = text_eq j k

-- Whether an operation creates the coin with this identifier.
abbrev pub creates : Text → List Operation → Bool
creates k [] = false
creates k (op ∷ ops) = is_key k (created_coin op) || creates k ops

-- Whether a transaction of the block does.
abbrev pub block_creates : Text → List Sdk.Transaction → Bool
block_creates k [] = false
block_creates k (tx ∷ txs) = creates k tx.operations || block_creates k txs

drop_coin-lookup :
    (k : Text) (op : Operation) (m : Map AccountCoin)
    → lookup k (drop_coin op m) ≡ (if is_key k (created_coin op) then none else lookup k m)
unfolding drop_coin
drop_coin-lookup k op m = go (created_coin op)
  where
    go :
        (o : Option (Text × AccountCoin))
        → lookup k (elim o [ none ↦ m | some (j, coin) ↦ delete j m ])
          ≡ (if is_key k o then none else lookup k m)
    go none = refl
    go (some (j, coin)) = lookup-delete j k m

drop_coins-lookup :
    (k : Text) (ops : List Operation) (m : Map AccountCoin)
    → lookup k (drop_coins ops m) ≡ (if creates k ops then none else lookup k m)
unfolding drop_coins
drop_coins-lookup k [] m = refl
drop_coins-lookup k (op ∷ ops) m =
    ground (arith, drop_coins-lookup k ops (drop_coin op m), drop_coin-lookup k op m)

pub clean_coins-lookup :
    (k : Text) (txs : List Sdk.Transaction) (m : Map AccountCoin)
    → lookup k (clean_coins txs m) ≡ (if block_creates k txs then none else lookup k m)
unfolding clean_coins
clean_coins-lookup k [] m = refl
clean_coins-lookup k (tx ∷ txs) m = ground (
  arith,
  clean_coins-lookup k txs (drop_coins tx.operations m),
  drop_coins-lookup k tx.operations m,
)

-- A coin of the block is in the map; any other is as it was before.
abbrev Loaded : Text → Bool → Map AccountCoin → Map AccountCoin → Type 0
Loaded k true old new = lookup k new ≢ none
Loaded k false old new = lookup k new ≡ lookup k old

add_coin-Loaded :
    (k : Text) (op : Operation) (m : Map AccountCoin)
    → Loaded k (is_key k (created_coin op)) m (add_coin op m)
unfolding add_coin
add_coin-Loaded k op m = go (created_coin op)
  where
    go :
        (o : Option (Text × AccountCoin))
        → Loaded k (is_key k o) m (elim o [ none ↦ m | some (j, coin) ↦ insert j coin m ])
    go none = refl
    go (some (j, coin)) = elim (Bool-cases (text_eq j k)) [
      | inl b ↦ rw (b, lookup-insert) (rw b (λ h. cc))
      | inr b ↦ rw (b, lookup-insert) (rw b refl)
    ]

Loaded-then :
    (k : Text) (a b : Bool) (old mid new : Map AccountCoin)
    → (lookup k mid ≢ none → lookup k new ≢ none)
    → Loaded k a old mid
    → Loaded k b mid new
    → Loaded k (a || b) old new
Loaded-then k true b old mid new keeps first second = keeps first
Loaded-then k false true old mid new keeps first second = second
Loaded-then k false false old mid new keeps first second = second ∙ first

add_coins-Loaded :
    (k : Text) (ops : List Operation) (m : Map AccountCoin)
    → Loaded k (creates k ops) m (add_coins ops m)
unfolding add_coins
add_coins-Loaded k [] m = refl
add_coins-Loaded k (op ∷ ops) m =
    Loaded-then k (is_key k (created_coin op)) (creates k ops) m (add_coin op m)
      (add_coins ops (add_coin op m)) (add_coins_keeps ops (add_coin op m) k)
      (add_coin-Loaded k op m) (add_coins-Loaded k ops (add_coin op m))

load_coins_keeps :
    (k : Text) (txs : List Sdk.Transaction) (m : Map AccountCoin)
    → lookup k m ≢ none
    → lookup k (load_coins txs m) ≢ none
unfolding load_coins
load_coins_keeps k [] m h = h
load_coins_keeps k (tx ∷ txs) m h =
    load_coins_keeps k txs (add_coins tx.operations m) (add_coins_keeps tx.operations m k h)

load_coins-Loaded :
    (k : Text) (txs : List Sdk.Transaction) (m : Map AccountCoin)
    → Loaded k (block_creates k txs) m (load_coins txs m)
unfolding load_coins
load_coins-Loaded k [] m = refl
load_coins-Loaded k (tx ∷ txs) m =
    Loaded-then k (creates k tx.operations) (block_creates k txs) m (add_coins tx.operations m)
      (load_coins txs (add_coins tx.operations m))
      (load_coins_keeps k txs (add_coins tx.operations m)) (add_coins-Loaded k tx.operations m)
      (load_coins-Loaded k txs (add_coins tx.operations m))

-- Seeing a block puts exactly the coins that it creates into the cache, and adding the block takes
-- exactly them out again: after the first they are there and after both they are not, whatever the
-- cache held of them, while any other coin is as it was before, after the one and after both.
pub seen_added_cache :
    (block : Sdk.Block) (s : State) (k : Text)
    → (block_creates k block.transactions ≡ true
        → (lookup k (seen_load block s).coin_cache ≢ none)
          × (lookup k (added_clean block (seen_load block s)).coin_cache ≡ none))
      × (block_creates k block.transactions ≡ false
          → (lookup k (seen_load block s).coin_cache ≡ lookup k s.coin_cache)
            × (lookup k (added_clean block (seen_load block s)).coin_cache ≡ lookup k s.coin_cache))
unfolding seen_load added_clean
seen_added_cache block s k =
    let loaded = load_coins-Loaded k block.transactions s.coin_cache in
    let cleaned =
      clean_coins-lookup k block.transactions (load_coins block.transactions s.coin_cache) in
    (
      λ yes_it. (rw yes_it at loaded, cleaned ∙ rw yes_it refl),
      λ not_it. (rw not_it at loaded, cleaned ∙ rw not_it (rw not_it at loaded)),
    )
