-- ===== src/Indexer/Schedule/Created.antt =====
-- What the cache holds under an identifier, after the coins of a block are loaded and cleaned.
use rosetta_thought.Prelude.{◌≡◌, refl, Option, none, some, List, [], ◌∷◌, arith, ◌∙◌, ap}
use rosetta_thought.Map.{Map, lookup, insert, delete, lookup-insert, lookup-delete}
use rosetta_thought.Text.{Text}
use rosetta_thought.Sdk
use rosetta_thought.Sdk.{AccountCoin, Operation}
use rosetta_thought.Thought.Created.{created_coin, add_coin, add_coins}
use rosetta_thought.Indexer.Events.{load_coins, drop_coin, drop_coins, clean_coins}
use rosetta_thought.Indexer.Schedule.{later, coin_at, made, block_made}

later_assoc : (a b c : Option AccountCoin) → later (later a b) c ≡ later a (later b c)
later_assoc a b none = refl
later_assoc a b (some v) = refl

later-none : (a b : Option AccountCoin) → later a b ≡ none → (a ≡ none) × (b ≡ none)
later-none a none h = (h, refl)
later-none a (some v) h = absurd (cc)

add_coin-lookup :
    (k : Text) (op : Operation) (m : Map AccountCoin)
    → lookup k (add_coin op m) ≡ later (lookup k m) (coin_at k (created_coin op))
unfolding add_coin
add_coin-lookup k op m = go (created_coin op)
  where
    go :
        (o : Option (Text × AccountCoin))
        → lookup k (elim o [ none ↦ m | some (j, coin) ↦ insert j coin m ])
          ≡ later (lookup k m) (coin_at k o)
    go none = refl
    go (some (j, coin)) = ground (arith, lookup-insert j k coin m)

add_coins-lookup :
    (k : Text) (ops : List Operation) (m : Map AccountCoin)
    → lookup k (add_coins ops m) ≡ later (lookup k m) (made k ops)
unfolding add_coins
add_coins-lookup k [] m = refl
add_coins-lookup k (op ∷ ops) m =
    add_coins-lookup k ops (add_coin op m)
    ∙ (ap (λ o. later o (made k ops)) (add_coin-lookup k op m)
        ∙ later_assoc (lookup k m) (coin_at k (created_coin op)) (made k ops))

pub load_coins-lookup :
    (k : Text) (txs : List Sdk.Transaction) (m : Map AccountCoin)
    → lookup k (load_coins txs m) ≡ later (lookup k m) (block_made k txs)
unfolding load_coins
load_coins-lookup k [] m = refl
load_coins-lookup k (tx ∷ txs) m =
    load_coins-lookup k txs (add_coins tx.operations m)
    ∙ (ap (λ o. later o (block_made k txs)) (add_coins-lookup k tx.operations m)
        ∙ later_assoc (lookup k m) (made k tx.operations) (block_made k txs))

drop_coin-other :
    (k : Text) (op : Operation) (m : Map AccountCoin)
    → coin_at k (created_coin op) ≡ none
    → lookup k (drop_coin op m) ≡ lookup k m
unfolding drop_coin
drop_coin-other k op m = go (created_coin op)
  where
    go :
        (o : Option (Text × AccountCoin))
        → coin_at k o ≡ none
        → lookup k (elim o [ none ↦ m | some (j, coin) ↦ delete j m ]) ≡ lookup k m
    go none h = refl
    go (some (j, coin)) h = ground (arith, lookup-delete j k m)

drop_coins-other :
    (k : Text) (ops : List Operation) (m : Map AccountCoin)
    → made k ops ≡ none
    → lookup k (drop_coins ops m) ≡ lookup k m
unfolding drop_coins
drop_coins-other k [] m h = refl
drop_coins-other k (op ∷ ops) m h =
    let (first, rest) = later-none (coin_at k (created_coin op)) (made k ops) h in
    drop_coins-other k ops (drop_coin op m) rest ∙ drop_coin-other k op m first

-- Cleaning after a block leaves the coins that it does not create.
pub clean_coins-other :
    (k : Text) (txs : List Sdk.Transaction) (m : Map AccountCoin)
    → block_made k txs ≡ none
    → lookup k (clean_coins txs m) ≡ lookup k m
unfolding clean_coins
clean_coins-other k [] m h = refl
clean_coins-other k (tx ∷ txs) m h =
    let (first, rest) = later-none (made k tx.operations) (block_made k txs) h in
    clean_coins-other k txs (drop_coins tx.operations m) rest
    ∙ drop_coins-other k tx.operations m first
