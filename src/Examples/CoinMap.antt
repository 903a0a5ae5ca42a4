-- ===== src/Examples/CoinMap.antt =====
-- A coin storage that is a map, as `CoinStorage` of Indexer/Schedule asks for.
use rosetta_thought.Prelude.{
  ◌≡◌, refl, ◌∙◌, ap, Option, none, some, List, [], ◌∷◌, arith, if◌then◌else◌, false,
}
use rosetta_thought.Map.{Map, lookup, delete, lookup-delete}
use rosetta_thought.Outcome.{Outcome, ok, err}
use rosetta_thought.Text.{Text, text_eq}
use rosetta_thought.Sdk
use rosetta_thought.Sdk.{
  AccountCoin, AccountIdentifier, BlockIdentifier, Coin, CoinChange, Failure, Operation,
  coin_not_found, missing_transaction, coin_created, coin_spent, context_done, Metadata,
}
use rosetta_thought.Indexer.Events.{load_coins, clean_coins}
use rosetta_thought.Indexer.Schedule.{
  CoinStorage, block_made, block_spends, spends, change_spends, as_stored, later,
}
use rosetta_thought.Indexer.Schedule.Created.{load_coins-lookup, clean_coins-other}

-- The coins that operations spend are taken out of the map.
abbrev pub without_change : Option CoinChange → Map AccountCoin → Map AccountCoin
without_change none m = m
without_change (some change) m = elim change.coin_action [
  | coin_created ↦ m
  | coin_spent ↦ delete change.coin_identifier.identifier m
]

abbrev pub without : List Operation → Map AccountCoin → Map AccountCoin
without [] m = m
without (op ∷ ops) m = without ops (without_change op.coin_change m)

abbrev pub without_all : List Sdk.Transaction → Map AccountCoin → Map AccountCoin
without_all [] m = m
without_all (tx ∷ txs) m = without_all txs (without tx.operations m)

without_change-lookup :
    (k : Text) (c : Option CoinChange) (m : Map AccountCoin)
    → lookup k (without_change c m) ≡ (if change_spends k c then none else lookup k m)
without_change-lookup k none m = refl
without_change-lookup k (some change) m = go change.coin_action
  where
    go :
        (a : Sdk.CoinAction)
        → lookup k
            (elim a [ coin_created ↦ m | coin_spent ↦ delete change.coin_identifier.identifier m ])
          ≡ (if elim a [
            | coin_created ↦ false
            | coin_spent ↦ text_eq change.coin_identifier.identifier k
          ]
              then none
              else lookup k m)
    go coin_created = refl
    go coin_spent = lookup-delete change.coin_identifier.identifier k m

without-lookup :
    (k : Text) (ops : List Operation) (m : Map AccountCoin)
    → lookup k (without ops m) ≡ (if spends k ops then none else lookup k m)
without-lookup k [] m = refl
without-lookup k (op ∷ ops) m = ground (
  arith,
  without-lookup k ops (without_change op.coin_change m),
  without_change-lookup k op.coin_change m,
)

without_all-lookup :
    (k : Text) (txs : List Sdk.Transaction) (m : Map AccountCoin)
    → lookup k (without_all txs m) ≡ (if block_spends k txs then none else lookup k m)
without_all-lookup k [] m = refl
without_all-lookup k (tx ∷ txs) m =
    ground
      (arith, without_all-lookup k txs (without tx.operations m), without-lookup k tx.operations m)

abbrev pub found : Option AccountCoin → Outcome Failure (Coin × Option AccountIdentifier)
found none = err coin_not_found
found (some v) = ok (as_stored v)

abbrev pub add_to : Sdk.Block → Map AccountCoin → Map AccountCoin
add_to block m = without_all block.transactions (load_coins block.transactions m)

add_to-lookup :
    (k : Text) (block : Sdk.Block) (m : Map AccountCoin)
    → block_spends k block.transactions ≡ false
    → lookup k (add_to block m) ≡ later (lookup k m) (block_made k block.transactions)
add_to-lookup k block m unspent =
    without_all-lookup k block.transactions (load_coins block.transactions m)
    ∙ rw unspent (load_coins-lookup k block.transactions m)

pub add_to-keeps :
    (k : Text) (block : Sdk.Block) (m : Map AccountCoin)
    → block_spends k block.transactions ≡ false
    → block_made k block.transactions ≡ none
    → found (lookup k (add_to block m)) ≡ found (lookup k m)
add_to-keeps k block m unspent not_made =
    ap found (add_to-lookup k block m unspent ∙ ap (later (lookup k m)) not_made)

pub add_to-stores :
    (k : Text) (v : AccountCoin) (block : Sdk.Block) (m : Map AccountCoin)
    → block_spends k block.transactions ≡ false
    → block_made k block.transactions ≡ some v
    → found (lookup k (add_to block m)) ≡ ok (as_stored v)
add_to-stores k v block m unspent is_made =
    ap found (add_to-lookup k block m unspent ∙ ap (later (lookup k m)) is_made)

pub removed-keeps :
    (k : Text) (block : Sdk.Block) (m : Map AccountCoin)
    → block_made k block.transactions ≡ none
    → found (lookup k (clean_coins block.transactions m)) ≡ found (lookup k m)
removed-keeps k block m not_made = ap found (clean_coins-other k block.transactions m not_made)

abbrev pub map_storage : CoinStorage
map_storage = record {
  Coins = Map AccountCoin;
  get_coin = λ k m. found (lookup k m);
  add_block = add_to;
  add_block-keeps = λ k block m unspent not_made. add_to-keeps k block m unspent not_made;
  remove_block = λ block m. clean_coins block.transactions m;
  remove_block-keeps = λ k block m unspent not_made. removed-keeps k block m not_made;
  add_block-stores = λ k v block m unspent is_made. add_to-stores k v block m unspent is_made;
}
