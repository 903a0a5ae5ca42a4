-- ===== src/Thought/Created.antt =====
-- The coins that operations create, as a map from coin identifiers: the inner loop that
-- `parseTransactions` (thought/client.go) and `BlockSeen` (indexer/indexer.go) share.
use rosetta_thought.Prelude.{◌≢◌, Option, none, some, List, [], ◌∷◌, arith}
use rosetta_thought.Map.{Map, lookup, insert, lookup-insert}
use rosetta_thought.Text.{Text, text_eq_iff}
use rosetta_thought.Sdk.{AccountCoin, Operation, CoinChange, coin_created, coin_spent}

-- `CoinChange == nil` and `CoinAction != types.CoinCreated` pass an operation over.
abbrev change_coin : Operation → Option CoinChange → Option (Text × AccountCoin)
change_coin op none = none
change_coin op (some change) = elim change.coin_action [
  | coin_spent ↦ none
  | coin_created ↦ some (
    change.coin_identifier.identifier,
    record {
      account = op.account;
      coin = record { coin_identifier = change.coin_identifier; amount = op.amount };
    },
  )
]

unfoldable pub created_coin : Operation → Option (Text × AccountCoin)
created_coin op = change_coin op op.coin_change

unfoldable pub add_coin : Operation → Map AccountCoin → Map AccountCoin
add_coin op coins = elim (created_coin op) [ none ↦ coins | some (k, coin) ↦ insert k coin coins ]

unfoldable pub add_coins : List Operation → Map AccountCoin → Map AccountCoin
add_coins [] coins = coins
add_coins (op ∷ ops) coins = add_coins ops (add_coin op coins)

-- What is in the map stays in it.
pub add_coin_keeps :
    (op : Operation) (coins : Map AccountCoin) (k : Text)
    → lookup k coins ≢ none
    → lookup k (add_coin op coins) ≢ none
unfolding add_coin
add_coin_keeps op coins k h = go (created_coin op)
  where
    go :
        (c : Option (Text × AccountCoin))
        → lookup k (elim c [ none ↦ coins | some (j, coin) ↦ insert j coin coins ]) ≢ none
    go none = h
    go (some (j, coin)) = ground (arith, lookup-insert j k coin coins, text_eq_iff j k)

pub add_coins_keeps :
    (ops : List Operation) (coins : Map AccountCoin) (k : Text)
    → lookup k coins ≢ none
    → lookup k (add_coins ops coins) ≢ none
unfolding add_coins
add_coins_keeps [] coins k h = h
add_coins_keeps (op ∷ ops) coins k h =
    add_coins_keeps ops (add_coin op coins) k (add_coin_keeps op coins k h)
