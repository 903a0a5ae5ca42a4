-- ===== src/Thought/Ledger.antt =====
-- Two views of what accounts hold, over the operations that thought/client.go makes: the sum of the
-- amounts of the operations of an account, and the sum of the amounts of its unspent coins.
pub mod Worth
pub mod Within
pub mod Agrees
pub mod Reconciles
use rosetta_thought.Prelude.{
  ◌≡◌, ◌≢◌, Bool, false, Option, none, some, List, [], ◌∷◌, if◌then◌else◌,
}
use rosetta_thought.Prelude.Int.{ℤ, pos, ◌+ℤ◌}
use rosetta_thought.Map.{Map, lookup, insert, delete}
use rosetta_thought.Text.{Text, text_eq}
use rosetta_thought.Sdk
use rosetta_thought.Sdk.{
  AccountCoin, AccountIdentifier, Amount, CoinChange, Operation, coin_created, coin_spent,
}
use rosetta_thought.Thought.Created.{add_coin, add_coins}

-- `value` reads the decimal of an amount.
module _ (value : Text → ℤ) (account : Text) where
  abbrev pub amount_of : Option Amount → ℤ
  amount_of none = pos 0
  amount_of (some amount) = value amount.value

  abbrev pub is_owner : Option AccountIdentifier → Bool
  is_owner none = false
  is_owner (some owner) = text_eq owner.address account

  abbrev pub share : Option AccountIdentifier → Option Amount → ℤ
  share owner amount = if is_owner owner then amount_of amount else pos 0

  -- By how much operations change the balance of the account.
  abbrev pub balance_change : List Operation → ℤ
  balance_change [] = pos 0
  balance_change (op ∷ ops) = share op.account op.amount +ℤ balance_change ops

  abbrev pub block_change : List Sdk.Transaction → ℤ
  block_change [] = pos 0
  block_change (tx ∷ txs) = balance_change tx.operations +ℤ block_change txs

  -- What the coins of the account are worth.
  abbrev pub worth : Map AccountCoin → ℤ
  worth [] = pos 0
  worth ((k, coin) ∷ coins) = share coin.account coin.coin.amount +ℤ worth coins

-- The unspent coins after an operation: those that it creates come in, those that it spends go out.
abbrev pub change_unspent : Operation → Option CoinChange → Map AccountCoin → Map AccountCoin
change_unspent op none unspent = unspent
change_unspent op (some change) unspent = elim change.coin_action [
  | coin_created ↦
      insert change.coin_identifier.identifier
        (record {
          account = op.account;
          coin = record { coin_identifier = change.coin_identifier; amount = op.amount };
        })
        unspent
  | coin_spent ↦ delete change.coin_identifier.identifier unspent
]

abbrev pub unspent_after : List Operation → Map AccountCoin → Map AccountCoin
unspent_after [] unspent = unspent
unspent_after (op ∷ ops) unspent = unspent_after ops (change_unspent op op.coin_change unspent)

abbrev pub block_unspent : List Sdk.Transaction → Map AccountCoin → Map AccountCoin
block_unspent [] unspent = unspent
block_unspent (tx ∷ txs) unspent = block_unspent txs (unspent_after tx.operations unspent)

-- What the chain sees to: a coin that is created is new, a coin that is spent is unspent, and an
-- output without a coin has nothing in it. `known` has every coin so far, spent or not.
module _ (value : Text → ℤ) where
  abbrev pub IsSound : Map AccountCoin → Map AccountCoin → Operation → Option CoinChange → Type 0
  IsSound known unspent op none = (account : Text) → amount_of value account op.amount ≡ pos 0
  IsSound known unspent op (some change) = elim change.coin_action [
    | coin_created ↦ lookup change.coin_identifier.identifier known ≡ none
    | coin_spent ↦ lookup change.coin_identifier.identifier unspent ≢ none
  ]

  abbrev pub AreSound : Map AccountCoin → Map AccountCoin → List Operation → Type 0
  AreSound known unspent [] = Unit
  AreSound known unspent (op ∷ ops) =
      IsSound known unspent op op.coin_change
      × AreSound (add_coin op known) (change_unspent op op.coin_change unspent) ops

  abbrev pub AreSoundAll : Map AccountCoin → Map AccountCoin → List Sdk.Transaction → Type 0
  AreSoundAll known unspent [] = Unit
  AreSoundAll known unspent (tx ∷ txs) =
      AreSound known unspent tx.operations
      × AreSoundAll (add_coins tx.operations known) (unspent_after tx.operations unspent) txs
