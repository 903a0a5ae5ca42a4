-- ===== src/Indexer/Queries.antt =====
-- `GetScriptPubKeys`, `GetBalance` and the queries that a storage answers, of indexer/indexer.go.
pub mod Scripts
pub mod Passing
pub mod Parsed
pub mod Balance
use rosetta_thought.Prelude.{
  ℕ, ◌≡◌, Option, none, some, List, [], ◌∷◌, true, false, Bool, if◌then◌else◌,
}
use rosetta_thought.Prelude.Int.{ℤ, pos, eqb_ℤ}
use rosetta_thought.Outcome.{Outcome, ok, err, panic, ◌>>=◌, deref, or_err, traverse}
use rosetta_thought.Text.{Text, codes, text_eq}
use rosetta_thought.Sdk
use rosetta_thought.Sdk.{
  Failure, plain, foreign, account_missing, Operation, Coin, Amount, Currency, Metadata,
  AccountIdentifier, BlockIdentifier, PartialBlockIdentifier, BlockResponse, TransactionIdentifier,
}
use rosetta_thought.Thought.Types.{ScriptPubKey, OperationMetadata, output_op_type}
use rosetta_thought.Thought.Coin.{parse_coin_identifier}

-- What a query reads within one read transaction of the database, and the functions of
-- rosetta-sdk-go and of chaincfg/chainhash that it calls.
pub record Reads (Hash : Type 0) : Type 0 where
  pub new_hash_from_str : Text → Option Hash
  pub hash_string : Hash → Text
  pub find_transaction : Text → Outcome Failure (Option Sdk.Transaction)
  pub unmarshal_operation : Metadata → Option OperationMetadata
  pub hash_currency : Currency → Text
  pub add_values : Text → Text → Option Text
  pub get_block_lazy : Option PartialBlockIdentifier → Outcome Failure BlockResponse
  pub get_balance : AccountIdentifier → Currency → ℤ → Outcome Failure Amount
  pub get_block_transaction :
      BlockIdentifier → TransactionIdentifier → Outcome Failure Sdk.Transaction
  pub get_coins : AccountIdentifier → Outcome Failure (List Coin × BlockIdentifier)

abbrev pub zero_value : Text
zero_value = codes "0"

-- `FindTransaction` may return neither a transaction nor an error.
abbrev pub found : Option Sdk.Transaction → Outcome Failure Sdk.Transaction
found none = err plain
found (some transaction) = ok transaction

-- `errors.Is(err, ErrAccountMissing)`.
abbrev pub balance_or_zero : Currency → Outcome Failure Amount → Outcome Failure Amount
balance_or_zero currency (err account_missing) =
    ok (record { value = zero_value; currency = currency })
balance_or_zero currency answer = answer

module _ {Hash : Type 0} (reads : Reads Hash) where
  -- The checks on the operation that created the coin; its script may be nil.
  unfoldable pub checked_script : Coin → Operation → Outcome Failure (Option ScriptPubKey)
  checked_script coin op = do
    metadata ← or_err (foreign 9) (reads.unmarshal_operation op.metadata)
    op_amount ← deref op.amount
    coin_amount ← deref coin.amount
    if text_eq (reads.hash_currency op_amount.currency) (reads.hash_currency coin_amount.currency)
        then (do
          addition ← or_err (foreign 9) (reads.add_values op_amount.value coin_amount.value)
          if text_eq addition zero_value then ok metadata.script_pub_key else err plain)
        else err plain

  -- The loop over the operations: it ends at the first output with the index.
  unfoldable pub script_of : Coin → ℕ → List Operation → Outcome Failure (Option ScriptPubKey)
  unfolding checked_script
  script_of coin index [] = ok none
  script_of coin index (op ∷ ops) =
      let rest = script_of coin index ops in
      if text_eq op.type output_op_type
      then (do
        network_index ← deref op.operation_identifier.network_index
        if eqb_ℤ network_index (pos index) then checked_script coin op else rest)
      else rest

  unfoldable pub script_of_coin : Coin → Outcome Failure ScriptPubKey
  script_of_coin coin = do
    (hash, index) ← parse_coin_identifier reads.new_hash_from_str coin.coin_identifier.identifier
    result ← reads.find_transaction (reads.hash_string hash)
    transaction ← found result
    script ← script_of coin index transaction.operations
    or_err plain script

  unfoldable pub get_script_pub_keys : List Coin → Outcome Failure (List ScriptPubKey)
  unfolding traverse
  get_script_pub_keys coins = traverse script_of_coin coins

  -- Three queries hand on what a storage answers.
  unfoldable pub get_block_lazy : Option PartialBlockIdentifier → Outcome Failure BlockResponse
  get_block_lazy identifier = reads.get_block_lazy identifier

  unfoldable pub get_block_transaction :
      BlockIdentifier → TransactionIdentifier → Outcome Failure Sdk.Transaction
  get_block_transaction block transaction = reads.get_block_transaction block transaction

  unfoldable pub get_coins : AccountIdentifier → Outcome Failure (List Coin × BlockIdentifier)
  get_coins account = reads.get_coins account

  unfoldable pub get_balance :
      AccountIdentifier
      → Currency
      → Option PartialBlockIdentifier
      → Outcome Failure (Amount × BlockIdentifier)
  get_balance account currency identifier = do
    response ← reads.get_block_lazy identifier
    let block = response.block.block_identifier
    amount ← balance_or_zero currency (reads.get_balance account currency block.index)
    ok (amount, block)
