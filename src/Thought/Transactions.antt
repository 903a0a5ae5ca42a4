-- ===== src/Thought/Transactions.antt =====
-- `parseTransactions` and `ParseBlock` of thought/client.go: the transactions of a block in order,
-- each adding the coins that it creates to the map that the later ones read.
pub mod Creates
pub mod Complete
pub mod Total
pub mod Spends
use rosetta_thought.Prelude.{
  ℕ, suc, ◌≡◌, Bool, false, Option, none, some, List, [], ◌∷◌, if◌then◌else◌, map,
}
use rosetta_thought.Prelude.Int.{ℤ}
use rosetta_thought.Outcome.{Outcome, ok, err, panic, ◌>>=◌, or_err}
use rosetta_thought.Map.{Map}
use rosetta_thought.Thought.Created.{add_coins}
use rosetta_thought.Text.{Text}
use rosetta_thought.Sdk
use rosetta_thought.Sdk.{
  Failure, plain, foreign, AccountCoin, Operation, CoinChange, CoinAction, coin_created, coin_spent,
}
use rosetta_thought.Thought.Types.{
  Block, Transaction, Client, Library, transaction_metadata, skipped_status,
}
use rosetta_thought.Thought.Operations.{parse_tx_operations}
use rosetta_thought.Thought.BlockData.{parse_block_data}

unfoldable pub skip_transaction_operations : ℤ → Text → Text → Bool
skip_transaction_operations block_number block_hash transaction_hash = false

abbrev skip_op : Operation → Operation
skip_op op = record op { status = some skipped_status }

module _ (lib : Library) (client : Client) where
  -- The body of the loop over the transactions, up to the coins.
  unfoldable pub parse_transaction :
      Block → ℕ → Map AccountCoin → Transaction → Outcome Failure Sdk.Transaction
  unfolding skip_transaction_operations
  parse_transaction block index coins transaction = do
    tx_ops ← parse_tx_operations lib client transaction index coins
    let skip = skip_transaction_operations block.height block.hash transaction.hash
    metadata ← or_err (foreign 2) (lib.marshal_transaction (transaction_metadata transaction))
    ok (record {
      transaction_identifier = record { hash = transaction.hash };
      operations = if skip then map skip_op tx_ops else tx_ops;
      metadata = metadata;
    })

  -- The loop from the transaction at `index`, with the coins known so far.
  unfoldable pub parse_transactions :
      Block → ℕ → Map AccountCoin → List Transaction → Outcome Failure (List Sdk.Transaction)
  parse_transactions block index coins [] = ok []
  parse_transactions block index coins (transaction ∷ transactions) = do
    tx ← parse_transaction block index coins transaction
    txs ← parse_transactions block (suc index) (add_coins tx.operations coins) transactions
    ok (tx ∷ txs)

  unfoldable pub parse_block : Option Block → Map AccountCoin → Outcome Failure Sdk.Block
  parse_block none coins = err plain
  parse_block (some block) coins = do
    rblock ← parse_block_data lib (some block)
    txs ← parse_transactions block 0 coins block.txs
    ok (record rblock { transactions = txs })
