-- ===== src/Examples/Served.antt =====
-- An example of a parsed and stored block that the endpoints answer with.
use rosetta_thought.Prelude.{◌≡◌, refl, ◌⊎◌, ◌<◌, ◌≤◌, none, [], All, length, if◌then◌else◌}
use rosetta_thought.Outcome.{ok}
use rosetta_thought.Text.{Text, codes, text_eq}
use rosetta_thought.Sdk.{Metadata}
use rosetta_thought.Indexer.Queries.{Reads}
use rosetta_thought.Services.Data.{block, block_transaction}
use rosetta_thought.Services.Wiring.{indexer_of}
use rosetta_thought.Services.Wiring.Block.{lazy_form, IsStored, block_served}
use rosetta_thought.Examples.Ledger.{both, coinbase_op, parsed_tx}
use rosetta_thought.Examples.Blocks.{created, second_ops}
use rosetta_thought.Examples.Mined.{reads}
use rosetta_thought.Examples.Wallet.{config}

-- A storage that has the block of two transactions.
abbrev holding : Reads Text
holding = record reads {
  get_block_lazy = λ identifier. ok (lazy_form both);
  get_block_transaction = λ at transaction.
      if text_eq transaction.hash (codes "a")
      then ok (parsed_tx (codes "a") coinbase_op (created 1 0 (codes "a:0") (codes "50")))
      else ok (record {
        transaction_identifier = transaction;
        operations = second_ops;
        metadata = Metadata.empty;
      });
}

both-IsStored : IsStored config holding none both
unfolding text_eq
both-IsStored = record { lazy = refl; each = (refl, (refl, tt)) }

block_served_example :
    ((length both.transactions ≤ 100)
      × (block config (indexer_of holding) none
          ≡ ok (record { block = both; other_transactions = [] })))
    ⊎ ((100 < length both.transactions)
        × (block config (indexer_of holding) none ≡ ok (lazy_form both))
        × All
            (λ tx.
              block_transaction config
                (indexer_of holding)
                both.block_identifier
                tx.transaction_identifier
              ≡ ok tx)
            both.transactions)
block_served_example = block_served config holding none both refl both-IsStored
