-- ===== src/Indexer/Fetch/Whole.antt =====
-- From the raw block to the parsed one: `GetRawBlock`, `findCoins`, `ParseBlock` and `Block`.
use rosetta_thought.Prelude.{◌≡◌, refl, some, List, [], All, map, Option}
use rosetta_thought.Map.{Map}
use rosetta_thought.Outcome.{ok}
use rosetta_thought.Text.{Text}
use rosetta_thought.Sdk
use rosetta_thought.Sdk.{Failure, AccountCoin, previous_tx_missing}
use rosetta_thought.Thought.Types.{Block, Client, Library}
use rosetta_thought.Thought.RawBlock.{get_raw_block}
use rosetta_thought.Thought.Transactions.Complete.{Settled}
use rosetta_thought.Thought.Transactions.Total.{Works, Payable, AllSpendable, parse_block_total}
use rosetta_thought.Indexer.Fetch.{Attempt, fetch_raw, block, checked, parse_found}
use rosetta_thought.Indexer.WaitTable.{State}
use rosetta_thought.Indexer.Find.{Environment, find_coins}
use rosetta_thought.Indexer.Find.Complete.{find_coins-Known}

module _ (lib : Library) (client : Client) (assert_block : Sdk.Block → Option Failure)
    (works : Works lib) where
  -- With a library that makes the metadata of every block, transaction and operation and negates the
  -- decimal of every integer, `block` comes to the check of a parsed block that has the transactions of the raw block in order,
  -- if an attempt gets the raw block with the coins that `get_raw_block` names, `find_coins` returns
  -- a map of coins whose amounts can be negated, every output has a script and an amount that is not
  -- negative, and what the block spends of its own transactions are coins that earlier ones create.
  pub block_total :
      (raw : Block) (names : List Text) (attempts : List Attempt) (later : List Environment)
      (env : Environment) (s : State) (coins : Map AccountCoin)
      → fetch_raw 0 attempts ≡ ok (some raw, names)
      → get_raw_block (ok (some raw)) ≡ ok (raw, names)
      → (find_coins later env (some raw) names s).0 ≡ ok coins
      → AllSpendable lib coins
      → All (λ tx. All (Payable lib) tx.outputs) raw.txs
      → Settled 0 [] [] raw.txs
      → (parsed : Sdk.Block) × ((block lib client assert_block attempts later env s).0
          ≡ checked lib client assert_block parsed)
        × (map (λ tx. tx.transaction_identifier.hash) parsed.transactions
            ≡ map (λ tx. tx.hash) raw.txs)
  unfolding block parse_found
  block_total raw names attempts later env s coins fetched got found fine payable settled =
      let (parsed, made, same) =
        parse_block_total lib client works raw raw names coins got
          (find_coins-Known later env (some raw) names s coins found) fine payable settled in
      (parsed, rw (fetched, block) (rw found (rw made refl)), same)
