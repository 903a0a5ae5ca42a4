-- ===== src/Indexer/Fetch.antt =====
-- `Block` of indexer/indexer.go: a raw block is fetched, its coins are found, and it is parsed.
pub mod Retry
pub mod Whole
pub mod Returned
use rosetta_thought.Prelude.{
  ℕ, suc, true, false, Option, none, some, List, [], ◌∷◌, ltb, if◌then◌else◌,
}
use rosetta_thought.Map.{Map}
use rosetta_thought.Outcome.{Outcome, ok, err, panic, ◌>>=◌}
use rosetta_thought.Text.{Text}
use rosetta_thought.Sdk
use rosetta_thought.Sdk.{Failure, AccountCoin}
use rosetta_thought.Thought.Types.{Block, Client, Library}
use rosetta_thought.Thought.Transactions.{parse_block}
use rosetta_thought.Indexer.WaitTable.{State}
use rosetta_thought.Indexer.Find.{Environment, find_coins}

abbrev pub retry_limit : ℕ
retry_limit = 5

-- One pass of the loop: what `GetRawBlock` returned, and what `ContextSleep` did after an error.
pub record Attempt : Type 0 where
  pub raw : Outcome Failure (Block × List Text)
  pub sleep : Option Failure

-- The passes end where the context is done: the loop is left with a nil block and no error.
unfoldable pub fetch_raw : ℕ → List Attempt → Outcome Failure (Option Block × List Text)
fetch_raw retries [] = ok (none, [])
fetch_raw retries (attempt ∷ attempts) = elim attempt.raw [
  | ok (block, coins) ↦ ok (some block, coins)
  | panic ↦ panic
  | err e ↦ elim (ltb retry_limit (suc retries)) [
    | true ↦ err e
    | false ↦ elim attempt.sleep [ some f ↦ err f | none ↦ fetch_raw (suc retries) attempts ]
  ]
]

-- `assert_block` is `asserter.Block` of rosetta-sdk-go.
module _ (lib : Library) (client : Client) (assert_block : Sdk.Block → Option Failure) where
  unfoldable pub checked : Sdk.Block → Outcome Failure Sdk.Block
  checked block = elim (assert_block block) [ none ↦ ok block | some e ↦ err e ]

  unfoldable pub parse_found :
      Option Block → Outcome Failure (Map AccountCoin) → Outcome Failure Sdk.Block
  unfolding checked
  parse_found raw found = do
    coin_map ← found
    block ← parse_block lib client raw coin_map
    checked block

  unfoldable pub block :
      List Attempt → List Environment → Environment → State → Outcome Failure Sdk.Block × State
  unfolding parse_found
  block attempts later env s = elim (fetch_raw 0 attempts) [
    | err e ↦ (err e, s)
    | panic ↦ (panic, s)
    | ok (raw, coins) ↦
        let found = find_coins later env raw coins s in (parse_found raw found.0, found.1)
  ]
