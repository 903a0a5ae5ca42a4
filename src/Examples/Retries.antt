-- ===== src/Examples/Retries.antt =====
-- Examples of the retries of `Block`.
use rosetta_thought.Prelude.{◌≡◌, refl, none, List, [], ◌∷◌, arith, All, Bool}
use rosetta_thought.Outcome.{ok, err, panic}
use rosetta_thought.Sdk.{foreign}
use rosetta_thought.Indexer.WaitTable.{init}
use rosetta_thought.Indexer.Find.{Environment}
use rosetta_thought.Indexer.Fetch.{Attempt, block}
use rosetta_thought.Indexer.Fetch.Retry.{Fails, block_panics_when_cancelled}
use rosetta_thought.Examples.{lib, client, genesis}

abbrev failing : Attempt
failing = record { raw = err (foreign 9); sleep = none }

abbrev five : List Attempt
five = failing ∷ failing ∷ failing ∷ failing ∷ failing ∷ []

five-Fails : All Fails five
five-Fails =
    let one : Fails failing = ((foreign 9, refl), refl) in (one, (one, (one, (one, (one, tt)))))

abbrev at_genesis : Environment
at_genesis = record {
  same_head = λ a b. Bool.true;
  head_block = ok genesis;
  passes = λ coin. [];
  wake = λ hash. none;
}

block_panics_when_cancelled_example :
    (block lib client (λ b. none) five [] at_genesis init).0 ≡ panic
block_panics_when_cancelled_example =
    block_panics_when_cancelled lib client (λ b. none) five [] at_genesis init genesis (omega arith)
      five-Fails refl
