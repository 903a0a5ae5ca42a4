-- ===== src/Indexer/Fetch/Retry.antt =====
-- The retries of `Block`, and what it does once its context is done.
use rosetta_thought.Prelude.{
  ℕ, suc, ◌+◌, ◌≤◌, ◌≡◌, refl, Option, none, some, List, [], ◌∷◌, ◌++◌, arith, ap, append-nil, ◌∙◌,
  length, All,
}
use native.Mathlib.Nat.{add-zero}
use rosetta_thought.Outcome.{ok, err, panic}
use rosetta_thought.Text.{Text}
use rosetta_thought.Sdk
use rosetta_thought.Sdk.{Failure, BlockIdentifier}
use rosetta_thought.Thought.Types.{Block, Client, Library}
use rosetta_thought.Indexer.WaitTable.{State}
use rosetta_thought.Indexer.Find.{Environment, find_coins, check_header_match}
use rosetta_thought.Indexer.Fetch.{Attempt, fetch_raw, block}

-- An attempt that fails, with a sleep after it that is not cut short.
abbrev pub Fails : Attempt → Type 0
Fails attempt = ((e : Failure) × (attempt.raw ≡ err e)) × (attempt.sleep ≡ none)

fetch_raw-step :
    (retries : ℕ) (a : Attempt) (rest : List Attempt)
    → suc retries ≤ 5
    → Fails a
    → fetch_raw retries (a ∷ rest) ≡ fetch_raw (suc retries) rest
unfolding fetch_raw
fetch_raw-step retries a rest room h = ground arith

-- Failing attempts within the limit only count.
fetch_raw-append :
    (retries : ℕ) (failing rest : List Attempt)
    → retries + length failing ≤ 5
    → All Fails failing
    → fetch_raw retries (failing ++ rest) ≡ fetch_raw (retries + length failing) rest
fetch_raw-append retries [] rest room h = rw add-zero
fetch_raw-append retries (a ∷ failing) rest room h =
    fetch_raw-step retries a (failing ++ rest) (omega arith) h.0
    ∙ fetch_raw-append (suc retries) failing rest (omega arith) h.1
    ∙ ap (λ n. fetch_raw n rest) (omega arith)

sixth_fails :
    (last : Attempt) (rest : List Attempt) (e : Failure)
    → last.raw ≡ err e
    → fetch_raw 5 (last ∷ rest) ≡ err e
unfolding fetch_raw
sixth_fails last rest e l = rw l

-- After five attempts that fail, with sleeps that are not cut short, a sixth that fails is the last:
-- its error is the result, whatever a further attempt would have met.
fetch_raw_gives_up :
    (failing rest : List Attempt) (last : Attempt) (e : Failure)
    → length failing ≡ 5
    → All Fails failing
    → last.raw ≡ err e
    → fetch_raw 0 (failing ++ last ∷ rest) ≡ err e
fetch_raw_gives_up failing rest last e n h l =
    fetch_raw-append 0 failing (last ∷ rest) (omega arith) h
    ∙ ap (λ k. fetch_raw (0 + k) (last ∷ rest)) n
    ∙ sixth_fails last rest e l

-- An attempt among the first six that succeeds, after ones that fail and sleeps that are not cut
-- short, gives the result.
fetch_raw_recovers :
    (failing rest : List Attempt) (last : Attempt) (b : Block) (coins : List Text)
    → length failing ≤ 5
    → All Fails failing
    → last.raw ≡ ok (b, coins)
    → fetch_raw 0 (failing ++ last ∷ rest) ≡ ok (some b, coins)
unfolding fetch_raw
fetch_raw_recovers failing rest last b coins n h l =
    fetch_raw-append 0 failing (last ∷ rest) (omega arith) h ∙ (rw l)

find_coins_panics :
    (later : List Environment) (env : Environment) (s : State) (head : BlockIdentifier)
    → env.head_block ≡ ok head
    → (find_coins later env none [] s).0 ≡ panic
unfolding find_coins check_header_match
find_coins_panics [] env s head known = rw known
find_coins_panics (next ∷ later) env s head known = rw known

module _ (lib : Library) (client : Client) (assert_block : Sdk.Block → Option Failure) where
  -- If the context turns out done before one of the first six attempts, none before it having got a
  -- block, and blocks are already stored, `block` panics: it reads the height of a nil block.
  pub block_panics_when_cancelled :
      (failing : List Attempt) (later : List Environment) (env : Environment) (s : State)
      (head : BlockIdentifier)
      → length failing ≤ 5
      → All Fails failing
      → env.head_block ≡ ok head
      → (block lib client assert_block failing later env s).0 ≡ panic
  unfolding block
  block_panics_when_cancelled failing later env s head n h known =
      let none_left : fetch_raw 0 failing ≡ ok (none, []) =
        rw (← append-nil failing)
          (fetch_raw-append 0 failing [] (omega arith) h ∙ unfold fetch_raw in refl) in
      rw (none_left, block) (rw (find_coins_panics later env s head known))
