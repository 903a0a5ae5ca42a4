-- ===== src/Indexer/Schedule/Counting.antt =====
-- How `i.seen` of indexer/indexer.go grows with the blocks that are counted.
use rosetta_thought.Prelude.{
  ℕ, suc, ◌+◌, ◌^◌, ◌<◌, ◌≤◌, ◌≡◌, refl, ◌⊎◌, inl, inr, ◌∙◌, Option, none, some, List, [], ◌∷◌,
  ◌++◌, arith, length,
}
use rosetta_thought.Prelude.Int.{pos, ◌+ℤ◌, int64_of_IsInt64}
use rosetta_thought.Sdk
use rosetta_thought.Sdk.{AccountCoin, BlockIdentifier, missing_transaction}
use rosetta_thought.Indexer.Events.{seen_load, seen_count, added_clean}
use rosetta_thought.Indexer.Schedule.{
  CoinStorage, World, Event, load, count, store, clean, remove, table, store_on_head, clean_pending,
  remove_head, happen, run,
}

module _ (storage : CoinStorage) where
  happen-seen :
      (e : Event) (w : World storage)
      → ((happen storage e w).shared.seen ≡ w.shared.seen) ⊎ (e ≡ count)
  unfolding happen seen_load added_clean
  happen-seen (load block) w = inl refl
  happen-seen count w = inr refl
  happen-seen (store block) w = inl (go w.adding)
    where
      go :
          (adding : Option Sdk.Block)
          → (store_on_head storage block adding w).shared.seen ≡ w.shared.seen
      go (some before) = refl
      go none = ground arith
  happen-seen clean w = inl (go w.adding)
    where
      go :
          (adding : Option Sdk.Block) → (clean_pending storage adding w).shared.seen ≡ w.shared.seen
      go none = refl
      go (some block) = refl
  happen-seen (remove block) w = inl (go w.adding)
    where
      go :
          (adding : Option Sdk.Block)
          → (remove_head storage block adding w).shared.seen ≡ w.shared.seen
      go (some before) = refl
      go none = ground arith
  happen-seen (table t) w = inl refl

  count-seen :
      (n : ℕ) (w : World storage)
      → w.shared.seen ≡ pos n
      → suc n < 2 ^ 63
      → (happen storage count w).shared.seen ≡ pos (suc n)
  unfolding happen seen_count ◌+ℤ◌
  count-seen n w e small =
      rw e (int64_of_IsInt64 (pos n +ℤ pos 1) (ground arith, ground arith) ∙ ground arith)

  -- The number of blocks seen does not go down.
  pub run-seen :
      (events : List Event) (n : ℕ) (w : World storage)
      → w.shared.seen ≡ pos n
      → n + length events < 2 ^ 63
      → (m : ℕ) × ((run storage events w).shared.seen ≡ pos m) × (n ≤ m) × (m ≤ n + length events)
  unfolding run
  run-seen [] n w e small = (n, e, omega arith, omega arith)
  run-seen (x ∷ events) n w e small = elim (happen-seen x w) [
    | inl same ↦
        let (m, is, low, high) = run-seen events n (happen storage x w) (same ∙ e) (omega arith) in
        (m, is, low, omega arith)
    | inr is_count ↦
        let (m, is, low, high) =
          run-seen events (suc n) (happen storage x w)
            (rw is_count (count-seen n w e (omega arith))) (omega arith) in
        (m, is, omega arith, omega arith)
  ]

  -- It goes up where a block is counted.
  pub run-count-seen :
      (front back : List Event) (n : ℕ) (w : World storage)
      → w.shared.seen ≡ pos n
      → n + length (front ++ count ∷ back) < 2 ^ 63
      → (m : ℕ) × ((run storage (front ++ count ∷ back) w).shared.seen ≡ pos m) × (n < m)
  unfolding run
  run-count-seen [] back n w e small =
      let (m, is, low, high) =
        run-seen back (suc n) (happen storage count w) (count-seen n w e (omega arith))
          (omega arith) in
      (m, is, omega arith)
  run-count-seen (x ∷ front) back n w e small = elim (happen-seen x w) [
    | inl same ↦
        let (m, is, low) =
          run-count-seen front back n (happen storage x w) (same ∙ e) (omega arith) in
        (m, is, low)
    | inr is_count ↦
        let (m, is, low) =
          run-count-seen front back (suc n) (happen storage x w)
            (rw is_count (count-seen n w e (omega arith))) (omega arith) in
        (m, is, omega arith)
  ]
