-- ===== src/Indexer/Schedule/NoLoss.antt =====
-- `findCoin` of indexer/indexer.go while `BlockSeen` runs: a wait is entered before the block that
-- creates the coin is counted, so before `BlockSeen` closes the channels of its transactions.
use rosetta_thought.Prelude.{
  ℕ, ◌+◌, ◌^◌, ◌<◌, ◌≡◌, ◌≢◌, ◌⊎◌, inl, inr, ap, ◌∙◌, sym, Bool, true, false, none, Option, refl,
  some, List, ◌∷◌, ◌++◌, All, All-append, split_append, append_assoc, Option-cases, arith, length,
  length-append,
}
use rosetta_thought.Prelude.Int.{ℤ, pos, eqb_ℤ}
use rosetta_thought.Outcome.{err}
use rosetta_thought.Text.{Text}
use rosetta_thought.Sdk
use rosetta_thought.Sdk.{AccountCoin, BlockIdentifier, missing_transaction}
use rosetta_thought.Indexer.WaitTable.{State}
use rosetta_thought.Indexer.Find.{Pass, done, find_coin_pass}
use rosetta_thought.Indexer.Find.Reads.{pass-empty, pass-stored, pass-cache, look-counted}
use rosetta_thought.Indexer.Schedule.{
  CoinStorage, World, Event, load, count, block_made, as_stored, run,
}
use rosetta_thought.Indexer.Schedule.Counting.{run-seen, run-count-seen}
use rosetta_thought.Indexer.Schedule.Ready.{Leaves, IsReady, run-IsReady, IsStored, IsMissing}
use rosetta_thought.Indexer.Schedule.Passes.{
  IsSteady, Between, at_start, at_snapshot, at_cache, at_lock, pass_at, stored_head,
}
use rosetta_thought.Indexer.Schedule.Finds.{pass-Finds}
use rosetta_thought.Indexer.Schedule.Fresh.{IsKnown, run-IsKnown, run_load-IsReady}

-- All the events before the last read of a pass.
abbrev pub up_to_lock : Between → List Event
up_to_lock b = b.to_start ++ (b.to_snapshot ++ (b.to_cache ++ b.to_lock))

stored_head-known : (head : Option BlockIdentifier) → stored_head head ≢ err missing_transaction
stored_head-known none h = cc
stored_head-known (some head) h = cc

module _ (storage : CoinStorage) (same_head : BlockIdentifier → BlockIdentifier → Bool) (height : ℤ)
    (k : Text) (v : AccountCoin) (b : Between) (w : World storage) (s : State) where
  abbrev Waits : Type 0
  Waits =
      (find_coin_pass same_head height k (pass_at storage k b w) s).0
      ≡ done (err missing_transaction)

  abbrev pass : Pass
  pass = pass_at storage k b w

  -- If the block is counted during the pass, then it looks again.
  counted-not_Waits :
      (IsStored storage k v (at_snapshot storage b w))
        ⊎ (IsMissing storage k v (at_snapshot storage b w))
      → eqb_ℤ (at_lock storage b w).shared.seen (at_start storage b w).shared.seen ≡ false
      → ¬ Waits
  counted-not_Waits reads differ h = elim (Option-cases (at_snapshot storage b w).head) [
    | inl empty ↦ let e = pass-empty same_head height k pass s (ap stored_head empty) refl in cc
    | inr (head, is) ↦ elim reads [
      | inl stored ↦
          let e =
            pass-stored same_head height k pass s head (as_stored v) (ap stored_head is) stored in
          cc
      | inr missing ↦
          look-counted same_head height k (at_start storage b w).shared.seen head pass
            (at_start storage b w).shared (stored_head-known (at_lock storage b w).head) differ
            (sym (
                ap (λ x. x.0)
                  (pass-cache same_head height k pass s head (ap stored_head is) missing))
              ∙ h)
    ]
  ]

  module _ (distinguishes : (x y : BlockIdentifier) → same_head x y ≡ true → x ≡ y) where
    ready-not_Waits :
        IsSteady b
        → IsStored storage k v (at_snapshot storage b w)
          ⊎ IsMissing storage k v (at_snapshot storage b w)
        → IsReady storage k v (at_cache storage b w)
        → ¬ Waits
    ready-not_Waits steady reads there =
        elim (pass-Finds storage k v same_head height distinguishes b w s steady reads there) [
          | inl found ↦ rw found (λ h. cc)
          | inr (more, up) ↦ rw more (λ h. cc)
        ]

-- The block is loaded among these events.
abbrev Loads : Sdk.Block → List Event → Type 0
Loads block events =
    (front : List Event) × (back : List Event) × (events ≡ front ++ load block ∷ back)

module _ (storage : CoinStorage) (k : Text) (v : AccountCoin) where
  Loads-IsReady :
      (block : Sdk.Block) (events : List Event) (w : World storage)
      → block_made k block.transactions ≡ some v
      → All (Leaves k v) events
      → IsKnown storage k v w
      → Loads block events
      → IsReady storage k v (run storage events w)
  Loads-IsReady block events w is_made leaves known (front, back, e) =
      rw e (run_load-IsReady storage k v front back block w is_made (rw e at leaves) known)

  IsKnown-reads :
      (w : World storage) → IsKnown storage k v w → IsStored storage k v w ⊎ IsMissing storage k v w
  IsKnown-reads w (inl (missing, fits, spared)) = inr missing
  IsKnown-reads w (inr (inl (stored, fits))) = inl stored
  IsKnown-reads w (inr (inr (cached, spared, missing))) = inr missing

  module _ (b : Between) (w : World storage) (known : IsKnown storage k v w)
      (start : All (Leaves k v) b.to_start) (snapshot : All (Leaves k v) b.to_snapshot) where
    snapshot-IsKnown : IsKnown storage k v (at_snapshot storage b w)
    snapshot-IsKnown =
        run-IsKnown storage k v b.to_snapshot (at_start storage b w) snapshot
          (run-IsKnown storage k v b.to_start w start known)

    -- A block that is loaded before the look into the cache.
    cache-IsReady :
        (block : Sdk.Block)
        → block_made k block.transactions ≡ some v
        → All (Leaves k v) b.to_cache
        → Loads block b.to_start ⊎ Loads block b.to_snapshot ⊎ Loads block b.to_cache
        → IsReady storage k v (at_cache storage b w)
    cache-IsReady block is_made cache (inr (inr here)) =
        Loads-IsReady block b.to_cache (at_snapshot storage b w) is_made cache snapshot-IsKnown here
    cache-IsReady block is_made cache (inr (inl here)) =
        run-IsReady storage k v b.to_cache (at_snapshot storage b w) cache (
          Loads-IsReady block b.to_snapshot (at_start storage b w) is_made snapshot
            (run-IsKnown storage k v b.to_start w start known) here)
    cache-IsReady block is_made cache (inl here) =
        run-IsReady storage k v b.to_cache (at_snapshot storage b w) cache (
          run-IsReady storage k v b.to_snapshot (at_start storage b w) snapshot
            (Loads-IsReady block b.to_start w is_made start known here))

located :
    (b : Between) (block : Sdk.Block) (front rest : List Event)
    → up_to_lock b ≡ front ++ load block ∷ rest
    → (Loads block b.to_start ⊎ Loads block b.to_snapshot ⊎ Loads block b.to_cache)
      ⊎ ((f : List Event) × (b.to_lock ≡ f ++ load block ∷ rest))
located b block front rest e =
    elim (split_append b.to_start (b.to_snapshot ++ (b.to_cache ++ b.to_lock)) front (load block)
      rest e) [
        | inl here ↦ inl (inl here)
        | inr (f₁, e₁) ↦
            elim (split_append b.to_snapshot (b.to_cache ++ b.to_lock) f₁ (load block) rest e₁) [
              | inl here ↦ inl (inr (inl here))
              | inr (f₂, e₂) ↦ elim (split_append b.to_cache b.to_lock f₂ (load block) rest e₂) [
                | inl here ↦ inl (inr (inr here))
                | inr there ↦ inr there
              ]
            ]
      ]

eqb-above : (x y : ℤ) (m n : ℕ) → x ≡ pos m → y ≡ pos n → n < m → eqb_ℤ x y ≡ false
eqb-above x y m n is_m is_n above = rw (is_m, is_n) (ground arith)

-- A block that is counted after the look into the cache is noticed.
lock-seen :
    (storage : CoinStorage) (b : Between) (w : World storage) (n : ℕ) (front back : List Event)
    → b.to_lock ≡ front ++ count ∷ back
    → w.shared.seen ≡ pos n
    → n + length (up_to_lock b) < 2 ^ 63
    → eqb_ℤ (at_lock storage b w).shared.seen (at_start storage b w).shared.seen ≡ false
lock-seen storage b w n front back e seen small =
    let first = length-append b.to_start (b.to_snapshot ++ (b.to_cache ++ b.to_lock)) in
    let second = length-append b.to_snapshot (b.to_cache ++ b.to_lock) in
    let third = length-append b.to_cache b.to_lock in
    let last = ap length e in
    let (m₀, is₀, low₀, high₀) = run-seen storage b.to_start n w seen (omega arith) in
    let (m₁, is₁, low₁, high₁) =
      run-seen storage b.to_snapshot m₀ (at_start storage b w) is₀ (omega arith) in
    let (m₂, is₂, low₂, high₂) =
      run-seen storage b.to_cache m₁ (at_snapshot storage b w) is₁ (omega arith) in
    let (m₃, is₃, low₃) =
      run-count-seen storage front back m₂ (at_cache storage b w) is₂ (omega arith) in
    eqb-above (at_lock storage b w).shared.seen (at_start storage b w).shared.seen m₃ m₀
      (ap (λ events. (run storage events (at_cache storage b w)).shared.seen) e ∙ is₃) is₀
      (omega arith)

-- If BlockSeen has counted a block that creates a coin by the time that a pass of findCoin has
-- locked the wait table, then the pass does not enter a wait for the coin, however the sections of
-- BlockSeen and BlockAdded fall between its reads. Before the pass the coin is ready, or it is not
-- stored, the cache has no other under its identifier, and no block that creates it is being added;
-- blocks that are stored meanwhile do not spend it, blocks that create a coin of its identifier
-- create the same one, a block that is removed has nothing to do with the coin and goes before the
-- snapshot, equal hashes are of the same head, and the count of seen blocks stays below 2 ^ 63.
pub counted_block_not_awaited :
    (storage : CoinStorage) (same_head : BlockIdentifier → BlockIdentifier → Bool) (height : ℤ)
    (k : Text) (v : AccountCoin) (b : Between) (w : World storage) (s : State) (block : Sdk.Block)
    (n : ℕ) (front mid back : List Event)
    → ((x y : BlockIdentifier) → same_head x y ≡ true → x ≡ y)
    → IsKnown storage k v w
    → w.shared.seen ≡ pos n
    → n + length (up_to_lock b) < 2 ^ 63
    → All (Leaves k v) (up_to_lock b)
    → IsSteady b
    → block_made k block.transactions ≡ some v
    → up_to_lock b ≡ front ++ load block ∷ (mid ++ count ∷ back)
    → (find_coin_pass same_head height k (pass_at storage k b w) s).0
      ≢ done (err missing_transaction)
counted_block_not_awaited storage same_head height k v b w s block n front mid back distinguishes
      known seen small leaves steady is_made order =
    let (start, leaves₁) =
      All-append (Leaves k v) b.to_start (b.to_snapshot ++ (b.to_cache ++ b.to_lock)) leaves in
    let (snapshot, leaves₂) =
      All-append (Leaves k v) b.to_snapshot (b.to_cache ++ b.to_lock) leaves₁ in
    let (cache, leaves₃) = All-append (Leaves k v) b.to_cache b.to_lock leaves₂ in
    let reads =
      IsKnown-reads storage k v (at_snapshot storage b w)
        (snapshot-IsKnown storage k v b w known start snapshot) in
    elim (located b block front (mid ++ count ∷ back) order) [
      | inl before ↦
          ready-not_Waits storage same_head height k v b w s distinguishes steady reads
            (cache-IsReady storage k v b w known start snapshot block is_made cache before)
      | inr (f, e) ↦ counted-not_Waits storage same_head height k v b w s reads (
          lock-seen storage b w n (f ++ load block ∷ mid) back
            (e ∙ sym (append_assoc f (load block ∷ mid) (count ∷ back))) seen small)
    ]
