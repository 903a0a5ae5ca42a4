-- ===== src/Indexer/Schedule/Finds.antt =====
-- `findCoin` of indexer/indexer.go for a coin that is in the storage or in the cache.
use rosetta_thought.Prelude.{
  ◌≡◌, refl, ◌⊎◌, inl, inr, ap, Bool, true, false, none, some, List, [], ◌∷◌, Bool-cases,
  Option-cases, Option, arith, ◌∙◌,
}
use mathlib.Core.Path.{subst}
use rosetta_thought.Prelude.Int.{ℤ}
use rosetta_thought.Map.{lookup}
use rosetta_thought.Outcome.{ok, err}
use rosetta_thought.Text.{Text}
use rosetta_thought.Sdk.{AccountCoin, BlockIdentifier, context_done}
use rosetta_thought.Indexer.WaitTable.{State}
use rosetta_thought.Indexer.Find.{Verdict, again, done, find_coin_pass, find_coin}
use rosetta_thought.Indexer.Find.Reads.{
  pass-empty, pass-stored, pass-cache, look-cached, look-again,
}
use rosetta_thought.Indexer.Schedule.{CoinStorage, World, as_stored}
use rosetta_thought.Indexer.Schedule.Ready.{IsReady, IsStored, IsMissing, run-IsReady}
use rosetta_thought.Indexer.Schedule.Passes.{
  IsSteady, Between, at_start, at_snapshot, at_cache, at_lock, pass_at, passes_at, stored_head,
  IsBelow, IsBelow-trans, IsBusy, AreBusy, AllLeave, Moved, run-Moved,
}

module _ (storage : CoinStorage) (k : Text) (v : AccountCoin)
    (same_head : BlockIdentifier → BlockIdentifier → Bool) (height : ℤ) where
  -- A pass returns the coin, or it goes round again because no head is stored or the head went up
  -- under it.
  abbrev pub Finds : Between → World storage → Verdict → Type 0
  Finds b w verdict = (verdict ≡ done (ok (as_stored v))) ⊎ ((verdict ≡ again) × IsBusy storage b w)

  module _ (distinguishes : (a b : BlockIdentifier) → same_head a b ≡ true → a ≡ b) where
    not_same_head : (a b : BlockIdentifier) → IsBelow (some a) (some b) → same_head b a ≡ false
    not_same_head a b up = elim (Bool-cases (same_head b a)) [
      | inl same ↦
          absurd (let e = ap (λ x. x.index) (distinguishes b a same) in omega (arith, rw e at up))
      | inr differ ↦ differ
    ]

    up-Moved :
        (a : Option BlockIdentifier) (b c : World storage)
        → IsBelow a b.head
        → Moved storage b c
        → IsBelow a c.head
    up-Moved a b c up (inl (same, _)) = rw same up
    up-Moved a b c up (inr more) = IsBelow-trans a b.head c.head up more

    above :
        (a : BlockIdentifier) (o : Option BlockIdentifier)
        → IsBelow (some a) o
        → (b : BlockIdentifier) × (o ≡ some b) × (same_head b a ≡ false)
    above a none up = absurd up
    above a (some b) up = (b, refl, not_same_head a b up)

    -- The cache is read after the head went up: it may have been cleaned of the coin.
    cache-Finds :
        (b : Between) (w : World storage) (s : State) (head : BlockIdentifier)
        → IsSteady b
        → (at_snapshot storage b w).head ≡ some head
        → IsMissing storage k v (at_snapshot storage b w)
        → IsBelow (at_snapshot storage b w).head (at_cache storage b w).head
        → lookup k (at_cache storage b w).shared.coin_cache ≡ none
        → Finds b w (find_coin_pass same_head height k (pass_at storage k b w) s).0
    cache-Finds b w s head steady is missing up gone =
        let (current, is_current, differ) = above head (at_lock storage b w).head (
          up-Moved (some head) (at_cache storage b w) (at_lock storage b w)
            (subst (λ o. IsBelow o (at_cache storage b w).head) is up)
            (run-Moved storage b.to_lock (at_cache storage b w) steady.1)) in
        inr (
          ap (λ x. x.0)
                (pass-cache same_head height k (pass_at storage k b w) s head (ap stored_head is)
                  missing)
              ∙ look-again same_head height k (at_start storage b w).shared.seen head current
                  (pass_at storage k b w) (at_start storage b w).shared gone
                  (ap stored_head is_current) differ,
          inr up,
        )

    headed-Finds :
        (b : Between) (w : World storage) (s : State) (head : BlockIdentifier)
        → IsSteady b
        → (at_snapshot storage b w).head ≡ some head
        → (IsStored storage k v (at_snapshot storage b w))
          ⊎ (IsMissing storage k v (at_snapshot storage b w))
        → IsReady storage k v (at_cache storage b w)
        → Finds b w (find_coin_pass same_head height k (pass_at storage k b w) s).0
    headed-Finds b w s head steady is (inl stored) there = inl (
        pass-stored same_head height k (pass_at storage k b w) s head (as_stored v)
          (ap stored_head is) stored)
    headed-Finds b w s head steady is (inr missing) there =
        let at_cached : (lookup k (at_cache storage b w).shared.coin_cache ≡ some v)
            → Finds b w (find_coin_pass same_head height k (pass_at storage k b w) s).0 =
          λ cached. inl (
            ap (λ x. x.0)
              (pass-cache same_head height k (pass_at storage k b w) s head (ap stored_head is)
                missing)
            ∙ look-cached same_head height k (at_start storage b w).shared.seen head v
                (pass_at storage k b w) (at_start storage b w).shared cached) in
        elim there [
          | inr (cached, _, _) ↦ at_cached cached
          | inl (stored, inr cached) ↦ at_cached cached
          | inl (stored, inl gone) ↦
              elim (run-Moved storage b.to_cache (at_snapshot storage b w) steady.0) [
                | inl (_, same) ↦ absurd (let e = ap (λ c. storage.get_coin k c) same in cc)
                | inr up ↦ cache-Finds b w s head steady is missing up gone
              ]
        ]

    pub pass-Finds :
        (b : Between) (w : World storage) (s : State)
        → IsSteady b
        → (IsStored storage k v (at_snapshot storage b w))
          ⊎ (IsMissing storage k v (at_snapshot storage b w))
        → IsReady storage k v (at_cache storage b w)
        → Finds b w (find_coin_pass same_head height k (pass_at storage k b w) s).0
    pass-Finds b w s steady reads there = elim (Option-cases (at_snapshot storage b w).head) [
      | inl empty ↦ inr (
        pass-empty same_head height k (pass_at storage k b w) s (ap stored_head empty) refl,
        inl empty,
      )
      | inr (head, is) ↦ headed-Finds b w s head steady is reads there
    ]

    reads :
        (w : World storage)
        → IsReady storage k v w
        → (IsStored storage k v w) ⊎ (IsMissing storage k v w)
    reads w (inl (stored, _)) = inl stored
    reads w (inr (_, _, missing)) = inr missing

-- If a coin is in the storage, or in the cache and not about to be cleaned, then findCoin never
-- enters a wait for it, however the sections of BlockSeen and BlockAdded fall between its reads: it
-- returns the coin, or its context ends after passes in each of which no head block is stored yet or
-- a block was stored between the snapshot of the database and the look into the cache. The stored blocks do not spend the
-- coin, blocks that create a coin of its identifier create the same one, a block that is removed
-- has nothing to do with the coin and goes before the snapshot of a pass, and equal hashes are of
-- the same head.
pub find_coin_never_waits :
    (storage : CoinStorage) (same_head : BlockIdentifier → BlockIdentifier → Bool) (height : ℤ)
    (k : Text) (v : AccountCoin) (bs : List Between) (w : World storage) (s : State)
    → ((a b : BlockIdentifier) → same_head a b ≡ true → a ≡ b)
    → AllLeave k v bs
    → IsReady storage k v w
    → ((find_coin same_head height k (passes_at storage k bs w) s).0 ≡ ok (as_stored v))
      ⊎ (((find_coin same_head height k (passes_at storage k bs w) s).0 ≡ err context_done)
          × AreBusy storage bs w)
unfolding find_coin
find_coin_never_waits storage same_head height k v [] w s distinguishes leaves ready =
    inr (refl, tt)
find_coin_never_waits storage same_head height k v (b ∷ bs) w s distinguishes
      ((start, snapshot, cache, lock, steady), leaves) ready =
    let at_first = run-IsReady storage k v b.to_start w start ready in
    let there = run-IsReady storage k v b.to_snapshot (at_start storage b w) snapshot at_first in
    let cached = run-IsReady storage k v b.to_cache (at_snapshot storage b w) cache there in
    let locked = run-IsReady storage k v b.to_lock (at_cache storage b w) lock cached in
    elim (pass-Finds storage k v same_head height distinguishes b w s steady
      (reads storage k v same_head height distinguishes (at_snapshot storage b w) there) cached) [
        | inl found ↦ inl (rw (found, find_coin) refl)
        | inr (more, up) ↦
            rw (more, find_coin)
              (elim (find_coin_never_waits storage same_head height k v bs (at_lock storage b w)
                (find_coin_pass same_head height k (pass_at storage k b w) s).1 distinguishes leaves
                locked) [ inl found ↦ inl found | inr (ended, busy) ↦ inr (ended, (up, busy)) ])
      ]
