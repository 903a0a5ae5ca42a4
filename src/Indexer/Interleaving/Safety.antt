-- ===== src/Indexer/Interleaving/Safety.antt =====
-- Closing channels and leaving waits in the reachable systems.
use rosetta_thought.Prelude.{
  ℕ, ◌≡◌, refl, ◌<◌, ◌∙◌, false, List, ◌∷◌, ◌++◌, arith, Option, none, some, ap,
}
use rosetta_thought.Map.{lookup}
use rosetta_thought.Outcome.{ok}
use rosetta_thought.Text.{Text}
use rosetta_thought.Sdk
use rosetta_thought.Sdk.{Failure}
use rosetta_thought.Indexer.WaitTable.{State, WaitTableEntry, release}
use rosetta_thought.Indexer.Events.{seen_close, added_abort}
use rosetta_thought.Indexer.Interleaving.{System, Wait, Reach}
use rosetta_thought.Indexer.Interleaving.Counting.{count, count_pos}
use rosetta_thought.Indexer.Interleaving.Invariant.{
  Reach-IsConsistent, seen_close-Keeps, added_abort-Keeps,
}
use rosetta_thought.Indexer.Interleaving.Leaving.{release-unlocked}
use rosetta_thought.Indexer.Interleaving.Closing.{Counted}

-- In every reachable system, closing the channels of a seen block and aborting the waits of an added
-- one succeed: no channel is closed twice.
pub channels_close_once :
    (a : System) (block : Sdk.Block)
    → Reach a
    → ((seen_close block a.shared).0 ≡ ok tt) × ((added_abort block a.shared).0 ≡ ok tt)
channels_close_once a block r =
    let h = Reach-IsConsistent r in
    let (n, e, _) = seen_close-Keeps block a.shared h.synced in
    let (m, f, _) = added_abort-Keeps block a.shared h.synced in (ap (λ x. x.0) e, ap (λ x. x.0) f)

pub waiting_entry :
    (o : Option WaitTableEntry) (n : ℕ)
    → Counted o n
    → 0 < n
    → (val : WaitTableEntry) × (o ≡ some val)
waiting_entry none n c p = absurd (omega arith)
waiting_entry (some val) n c p = (val, refl)

release-ok :
    (h : Text) (s : State) (val : WaitTableEntry)
    → lookup h s.waiter ≡ some val
    → (release h s).0 ≡ ok val.aborted
unfolding release
release-ok h s val e = rw (e, release)

-- In every reachable system, a goroutine that leaves its wait finds the entry: it gets the entry's
-- `aborted` flag, and the wait table is not left locked.
pub release_finds_entry :
    (a : System) (w : Wait) (front back : List Wait)
    → Reach a
    → a.waits ≡ front ++ w ∷ back
    → (val : WaitTableEntry) × (lookup w.tx_hash a.shared.waiter ≡ some val)
      × ((release w.tx_hash a.shared).0 ≡ ok val.aborted)
      × ((release w.tx_hash a.shared).1.waiter_locked ≡ false)
release_finds_entry a w front back r is =
    let h = Reach-IsConsistent r in
    let (val, e) =
      waiting_entry (lookup w.tx_hash a.shared.waiter) (count w.tx_hash a.waits)
        (h.counted w.tx_hash) (rw is (count_pos w front back)) in
    (
      val,
      e,
      release-ok w.tx_hash a.shared val e,
      release-unlocked w.tx_hash a.shared val e ∙ h.unlocked,
    )
