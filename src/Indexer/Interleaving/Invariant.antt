-- ===== src/Indexer/Interleaving/Invariant.antt =====
-- What holds of the wait table in every reachable system.
use rosetta_thought.Prelude.{◌≡◌, refl, ◌∙◌, true, false, ◌∷◌, ◌++◌, some, ap, sym}
use rosetta_thought.Prelude.Int.{pos, ◌+ℤ◌, int64}
use rosetta_thought.Map.{Map, lookup}
use rosetta_thought.Outcome.{Outcome, ok}
use rosetta_thought.Text.{Text}
use rosetta_thought.Sdk
use rosetta_thought.Sdk.{Failure}
use rosetta_thought.Indexer.WaitTable.{State, WaitTableEntry, release}
use rosetta_thought.Indexer.Events.{seen_load, seen_count, seen_close, added_clean, added_abort}
use rosetta_thought.Indexer.Interleaving.{
  System, Wait, start, Step, load, close, clean, abort, enter, leave, give_up, Reach, here, next,
}
use rosetta_thought.Indexer.Interleaving.Counting.{
  count, lowest, give_up-count, give_up-lowest, AllValues, lookup-AllValues,
}
use rosetta_thought.Indexer.Interleaving.Closing.{
  IsSynced, Counted, Keeps, close_seen-Keeps, abort_waiting-Keeps,
}
use rosetta_thought.Indexer.Interleaving.Entering.{
  register-Counted, register-low, register-IsSynced,
}
use rosetta_thought.Indexer.Interleaving.Leaving.{
  release-Counted, release-low, release-IsSynced, release-unlocked,
}

pub record IsConsistent (a : System) : Type 0 where
  pub synced : AllValues IsSynced a.shared.waiter
  pub counted : (k : Text) → Counted (lookup k a.shared.waiter) (count k a.waits)
  -- An open entry has the lowest height that it is waited for.
  pub lows :
      (k : Text) (val : WaitTableEntry)
      → lookup k a.shared.waiter ≡ some val
      → val.channel_closed ≡ false
      → lowest k a.waits ≡ some val.earliest_block
  pub unlocked : a.shared.waiter_locked ≡ false

IsConsistent-start : IsConsistent start
IsConsistent-start = record {
  synced = tt;
  counted = λ k. unfold lookup in refl;
  lows = λ k val e is_open. (unfold lookup in absurd cc);
  unlocked = refl;
}

pub seen_close-Keeps :
    (block : Sdk.Block) (s : State)
    → AllValues IsSynced s.waiter
    → (new : Map WaitTableEntry) × (seen_close block s ≡ (ok tt, record s { waiter = new }))
      × Keeps s.waiter new
unfolding seen_close
seen_close-Keeps block s y =
    let (new, e, k) = close_seen-Keeps block.transactions s.waiter y in (new, rw e, k)

pub added_abort-Keeps :
    (block : Sdk.Block) (s : State)
    → AllValues IsSynced s.waiter
    → (new : Map WaitTableEntry) × (added_abort block s ≡ (ok tt, record s { waiter = new }))
      × Keeps s.waiter new
unfolding added_abort
added_abort-Keeps block s y =
    let (new, e, k) =
      abort_waiting-Keeps (int64 (block.block_identifier.index +ℤ pos 1)) s.waiter y in
    (new, rw e, k)

closed-IsConsistent :
    (a : System) (s : State) (new : Map WaitTableEntry) (r : Outcome Failure (Unit {0}) × State)
    → IsConsistent a
    → r ≡ (ok tt, s)
    → r ≡ (ok tt, record a.shared { waiter = new })
    → Keeps a.shared.waiter new
    → IsConsistent (record { shared = s; waits = a.waits })
closed-IsConsistent a s new r h p q k =
    let same : s ≡ record a.shared { waiter = new } = ap (λ x. x.1) (sym p ∙ q) in
    rw same (record {
      synced = k.synced;
      counted = λ j. k.counted j (count j a.waits) (h.counted j);
      lows = λ j val e is_open. h.lows j val (k.still j val e is_open) is_open;
      unlocked = h.unlocked;
    })

-- Every section, of whichever goroutine, keeps the table consistent.
Step-IsConsistent : {a b : System} → Step a b → IsConsistent a → IsConsistent b
unfolding seen_load seen_count added_clean
Step-IsConsistent (load block) h = record {
  synced = h.synced;
  counted = h.counted;
  lows = h.lows;
  unlocked = h.unlocked;
}
Step-IsConsistent (Step.count) h = record {
  synced = h.synced;
  counted = h.counted;
  lows = h.lows;
  unlocked = h.unlocked;
}
Step-IsConsistent {a} (close block s e) h =
    let (new, q, k) = seen_close-Keeps block a.shared h.synced in
    closed-IsConsistent a s new _ h e q k
Step-IsConsistent (clean block) h = record {
  synced = h.synced;
  counted = h.counted;
  lows = h.lows;
  unlocked = h.unlocked;
}
Step-IsConsistent {a} (abort block s e) h =
    let (new, q, k) = added_abort-Keeps block a.shared h.synced in
    closed-IsConsistent a s new _ h e q k
Step-IsConsistent {a} (enter tx_hash height) h =
    let w : Wait = record { tx_hash = tx_hash; height = height; is_given_up = false } in
    record {
      synced = register-IsSynced tx_hash height a.shared.waiter h.synced;
      counted = λ k. register-Counted w k a.shared.waiter a.waits h.counted;
      lows = λ k. register-low w k a.shared.waiter a.waits h.counted h.lows;
      unlocked = h.unlocked;
    }
Step-IsConsistent {a} (leave w front back val aborted s is present known closed e) h =
    let same : s ≡ (release w.tx_hash a.shared).1 = ap (λ x. x.1) (sym e) in
    let counted : (j : Text) → Counted (lookup j a.shared.waiter) (count j (front ++ w ∷ back)) =
      rw is at h.counted in
    let flag : val.channel_closed ≡ true =
      sym (lookup-AllValues IsSynced w.tx_hash a.shared.waiter val h.synced known) ∙ closed in
    rw same (record {
      synced = release-IsSynced w.tx_hash a.shared h.synced;
      counted = λ k. release-Counted w k front back a.shared val counted known;
      lows = λ k new f is_open.
          release-low w k front back a.shared val new (rw is at h.lows) known flag f is_open;
      unlocked = release-unlocked w.tx_hash a.shared val known ∙ h.unlocked;
    })
Step-IsConsistent {a} (give_up w front back is) h = record {
  synced = h.synced;
  counted = λ k. rw (give_up-count k w front back) (rw (← is) (h.counted k));
  lows = λ k val e is_open. give_up-lowest k w front back ∙ rw (← is) (h.lows k val e is_open);
  unlocked = h.unlocked;
}

pub Reach-IsConsistent : {a : System} → Reach a → IsConsistent a
Reach-IsConsistent here = IsConsistent-start
Reach-IsConsistent (next r st) = Step-IsConsistent st (Reach-IsConsistent r)
