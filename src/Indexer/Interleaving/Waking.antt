-- ===== src/Indexer/Interleaving/Waking.antt =====
-- What closing the channels does for those who wait.
use rosetta_thought.Prelude.{
  ◌≡◌, refl, ◌≢◌, ◌∙◌, true, false, List, [], ◌∷◌, ◌++◌, arith, none, some, Bool-cases,
  Option-cases, ◌⊎◌, inl, inr, ap, sym,
}
use rosetta_thought.Prelude.Int.{ℤ, pos, ◌+ℤ◌, int64}
use rosetta_thought.Map.{Map, lookup, insert, lookup-insert}
use rosetta_thought.Outcome.{Outcome, ok, err, panic, >>=-eq-ok}
use rosetta_thought.Text.{Text, text_eq, text_eq_refl}
use rosetta_thought.Sdk
use rosetta_thought.Sdk.{Failure}
use rosetta_thought.Indexer.WaitTable.{
  State, WaitTableEntry, close_waiting, close_seen, abort_entry, abort_waiting,
}
use rosetta_thought.Indexer.Events.{seen_close, added_abort, with_waiter}
use rosetta_thought.Indexer.Interleaving.{System, Wait, Reach, next, close}
use rosetta_thought.Indexer.Interleaving.Counting.{count, lowest, lowest-count, lookup-AllValues}
use rosetta_thought.Indexer.Interleaving.Invariant.{Reach-IsConsistent}
use rosetta_thought.Indexer.Interleaving.Closing.{IsSynced, some-inj}
use rosetta_thought.Indexer.Interleaving.Safety.{release_finds_entry, waiting_entry}

-- The channel for a transaction is closed, or nobody has made one.
abbrev pub IsAwake : Text → Map WaitTableEntry → Type 0
IsAwake h table = (val : WaitTableEntry) → lookup h table ≡ some val → val.channel_closed ≡ true

-- What `close_waiting` may do to a table.
data Closing (h : Text) (table new : Map WaitTableEntry) : Type 0 where
  absent : lookup h table ≡ none → table ≡ new → Closing h table new
  already :
      (v : WaitTableEntry)
      → lookup h table ≡ some v
      → v.channel_closed ≡ true
      → table ≡ new
      → Closing h table new
  closing :
      (v : WaitTableEntry) → v.channel_closed ≡ true → insert h v table ≡ new → Closing h table new

close_waiting-Closing :
    (h : Text) (table new : Map WaitTableEntry)
    → close_waiting h table ≡ ok new
    → Closing h table new
unfolding close_waiting
close_waiting-Closing h table new e = elim (Option-cases (lookup h table)) [
  | inl q ↦ absent q (let f = rw (q, close_waiting) at e in cc)
  | inr (val, q) ↦ elim (Bool-cases val.channel_closed) [
    | inl c ↦ already val q c (let f = rw (c, close_waiting) at (rw (q, close_waiting) at e) in cc)
    | inr c ↦
        closing (record val { channel_closed = true; channel_is_closed = true }) refl
          (let f = rw (q, close_waiting) at e in ground arith)
  ]
]

close_waiting-IsAwake :
    (h : Text) (table new : Map WaitTableEntry) → close_waiting h table ≡ ok new → IsAwake h new
close_waiting-IsAwake h table new e val known = elim (close_waiting-Closing h table new e) [
  | absent q same ↦ ground arith
  | already v q c same ↦ ground arith
  | closing v c same ↦ ground (arith, lookup-insert h h v table, text_eq_refl h)
]

close_waiting_keeps :
    (h k : Text) (table new : Map WaitTableEntry)
    → close_waiting h table ≡ ok new
    → IsAwake k table
    → IsAwake k new
close_waiting_keeps h k table new e awake val known = elim (close_waiting-Closing h table new e) [
  | absent q same ↦ awake val (rw same known)
  | already v q c same ↦ awake val (rw same known)
  | closing v c same ↦ elim (Bool-cases (text_eq h k)) [
    | inl b ↦ ground (arith, lookup-insert h k v table)
    | inr b ↦ awake val (ground (arith, lookup-insert h k v table))
  ]
]

close_seen_keeps :
    (k : Text) (txs : List Sdk.Transaction) (table new : Map WaitTableEntry)
    → close_seen txs table ≡ ok new
    → IsAwake k table
    → IsAwake k new
unfolding close_seen
close_seen_keeps k [] table new e awake = let same : table ≡ new = cc in rw (← same) awake
close_seen_keeps k (tx ∷ txs) table new e awake =
    let (mid, f, g) = >>=-eq-ok (close_waiting tx.transaction_identifier.hash table) _ e in
    close_seen_keeps k txs mid new g
      (close_waiting_keeps tx.transaction_identifier.hash k table mid f awake)

close_seen-IsAwake :
    (front back : List Sdk.Transaction) (tx : Sdk.Transaction) (table new : Map WaitTableEntry)
    → close_seen (front ++ tx ∷ back) table ≡ ok new
    → IsAwake tx.transaction_identifier.hash new
unfolding close_seen
close_seen-IsAwake [] back tx table new e =
    let (mid, f, g) = >>=-eq-ok (close_waiting tx.transaction_identifier.hash table) _ e in
    close_seen_keeps tx.transaction_identifier.hash back mid new g
      (close_waiting-IsAwake tx.transaction_identifier.hash table mid f)
close_seen-IsAwake (t ∷ front) back tx table new e =
    let (mid, f, g) = >>=-eq-ok (close_waiting t.transaction_identifier.hash table) _ e in
    close_seen-IsAwake front back tx mid new g

-- The lookups of a table whose entries were aborted.
abort_waiting-lookup :
    (i : ℤ) (h : Text) (table new : Map WaitTableEntry) (val : WaitTableEntry)
    → abort_waiting i table ≡ ok new
    → lookup h table ≡ some val
    → (val' : WaitTableEntry) × (lookup h new ≡ some val') × (abort_entry i val ≡ ok val')
unfolding abort_waiting lookup
abort_waiting-lookup i h [] new val e known = cc
abort_waiting-lookup i h ((k, v) ∷ table) new val e known =
    let (v', f, g) = >>=-eq-ok (abort_entry i v) _ e in
    let (rest, f', g') = >>=-eq-ok (abort_waiting i table) _ g in
    let same : (k, v') ∷ rest ≡ new = cc in
    elim (Bool-cases (text_eq k h)) [
      | inl b ↦
          let is : v ≡ val = (let q : some v ≡ some val = rw (b, lookup) at known in cc) in
          (v', rw (← same) (rw b), rw (← is) f)
      | inr b ↦
          let (w, p, q) = abort_waiting-lookup i h table rest val f' (rw (b, lookup) at known) in
          (w, rw (← same) (rw b p), q)
    ]

err_ne : {E : Type 0} {A : Type 0} {x : E} {a : A} → err x ≢ ok a
err_ne h = cc

panic_ne : {E : Type 0} {A : Type 0} {a : A} → ◌≢◌ {A = Outcome E A} panic (ok a)
panic_ne h = cc

with_waiter-eq-ok :
    (t s : State) (o : Outcome Failure (Map WaitTableEntry))
    → with_waiter t o ≡ (ok tt, s)
    → o ≡ ok s.waiter
with_waiter-eq-ok t s (ok m) e = ap (λ x. ok x.1.waiter) e
with_waiter-eq-ok t s (err x) e = absurd (err_ne (ap (λ x. x.0) e))
with_waiter-eq-ok t s panic e = absurd (panic_ne (ap (λ x. x.0) e))

seen_close-eq :
    (block : Sdk.Block) (t s : State)
    → seen_close block t ≡ (ok tt, s)
    → close_seen block.transactions t.waiter ≡ ok s.waiter
unfolding seen_close
seen_close-eq block t s = with_waiter-eq-ok t s (close_seen block.transactions t.waiter)

added_abort-eq :
    (block : Sdk.Block) (t s : State)
    → added_abort block t ≡ (ok tt, s)
    → abort_waiting (int64 (block.block_identifier.index +ℤ pos 1)) t.waiter ≡ ok s.waiter
unfolding added_abort
added_abort-eq block t s =
    with_waiter-eq-ok t s (abort_waiting (int64 (block.block_identifier.index +ℤ pos 1)) t.waiter)

abort_entry-closes :
    (i : ℤ) (val new : WaitTableEntry)
    → IsSynced val
    → (val.channel_closed ≡ false → val.earliest_block ≡ i)
    → abort_entry i val ≡ ok new
    → (new.channel_is_closed ≡ true) × ((new.aborted ≡ true) ⊎ (val.channel_closed ≡ true))
unfolding abort_entry
abort_entry-closes i val new synced low e = elim (Bool-cases val.channel_closed) [
  | inl closed ↦ (ground arith, inr closed)
  | inr is_open ↦ let same = low is_open in (ground arith, inl (ground arith))
]

-- In a reachable system where a transaction is waited for, after the channels of a block that
-- has the transaction are closed, the channel waited for is closed.
pub seen_wakes :
    (a : System) (block : Sdk.Block) (front back : List Sdk.Transaction) (tx : Sdk.Transaction)
    (w : Wait) (xs ys : List Wait) (s : State)
    → Reach a
    → a.waits ≡ xs ++ w ∷ ys
    → w.tx_hash ≡ tx.transaction_identifier.hash
    → block.transactions ≡ front ++ tx ∷ back
    → seen_close block a.shared ≡ (ok tt, s)
    → (val : WaitTableEntry) × (lookup tx.transaction_identifier.hash s.waiter ≡ some val)
      × (val.channel_is_closed ≡ true)
seen_wakes a block front back tx w xs ys s r is awaited in_block e =
    let b : Reach (record { shared = s; waits = a.waits }) = next r (close block s e) in
    let h = Reach-IsConsistent b in
    let hash = tx.transaction_identifier.hash in
    let (val, known_w, _, _) =
      release_finds_entry (record { shared = s; waits = a.waits }) w xs ys b is in
    let known : lookup hash s.waiter ≡ some val = rw awaited at known_w in
    let closed =
      close_seen-IsAwake front back tx a.shared.waiter s.waiter
        (rw (← in_block) (seen_close-eq block a.shared s e)) in
    (val, known, lookup-AllValues IsSynced hash s.waiter val h.synced known ∙ closed val known)

-- In a reachable system where a transaction is waited for, and the lowest block for which it is, by
-- waits that go on or were given up, is the one after the block that is added: those waits are ended,
-- that is, the channel is closed, and the entry says that it was aborted unless its channel was
-- closed before.
pub added_wakes :
    (a : System) (block : Sdk.Block) (hash : Text) (s : State)
    → Reach a
    → lowest hash a.waits ≡ some (int64 (block.block_identifier.index +ℤ pos 1))
    → added_abort block a.shared ≡ (ok tt, s)
    → (val new : WaitTableEntry) × (lookup hash a.shared.waiter ≡ some val)
      × (lookup hash s.waiter ≡ some new)
      × (new.channel_is_closed ≡ true)
      × ((new.aborted ≡ true) ⊎ (val.channel_closed ≡ true))
added_wakes a block hash s r low e =
    let h = Reach-IsConsistent r in
    let (val, known) =
      waiting_entry (lookup hash a.shared.waiter) (count hash a.waits) (h.counted hash)
        (lowest-count hash a.waits _ low) in
    let (new, found, made) =
      abort_waiting-lookup _ hash a.shared.waiter s.waiter val (added_abort-eq block a.shared s e)
        known in
    let (closed, flag) =
      abort_entry-closes _ val new
        (lookup-AllValues IsSynced hash a.shared.waiter val h.synced known)
        (λ is_open. some-inj (sym (h.lows hash val known is_open) ∙ low)) made in
    (val, new, known, found, closed, flag)
