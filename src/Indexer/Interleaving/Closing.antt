-- ===== src/Indexer/Interleaving/Closing.antt =====
-- What closing channels keeps of a wait table.
use rosetta_thought.Prelude.{
  ℕ, ◌≡◌, refl, ◌<◌, ◌∙◌, true, false, List, [], ◌∷◌, arith, Option, none, some, not, ◌&&◌,
  Bool-cases, Option-cases, inl, inr, ap, sym,
}
use rosetta_thought.Prelude.Int.{ℤ, pos, eqb_ℤ}
use rosetta_thought.Map.{Map, lookup, insert, lookup-insert}
use rosetta_thought.Outcome.{ok}
use rosetta_thought.Text.{Text, text_eq, text_eq_iff}
use rosetta_thought.Sdk
use rosetta_thought.Sdk.{Failure}
use rosetta_thought.Indexer.WaitTable.{
  WaitTableEntry, close_waiting, close_seen, abort_entry, abort_waiting,
}
use rosetta_thought.Indexer.Interleaving.Counting.{AllValues, AllValues-insert, lookup-AllValues}

-- The entry's own flag says whether its channel is closed.
abbrev pub IsSynced : WaitTableEntry → Type 0
IsSynced val = val.channel_is_closed ≡ val.channel_closed

-- An entry is there exactly while somebody waits, and counts them.
abbrev pub Counted : Option WaitTableEntry → ℕ → Type 0
Counted none n = n ≡ 0
Counted (some val) n = (val.listeners ≡ pos n) × (0 < n)

-- A section that closes channels keeps the flags and the counts of a table, and the entries whose
-- channels stay open.
pub record Keeps (old new : Map WaitTableEntry) : Type 0 where
  pub synced : AllValues IsSynced new
  pub counted : (k : Text) (n : ℕ) → Counted (lookup k old) n → Counted (lookup k new) n
  pub still :
      (k : Text) (val : WaitTableEntry)
      → lookup k new ≡ some val
      → val.channel_closed ≡ false
      → lookup k old ≡ some val

pub some-inj : {A : Type 0} {a b : A} → some a ≡ some b → a ≡ b
some-inj e = cc

-- An entry that is open beside one that is marked was there before.
marked-still :
    (h k : Text) (val v : WaitTableEntry) (table : Map WaitTableEntry)
    → lookup k (insert h (record val { channel_is_closed = true; channel_closed = true }) table)
      ≡ some v
    → v.channel_closed ≡ false
    → lookup k table ≡ some v
marked-still h k val v table e is_open = elim (Bool-cases (text_eq h k)) [
  | inl same ↦
      let f = ap (λ x. x.channel_closed) (some-inj (rw same at (rw lookup-insert at e))) in
      absurd (let g : true ≡ false = f ∙ is_open in cc)
  | inr other ↦ rw other at (rw lookup-insert at e)
]

marked-Counted :
    (h k : Text) (n : ℕ) (val : WaitTableEntry) (table : Map WaitTableEntry)
    → lookup h table ≡ some val
    → Counted (lookup k table) n
    → Counted
        (lookup k (insert h (record val { channel_is_closed = true; channel_closed = true }) table))
        n
marked-Counted h k n val table e c = rw lookup-insert (elim (Bool-cases (text_eq h k)) [
  | inl same ↦
      let e' : lookup k table ≡ some val = rw (← ((text_eq_iff h k).0 same)) e in
      rw same (rw e' at c)
  | inr other ↦ rw other c
])

unchanged : (table : Map WaitTableEntry) → AllValues IsSynced table → Keeps table table
unchanged table s = record { synced = s; counted = λ k n c. c; still = λ k val e is_open. e }

close_waiting-Keeps :
    (h : Text) (table : Map WaitTableEntry)
    → AllValues IsSynced table
    → (new : Map WaitTableEntry) × (close_waiting h table ≡ ok new) × Keeps table new
unfolding close_waiting
close_waiting-Keeps h table s = elim (Option-cases (lookup h table)) [
  | inl e ↦ (table, rw (e, close_waiting), unchanged table s)
  | inr (val, e) ↦ elim (Bool-cases val.channel_closed) [
    | inl q ↦ (table, rw (e, close_waiting) (rw q), unchanged table s)
    | inr q ↦
        let open_still = lookup-AllValues IsSynced h table val s e in
        (
          insert h (record val { channel_is_closed = true; channel_closed = true }) table,
          rw (e, close_waiting) (rw (q, open_still ∙ q)),
          record {
            synced = AllValues-insert IsSynced h _ table refl s;
            counted = λ k n c. marked-Counted h k n val table e c;
            still = λ k v f is_open. marked-still h k val v table f is_open;
          },
        )
  ]
]

abort_entry-Keeps :
    (i : ℤ) (val : WaitTableEntry)
    → IsSynced val
    → (new : WaitTableEntry) × (abort_entry i val ≡ ok new)
      × IsSynced new
      × (new.listeners ≡ val.listeners)
      × (new.channel_closed ≡ false → new ≡ val)
unfolding abort_entry
abort_entry-Keeps i val s =
    elim (Bool-cases (eqb_ℤ val.earliest_block i && not val.channel_closed)) [
      | inl b ↦
          let is_open : val.channel_closed ≡ false = ground arith in
          (
            record val { channel_is_closed = true; channel_closed = true; aborted = true },
            rw b (rw (s ∙ is_open)),
            refl,
            refl,
            λ is_open. cc,
          )
      | inr b ↦ (val, rw b, s, refl, λ is_open. refl)
    ]

pub close_seen-Keeps :
    (txs : List Sdk.Transaction) (table : Map WaitTableEntry)
    → AllValues IsSynced table
    → (new : Map WaitTableEntry) × (close_seen txs table ≡ ok new) × Keeps table new
unfolding close_seen
close_seen-Keeps [] table s = (table, refl, unchanged table s)
close_seen-Keeps (tx ∷ txs) table s =
    let (mid, e, m) = close_waiting-Keeps tx.transaction_identifier.hash table s in
    let (new, f, n) = close_seen-Keeps txs mid m.synced in
    (
      new,
      rw e f,
      record {
        synced = n.synced;
        counted = λ k i c. n.counted k i (m.counted k i c);
        still = λ k val g is_open. m.still k val (n.still k val g is_open) is_open;
      },
    )

cons-Counted :
    (j k : Text) (n : ℕ) (val val' : WaitTableEntry) (old new : Map WaitTableEntry)
    → val'.listeners ≡ val.listeners
    → (Counted (lookup k old) n → Counted (lookup k new) n)
    → Counted (lookup k ((j, val) ∷ old)) n
    → Counted (lookup k ((j, val') ∷ new)) n
unfolding lookup
cons-Counted j k n val val' old new same rest c = elim (Bool-cases (text_eq j k)) [
  | inl b ↦ rw b (let d : Counted (some val) n = rw (b, lookup) at c in (same ∙ d.0, d.1))
  | inr b ↦ rw b (rest (rw (b, lookup) at c))
]

cons-still :
    (j k : Text) (val val' v : WaitTableEntry) (old new : Map WaitTableEntry)
    → (val'.channel_closed ≡ false → val' ≡ val)
    → (lookup k new ≡ some v → v.channel_closed ≡ false → lookup k old ≡ some v)
    → lookup k ((j, val') ∷ new) ≡ some v
    → v.channel_closed ≡ false
    → lookup k ((j, val) ∷ old) ≡ some v
unfolding lookup
cons-still j k val val' v old new kept rest e is_open = elim (Bool-cases (text_eq j k)) [
  | inl b ↦
      let is : val' ≡ v = some-inj (rw (b, lookup) at e) in
      rw b (ap some (sym (kept (ap (λ x. x.channel_closed) is ∙ is_open)) ∙ is))
  | inr b ↦ rw b (rest (rw (b, lookup) at e) is_open)
]

pub abort_waiting-Keeps :
    (i : ℤ) (table : Map WaitTableEntry)
    → AllValues IsSynced table
    → (new : Map WaitTableEntry) × (abort_waiting i table ≡ ok new) × Keeps table new
unfolding abort_waiting
abort_waiting-Keeps i [] s = ([], refl, unchanged [] tt)
abort_waiting-Keeps i ((j, val) ∷ table) s =
    let (val', e, fresh, same, kept) = abort_entry-Keeps i val s.0 in
    let (new, f, n) = abort_waiting-Keeps i table s.1 in
    (
      (j, val') ∷ new,
      rw e (rw f),
      record {
        synced = (fresh, n.synced);
        counted = λ k m c. cons-Counted j k m val val' table new same (n.counted k m) c;
        still = λ k v g is_open. cons-still j k val val' v table new kept (n.still k v) g is_open;
      },
    )
