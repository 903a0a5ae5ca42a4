-- ===== src/Indexer/Interleaving/Leaving.antt =====
-- What the last section of a wait keeps of a wait table.
use rosetta_thought.Prelude.{
  ℕ, zero, suc, ◌≡◌, refl, ◌∙◌, true, false, List, ◌∷◌, ◌++◌, arith, if◌then◌else◌, some,
  Bool-cases, Option-cases, inl, inr, ap, sym,
}
use mathlib.Core.Path.{subst}
use rosetta_thought.Prelude.Int.{pos, ◌-ℤ◌, eqb_ℤ}
use rosetta_thought.Map.{
  Map, lookup, insert, delete, lookup-insert, lookup-insert_self, lookup-delete,
}
use rosetta_thought.Text.{Text, text_eq, text_eq_iff, text_eq_refl}
use rosetta_thought.Indexer.WaitTable.{State, WaitTableEntry, release}
use rosetta_thought.Indexer.Interleaving.{Wait}
use rosetta_thought.Indexer.Interleaving.Counting.{
  count, count-middle, lowest, lowest-other, AllValues, AllValues-insert, AllValues-delete,
  lookup-AllValues,
}
use rosetta_thought.Indexer.Interleaving.Closing.{IsSynced, Counted, some-inj}

pred_pos : (n : ℕ) → pos (suc n) -ℤ pos 1 ≡ pos n
unfolding ◌-ℤ◌
pred_pos n = ground arith

nonzero : (n : ℕ) → eqb_ℤ (pos (suc n)) (pos 0) ≡ false
nonzero n = ground arith

-- The count after one has left, at the hash that it waited for.
left-Counted :
    (h : Text) (table : Map WaitTableEntry) (val : WaitTableEntry) (n : ℕ)
    → Counted (some val) (suc n)
    → Counted
        (lookup h (
          if eqb_ℤ (val.listeners -ℤ pos 1) (pos 0)
          then delete h table
          else insert h (record val { listeners = val.listeners -ℤ pos 1 }) table))
        n
left-Counted h table val zero c = rw (c.0, pred_pos 0) (rw (lookup-delete, text_eq_refl h) refl)
left-Counted h table val (suc n) c =
    rw (c.0, pred_pos (suc n)) (rw (nonzero n) (rw lookup-insert_self (refl, omega arith)))

pub release-Counted :
    (w : Wait) (k : Text) (front back : List Wait) (s : State) (val : WaitTableEntry)
    → ((j : Text) → Counted (lookup j s.waiter) (count j (front ++ w ∷ back)))
    → lookup w.tx_hash s.waiter ≡ some val
    → Counted (lookup k (release w.tx_hash s).1.waiter) (count k (front ++ back))
unfolding release
release-Counted w k front back s val c e =
    let h = w.tx_hash in
    rw (e, release)
      (elim (Bool-cases (text_eq w.tx_hash k)) [
        | inl same ↦
            let before : count h (front ++ w ∷ back) ≡ suc (count h (front ++ back)) =
              count-middle h w front back ∙ (rw (text_eq_refl h)) in
            let there : Counted (some val) (suc (count h (front ++ back))) =
              rw (e, before) at (c h) in
            subst
              (λ j.
                Counted
                  (lookup j (
                    if eqb_ℤ (val.listeners -ℤ pos 1) (pos 0)
                    then delete h s.waiter
                    else insert h (record val { listeners = val.listeners -ℤ pos 1 }) s.waiter))
                  (count j (front ++ back)))
              ((text_eq_iff h k).0 same)
              (left-Counted h s.waiter val (count h (front ++ back)) there)
        | inr other ↦
            let before : count k (front ++ w ∷ back) ≡ count k (front ++ back) =
              count-middle k w front back ∙ (rw other) in
            let there : Counted (lookup k s.waiter) (count k (front ++ back)) =
              rw before at (c k) in
            elim (Bool-cases (eqb_ℤ (val.listeners -ℤ pos 1) (pos 0))) [
              | inl b ↦ rw b (rw lookup-delete (rw other there))
              | inr b ↦ rw b (rw lookup-insert (rw other there))
            ]
      ])

pub release-low :
    (w : Wait) (k : Text) (front back : List Wait) (s : State) (val new : WaitTableEntry)
    → ((j : Text) (v : WaitTableEntry)
        → lookup j s.waiter ≡ some v
        → v.channel_closed ≡ false
        → lowest j (front ++ w ∷ back) ≡ some v.earliest_block)
    → lookup w.tx_hash s.waiter ≡ some val
    → val.channel_closed ≡ true
    → lookup k (release w.tx_hash s).1.waiter ≡ some new
    → new.channel_closed ≡ false
    → lowest k (front ++ back) ≡ some new.earliest_block
unfolding release
release-low w k front back s val new low known closed e is_open =
    let f = rw (known, release) at e in
    elim (Bool-cases (text_eq w.tx_hash k)) [
      | inr other ↦
          sym (lowest-other k w front back other)
          ∙ low k new
              (elim (Bool-cases (eqb_ℤ (val.listeners -ℤ pos 1) (pos 0))) [
                | inl b ↦ rw other at (rw lookup-delete at (rw b at f))
                | inr b ↦ rw other at (rw lookup-insert at (rw b at f))
              ])
              is_open
      | inl same ↦ absurd (elim (Bool-cases (eqb_ℤ (val.listeners -ℤ pos 1) (pos 0))) [
        | inl b ↦ let g = rw same at (rw lookup-delete at (rw b at f)) in cc
        | inr b ↦
            let g = some-inj (rw same at (rw lookup-insert at (rw b at f))) in
            let same_flag : true ≡ false = sym closed ∙ ap (λ x. x.channel_closed) g ∙ is_open in cc
      ])
    ]

pub release-unlocked :
    (h : Text) (s : State) (val : WaitTableEntry)
    → lookup h s.waiter ≡ some val
    → (release h s).1.waiter_locked ≡ s.waiter_locked
unfolding release
release-unlocked h s val e = rw (e, release)

pub release-IsSynced :
    (h : Text) (s : State) → AllValues IsSynced s.waiter → AllValues IsSynced (release h s).1.waiter
unfolding release
release-IsSynced h s y = elim (Option-cases (lookup h s.waiter)) [
  | inl e ↦ rw (e, release) y
  | inr (val, e) ↦
      rw (e, release)
        (elim (Bool-cases (eqb_ℤ (val.listeners -ℤ pos 1) (pos 0))) [
          | inl b ↦ rw b (AllValues-delete IsSynced h s.waiter y)
          | inr b ↦ rw b (
              AllValues-insert IsSynced h _ s.waiter (lookup-AllValues IsSynced h s.waiter val y e)
                y)
        ])
]
