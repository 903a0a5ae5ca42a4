-- ===== src/Indexer/Interleaving/Entering.antt =====
-- What entering a wait keeps of a wait table.
use rosetta_thought.Prelude.{
  ℕ, suc, ◌≡◌, refl, ◌∙◌, false, List, ◌∷◌, arith, none, some, Bool-cases, Option-cases, inl, inr,
  ap, sym,
}
use mathlib.Core.Path.{subst}
use rosetta_thought.Prelude.Int.{ℤ, ltb_ℤ, ◌+ℤ◌}
use rosetta_thought.Map.{Map, lookup, lookup-insert, lookup-insert_self}
use rosetta_thought.Text.{Text, text_eq, text_eq_iff, text_eq_refl}
use rosetta_thought.Indexer.WaitTable.{WaitTableEntry, join, or_fresh, register}
use rosetta_thought.Indexer.Interleaving.{Wait}
use rosetta_thought.Indexer.Interleaving.Counting.{
  count, lowest, lower, count-lowest, AllValues, AllValues-insert, lookup-AllValues,
}
use rosetta_thought.Indexer.Interleaving.Closing.{IsSynced, Counted, some-inj}

joined-Counted :
    (h : Text) (height : ℤ) (table : Map WaitTableEntry) (n : ℕ)
    → Counted (lookup h table) n
    → Counted (some (join height (or_fresh height (lookup h table)))) (suc n)
unfolding ◌+ℤ◌
joined-Counted h height table n c = elim (Option-cases (lookup h table)) [
  | inl e ↦ rw e (let d : Counted none n = rw e at c in ground arith)
  | inr (val, e) ↦ rw e (let d : Counted (some val) n = rw e at c in ground arith)
]

pub register-Counted :
    (w : Wait) (k : Text) (table : Map WaitTableEntry) (waits : List Wait)
    → ((j : Text) → Counted (lookup j table) (count j waits))
    → Counted (lookup k (register w.tx_hash w.height table)) (count k (w ∷ waits))
unfolding register
register-Counted w k table waits c = elim (Bool-cases (text_eq w.tx_hash k)) [
  | inl same ↦
      subst (λ j. Counted (lookup j (register w.tx_hash w.height table)) (count j (w ∷ waits)))
        ((text_eq_iff w.tx_hash k).0 same)
        (rw (lookup-insert_self, text_eq_refl w.tx_hash)
          (joined-Counted w.tx_hash w.height table (count w.tx_hash waits) (c w.tx_hash)))
  | inr other ↦ rw lookup-insert (rw other (c k))
]

joined-low :
    (h : Text) (height : ℤ) (table : Map WaitTableEntry) (waits : List Wait)
    → Counted (lookup h table) (count h waits)
    → ((val : WaitTableEntry)
        → lookup h table ≡ some val
        → val.channel_closed ≡ false
        → lowest h waits ≡ some val.earliest_block)
    → (join height (or_fresh height (lookup h table))).channel_closed ≡ false
    → some (lower height (lowest h waits))
      ≡ some (join height (or_fresh height (lookup h table))).earliest_block
joined-low h height table waits c low is_open = elim (Option-cases (lookup h table)) [
  | inl e ↦
      let d : Counted none (count h waits) = rw e at c in
      rw (e, count-lowest h waits d)
        (elim (Bool-cases (ltb_ℤ height height)) [ inl b ↦ rw b refl | inr b ↦ rw b refl ])
  | inr (val, e) ↦ let f = rw e at is_open in rw (e, low val e f) refl
]

pub register-low :
    (w : Wait) (k : Text) (table : Map WaitTableEntry) (waits : List Wait)
    → ((j : Text) → Counted (lookup j table) (count j waits))
    → ((j : Text) (val : WaitTableEntry)
        → lookup j table ≡ some val
        → val.channel_closed ≡ false
        → lowest j waits ≡ some val.earliest_block)
    → (val : WaitTableEntry) → lookup k (register w.tx_hash w.height table) ≡ some val
    → val.channel_closed ≡ false
    → lowest k (w ∷ waits) ≡ some val.earliest_block
unfolding register
register-low w k table waits c low val e is_open = elim (Bool-cases (text_eq w.tx_hash k)) [
  | inr other ↦ rw other (low k val (rw other at (rw lookup-insert at e)) is_open)
  | inl same ↦
      let h = w.tx_hash in
      let at_h : h ≡ k = (text_eq_iff h k).0 same in
      let is : join w.height (or_fresh w.height (lookup h table)) ≡ val =
        some-inj (rw same at (rw lookup-insert at e)) in
      rw same (
        ap (λ j. some (lower w.height (lowest j waits))) (sym at_h)
        ∙ joined-low h w.height table waits (c h) (low h) (ap (λ x. x.channel_closed) is ∙ is_open)
        ∙ ap (λ x. some x.earliest_block) is)
]

pub register-IsSynced :
    (h : Text) (height : ℤ) (table : Map WaitTableEntry)
    → AllValues IsSynced table
    → AllValues IsSynced (register h height table)
unfolding register
register-IsSynced h height table s = elim (Option-cases (lookup h table)) [
  | inl e ↦ rw e (AllValues-insert IsSynced h _ table refl s)
  | inr (val, e) ↦
      rw e (AllValues-insert IsSynced h _ table (lookup-AllValues IsSynced h table val s e) s)
]
