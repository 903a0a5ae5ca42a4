-- ===== src/Indexer/Interleaving/Counting.antt =====
-- How often a transaction hash is waited for, and for which height.
use rosetta_thought.Prelude.{
  ℕ, suc, ◌≡◌, refl, ◌<◌, List, [], ◌∷◌, ◌++◌, arith, if◌then◌else◌, All, Bool-cases, inl, inr,
  Option, none, some, true, false,
}
use rosetta_thought.Prelude.Int.{ℤ, ltb_ℤ}
use rosetta_thought.Map.{Map, lookup, insert, delete}
use rosetta_thought.Text.{Text, text_eq, text_eq_refl}
use rosetta_thought.Indexer.Interleaving.{Wait}

abbrev pub count : Text → List Wait → ℕ
count k [] = 0
count k (w ∷ ws) = let rest = count k ws in if text_eq w.tx_hash k then suc rest else rest

pub count-middle :
    (k : Text) (w : Wait) (xs ys : List Wait)
    → count k (xs ++ w ∷ ys)
      ≡ (if text_eq w.tx_hash k then suc (count k (xs ++ ys)) else count k (xs ++ ys))
count-middle k w [] ys = refl
count-middle k w (y ∷ xs) ys = ground (arith, count-middle k w xs ys)

-- A hash that is waited for is counted.
pub count_pos : (w : Wait) (xs ys : List Wait) → 0 < count w.tx_hash (xs ++ w ∷ ys)
count_pos w xs ys = ground (arith, count-middle w.tx_hash w xs ys, text_eq_refl w.tx_hash)

-- The lowest height for which a hash is waited for.
abbrev pub lower : ℤ → Option ℤ → ℤ
lower height none = height
lower height (some low) = if ltb_ℤ height low then height else low

abbrev pub lowest : Text → List Wait → Option ℤ
lowest k [] = none
lowest k (w ∷ ws) =
    let rest = lowest k ws in if text_eq w.tx_hash k then some (lower w.height rest) else rest

pub lowest-other :
    (k : Text) (w : Wait) (xs ys : List Wait)
    → text_eq w.tx_hash k ≡ false
    → lowest k (xs ++ w ∷ ys) ≡ lowest k (xs ++ ys)
lowest-other k w [] ys other = rw other refl
lowest-other k w (x ∷ xs) ys other = rw (lowest-other k w xs ys other) refl

-- A wait that is given up is counted, and its height too.
pub give_up-count :
    (k : Text) (w : Wait) (xs ys : List Wait)
    → count k (xs ++ record w { is_given_up = true } ∷ ys) ≡ count k (xs ++ w ∷ ys)
give_up-count k w [] ys = refl
give_up-count k w (x ∷ xs) ys = rw (give_up-count k w xs ys) refl

pub give_up-lowest :
    (k : Text) (w : Wait) (xs ys : List Wait)
    → lowest k (xs ++ record w { is_given_up = true } ∷ ys) ≡ lowest k (xs ++ w ∷ ys)
give_up-lowest k w [] ys = refl
give_up-lowest k w (x ∷ xs) ys = rw (give_up-lowest k w xs ys) refl

pub count-lowest : (k : Text) (ws : List Wait) → count k ws ≡ 0 → lowest k ws ≡ none
count-lowest k [] e = refl
count-lowest k (w ∷ ws) e = elim (Bool-cases (text_eq w.tx_hash k)) [
  | inl same ↦ absurd (let f = rw same at e in cc)
  | inr other ↦ rw other (count-lowest k ws (rw other at e))
]

pub lowest-count : (k : Text) (ws : List Wait) (n : ℤ) → lowest k ws ≡ some n → 0 < count k ws
lowest-count k [] n e = cc
lowest-count k (w ∷ ws) n e = elim (Bool-cases (text_eq w.tx_hash k)) [
  | inl same ↦ rw same (omega arith)
  | inr other ↦ rw other (lowest-count k ws n (rw other at e))
]

-- A predicate on every value of a map, kept by its operations.
module _ {ℓ κ} {V : Type ℓ} (P : V → Type κ) where
  abbrev pub AllValues : Map V → Type κ
  AllValues = All (λ entry. P entry.1)

  pub AllValues-insert :
      (k : Text) (v : V) (m : Map V) → P v → AllValues m → AllValues (insert k v m)
  unfolding insert
  AllValues-insert k v [] p h = (p, tt)
  AllValues-insert k v ((j, w) ∷ m) p h = elim (Bool-cases (text_eq j k)) [
    | inl e ↦ rw e (p, h.1)
    | inr e ↦ rw e (h.0, AllValues-insert k v m p h.1)
  ]

  pub AllValues-delete : (k : Text) (m : Map V) → AllValues m → AllValues (delete k m)
  unfolding delete
  AllValues-delete k [] h = h
  AllValues-delete k ((j, w) ∷ m) h = elim (Bool-cases (text_eq j k)) [
    | inl e ↦ rw e (AllValues-delete k m h.1)
    | inr e ↦ rw e (h.0, AllValues-delete k m h.1)
  ]

  pub lookup-AllValues : (k : Text) (m : Map V) (v : V) → AllValues m → lookup k m ≡ some v → P v
  unfolding lookup
  lookup-AllValues k [] v h e = cc
  lookup-AllValues k ((j, w) ∷ m) v h e = elim (Bool-cases (text_eq j k)) [
    | inl q ↦ let same : w ≡ v = ground arith in rw (← same) h.0
    | inr q ↦ lookup-AllValues k m v h.1 (rw (q, lookup) at e)
  ]
