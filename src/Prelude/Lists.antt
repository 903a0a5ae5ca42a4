-- ===== src/Prelude/Lists.antt =====
-- Lists measured and indexed by native numbers, under the library's names.
use Prim.Native.Nat.{ℕ, zero, suc, ◌+◌}
use mathlib.Core.Path.{◌≡◌, refl, ap}
use mathlib.Core.List.{List, [], ◌∷◌, ◌++◌, map}
use mathlib.Core.Logic.{◌⊎◌, inl, inr}
use mathlib.Core.Option.{Option, none, some}
use native.Mathlib.Omega.{arith}

module _ {ℓ} {A : Type ℓ} where
  abbrev pub length : List A → ℕ
  length [] = 0
  length (x ∷ xs) = suc (length xs)

  abbrev pub get_elem? : List A → ℕ → Option A
  get_elem? [] i = none
  get_elem? (x ∷ xs) zero = some x
  get_elem? (x ∷ xs) (suc i) = get_elem? xs i

  abbrev pub get_or : List A → ℕ → A → A
  get_or [] i d = d
  get_or (x ∷ xs) zero d = x
  get_or (x ∷ xs) (suc i) d = get_or xs i d

  abbrev pub take : ℕ → List A → List A
  take zero xs = []
  take (suc n) [] = []
  take (suc n) (x ∷ xs) = x ∷ take n xs

  abbrev pub drop : ℕ → List A → List A
  drop zero xs = xs
  drop (suc n) [] = []
  drop (suc n) (x ∷ xs) = drop n xs

  pub length-append : (xs ys : List A) → length (xs ++ ys) ≡ length xs + length ys
  length-append [] ys = omega arith
  length-append (x ∷ xs) ys = omega (arith, length-append xs ys)

  -- An element found by its index, from what is left when the ones before it are dropped.
  pub get_elem?-drop :
      (i : ℕ) (xs : List A) {x : A} {ys : List A} → drop i xs ≡ x ∷ ys → get_elem? xs i ≡ some x
  get_elem?-drop zero [] h = absurd (cc)
  get_elem?-drop zero (x ∷ xs) h = cc
  get_elem?-drop (suc i) [] h = absurd (cc)
  get_elem?-drop (suc i) (x ∷ xs) h = get_elem?-drop i xs h

  pub drop-suc :
      (i : ℕ) (xs : List A) {x : A} {ys : List A} → drop i xs ≡ x ∷ ys → drop (suc i) xs ≡ ys
  drop-suc zero [] h = absurd (cc)
  drop-suc zero (x ∷ xs) h = cc
  drop-suc (suc i) [] h = absurd (cc)
  drop-suc (suc i) (x ∷ xs) h = drop-suc i xs h

module _ {ℓ} {A : Type ℓ} where
  pub length-map {κ} : {B : Type κ} (xs : List A) (f : A → B) → length (map f xs) ≡ length xs
  length-map [] f = refl
  length-map (x ∷ xs) f = ap suc (length-map xs f)

-- A predicate on every element, computing to a tuple.
abbrev pub All {ℓ κ} : {A : Type ℓ} → (A → Type κ) → List A → Type κ
All P [] = Unit
All P (x ∷ xs) = P x × All P xs

-- An element in a list that is put together of two is in the first or in the second.
pub split_append {ℓ} :
    {A : Type ℓ} (xs ys front : List A) (a : A) (rest : List A)
    → xs ++ ys ≡ front ++ a ∷ rest
    → ((f : List A) × (b : List A) × (xs ≡ f ++ a ∷ b)) ⊎ ((f : List A) × (ys ≡ f ++ a ∷ rest))
split_append [] ys front a rest h = inr (front, h)
split_append (x ∷ xs) ys [] a rest h = inl ([], xs, cc)
split_append (x ∷ xs) ys (y ∷ front) a rest h = elim (split_append xs ys front a rest (cc)) [
  | inl (f, b, e) ↦ inl (y ∷ f, b, cc)
  | inr (f, e) ↦ inr (f, e)
]

pub All-append {ℓ κ} :
    {A : Type ℓ} (P : A → Type κ) (xs ys : List A) → All P (xs ++ ys) → All P xs × All P ys
All-append P [] ys h = (tt, h)
All-append P (x ∷ xs) ys (first, rest) =
    let (left, right) = All-append P xs ys rest in ((first, left), right)
