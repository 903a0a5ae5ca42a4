-- ===== src/Text/Split.antt =====
-- `strings.Split(s, ":")`.
use rosetta_thought.Prelude.{
  Bool, true, false, ℕ, ◌≡◌, refl, ◌≢◌, List, [], ◌∷◌, ◌++◌, arith, ◌==◌, if◌then◌else◌, All,
}

-- The separator of a coin identifier.
abbrev pub colon : ℕ
colon = b':'

abbrev pub prepend : ℕ → List (List ℕ) → List (List ℕ)
prepend c [] = (c ∷ []) ∷ []
prepend c (w ∷ ws) = (c ∷ w) ∷ ws

unfoldable pub split : List ℕ → List (List ℕ)
split [] = [] ∷ []
split (c ∷ s) = let rest = split s in if c == colon then [] ∷ rest else prepend c rest

abbrev pub NoColon : List ℕ → Type 0
NoColon = All (λ c. c ≢ colon)

-- A text with no separator is one word.
pub split-NoColon : (s : List ℕ) → NoColon s → split s ≡ s ∷ []
unfolding split
split-NoColon [] h = refl
split-NoColon (c ∷ s) h = ground (arith, split-NoColon s h.1)

pub split-append : (s t : List ℕ) → NoColon s → split (s ++ colon ∷ t) ≡ s ∷ split t
unfolding split
split-append [] t h = refl
split-append (c ∷ s) t h = ground (arith, split-append s t h.1)

-- The test for it.
abbrev pub no_colon : List ℕ → Bool
no_colon [] = true
no_colon (c ∷ s) = let rest = no_colon s in if c == colon then false else rest

pub no_colon-NoColon : (s : List ℕ) → no_colon s ≡ true → NoColon s
no_colon-NoColon [] h = tt
no_colon-NoColon (c ∷ s) h = (ground (arith, h), no_colon-NoColon s (ground (arith, h)))
