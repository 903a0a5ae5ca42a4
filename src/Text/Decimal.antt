-- ===== src/Text/Decimal.antt =====
-- `strconv.FormatInt(n, 10)`, `fmt.Sprintf("%d", n)` and the digit loop of `strconv.ParseUint`.
use rosetta_thought.Prelude.{
  ℕ, zero, suc, ◌+◌, ◌-◌, ◌*◌, ◌/◌, ◌%◌, ◌<◌, ◌≡◌, refl, ◌≢◌, ◌&&◌, Option, none, some, List, [],
  ◌∷◌, ◌++◌, arith, ltb, leb, Bool-cases, Option-cases, inl, inr, if◌then◌else◌,
}
use rosetta_thought.Prelude.Int.{ℤ, pos, negsuc}
use rosetta_thought.Text.Split.{colon, NoColon}

abbrev pub digit : ℕ → ℕ
digit d = 48 + d

-- The digits of `n`, for any fuel above `n`.
unfoldable pub digits : ℕ → ℕ → List ℕ
digits zero n = []
digits (suc f) n =
    let rest = digits f (n / 10) in if ltb n 10 then digit n ∷ [] else rest ++ digit (n % 10) ∷ []

unfoldable pub format_uint : ℕ → List ℕ
unfolding digits
format_uint n = digits (suc n) n

unfoldable pub format_int : ℤ → List ℕ
unfolding format_uint
format_int (pos n) = format_uint n
format_int (negsuc n) = b'-' ∷ format_uint (suc n)

-- The value of a run of digits after `acc`; `none` at any other byte.
unfoldable pub read_digits : ℕ → List ℕ → Option ℕ
read_digits acc [] = some acc
read_digits acc (c ∷ s) =
    let rest = read_digits (acc * 10 + (c - 48)) s in if leb 48 c && leb c 57 then rest else none

-- `strconv.ParseUint(s, 10, 32)`, less which error it is.
unfoldable pub parse_uint32 : List ℕ → Option ℕ
parse_uint32 [] = none
parse_uint32 (c ∷ s) = elim (read_digits 0 (c ∷ s)) [
  | none ↦ none
  | some n ↦ if ltb n 4294967296 then some n else none
]

read_digits-append :
    (acc : ℕ) (s : List ℕ) (v d : ℕ)
    → d < 10
    → read_digits acc s ≡ some v
    → read_digits acc (s ++ digit d ∷ []) ≡ some (v * 10 + d)
unfolding read_digits
read_digits-append acc [] v d hd h = ground arith
read_digits-append acc (c ∷ s) v d hd h =
    ground (arith, read_digits-append (acc * 10 + (c - 48)) s v d hd)

read_digits-digits : (f n : ℕ) → n < f → read_digits 0 (digits f n) ≡ some n
unfolding digits
read_digits-digits zero n h = absurd (omega arith)
read_digits-digits (suc f) n h = elim (Bool-cases (ltb n 10)) [
  | inl small ↦ rw small (unfold read_digits in ground arith)
  | inr large ↦ rw large (
      rw
        (read_digits-append 0 (digits f (n / 10)) (n / 10) (n % 10) (omega arith)
          (read_digits-digits f (n / 10) (ground arith)))
        (ground arith))
]

-- Printed digits are read back.
pub read_digits-format_uint : (n : ℕ) → read_digits 0 (format_uint n) ≡ some n
unfolding format_uint
read_digits-format_uint n = read_digits-digits (suc n) n (omega arith)

append-cons_ne : (s : List ℕ) (d : ℕ) → s ++ d ∷ [] ≢ []
append-cons_ne [] d h = cc
append-cons_ne (c ∷ s) d h = cc

digits-ne-nil : (f n : ℕ) → digits (suc f) n ≢ []
unfolding digits
digits-ne-nil f n = elim (Bool-cases (ltb n 10)) [
  | inl small ↦ rw small (λ h. cc)
  | inr large ↦ rw large (append-cons_ne (digits f (n / 10)) (digit (n % 10)))
]

parse_uint32_of_read :
    (s : List ℕ) (n : ℕ)
    → s ≢ []
    → read_digits 0 s ≡ some n
    → n < 4294967296
    → parse_uint32 s ≡ some n
unfolding parse_uint32
parse_uint32_of_read [] n ne h lt = absurd (ne refl)
parse_uint32_of_read (c ∷ s) n ne h lt = rw (h, parse_uint32) (ground arith)

-- `ParseUint` reads back what `%d` prints, for the values of a uint32.
pub parse_uint32-format_uint : (n : ℕ) → n < 4294967296 → parse_uint32 (format_uint n) ≡ some n
parse_uint32-format_uint n lt =
    parse_uint32_of_read (format_uint n) n (unfold format_uint in digits-ne-nil n n)
      (read_digits-format_uint n) lt

All-NoColon-append : (s : List ℕ) (c : ℕ) → NoColon s → c ≢ colon → NoColon (s ++ c ∷ [])
All-NoColon-append [] c h hc = (hc, tt)
All-NoColon-append (d ∷ s) c h hc = (h.0, All-NoColon-append s c h.1 hc)

digits-NoColon : (f n : ℕ) → NoColon (digits f n)
unfolding digits
digits-NoColon zero n = tt
digits-NoColon (suc f) n = elim (Bool-cases (ltb n 10)) [
  | inl small ↦ rw small (ground arith, tt)
  | inr large ↦
      rw large (All-NoColon-append (digits f (n / 10)) _ (digits-NoColon f (n / 10)) (omega arith))
]

pub format_uint-NoColon : (n : ℕ) → NoColon (format_uint n)
unfolding format_uint
format_uint-NoColon n = digits-NoColon (suc n) n

pub parse_uint32_bound : (s : List ℕ) (n : ℕ) → parse_uint32 s ≡ some n → n < 4294967296
unfolding parse_uint32
parse_uint32_bound [] n h = cc
parse_uint32_bound (c ∷ s) n h = elim (Option-cases (read_digits 0 (c ∷ s))) [
  | inl nothing ↦ cc (rw (nothing, parse_uint32) at h)
  | inr (m, read) ↦
      let tested : (if ltb m 4294967296 then some m else none) ≡ some n =
        rw (read, parse_uint32) at h in
      ground arith
]
