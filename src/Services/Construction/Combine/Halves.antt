-- ===== src/Services/Construction/Combine/Halves.antt =====
-- How /construction/combine cuts a signature into R and S.
use rosetta_thought.Prelude.{
  ℕ, zero, suc, ◌+◌, ◌≤◌, ◌<◌, ◌≡◌, ◌≢◌, refl, ap, ◌∙◌, [], ◌∷◌, ◌++◌, length, length-append, take,
  drop, leb, ==_iff, arith, Bool-cases, inl, inr, append_assoc, append-nil,
}
use rosetta_thought.Outcome.{ok, panic}
use rosetta_thought.Text.Hex.{Bytes}
use rosetta_thought.Services.Construction.Combine.{Slice, strip_zeros, thirty_two, signature_halves}

take-append : (n : ℕ) (xs ys : Bytes) → length xs ≡ n → take n (xs ++ ys) ≡ xs
take-append zero [] ys h = refl
take-append zero (x ∷ xs) ys h = absurd (ground arith)
take-append (suc n) [] ys h = absurd (ground arith)
take-append (suc n) (x ∷ xs) ys h = ap (λ zs. x ∷ zs) (take-append n xs ys (omega arith))

drop-append : (n : ℕ) (xs ys : Bytes) → length xs ≡ n → drop n (xs ++ ys) ≡ ys
drop-append zero [] ys h = refl
drop-append zero (x ∷ xs) ys h = absurd (ground arith)
drop-append (suc n) [] ys h = absurd (ground arith)
drop-append (suc n) (x ∷ xs) ys h = drop-append n xs ys (omega arith)

length-strip_zeros : (bs : Bytes) → length (strip_zeros bs) ≤ length bs
unfolding strip_zeros
length-strip_zeros [] = omega arith
length-strip_zeros (b ∷ bs) = ground (arith, length-strip_zeros bs)

strip_zeros-nonzero : (b : ℕ) (bs : Bytes) → b ≢ 0 → strip_zeros (b ∷ bs) ≡ b ∷ bs
unfolding strip_zeros
strip_zeros-nonzero b bs h = ground (arith, ==_iff b 0)

strip_zeros-zero : (bs : Bytes) → length (strip_zeros (0 ∷ bs)) ≤ length bs
unfolding strip_zeros
strip_zeros-zero bs = length-strip_zeros bs

thirty_two-ok :
    (low : ℕ) (raw : Slice)
    → low + 32 ≤ length (raw.elements ++ raw.spare)
    → thirty_two low raw ≡ ok (take 32 (drop low (raw.elements ++ raw.spare)))
unfolding thirty_two
thirty_two-ok low raw h = ground arith

thirty_two_panics :
    (low : ℕ) (raw : Slice)
    → length (raw.elements ++ raw.spare) < low + 32
    → thirty_two low raw ≡ panic
unfolding thirty_two
thirty_two_panics low raw h = ground arith

-- A signature of 64 bytes that does not start with a zero byte is cut into its two halves.
pub signature_halves-append :
    (b : ℕ) (r s spare : Bytes)
    → b ≢ 0
    → length r ≡ 31
    → length s ≡ 32
    → signature_halves (record { elements = (b ∷ r) ++ s; spare = spare }) ≡ ok (b ∷ r, s)
unfolding signature_halves
signature_halves-append b r s spare nonzero r_len s_len =
    let raw : Slice = record { elements = b ∷ (r ++ s); spare = spare } in
    let long : length ((b ∷ (r ++ s)) ++ spare) ≡ 64 + length spare =
      omega (arith, length-append r s, length-append (r ++ s) spare) in
    let high : take 32 ((b ∷ (r ++ s)) ++ spare) ≡ b ∷ r =
      ap (λ xs. take 32 (b ∷ xs)) (append_assoc r s spare)
      ∙ take-append 32 (b ∷ r) (s ++ spare) (omega arith) in
    let low : take 32 (drop 32 ((b ∷ (r ++ s)) ++ spare)) ≡ s =
      ap (λ xs. take 32 (drop 31 xs)) (append_assoc r s spare)
      ∙ ap (λ xs. take 32 xs) (drop-append 31 r (s ++ spare) r_len)
      ∙ take-append 32 s spare s_len in
    rw (strip_zeros-nonzero b (r ++ s) nonzero) (
      rw (thirty_two-ok 0 raw (omega arith), high)
        (rw (thirty_two-ok 32 raw (omega arith), low) refl))

-- A signature of 64 bytes that starts with a zero byte makes the cut panic, if its slice has no
-- capacity beyond them.
pub signature_halves_panics :
    (rest : Bytes)
    → length rest ≡ 63
    → signature_halves (record { elements = 0 ∷ rest; spare = [] }) ≡ panic
unfolding signature_halves
signature_halves_panics rest len =
    let raw : Slice = record { elements = strip_zeros (0 ∷ rest); spare = [] } in
    let short : length (strip_zeros (0 ∷ rest) ++ []) ≤ 63 =
      rw append-nil (omega (arith, strip_zeros-zero rest)) in
    elim (Bool-cases (leb 32 (length (strip_zeros (0 ∷ rest) ++ [])))) [
      | inl enough ↦
          rw (thirty_two-ok 0 raw (ground (arith, enough)))
            (rw (thirty_two_panics 32 raw (omega arith)) refl)
      | inr few ↦ rw (thirty_two_panics 0 raw (ground (arith, few))) refl
    ]
