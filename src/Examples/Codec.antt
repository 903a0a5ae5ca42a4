-- ===== src/Examples/Codec.antt =====
-- A codec of concrete bytes, for the JSON and the serialization that the examples run on: a number is
-- as many ones and a zero, a list its length and its elements.
use rosetta_thought.Prelude.{
  ℕ, zero, suc, ◌≡◌, refl, ap, Option, none, some, List, [], ◌∷◌, arith, length,
}
use rosetta_thought.Prelude.Int.{ℤ, pos, negsuc}
use rosetta_thought.Sdk.{Metadata, Json}
use rosetta_thought.Text.Hex.{Bytes, IsBytes}

-- A writer that puts bytes before others, a reader that takes them off, and that they agree.
pub record Codec (A : Type 0) : Type 0 where
  pub put : A → Bytes → Bytes
  pub get : Bytes → Option (A × Bytes)
  pub back : (a : A) (rest : Bytes) → get (put a rest) ≡ some (a, rest)
  pub good : (a : A) (rest : Bytes) → IsBytes rest → IsBytes (put a rest)

unfoldable put_nat : ℕ → Bytes → Bytes
put_nat zero rest = 0 ∷ rest
put_nat (suc n) rest = 1 ∷ put_nat n rest

abbrev suc_first : Option (ℕ × Bytes) → Option (ℕ × Bytes)
suc_first none = none
suc_first (some (n, rest)) = some (suc n, rest)

unfoldable get_nat : Bytes → Option (ℕ × Bytes)
get_nat [] = none
get_nat (zero ∷ rest) = some (0, rest)
get_nat (suc b ∷ rest) = suc_first (get_nat rest)

get_nat-put_nat : (n : ℕ) (rest : Bytes) → get_nat (put_nat n rest) ≡ some (n, rest)
unfolding get_nat put_nat
get_nat-put_nat zero rest = refl
get_nat-put_nat (suc n) rest = ap suc_first (get_nat-put_nat n rest)

put_nat-IsBytes : (n : ℕ) (rest : Bytes) → IsBytes rest → IsBytes (put_nat n rest)
unfolding put_nat
put_nat-IsBytes zero rest h = (omega arith, h)
put_nat-IsBytes (suc n) rest h = (omega arith, put_nat-IsBytes n rest h)

pub nat : Codec ℕ
nat = record { put = put_nat; get = get_nat; back = get_nat-put_nat; good = put_nat-IsBytes }

module _ {A B : Type 0} (first : Codec A) (second : Codec B) where
  abbrev with_first : A → Option (B × Bytes) → Option ((A × B) × Bytes)
  with_first a none = none
  with_first a (some (b, rest)) = some ((a, b), rest)

  abbrev get_second : Option (A × Bytes) → Option ((A × B) × Bytes)
  get_second none = none
  get_second (some (a, rest)) = with_first a (second.get rest)

  pair_back :
      (x : A × B) (rest : Bytes)
      → get_second (first.get (first.put x.0 (second.put x.1 rest))) ≡ some (x, rest)
  pair_back x rest = rw (first.back x.0 (second.put x.1 rest)) (rw (second.back x.1 rest) refl)

  pub pair : Codec (A × B)
  pair = record {
    put = λ x rest. first.put x.0 (second.put x.1 rest);
    get = λ bytes. get_second (first.get bytes);
    back = pair_back;
    good = λ x rest h. first.good x.0 _ (second.good x.1 rest h);
  }

-- The same bytes for another type.
module _ {A B : Type 0} (codec : Codec A) (to : B → A) (from : A → B)
    (same : (x : B) → from (to x) ≡ x) where
  abbrev from_first : Option (A × Bytes) → Option (B × Bytes)
  from_first none = none
  from_first (some (a, rest)) = some (from a, rest)

  via_back :
      (x : B) (rest : Bytes) → from_first (codec.get (codec.put (to x) rest)) ≡ some (x, rest)
  via_back x rest = rw (codec.back (to x) rest) (rw (same x) refl)

  pub via : Codec B
  via = record {
    put = λ x rest. codec.put (to x) rest;
    get = λ bytes. from_first (codec.get bytes);
    back = via_back;
    good = λ x rest h. codec.good (to x) rest h;
  }

module _ {A : Type 0} (codec : Codec A) where
  unfoldable put_all : List A → Bytes → Bytes
  put_all [] rest = rest
  put_all (x ∷ xs) rest = codec.put x (put_all xs rest)

  abbrev with_rest : A → Option (List A × Bytes) → Option (List A × Bytes)
  with_rest x none = none
  with_rest x (some (xs, rest)) = some (x ∷ xs, rest)

  unfoldable get_all : ℕ → Bytes → Option (List A × Bytes)
  get_all zero bytes = some ([], bytes)
  get_all (suc n) bytes = elim (codec.get bytes) [
    | none ↦ none
    | some x ↦ with_rest x.0 (get_all n x.1)
  ]

  get_all-put_all :
      (xs : List A) (rest : Bytes) → get_all (length xs) (put_all xs rest) ≡ some (xs, rest)
  unfolding get_all put_all
  get_all-put_all [] rest = refl
  get_all-put_all (x ∷ xs) rest =
      rw (codec.back x (put_all xs rest)) (rw (get_all-put_all xs rest) refl)

  put_all-IsBytes : (xs : List A) (rest : Bytes) → IsBytes rest → IsBytes (put_all xs rest)
  unfolding put_all
  put_all-IsBytes [] rest h = h
  put_all-IsBytes (x ∷ xs) rest h = codec.good x _ (put_all-IsBytes xs rest h)

  abbrev get_list : Option (ℕ × Bytes) → Option (List A × Bytes)
  get_list none = none
  get_list (some (n, rest)) = get_all n rest

  list_back :
      (xs : List A) (rest : Bytes)
      → get_list (get_nat (put_nat (length xs) (put_all xs rest))) ≡ some (xs, rest)
  list_back xs rest = rw (get_nat-put_nat (length xs) (put_all xs rest)) (get_all-put_all xs rest)

  pub list : Codec (List A)
  list = record {
    put = λ xs rest. put_nat (length xs) (put_all xs rest);
    get = λ bytes. get_list (get_nat bytes);
    back = list_back;
    good = λ xs rest h. put_nat-IsBytes (length xs) _ (put_all-IsBytes xs rest h);
  }

  abbrev value : Option (A × Bytes) → Option A
  value none = none
  value (some (x, rest)) = some x

  -- A whole text of bytes.
  abbrev pub encode : A → Bytes
  encode x = codec.put x []

  abbrev pub decode : Bytes → Option A
  decode bytes = value (codec.get bytes)

  pub decode-encode : (x : A) → decode (encode x) ≡ some x
  decode-encode x = ap value (codec.back x [])

  pub encode-IsBytes : (x : A) → IsBytes (encode x)
  encode-IsBytes x = codec.good x [] tt

abbrev of_int : ℤ → ℕ × ℕ
of_int (pos n) = (0, n)
of_int (negsuc n) = (1, n)

abbrev to_int : ℕ × ℕ → ℤ
to_int (zero, n) = pos n
to_int (suc _, n) = negsuc n

of_int_back : (n : ℤ) → to_int (of_int n) ≡ n
of_int_back (pos n) = refl
of_int_back (negsuc n) = refl

pub int : Codec ℤ
int = via (pair nat nat) of_int to_int of_int_back

pub text : Codec (List ℕ)
text = list nat

abbrev of_option : {A : Type 0} → Option A → List A
of_option none = []
of_option (some x) = x ∷ []

abbrev to_option : {A : Type 0} → List A → Option A
to_option [] = none
to_option (x ∷ xs) = some x

of_option_back : {A : Type 0} (o : Option A) → to_option (of_option o) ≡ o
of_option_back none = refl
of_option_back (some x) = refl

pub option : {A : Type 0} → Codec A → Codec (Option A)
option codec = via (list codec) of_option to_option of_option_back

-- Metadata that holds one string.
module _ {A : Type 0} (codec : Codec A) where
  abbrev pub as_json : A → Metadata
  as_json x = Metadata.field [] (Json.string (encode codec x)) Metadata.empty

  abbrev pub of_json : Metadata → Option A
  of_json (Metadata.field key (Json.string value) rest) = decode codec value
  of_json _ = none
