-- ===== src/Outcome.antt =====
-- What a Go function that returns `(A, error)` does: it returns a value, returns an error, or panics.
use rosetta_thought.Prelude.{
  ◌≡◌, ◌≢◌, ◌⊎◌, inl, inr, refl, Option, none, some, List, [], ◌∷◌, Bool, true, false,
  if◌then◌else◌,
}

pub data Outcome {ℓ} (E : Type 0) (A : Type ℓ) : Type ℓ where
  ok : A → Outcome E A
  err : E → Outcome E A
  panic : Outcome E A

infixl 5 ◌>>=◌ ◌>>◌
abbrev pub ◌>>=◌ {ℓ κ} :
    {E : Type 0} {A : Type ℓ} {B : Type κ} → Outcome E A → (A → Outcome E B) → Outcome E B
ok a >>= f = f a
err e >>= f = err e
panic >>= f = panic

abbrev pub ◌>>◌ {ℓ} : {E : Type 0} {B : Type ℓ} → Outcome E (Unit {0}) → Outcome E B → Outcome E B
m >> k = m >>= λ _. k

-- `return nil, wrap(err)`: the error goes into another type, or gets a wrapper.
abbrev pub map_err {ℓ} : {E F : Type 0} {A : Type ℓ} → (E → F) → Outcome E A → Outcome F A
map_err f (ok a) = ok a
map_err f (err e) = err (f e)
map_err f panic = panic

-- A `nil` pointer that is dereferenced, or an index out of range.
abbrev pub deref {ℓ} : {E : Type 0} {A : Type ℓ} → Option A → Outcome E A
deref none = panic
deref (some a) = ok a

pub deref-eq-ok {ℓ} :
    {E : Type 0} {A : Type ℓ} (o : Option A) (a : A) → deref {E = E} o ≡ ok a → o ≡ some a
deref-eq-ok none a h = cc
deref-eq-ok (some b) a h = cc

-- `(a, error)` of a callee that cannot panic.
abbrev pub or_err {ℓ} : {E : Type 0} {A : Type ℓ} → E → Option A → Outcome E A
or_err e none = err e
or_err e (some a) = ok a

module _ {ℓ κ} {E : Type 0} {A : Type ℓ} {B : Type κ} where
  -- Inversion of a successful bind.
  pub >>=-eq-ok :
      (action : Outcome E A) (next : A → Outcome E B) {result : B}
      → (action >>= next) ≡ ok result
      → (a : A) × (action ≡ ok a) × (next a ≡ ok result)
  >>=-eq-ok panic next same = cc
  >>=-eq-ok (err e) next same = cc
  >>=-eq-ok (ok a) next same = (a, refl, same)

  -- Inversion of a bind that fails.
  pub >>=-eq-err :
      (m : Outcome E A) (f : A → Outcome E B) {e : E}
      → (m >>= f) ≡ err e
      → (m ≡ err e) ⊎ ((a : A) × (m ≡ ok a) × (f a ≡ err e))
  >>=-eq-err (ok a) f h = inr (a, refl, h)
  >>=-eq-err (err e) f h = inl (cc)
  >>=-eq-err panic f h = absurd (cc)

  -- A bind makes no error that neither part makes.
  pub >>=-ne-err :
      (m : Outcome E A) (f : A → Outcome E B) (e : E)
      → m ≢ err e
      → ((a : A) → m ≡ ok a → f a ≢ err e)
      → (m >>= f) ≢ err e
  >>=-ne-err (ok a) f e hm hf h = hf a refl h
  >>=-ne-err (err x) f e hm hf h = hm (cc)
  >>=-ne-err panic f e hm hf h = cc

  -- `for _, x := range xs { y, err := f(x); if err != nil { return err }; ys = append(ys, y) }`.
  unfoldable pub traverse : (A → Outcome E B) → List A → Outcome E (List B)
  traverse f [] = ok []
  traverse f (x ∷ xs) = do y ← f x; ys ← traverse f xs; ok (y ∷ ys)

module _ {ℓ} {E : Type 0} {A : Type ℓ} where
  pub ok-same : {a b : A} → ◌≡◌ {A = Outcome E A} (ok a) (ok b) → a ≡ b
  ok-same h = cc

  pub or_err-eq-ok : (e : E) (o : Option A) (a : A) → or_err e o ≡ ok a → o ≡ some a
  or_err-eq-ok e none a h = cc
  or_err-eq-ok e (some b) a h = cc

  -- Inversion of a successful test.
  pub if-eq-ok :
      (test : Bool) (x y : Outcome E A) {a : A}
      → (if test then x else y) ≡ ok a
      → ((test ≡ true) × (x ≡ ok a)) ⊎ ((test ≡ false) × (y ≡ ok a))
  if-eq-ok true x y h = inl (refl, h)
  if-eq-ok false x y h = inr (refl, h)

module _ {ℓ κ} {E : Type 0} {A : Type ℓ} {B : Type κ} where
  -- Two binds of the same action whose rests agree.
  pub >>=-same :
      {action other : Outcome E A} {f g : A → Outcome E B}
      → action ≡ other
      → ((a : A) → f a ≡ g a)
      → (action >>= f) ≡ (other >>= g)
  >>=-same {action} {other} {f} {g} e h = rw e (go other)
    where
      go : (m : Outcome E A) → (m >>= f) ≡ (m >>= g)
      go (ok a) = h a
      go (err x) = refl
      go panic = refl

  pub >>=-under :
      (action : Outcome E A) {f g : A → Outcome E B}
      → ((a : A) → f a ≡ g a)
      → (action >>= f) ≡ (action >>= g)
  >>=-under action h = >>=-same {action = action} refl h
