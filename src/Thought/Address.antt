-- ===== src/Thought/Address.antt =====
-- `ParseSingleAddress` of thought/utils.go.
use rosetta_thought.Prelude.{
  ◌≡◌, ◌↔◌, refl, sym, ap, ◌∙◌, Bool-cases, Option-cases, inl, inr, Option, none, some, List, [],
  ◌∷◌, if◌then◌else◌,
}
use rosetta_thought.Prelude.Int.{ℤ, pos, eqb_ℤ, eqb_ℤ_iff}
use rosetta_thought.Outcome.{Outcome, ok, err, panic, ◌>>=◌, or_err}
use rosetta_thought.Text.Hex.{Bytes}
use rosetta_thought.Sdk.{Failure, plain, foreign}

-- `ScriptClass` of thoughtd/txscript, as far as the program tells the classes apart.
pub data ScriptClass : Type 0 where
  pub_key_hash other_class : ScriptClass

abbrev first_address :
    {Address : Type 0} → ScriptClass → List Address → Outcome Failure (ScriptClass × Address)
first_address class [] = panic
first_address class (address ∷ addresses) = ok (class, address)

-- `extract_addrs` is `ExtractPkScriptAddrs` of thoughtd/txscript for the chain: the class, the
-- addresses and the number of signatures that a script asks for.
unfoldable pub parse_single_address :
    {Address : Type 0}
    → (Bytes → Option (ScriptClass × List Address × ℤ))
    → Bytes
    → Outcome Failure (ScriptClass × Address)
parse_single_address extract_addrs script = do
  (class, addresses, required) ← or_err (foreign 6) (extract_addrs script)
  if eqb_ℤ required (pos 1) then first_address class addresses else err plain

-- What `parse_single_address` makes of what was extracted.
unfoldable pub single :
    {Address : Type 0}
    → Option (ScriptClass × List Address × ℤ)
    → Outcome Failure (ScriptClass × Address)
single none = err (foreign 6)
single (some (class, addresses, required)) =
    if eqb_ℤ required (pos 1) then first_address class addresses else err plain

abbrev pub IsEmptySingle : {Address : Type 0} → Option (ScriptClass × List Address × ℤ) → Type 0
IsEmptySingle extracted = (class : ScriptClass) × (extracted ≡ some (class, [], pos 1))

single_panics :
    {Address : Type 0} (extracted : Option (ScriptClass × List Address × ℤ))
    → single extracted ≡ panic
    → IsEmptySingle extracted
unfolding single
single_panics none h = absurd (cc)
single_panics (some (class, a ∷ addresses, required)) h =
    elim (Bool-cases (eqb_ℤ required (pos 1))) [
      | inl one ↦ absurd (cc (rw one at h))
      | inr other ↦ absurd (cc (rw other at h))
    ]
single_panics (some (class, [], required)) h = elim (Bool-cases (eqb_ℤ required (pos 1))) [
  | inl one ↦ (class, ap (λ r. some (class, [], r)) ((eqb_ℤ_iff required (pos 1)).0 one))
  | inr other ↦ absurd (cc (rw other at h))
]

parse_single_address-single :
    {Address : Type 0} (extract_addrs : Bytes → Option (ScriptClass × List Address × ℤ))
    (script : Bytes)
    → parse_single_address extract_addrs script ≡ single (extract_addrs script)
unfolding parse_single_address single
parse_single_address-single extract_addrs script = elim (Option-cases (extract_addrs script)) [
  | inl nothing ↦ rw nothing refl
  | inr (x, extracted) ↦ rw extracted refl
]

-- ParseSingleAddress panics exactly on a script that asks for one signature and of which no address is
-- extracted.
pub parse_single_address_panics :
    {Address : Type 0} (extract_addrs : Bytes → Option (ScriptClass × List Address × ℤ))
    (script : Bytes)
    → (parse_single_address extract_addrs script ≡ panic) ↔ IsEmptySingle (extract_addrs script)
unfolding single
parse_single_address_panics extract_addrs script = (
  λ h.
      single_panics (extract_addrs script)
        (sym (parse_single_address-single extract_addrs script) ∙ h),
  λ empty. parse_single_address-single extract_addrs script ∙ rw empty.1 refl,
)
