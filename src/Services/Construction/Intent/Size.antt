-- ===== src/Services/Construction/Intent/Size.antt =====
-- The estimated size of a transaction as a sum over its inputs and outputs.
use rosetta_thought.Prelude.{
  ℕ, ◌+◌, ◌*◌, ◌≡◌, refl, ap, ◌∙◌, true, false, Option, none, some, List, [], ◌∷◌, if◌then◌else◌,
  arith, All, Bool-cases, inl, inr,
}
use rosetta_thought.Outcome.{ok}
use rosetta_thought.Text.{Text, text_eq, text_eq-eq}
use rosetta_thought.Sdk.{Operation, AccountIdentifier}
use rosetta_thought.Thought.Types.{
  input_op_type, output_op_type, transaction_overhead, input_size, output_overhead,
}
use rosetta_thought.Configuration.{Configuration}
use rosetta_thought.Services.Construction.Toolkit.{Toolkit}
use rosetta_thought.Services.Construction.Intent.{
  operation_size, add_sizes, estimate_size, address_size,
}

-- How many operations have the type.
unfoldable pub count_type : Text → List Operation → ℕ
count_type type [] = 0
count_type type (o ∷ os) =
    let rest = count_type type os in if text_eq o.type type then 1 + rest else rest

-- The addresses of the outputs, in order.
abbrev account_address : Option AccountIdentifier → List Text → List Text
account_address none rest = rest
account_address (some account) rest = account.address ∷ rest

unfoldable pub output_addresses : List Operation → List Text
output_addresses [] = []
output_addresses (o ∷ os) =
    let rest = output_addresses os in
    if text_eq o.type output_op_type then account_address o.account rest else rest

-- An output has an account.
abbrev pub HasAccount : Operation → Type 0
HasAccount o =
    text_eq o.type output_op_type ≡ true
    → (account : AccountIdentifier) × (o.account ≡ some account)

module _ {Address : Type 0} (kit : Toolkit Address) (config : Configuration) where
  unfoldable pub total_size : List Text → ℕ
  total_size [] = 0
  total_size (address ∷ addresses) =
      output_overhead
      + address_size kit config (kit.decode_address address config.params)
      + total_size addresses

  input_is_no_output :
      (type : Text) → text_eq type input_op_type ≡ true → text_eq type output_op_type ≡ false
  input_is_no_output type h = rw (text_eq-eq type input_op_type h) (unfold text_eq in refl)

  abbrev pub expected_size : List Operation → ℕ
  expected_size os = count_type input_op_type os * input_size + total_size (output_addresses os)

  add_sizes-expected :
      (size : ℕ) (os : List Operation)
      → All HasAccount os
      → add_sizes kit config size os ≡ ok (size + expected_size os)
  unfolding add_sizes operation_size count_type output_addresses total_size
  add_sizes-expected size [] has = ground arith
  add_sizes-expected size (o ∷ os) has = elim (Bool-cases (text_eq o.type input_op_type)) [
    | inl input ↦
        rw (input, input_is_no_output o.type input)
          (add_sizes-expected (size + input_size) os has.1 ∙ ap ok (omega arith))
    | inr other ↦ elim (Bool-cases (text_eq o.type output_op_type)) [
      | inl output ↦
          let (account, given) = has.0 output in
          rw (other, output, given)
            (add_sizes-expected
                (size
                  + (output_overhead
                      + address_size kit config (kit.decode_address account.address config.params)))
                os has.1
              ∙ ap ok (omega arith))
      | inr neither ↦
          rw (other, neither) (add_sizes-expected (size + 0) os has.1 ∙ ap ok (omega arith))
    ]
  ]

  -- The estimated size of operations whose outputs have accounts is 10 bytes, 148 for each input, and
  -- for each output 9 and the length of the script that pays to its address, which counts as 25 where
  -- the address or its script cannot be made.
  pub estimate_size-expected :
      (os : List Operation)
      → All HasAccount os
      → estimate_size kit config os ≡ ok (transaction_overhead + expected_size os)
  unfolding estimate_size
  estimate_size-expected os has = add_sizes-expected transaction_overhead os has
