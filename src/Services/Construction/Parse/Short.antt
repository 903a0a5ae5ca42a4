-- ===== src/Services/Construction/Parse/Short.antt =====
-- /construction/parse on an unsigned transaction whose list of addresses is too short.
use rosetta_thought.Prelude.{
  ℕ, zero, suc, ◌+◌, ◌≤◌, ◌<◌, ◌≡◌, refl, some, false, List, [], ◌∷◌, ◌++◌, arith, length,
  get_elem?, Option-cases, inl, inr,
}
use rosetta_thought.Outcome.{ok, panic}
use rosetta_thought.Text.{Text}
use rosetta_thought.Text.Hex.{decode_string}
use rosetta_thought.Sdk.{Operation}
use rosetta_thought.Configuration.{Configuration}
use rosetta_thought.Services.Interfaces.{UnsignedTransaction}
use rosetta_thought.Services.Construction.Toolkit.{Toolkit, TxIn, MsgTx, decode_intermediate}
use rosetta_thought.Services.Construction.Parse.{
  input_operation, unsigned_inputs, parse_unsigned_transaction, construction_parse,
}

get_elem?_bound :
    {A : Type 0} (xs : List A) (i : ℕ) {x : A} → get_elem? xs i ≡ some x → i < length xs
get_elem?_bound [] i h = absurd (cc)
get_elem?_bound (y ∷ xs) zero h = omega arith
get_elem?_bound (y ∷ xs) (suc i) h = omega (arith, get_elem?_bound xs i h)

module _ {Address : Type 0} (kit : Toolkit Address) (config : Configuration) where
  unsigned_inputs_panic :
      (unsigned : UnsignedTransaction) (i : ℕ) (ops : List Operation) (inputs : List TxIn)
      → i ≤ length unsigned.input_addresses
      → length unsigned.input_addresses < i + length inputs
      → unsigned_inputs kit config unsigned i ops inputs ≡ panic
  unfolding unsigned_inputs
  unsigned_inputs_panic unsigned i ops [] low short = absurd (omega arith)
  unsigned_inputs_panic unsigned i ops (input ∷ inputs) low short =
      elim (Option-cases (get_elem? unsigned.input_addresses i)) [
        | inl no_address ↦ rw no_address refl
        | inr (address, there) ↦
            rw there (elim (Option-cases (get_elem? unsigned.input_amounts i)) [
              | inl no_amount ↦ rw no_amount refl
              | inr (amount, given) ↦ rw given (
                  unsigned_inputs_panic unsigned (suc i)
                    (ops ++ input_operation kit config (length ops) i address amount input ∷ [])
                    inputs (omega (arith, get_elem?_bound unsigned.input_addresses i there))
                    (omega arith))
            ])
      ]

  -- If the unsigned transaction decodes to a transaction with more inputs than it has addresses,
  -- /construction/parse panics.
  pub construction_parse_panics :
      (text : Text) (unsigned : UnsignedTransaction) (tx : MsgTx)
      → decode_intermediate kit.unmarshal_unsigned (decode_string text) ≡ ok unsigned
      → decode_intermediate kit.deserialize (decode_string unsigned.transaction) ≡ ok tx
      → length unsigned.input_addresses < length tx.tx_in
      → construction_parse kit config false text ≡ panic
  unfolding construction_parse parse_unsigned_transaction
  construction_parse_panics text unsigned tx decoded read short =
      rw decoded (
        rw read
          (rw (unsigned_inputs_panic unsigned 0 [] tx.tx_in (omega arith) (omega arith)) refl))
