-- ===== src/Services/Construction/Modes.antt =====
-- The endpoints of the Construction API that need no node, in both modes.
use rosetta_thought.Prelude.{
  ℕ, suc, ◌+◌, ◌≡◌, refl, List, [], ◌∷◌, ◌++◌, Bool, true, false, Option, length,
}
use rosetta_thought.Prelude.Int.{ℤ}
use rosetta_thought.Outcome.{>>=-same, >>=-under, traverse}
use rosetta_thought.Text.{Text}
use rosetta_thought.Text.Hex.{Bytes, decode_string}
use rosetta_thought.Sdk.{Operation, Metadata, Float64, AccountIdentifier}
use rosetta_thought.Configuration.{Configuration, Mode}
use rosetta_thought.Services.Interfaces.{
  UnsignedTransaction, SignedTransaction, ConstructionMetadata, or_wrap,
}
use rosetta_thought.Services.Errors.{ErrorName}
use rosetta_thought.Thought.Address.{parse_single_address}
use rosetta_thought.Services.Construction.Toolkit.{
  Toolkit, MsgTx, TxIn, TxOut, Match, add_tx_in, add_tx_out, index, or_wrap_foreign,
  decode_intermediate,
}
use rosetta_thought.Services.Construction.Intent.{
  construction_derive, operation_size, add_sizes, estimate_size, input_coin,
  construction_preprocess, preprocess_descriptions,
}
use rosetta_thought.Services.Construction.Payloads.{
  new_tx, tx_in_of, add_inputs, tx_out_of, add_outputs, sign_input, sign_inputs, encode_unsigned,
  construction_payloads, payload_descriptions,
}
use rosetta_thought.Services.Construction.Parse.{
  input_operation, output_operation, unsigned_inputs, output_operations, parse_unsigned_transaction,
  signer, signed_inputs, parse_signed_transaction, construction_parse,
}
use rosetta_thought.Services.Construction.Combine.{
  Signature, normalized_signature, signature_script, sign_all, construction_combine,
  construction_hash,
}

module _ {Address : Type 0} (kit : Toolkit Address) (config : Configuration) (mode : Mode) where
  -- The configuration in the mode.
  abbrev pub moded : Configuration
  moded = record config { mode = mode }

  add_sizes-moded :
      (size : ℕ) (os : List Operation) → add_sizes kit moded size os ≡ add_sizes kit config size os
  unfolding add_sizes operation_size
  add_sizes-moded size [] = refl
  add_sizes-moded size (o ∷ os) =
      >>=-under (operation_size kit config o) (λ more. add_sizes-moded (size + more) os)

  add_inputs-moded :
      (ops : List Operation) (tx : MsgTx)
      → add_inputs kit moded ops tx ≡ add_inputs kit config ops tx
  unfolding add_inputs tx_in_of
  add_inputs-moded [] tx = refl
  add_inputs-moded (o ∷ ops) tx =
      >>=-under (tx_in_of kit config o) (λ input. add_inputs-moded ops (add_tx_in input tx))

  add_outputs-moded :
      (amounts : List (Option ℤ)) (i : ℕ) (ops : List Operation) (tx : MsgTx)
      → add_outputs kit moded amounts i ops tx ≡ add_outputs kit config amounts i ops tx
  unfolding add_outputs tx_out_of
  add_outputs-moded amounts i [] tx = refl
  add_outputs-moded amounts i (o ∷ ops) tx =
      >>=-under (tx_out_of kit config o (index amounts i))
        (λ output. add_outputs-moded amounts (suc i) ops (add_tx_out output tx))

  sign_inputs-moded :
      (inputs : Match) (metadata : ConstructionMetadata) (tx : MsgTx) (i : ℕ) (ins : List TxIn)
      → sign_inputs kit moded inputs metadata tx i ins
        ≡ sign_inputs kit config inputs metadata tx i ins
  unfolding sign_inputs sign_input
  sign_inputs-moded inputs metadata tx i [] = refl
  sign_inputs-moded inputs metadata tx i (input ∷ ins) =
      >>=-under (sign_input kit config inputs metadata tx i) (λ signable.
        >>=-same (sign_inputs-moded inputs metadata tx (suc i) ins) (λ signables. refl))

  sign_all-moded :
      (unsigned : UnsignedTransaction) (signatures : List Signature) (i : ℕ) (ins : List TxIn)
      → sign_all kit moded unsigned signatures i ins ≡ sign_all kit config unsigned signatures i ins
  unfolding sign_all signature_script normalized_signature
  sign_all-moded unsigned signatures i [] = refl
  sign_all-moded unsigned signatures i (input ∷ ins) =
      >>=-under (signature_script kit config unsigned signatures i)
        (λ script. >>=-same (sign_all-moded unsigned signatures (suc i) ins) (λ signed. refl))

  unsigned_inputs-moded :
      (unsigned : UnsignedTransaction) (i : ℕ) (ops : List Operation) (ins : List TxIn)
      → unsigned_inputs kit moded unsigned i ops ins ≡ unsigned_inputs kit config unsigned i ops ins
  unfolding unsigned_inputs input_operation
  unsigned_inputs-moded unsigned i ops [] = refl
  unsigned_inputs-moded unsigned i ops (input ∷ ins) =
      >>=-under (index unsigned.input_addresses i) (λ address.
        >>=-under (index unsigned.input_amounts i) (λ amount.
          unsigned_inputs-moded unsigned (suc i)
            (ops ++ input_operation kit config (length ops) i address amount input ∷ []) ins))

  signed_inputs-moded :
      (signed : SignedTransaction) (i : ℕ) (ops : List Operation) (signers : List AccountIdentifier)
      (ins : List TxIn)
      → signed_inputs kit moded signed i ops signers ins
        ≡ signed_inputs kit config signed i ops signers ins
  unfolding signed_inputs signer input_operation
  signed_inputs-moded signed i ops signers [] = refl
  signed_inputs-moded signed i ops signers (input ∷ ins) =
      >>=-under (signer kit config input) (λ address.
        >>=-under (index signed.input_amounts i) (λ amount.
          signed_inputs-moded signed (suc i)
            (ops ++ input_operation kit config (length ops) i address amount input ∷ [])
            (signers ++ record { address = address } ∷ []) ins))

  output_operations-moded :
      (i : ℕ) (ops : List Operation) (outs : List TxOut)
      → output_operations kit moded i ops outs ≡ output_operations kit config i ops outs
  unfolding output_operations output_operation
  output_operations-moded i ops [] = refl
  output_operations-moded i ops (output ∷ outs) =
      >>=-under
        (or_wrap ErrorName.unable_to_decode_address
          (parse_single_address (kit.extract_pk_script_addrs config.params) output.pk_script))
        (λ single.
          output_operations-moded (suc i)
            (ops ++ output_operation kit config (length ops) i single.1 output ∷ []) outs)

  preprocess-moded :
      (to_float : ℕ → Float64) (ops : List Operation) (multiplier : Option Float64)
      → construction_preprocess kit moded to_float ops multiplier
        ≡ construction_preprocess kit config to_float ops multiplier
  unfolding construction_preprocess estimate_size input_coin
  preprocess-moded to_float ops multiplier =
      >>=-under
        (or_wrap_foreign ErrorName.unclear_intent
          (kit.match_operations (preprocess_descriptions config) ops))
        (λ matches. >>=-under (index matches 0) (λ inputs.
          >>=-under (traverse (input_coin kit config) inputs.operations)
            (λ coins. >>=-same (add_sizes-moded _ ops) (λ size. refl))))

  payloads-moded :
      (ops : List Operation) (metadata : Metadata)
      → construction_payloads kit moded ops metadata ≡ construction_payloads kit config ops metadata
  unfolding construction_payloads new_tx encode_unsigned
  payloads-moded ops metadata =
      >>=-under
        (or_wrap_foreign ErrorName.unclear_intent
          (kit.match_operations (payload_descriptions config) ops))
        (λ matches. >>=-under (index matches 0) (λ inputs.
          >>=-same (add_inputs-moded inputs.operations (new_tx kit config)) (λ with_inputs.
            >>=-under (index matches 1) (λ outputs.
              >>=-same (add_outputs-moded outputs.amounts 0 outputs.operations with_inputs) (λ tx.
                >>=-under
                  (or_wrap_foreign ErrorName.unable_to_parse_intermediate_result
                    (kit.unmarshal_metadata metadata))
                  (λ read.
                    >>=-same (sign_inputs-moded inputs read tx 0 tx.tx_in) (λ signables. refl)))))))

  combine-moded :
      (text : Text) (signatures : List Signature)
      → construction_combine kit moded text signatures
        ≡ construction_combine kit config text signatures
  unfolding construction_combine
  combine-moded text signatures =
      >>=-under (decode_intermediate kit.unmarshal_unsigned (decode_string text)) (λ unsigned.
        >>=-under (decode_intermediate kit.deserialize (decode_string unsigned.transaction))
          (λ tx. >>=-same (sign_all-moded unsigned signatures 0 tx.tx_in) (λ ins. refl)))

  parse-moded :
      (signed : Bool) (text : Text)
      → construction_parse kit moded signed text ≡ construction_parse kit config signed text
  unfolding construction_parse parse_unsigned_transaction parse_signed_transaction
  parse-moded false text =
      >>=-under (decode_intermediate kit.unmarshal_unsigned (decode_string text)) (λ unsigned.
        >>=-under (decode_intermediate kit.deserialize (decode_string unsigned.transaction)) (λ tx.
          >>=-same (unsigned_inputs-moded unsigned 0 [] tx.tx_in)
            (λ ops. >>=-same (output_operations-moded 0 ops tx.tx_out) (λ all. refl))))
  parse-moded true text =
      >>=-under (decode_intermediate kit.unmarshal_signed (decode_string text)) (λ signed.
        >>=-under (decode_intermediate kit.deserialize (decode_string signed.transaction)) (λ tx.
          >>=-same (signed_inputs-moded signed 0 [] [] tx.tx_in)
            (λ ops. >>=-same (output_operations-moded 0 ops.0 tx.tx_out) (λ all. refl))))

  -- Derive, preprocess, payloads, parse, combine and hash answer every request the same in both modes, so
  -- offline as they do online.
  pub modes_agree :
      (public_key : Option Bytes) (to_float : ℕ → Float64) (operations : List Operation)
      (multiplier : Option Float64) (metadata : Metadata) (signed : Bool) (text : Text)
      (signatures : List Signature)
      → (construction_derive kit moded public_key ≡ construction_derive kit config public_key)
        × (construction_preprocess kit moded to_float operations multiplier
            ≡ construction_preprocess kit config to_float operations multiplier)
        × (construction_payloads kit moded operations metadata
            ≡ construction_payloads kit config operations metadata)
        × (construction_parse kit moded signed text ≡ construction_parse kit config signed text)
        × (construction_combine kit moded text signatures
            ≡ construction_combine kit config text signatures)
        × (construction_hash kit moded text ≡ construction_hash kit config text)
  unfolding construction_derive construction_hash
  modes_agree public_key to_float operations multiplier metadata signed text signatures = (
    refl,
    preprocess-moded to_float operations multiplier,
    payloads-moded operations metadata,
    parse-moded signed text,
    combine-moded text signatures,
    refl,
  )
