-- ===== src/Services/Construction/Parse.antt =====
-- ConstructionParse of services/construction_service.go: from a transaction back to operations.
pub mod Reads
pub mod Short
use rosetta_thought.Prelude.{
  ℕ, zero, suc, Bool, true, false, Option, none, some, List, [], ◌∷◌, ◌++◌, length, if◌then◌else◌,
}
use rosetta_thought.Prelude.Int.{ℤ, pos}
use rosetta_thought.Outcome.{Outcome, ok, err, panic, ◌>>=◌, deref}
use rosetta_thought.Text.{Text}
use rosetta_thought.Text.Decimal.{format_int}
use rosetta_thought.Text.Hex.{Bytes, decode_string}
use rosetta_thought.Sdk.{
  Failure, Operation, AccountIdentifier, Amount, CoinChange, Metadata, coin_spent,
}
use rosetta_thought.Thought.Types.{input_op_type, output_op_type}
use rosetta_thought.Thought.Coin.{coin_identifier}
use rosetta_thought.Thought.Address.{parse_single_address}
use rosetta_thought.Configuration.{Configuration}
use rosetta_thought.Services.Errors.{Error, ErrorName}
use rosetta_thought.Services.Interfaces.{UnsignedTransaction, SignedTransaction, or_wrap}
use rosetta_thought.Services.Construction.Toolkit.{
  Toolkit, TxIn, TxOut, MsgTx, decode_intermediate, or_wrap_foreign, index,
}

pub record ParseResponse : Type 0 where
  pub operations : List Operation
  pub account_identifier_signers : List AccountIdentifier

module _ {Address : Type 0} (kit : Toolkit Address) (config : Configuration) where
  -- The operation of an input. It has no status and no metadata.
  unfoldable pub input_operation : ℕ → ℕ → Text → Text → TxIn → Operation
  input_operation i network_index address amount input = record {
    operation_identifier = record { index = pos i; network_index = some (pos network_index) };
    type = input_op_type;
    status = none;
    account = some (record { address = address });
    amount = some (record { value = amount; currency = config.currency });
    coin_change = some (record {
      coin_identifier = record {
        identifier =
            coin_identifier (kit.hash_string input.previous_out_point.hash)
              (pos input.previous_out_point.index);
      };
      coin_action = coin_spent;
    });
    metadata = Metadata.empty;
  }

  unfoldable pub output_operation : ℕ → ℕ → Address → TxOut → Operation
  output_operation i network_index addr output = record {
    operation_identifier = record { index = pos i; network_index = some (pos network_index) };
    type = output_op_type;
    status = none;
    account = some (record { address = kit.address_string addr });
    amount = some (record { value = format_int output.value; currency = config.currency });
    coin_change = none;
    metadata = Metadata.empty;
  }

  -- The loop over the inputs of an unsigned transaction.
  unfoldable pub unsigned_inputs :
      UnsignedTransaction → ℕ → List Operation → List TxIn → Outcome Error (List Operation)
  unsigned_inputs unsigned i ops [] = ok ops
  unsigned_inputs unsigned i ops (input ∷ inputs) = do
    address ← index unsigned.input_addresses i
    amount ← index unsigned.input_amounts i
    unsigned_inputs unsigned (suc i)
        (ops ++ input_operation (length ops) i address amount input ∷ []) inputs

  -- The loop over the outputs, the same for both kinds of transaction.
  unfoldable pub output_operations :
      ℕ → List Operation → List TxOut → Outcome Error (List Operation)
  output_operations i ops [] = ok ops
  output_operations i ops (output ∷ outputs) = do
    (class, addr) ←
        or_wrap ErrorName.unable_to_decode_address
          (parse_single_address (kit.extract_pk_script_addrs config.params) output.pk_script)
    output_operations (suc i) (ops ++ output_operation (length ops) i addr output ∷ []) outputs

  unfoldable pub parse_unsigned_transaction : Text → Outcome Error ParseResponse
  parse_unsigned_transaction transaction = do
    unsigned ← decode_intermediate kit.unmarshal_unsigned (decode_string transaction)
    tx ← decode_intermediate kit.deserialize (decode_string unsigned.transaction)
    input_ops ← unsigned_inputs unsigned 0 [] tx.tx_in
    ops ← output_operations 0 input_ops tx.tx_out
    ok (record { operations = ops; account_identifier_signers = [] })

  -- The address that signed an input.
  unfoldable pub signer : TxIn → Outcome Error Text
  signer input = do
    pk_script ←
        or_wrap_foreign ErrorName.unable_to_compute_pk_script
          (kit.compute_pk_script input.signature_script)
    (class, addr) ←
        or_wrap ErrorName.unable_to_decode_address
          (parse_single_address (kit.extract_pk_script_addrs config.params) pk_script)
    ok (kit.encode_address addr)

  -- The loop over the inputs of a signed transaction.
  unfoldable pub signed_inputs :
      SignedTransaction
      → ℕ
      → List Operation
      → List AccountIdentifier
      → List TxIn
      → Outcome Error (List Operation × List AccountIdentifier)
  signed_inputs signed i ops signers [] = ok (ops, signers)
  signed_inputs signed i ops signers (input ∷ inputs) = do
    address ← signer input
    amount ← index signed.input_amounts i
    signed_inputs signed (suc i) (ops ++ input_operation (length ops) i address amount input ∷ [])
        (signers ++ record { address = address } ∷ []) inputs

  unfoldable pub parse_signed_transaction : Text → Outcome Error ParseResponse
  parse_signed_transaction transaction = do
    signed ← decode_intermediate kit.unmarshal_signed (decode_string transaction)
    tx ← decode_intermediate kit.deserialize (decode_string signed.transaction)
    (input_ops, signers) ← signed_inputs signed 0 [] [] tx.tx_in
    ops ← output_operations 0 input_ops tx.tx_out
    ok (record { operations = ops; account_identifier_signers = signers })

  unfoldable pub construction_parse : Bool → Text → Outcome Error ParseResponse
  construction_parse signed transaction =
      if signed
      then parse_signed_transaction transaction
      else parse_unsigned_transaction transaction
