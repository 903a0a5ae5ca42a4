-- ===== src/Services/Construction/Payloads.antt =====
-- ConstructionPayloads of services/construction_service.go: from operations to an unsigned
-- transaction and what is to be signed.
pub mod Intended
pub mod Build
pub mod RoundTrip
use rosetta_thought.Prelude.{
  ℕ, suc, Bool, true, false, Option, none, some, List, [], ◌∷◌, ◌++◌, if◌then◌else◌, map,
}
use rosetta_thought.Prelude.Int.{ℤ, int64}
use rosetta_thought.Outcome.{Outcome, ok, err, panic, ◌>>=◌, deref}
use rosetta_thought.Text.{Text, codes, text_eq}
use rosetta_thought.Text.Decimal.{format_int}
use rosetta_thought.Text.Hex.{Bytes, encode_to_string, decode_string}
use rosetta_thought.Sdk.{Failure, plain, Operation, AccountIdentifier, Metadata}
use rosetta_thought.Thought.Types.{ScriptPubKey}
use rosetta_thought.Thought.Coin.{parse_coin_identifier}
use rosetta_thought.Thought.Address.{ScriptClass, pub_key_hash, other_class, parse_single_address}
use rosetta_thought.Configuration.{Configuration, mainnet}
use rosetta_thought.Services.Errors.{Error, ErrorName, wrap_err}
use rosetta_thought.Services.Interfaces.{UnsignedTransaction, ConstructionMetadata, or_wrap}
use rosetta_thought.Services.Construction.Toolkit.{
  Toolkit, Descriptions, Match, TxIn, TxOut, MsgTx, OutPoint, add_tx_in, add_tx_out,
  or_wrap_foreign, index,
}
use rosetta_thought.Services.Construction.Intent.{input_description, output_description, spent_coin}

abbrev pub payload_descriptions : Configuration → Descriptions
payload_descriptions config = record {
  operation_descriptions = input_description config ∷ output_description config ∷ [];
  err_unmatched = true;
}

-- `types.SigningPayload`, with the signature type ecdsa.
pub record SigningPayload : Type 0 where
  pub address : Text
  pub bytes : Bytes

-- What the loop over the inputs makes of one: its address, its amount and its payload.
pub record Signable : Type 0 where
  pub address : Text
  pub amount : Text
  pub payload : SigningPayload

pub record PayloadsResponse : Type 0 where
  pub unsigned_transaction : Text
  pub payloads : List SigningPayload

-- `String` of a `*big.Int`.
abbrev pub amount_string : Option ℤ → Text
amount_string none = codes "<nil>"
amount_string (some n) = format_int n

module _ {Address : Type 0} (kit : Toolkit Address) (config : Configuration) where
  unfoldable pub new_tx : MsgTx
  new_tx = kit.new_msg_tx (
      if text_eq config.network_chain mainnet
      then kit.mainnet_tx_version
      else kit.testnet_tx_version)

  -- The body of the loop over the matched inputs.
  unfoldable pub tx_in_of : Operation → Outcome Error TxIn
  tx_in_of input = do
    identifier ← spent_coin input
    (hash, i) ←
        or_wrap ErrorName.invalid_coin
          (parse_coin_identifier kit.new_hash_from_str identifier.identifier)
    ok (record {
      previous_out_point = record { hash = hash; index = i };
      signature_script = [];
      sequence = kit.max_tx_in_sequence_num;
    })

  unfoldable pub add_inputs : List Operation → MsgTx → Outcome Error MsgTx
  add_inputs [] tx = ok tx
  add_inputs (input ∷ inputs) tx = do tx_in ← tx_in_of input; add_inputs inputs (add_tx_in tx_in tx)

  -- The body of the loop over the matched outputs, with the amount at the same index.
  unfoldable pub tx_out_of : Operation → Outcome Error (Option ℤ) → Outcome Error TxOut
  tx_out_of output amount = do
    account ← deref output.account
    addr ←
        or_wrap_foreign ErrorName.unable_to_decode_address
          (kit.decode_address account.address config.params)
    pk_script ← or_wrap_foreign ErrorName.unable_to_decode_address (kit.pay_to_addr_script addr)
    given ← amount
    value ← deref given
    ok (record { value = int64 value; pk_script = pk_script })

  unfoldable pub add_outputs : List (Option ℤ) → ℕ → List Operation → MsgTx → Outcome Error MsgTx
  add_outputs amounts i [] tx = ok tx
  add_outputs amounts i (output ∷ outputs) tx = do
    tx_out ← tx_out_of output (index amounts i)
    add_outputs amounts (suc i) outputs (add_tx_out tx_out tx)

  -- The body of the loop over `tx.TxIn`.
  unfoldable pub sign_input : Match → ConstructionMetadata → MsgTx → ℕ → Outcome Error Signable
  sign_input inputs metadata tx i = do
    operation ← index inputs.operations i
    account ← deref operation.account
    script_pub_key ← index metadata.script_pub_keys i
    script ←
        or_wrap_foreign ErrorName.unable_to_decode_script_pub_key (decode_string script_pub_key.hex)
    (class, addr) ←
        or_wrap ErrorName.unable_to_decode_address
          (parse_single_address (kit.extract_pk_script_addrs config.params) script)
    amount ← index inputs.amounts i
    elim class [
      | other_class ↦ err (wrap_err ErrorName.unsupported_script_type (some plain))
      | pub_key_hash ↦ do
        hash ←
            or_wrap_foreign ErrorName.unable_to_calculate_signature_hash
              (kit.calc_signature_hash script kit.sig_hash_all tx i)
        ok (record {
          address = account.address;
          amount = amount_string amount;
          payload = record { address = account.address; bytes = hash };
        })
    ]

  unfoldable pub sign_inputs :
      Match → ConstructionMetadata → MsgTx → ℕ → List TxIn → Outcome Error (List Signable)
  sign_inputs inputs metadata tx i [] = ok []
  sign_inputs inputs metadata tx i (tx_in ∷ tx_ins) = do
    signable ← sign_input inputs metadata tx i
    signables ← sign_inputs inputs metadata tx (suc i) tx_ins
    ok (signable ∷ signables)

  -- The two encodings at the end.
  unfoldable pub encode_unsigned : MsgTx → ConstructionMetadata → List Signable → Outcome Error Text
  encode_unsigned tx metadata signables = do
    bytes ← or_wrap_foreign ErrorName.unable_to_parse_intermediate_result (kit.serialize tx)
    raw_tx ← or_wrap_foreign ErrorName.unable_to_parse_intermediate_result (
        kit.marshal_unsigned (record {
          transaction = encode_to_string bytes;
          script_pub_keys = metadata.script_pub_keys;
          input_amounts = map (λ s. s.amount) signables;
          input_addresses = map (λ s. s.address) signables;
        }))
    ok (encode_to_string raw_tx)

  -- `matches[1]` is read only where there is a transaction to add outputs to.
  unfoldable pub construction_payloads : List Operation → Metadata → Outcome Error PayloadsResponse
  construction_payloads operations request_metadata = do
    matches ←
        or_wrap_foreign ErrorName.unclear_intent
          (kit.match_operations (payload_descriptions config) operations)
    inputs ← index matches 0
    with_inputs ← add_inputs inputs.operations new_tx
    outputs ← index matches 1
    tx ← add_outputs outputs.amounts 0 outputs.operations with_inputs
    metadata ←
        or_wrap_foreign ErrorName.unable_to_parse_intermediate_result
          (kit.unmarshal_metadata request_metadata)
    signables ← sign_inputs inputs metadata tx 0 tx.tx_in
    unsigned ← encode_unsigned tx metadata signables
    ok (record { unsigned_transaction = unsigned; payloads = map (λ s. s.payload) signables })
