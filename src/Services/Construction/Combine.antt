-- ===== src/Services/Construction/Combine.antt =====
-- ConstructionCombine, ConstructionHash and ConstructionSubmit of services/construction_service.go.
pub mod Halves
pub mod Sign
pub mod Flow
use rosetta_thought.Prelude.{
  ℕ, zero, suc, ◌+◌, ◌≡◌, Bool, true, false, ◌||◌, Option, none, some, List, [], ◌∷◌, ◌++◌, length,
  take, drop, leb, ◌==◌, if◌then◌else◌,
}
use rosetta_thought.Outcome.{Outcome, ok, err, panic, ◌>>=◌, deref}
use rosetta_thought.Text.{Text}
use rosetta_thought.Text.Hex.{Bytes, encode_to_string, decode_string}
use rosetta_thought.Sdk.{Failure, plain, TransactionIdentifier}
use rosetta_thought.Thought.Types.{ScriptPubKey}
use rosetta_thought.Thought.Address.{ScriptClass, pub_key_hash, other_class, parse_single_address}
use rosetta_thought.Configuration.{Configuration}
use rosetta_thought.Services.Errors.{Error, ErrorName, wrap_err}
use rosetta_thought.Services.Interfaces.{
  Client, UnsignedTransaction, SignedTransaction, or_wrap, when_online,
}
use rosetta_thought.Services.Construction.Toolkit.{
  Toolkit, TxIn, MsgTx, decode_intermediate, or_wrap_foreign, index,
}

-- A Go slice of bytes: its elements, and those of its array after them, up to its capacity.
pub record Slice : Type 0 where
  pub elements : Bytes
  pub spare : Bytes

-- `types.Signature`, as far as it is read.
pub record Signature : Type 0 where
  pub bytes : Slice
  pub public_key : Option Bytes

-- `for len(rawBytes) > 0 && rawBytes[0] == 0x00 { rawBytes = rawBytes[1:] }`.
unfoldable pub strip_zeros : Bytes → Bytes
strip_zeros [] = []
strip_zeros (b ∷ bs) = let rest = strip_zeros bs in if b == 0 then rest else b ∷ bs

-- `raw[low:low+32]`: a slice may be extended up to its capacity, and panics beyond.
unfoldable pub thirty_two : ℕ → Slice → Outcome Error Bytes
thirty_two low raw =
    let array = raw.elements ++ raw.spare in
    if leb (low + 32) (length array) then ok (take 32 (drop low array)) else panic

-- The two halves of a signature once its leading zeros are stripped.
unfoldable pub signature_halves : Slice → Outcome Error (Bytes × Bytes)
unfolding strip_zeros thirty_two
signature_halves bytes = do
  let raw = record bytes { elements = strip_zeros bytes.elements }
  r ← thirty_two 0 raw
  s ← thirty_two 32 raw
  ok (r, s)

module _ {Address : Type 0} (kit : Toolkit Address) (config : Configuration) where
  -- The DER form with the byte for SigHashAll.
  unfoldable pub normalized_signature : Slice → Outcome Error Bytes
  unfolding signature_halves
  normalized_signature bytes = do
    (r, s) ← signature_halves bytes
    let (rvalue, rresult) = kit.set_byte_slice r
    let (svalue, sresult) = kit.set_byte_slice s
    if rresult || sresult
        then err (wrap_err ErrorName.unable_to_parse_intermediate_result (some plain))
        else ok (kit.serialize_signature rvalue svalue ++ kit.sig_hash_all ∷ [])

  -- The body of the loop over `tx.TxIn`.
  unfoldable pub signature_script : UnsignedTransaction → List Signature → ℕ → Outcome Error Bytes
  signature_script unsigned signatures i = do
    script_pub_key ← index unsigned.script_pub_keys i
    decoded_script ←
        or_wrap_foreign ErrorName.unable_to_decode_script_pub_key (decode_string script_pub_key.hex)
    (class, addr) ←
        or_wrap ErrorName.unable_to_decode_address
          (parse_single_address (kit.extract_pk_script_addrs config.params) decoded_script)
    signature ← index signatures i
    normalized ← normalized_signature signature.bytes
    pk_data ← deref signature.public_key
    elim class [
      | other_class ↦ err (wrap_err ErrorName.unsupported_script_type (some plain))
      | pub_key_hash ↦
          or_wrap_foreign ErrorName.unable_to_parse_intermediate_result
            (kit.script_of_data (normalized ∷ pk_data ∷ []))
    ]

  unfoldable pub sign_all :
      UnsignedTransaction → List Signature → ℕ → List TxIn → Outcome Error (List TxIn)
  sign_all unsigned signatures i [] = ok []
  sign_all unsigned signatures i (input ∷ inputs) = do
    script ← signature_script unsigned signatures i
    signed ← sign_all unsigned signatures (suc i) inputs
    ok (record input { signature_script = script } ∷ signed)

  unfoldable pub construction_combine : Text → List Signature → Outcome Error Text
  construction_combine unsigned_transaction signatures = do
    unsigned ← decode_intermediate kit.unmarshal_unsigned (decode_string unsigned_transaction)
    tx ← decode_intermediate kit.deserialize (decode_string unsigned.transaction)
    tx_in ← sign_all unsigned signatures 0 tx.tx_in
    bytes ←
        or_wrap_foreign ErrorName.unable_to_parse_intermediate_result
          (kit.serialize (record tx { tx_in = tx_in }))
    raw_tx ← or_wrap_foreign ErrorName.unable_to_parse_intermediate_result (
        kit.marshal_signed
          (record { transaction = encode_to_string bytes; input_amounts = unsigned.input_amounts }))
    ok (encode_to_string raw_tx)

  unfoldable pub construction_hash : Text → Outcome Error TransactionIdentifier
  construction_hash signed_transaction = do
    signed ← decode_intermediate kit.unmarshal_signed (decode_string signed_transaction)
    tx ← decode_intermediate kit.new_tx_from_bytes (decode_string signed.transaction)
    ok (record { hash = kit.hash_string (kit.tx_hash tx) })

  unfoldable pub construction_submit : Client → Text → Outcome Error TransactionIdentifier
  construction_submit client signed_transaction = when_online config.mode (do
    signed ← decode_intermediate kit.unmarshal_signed (decode_string signed_transaction)
    tx_hash ← or_wrap ErrorName.thoughtd (client.send_raw_transaction signed.transaction)
    ok (record { hash = tx_hash }))
