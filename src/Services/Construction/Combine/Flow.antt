-- ===== src/Services/Construction/Combine/Flow.antt =====
-- From the unsigned transaction of a payment to the signed one, its hash and its submission.
use rosetta_thought.Prelude.{
  ◌≡◌, ◌≢◌, refl, sym, ap, ◌∙◌, some, true, List, [], ◌∷◌, length, map, All,
}
use rosetta_thought.Outcome.{ok, ◌>>=◌}
use rosetta_thought.Text.{Text}
use rosetta_thought.Text.Decimal.{format_int}
use rosetta_thought.Text.Hex.{
  Bytes, encode_to_string, decode_string, decode_string-encode_to_string,
}
use rosetta_thought.Sdk.{Operation, Metadata}
use rosetta_thought.Configuration.{Configuration, online}
use rosetta_thought.Services.Errors.{ErrorName}
use rosetta_thought.Services.Interfaces.{Client, SignedTransaction, or_wrap}
use rosetta_thought.Services.Construction.Toolkit.{Toolkit, MsgTx, decode_intermediate}
use rosetta_thought.Services.Construction.Payloads.{PayloadsResponse, construction_payloads}
use rosetta_thought.Services.Construction.Payloads.Intended.{
  Payment, IsPayment, IsFaithful, IsWire, intended_inputs, intended, paid,
}
use rosetta_thought.Services.Construction.Payloads.RoundTrip.{Encodes, Asks, payloads-Encodes}
use rosetta_thought.Services.Construction.Parse.{parse_signed_transaction, construction_parse}
use rosetta_thought.Services.Construction.Parse.Reads.{output_operations-ok}
use rosetta_thought.Services.Construction.Combine.{
  construction_combine, construction_hash, construction_submit,
}
use rosetta_thought.Services.Construction.Combine.Sign.{
  SignedSpend, signature_of, IsSigned, IsFaithfulSigned, unlocked, signers_of, sign_all-ok,
  signed_inputs-ok, map_spend, map_of_spend, map_amounts, unlocked-InputFits,
}

map-ne-nil : {A B : Type 0} (f : A → B) (xs : List A) → xs ≢ [] → map f xs ≢ []
map-ne-nil f [] ne h = ne refl
map-ne-nil f (x ∷ xs) ne h = cc

module _ {Address : Type 0} (kit : Toolkit Address) (config : Configuration) where
  -- The signed transaction of a payment, as a text and decoded.
  pub record Combined (xs : List SignedSpend) (payments : List (Payment Address)) (text : Text)
      : Type 0 where
    pub signed : SignedTransaction
    pub tx : MsgTx
    pub bytes : Bytes
    pub decoded : decode_intermediate kit.unmarshal_signed (decode_string text) ≡ ok signed
    pub written : kit.serialize tx ≡ some bytes
    pub hex : signed.transaction ≡ encode_to_string bytes
    pub plain : decode_string signed.transaction ≡ some bytes
    pub read : kit.deserialize bytes ≡ some tx
    pub amounts : signed.input_amounts ≡ map (λ x. format_int x.spend.amount) xs
    pub ins : tx.tx_in ≡ map (unlocked kit config) xs
    pub outs : tx.tx_out ≡ map paid payments

  pub combine-Combined :
      (xs : List SignedSpend) (payments : List (Payment Address)) (response : PayloadsResponse)
      → IsFaithful kit config
      → IsFaithfulSigned kit config
      → All (IsSigned kit config) xs
      → xs ≢ []
      → Encodes kit config (map (λ x. x.spend) xs) payments response
      → (text : Text) × (construction_combine kit config response.unsigned_transaction
            (map signature_of xs)
          ≡ ok text)
        × Combined xs payments text
  unfolding construction_combine
  combine-Combined xs payments response faithful faithful_signed are ne encodes =
      let unsigned = encodes.unsigned in
      let tx : MsgTx = record (encodes.tx) { tx_in = map (unlocked kit config) xs } in
      let wire : IsWire kit config tx = record {
        version = encodes.wire.version;
        lock_time = encodes.wire.lock_time;
        ins = unlocked-InputFits kit config xs faithful are;
        outs = encodes.wire.outs;
      } in
      let (bytes, written, good, read) =
        faithful.serializes tx (map-ne-nil (unlocked kit config) xs ne) wire in
      let amounts = map (λ x. x.spend.amount) xs in
      let t : SignedTransaction = record {
        transaction = encode_to_string bytes;
        input_amounts = map format_int amounts;
      } in
      let (raw, marshalled, fine, unmarshalled) = faithful_signed.marshals bytes amounts good in
      let given : unsigned.input_amounts ≡ map format_int amounts =
        encodes.amounts
        ∙ map_of_spend kit config (λ s. format_int s.amount) xs
        ∙ sym (map_amounts kit config xs) in
      let ins = encodes.ins ∙ map_spend kit config xs in
      let signed =
        sign_all-ok kit config unsigned (map signature_of xs) 0 xs are
          (encodes.scripts ∙ map_of_spend kit config (λ s. s.script_pub_key) xs) refl in
      (
        encode_to_string raw,
        rw encodes.decoded
            (rw encodes.read (rw ins (rw signed (rw written (rw given (rw marshalled refl)))))),
        record {
          signed = t;
          tx = tx;
          bytes = bytes;
          decoded = rw (decode_string-encode_to_string raw fine) (rw unmarshalled refl);
          written = written;
          hex = refl;
          plain = decode_string-encode_to_string bytes good;
          read = read;
          amounts = map_amounts kit config xs;
          ins = refl;
          outs = encodes.outs;
        },
      )

  parse_signed-ok :
      (xs : List SignedSpend) (payments : List (Payment Address)) (text : Text)
      → All (IsSigned kit config) xs
      → All (IsPayment kit config) payments
      → Combined xs payments text
      → construction_parse kit config true text
        ≡ ok (record {
          operations = intended config (map (λ x. x.spend) xs) payments;
          account_identifier_signers = signers_of kit config xs;
        })
  unfolding construction_parse parse_signed_transaction
  parse_signed-ok xs payments text are_signed are_payments c =
      let inputs = intended_inputs config 0 (map (λ x. x.spend) xs) in
      rw c.decoded (
        rw c.plain (
          rw c.read (
            rw c.ins (
              rw (signed_inputs-ok kit config c.signed 0 [] [] xs refl are_signed c.amounts) (
                rw c.outs (
                  rw
                    (output_operations-ok kit config (length inputs) 0 inputs payments refl
                      are_payments)
                    refl))))))

  hash-ok :
      (xs : List SignedSpend) (payments : List (Payment Address)) (text : Text)
      → IsFaithfulSigned kit config
      → (c : Combined xs payments text)
      → construction_hash kit config text
        ≡ ok (record { hash = kit.hash_string (kit.tx_hash c.tx) })
  unfolding construction_hash
  hash-ok xs payments text faithful c =
      rw c.decoded (rw c.plain (rw (faithful.reads c.bytes ∙ c.read) refl))

  -- For a request that asks for a payment, and a signature for each of its payloads, of which none
  -- starts with a zero byte and whose script is that of the coin's owner: payloads answers, combine
  -- answers for its unsigned transaction and the signatures, parse reads from the signed transaction
  -- the operations of the payment and as signers the owners of its coins, and hash is that of the
  -- transaction that spends each coin with its own unlocking script and pays each amount. It is relied
  -- on that the codecs of transactions and of the JSON between the endpoints read what they write.
  pub construction_flow :
      (xs : List SignedSpend) (payments : List (Payment Address)) (operations : List Operation)
      (request_metadata : Metadata)
      → IsFaithfulSigned kit config
      → All (IsSigned kit config) xs
      → Asks kit config (map (λ x. x.spend) xs) payments operations request_metadata
      → (response : PayloadsResponse) × (text : Text) × (tx : MsgTx) × (construction_payloads kit
            config operations request_metadata
          ≡ ok response)
        × (construction_combine kit config response.unsigned_transaction (map signature_of xs)
            ≡ ok text)
        × (construction_parse kit config true text
            ≡ ok (record {
              operations = intended config (map (λ x. x.spend) xs) payments;
              account_identifier_signers = signers_of kit config xs;
            }))
        × (construction_hash kit config text
            ≡ ok (record { hash = kit.hash_string (kit.tx_hash tx) }))
        × (tx.tx_in ≡ map (unlocked kit config) xs)
        × (tx.tx_out ≡ map paid payments)
  construction_flow xs payments operations request_metadata faithful are asks =
      let (response, answered, addresses, encodes) =
        payloads-Encodes kit config (map (λ x. x.spend) xs) payments operations request_metadata
          asks in
      let (text, combined, c) =
        combine-Combined xs payments response asks.faithful faithful are
          (λ none_left. asks.some_spend (ap (map (λ x. x.spend)) none_left)) encodes in
      (
        response,
        text,
        c.tx,
        answered,
        combined,
        parse_signed-ok xs payments text are asks.are_payments c,
        hash-ok xs payments text faithful c,
        c.ins,
        c.outs,
      )

  -- Online, for a request that asks for a payment, and a signature for each of its payloads, of which
  -- none starts with a zero byte: what submit sends for the text that combine answers with is the
  -- hexadecimal form of the serialized transaction that spends each coin with its own unlocking script
  -- and pays each amount. It is relied on that the codecs of transactions and of the JSON between the
  -- endpoints read what they write.
  pub submit_sends :
      (client : Client) (xs : List SignedSpend) (payments : List (Payment Address))
      (operations : List Operation) (request_metadata : Metadata)
      → config.mode ≡ online
      → IsFaithfulSigned kit config
      → All (IsSigned kit config) xs
      → Asks kit config (map (λ x. x.spend) xs) payments operations request_metadata
      → (response : PayloadsResponse) × (text : Text) × (tx : MsgTx) × (bytes : Bytes)
        × (construction_payloads kit config operations request_metadata ≡ ok response)
        × (construction_combine kit config response.unsigned_transaction (map signature_of xs)
            ≡ ok text)
        × (construction_submit kit config client text ≡ (
            or_wrap ErrorName.thoughtd (client.send_raw_transaction (encode_to_string bytes))
            >>= λ tx_hash. ok (record { hash = tx_hash })))
        × (kit.serialize tx ≡ some bytes)
        × (tx.tx_in ≡ map (unlocked kit config) xs)
        × (tx.tx_out ≡ map paid payments)
  unfolding construction_submit
  submit_sends client xs payments operations request_metadata is_online faithful are asks =
      let (response, answered, addresses, encodes) =
        payloads-Encodes kit config (map (λ x. x.spend) xs) payments operations request_metadata
          asks in
      let (text, combined, c) =
        combine-Combined xs payments response asks.faithful faithful are
          (λ none_left. asks.some_spend (ap (map (λ x. x.spend)) none_left)) encodes in
      (
        response,
        text,
        c.tx,
        c.bytes,
        answered,
        combined,
        rw is_online (rw c.decoded (rw c.hex refl)),
        c.written,
        c.ins,
        c.outs,
      )
