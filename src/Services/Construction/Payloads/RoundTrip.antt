-- ===== src/Services/Construction/Payloads/RoundTrip.antt =====
-- From operations to an unsigned transaction and back.
use rosetta_thought.Prelude.{
  ◌≡◌, ◌≢◌, refl, ap, ◌∙◌, some, false, List, [], ◌∷◌, arith, length-map, map, All, Bool-cases, inl,
  inr, ◌⊎◌,
}
use rosetta_thought.Prelude.Int.{ℤ}
use rosetta_thought.Outcome.{ok}
use rosetta_thought.Text.{text_eq}
use rosetta_thought.Text.Decimal.{format_int}
use rosetta_thought.Text.Hex.{Bytes, IsBytes, decode_string}
use rosetta_thought.Sdk.{Operation, Metadata}
use rosetta_thought.Configuration.{Configuration, mainnet}
use rosetta_thought.Services.Interfaces.{UnsignedTransaction, ConstructionMetadata}
use rosetta_thought.Services.Construction.Toolkit.{Toolkit, MsgTx, Match, decode_intermediate}
use rosetta_thought.Services.Construction.Payloads.{
  Signable, PayloadsResponse, payload_descriptions, new_tx, construction_payloads,
}
use rosetta_thought.Services.Construction.Payloads.Intended.{
  Spend, Payment, IsSpend, IsPayment, IsFaithful, IsWire, Marshals, unsigned_of, intended, spent,
  paid,
}
use rosetta_thought.Services.Construction.Parse.{construction_parse}
use rosetta_thought.Services.Construction.Payloads.Build.{
  add_inputs-ok, add_outputs-ok, sign_inputs-ok, encode_unsigned-ok, spent-InputFits,
  paid-OutputFits,
}
use rosetta_thought.Services.Construction.Parse.Reads.{parse_unsigned-ok}

module _ {Address : Type 0} (kit : Toolkit Address) (config : Configuration) where
  map-ne-nil : {A B : Type 0} (f : A → B) (xs : List A) → xs ≢ [] → map f xs ≢ []
  map-ne-nil f [] ne h = ne refl
  map-ne-nil f (x ∷ xs) ne h = cc

  map_payload :
      (signables : List Signable)
      → map (λ payload. payload.address) (map (λ s. s.payload) signables)
        ≡ map (λ s. s.payload.address) signables
  map_payload [] = refl
  map_payload (s ∷ signables) = ap (λ xs. s.payload.address ∷ xs) (map_payload signables)

  -- The unsigned transaction of a payment.
  abbrev pub unsigned_tx : ℤ → List Spend → List (Payment Address) → MsgTx
  unsigned_tx version spends payments = record {
    version = version;
    tx_in = map (spent kit) spends;
    tx_out = map paid payments;
    lock_time = 0;
  }

  abbrev KnownVersion : ℤ → Type 0
  KnownVersion version = (version ≡ kit.mainnet_tx_version) ⊎ (version ≡ kit.testnet_tx_version)

  new_tx-empty :
      IsFaithful kit config
      → (version : ℤ) × KnownVersion version
        × (new_tx kit config ≡ record { version = version; tx_in = []; tx_out = []; lock_time = 0 })
  unfolding new_tx
  new_tx-empty faithful = elim (Bool-cases (text_eq config.network_chain mainnet)) [
    | inl on_mainnet ↦ (
      kit.mainnet_tx_version,
      inl refl,
      rw (on_mainnet, new_tx) (faithful.fresh kit.mainnet_tx_version),
    )
    | inr elsewhere ↦ (
      kit.testnet_tx_version,
      inr refl,
      rw (elsewhere, new_tx) (faithful.fresh kit.testnet_tx_version),
    )
  ]

  -- A response whose unsigned transaction decodes to the inputs and the outputs of the payment.
  pub record Encodes (spends : List Spend) (payments : List (Payment Address))
      (response : PayloadsResponse) : Type 0 where
    pub unsigned : UnsignedTransaction
    pub tx : MsgTx
    pub decoded :
        decode_intermediate kit.unmarshal_unsigned (decode_string response.unsigned_transaction)
        ≡ ok unsigned
    pub read : decode_intermediate kit.deserialize (decode_string unsigned.transaction) ≡ ok tx
    pub scripts : unsigned.script_pub_keys ≡ map (λ s. s.script_pub_key) spends
    pub amounts : unsigned.input_amounts ≡ map (λ s. format_int s.amount) spends
    pub addresses : unsigned.input_addresses ≡ map (λ s. s.address) spends
    pub ins : tx.tx_in ≡ map (spent kit) spends
    pub outs : tx.tx_out ≡ map paid payments
    pub wire : IsWire kit config tx

  -- The operations of a request match those of the payment, its metadata has the scripts, and the JSON of
  -- its unsigned transaction is read as it was written.
  pub record Asks (spends : List Spend) (payments : List (Payment Address))
      (operations : List Operation) (request_metadata : Metadata) : Type 0 where
    pub faithful : IsFaithful kit config
    pub are_spends : All (IsSpend kit config) spends
    pub are_payments : All (IsPayment kit config) payments
    pub some_spend : spends ≢ []
    pub unused : List Match
    pub matched :
        kit.match_operations (payload_descriptions config) operations
        ≡ some (
            record {
              operations = map (λ s. s.operation) spends;
              amounts = map (λ s. some s.amount) spends;
            }
            ∷ record {
              operations = map (λ p. p.operation) payments;
              amounts = map (λ p. some p.amount) payments;
            }
            ∷ unused)
    pub metadata : ConstructionMetadata
    pub unmarshalled : kit.unmarshal_metadata request_metadata ≡ some metadata
    pub scripts : metadata.script_pub_keys ≡ map (λ s. s.script_pub_key) spends
    pub marshals :
        (bytes : Bytes)
        → IsBytes bytes
        → Marshals kit config (unsigned_of bytes metadata.script_pub_keys spends)

  pub payloads-Encodes :
      (spends : List Spend) (payments : List (Payment Address)) (operations : List Operation)
      (request_metadata : Metadata)
      → Asks spends payments operations request_metadata
      → (response : PayloadsResponse) × (construction_payloads kit config operations
            request_metadata
          ≡ ok response)
        × (map (λ payload. payload.address) response.payloads ≡ map (λ s. s.address) spends)
        × Encodes spends payments response
  unfolding construction_payloads
  payloads-Encodes spends payments operations request_metadata asks =
      let inputs : Match = record {
        operations = map (λ s. s.operation) spends;
        amounts = map (λ s. some s.amount) spends;
      } in
      let (version, known, empty) = new_tx-empty asks.faithful in
      let tx = unsigned_tx version spends payments in
      let wire : IsWire kit config tx = record {
        version = known;
        lock_time = refl;
        ins = spent-InputFits kit config spends asks.faithful asks.are_spends;
        outs = paid-OutputFits kit config payments asks.are_payments;
      } in
      let (signables, signed, (amounts, addresses, matched_payloads)) =
        sign_inputs-ok kit config asks.faithful inputs asks.metadata tx 0 spends asks.are_spends
          (rw (length-map spends (spent kit)) (omega arith)) refl refl asks.scripts in
      let (text, bytes, encoded, decoded, read) =
        encode_unsigned-ok kit config tx asks.metadata signables spends asks.faithful
          (map-ne-nil (spent kit) spends asks.some_spend) wire asks.marshals
          (amounts, addresses, matched_payloads) in
      (
        record { unsigned_transaction = text; payloads = map (λ s. s.payload) signables },
        rw (asks.matched) (
            rw empty (
              rw
                (add_inputs-ok kit config spends
                  (record { version = version; tx_in = []; tx_out = []; lock_time = 0 })
                  asks.are_spends)
                (rw
                  (add_outputs-ok kit config (map (λ p. some p.amount) payments) 0 payments
                    (record {
                      version = version;
                      tx_in = map (spent kit) spends;
                      tx_out = [];
                      lock_time = 0;
                    })
                    asks.are_payments refl)
                  (rw (asks.unmarshalled) (rw signed (rw encoded refl)))))),
        map_payload signables ∙ matched_payloads,
        record {
          unsigned = unsigned_of bytes asks.metadata.script_pub_keys spends;
          tx = tx;
          decoded = decoded;
          read = read;
          scripts = asks.scripts;
          amounts = refl;
          addresses = refl;
          ins = refl;
          outs = refl;
          wire = wire;
        },
      )

  -- For a request that asks for a payment of coins of public key hashes to addresses with scripts, and
  -- codecs that read the payment's transaction and its JSON as they were written: /construction/payloads
  -- answers, with one payload for each coin in order, and /construction/parse reads the operations of
  -- the payment back from its unsigned transaction, the inputs first, then the outputs, numbered from 0
  -- and each with its own account, amount and coin.
  pub payloads-parse :
      (spends : List Spend) (payments : List (Payment Address)) (operations : List Operation)
      (request_metadata : Metadata)
      → Asks spends payments operations request_metadata
      → (response : PayloadsResponse) × (construction_payloads kit config operations
            request_metadata
          ≡ ok response)
        × (map (λ payload. payload.address) response.payloads ≡ map (λ s. s.address) spends)
        × (construction_parse kit config false response.unsigned_transaction
            ≡ ok (record {
              operations = intended config spends payments;
              account_identifier_signers = [];
            }))
  payloads-parse spends payments operations request_metadata asks =
      let (response, answered, addresses, encodes) =
        payloads-Encodes spends payments operations request_metadata asks in
      (
        response,
        answered,
        addresses,
        parse_unsigned-ok kit config spends payments response.unsigned_transaction encodes.unsigned
            encodes.tx asks.are_spends asks.are_payments encodes.decoded encodes.read
            encodes.amounts encodes.addresses encodes.ins encodes.outs,
      )
