-- ===== src/Services/Wiring/Payment.antt =====
-- A payment through the endpoints of services/construction_service.go, over the indexer and thoughtd.
use rosetta_thought.Prelude.{ℕ, ◌≡◌, refl, some, List, [], ◌∷◌, Option, map, All, ◌+◌}
use rosetta_thought.Outcome.{ok, ◌>>=◌}
use rosetta_thought.Text.{Text}
use rosetta_thought.Text.Decimal.{format_int}
use rosetta_thought.Text.Hex.{Bytes, encode_to_string}
use rosetta_thought.Sdk.{Float64, Metadata, Operation}
use rosetta_thought.Thought.Types
use rosetta_thought.Thought.Types.{Library, transaction_overhead}
use rosetta_thought.Thought.Rpc
use rosetta_thought.Thought.Rpc.{Wire}
use rosetta_thought.Configuration.{Configuration, online}
use rosetta_thought.Indexer.Queries.{Reads}
use rosetta_thought.Indexer.Queries.Parsed.{AreCreated, get_script_pub_keys-AreCreated}
use rosetta_thought.Services.Errors.{ErrorName}
use rosetta_thought.Services.Interfaces.{or_wrap}
use rosetta_thought.Services.Construction.Toolkit.{Toolkit, MsgTx}
use rosetta_thought.Services.Construction.Intent.{construction_preprocess}
use rosetta_thought.Services.Construction.Intent.Size.{expected_size}
use rosetta_thought.Services.Construction.Fee.{
  Floats, MetadataResponse, construction_metadata, default_confirmation_target, estimated_fee,
}
use rosetta_thought.Services.Construction.Fee.Prepare.{
  Offers, coin_of, options_of, prepared_at, preprocess-ok, metadata-ok,
}
use rosetta_thought.Services.Construction.Payloads.{PayloadsResponse, construction_payloads}
use rosetta_thought.Services.Construction.Payloads.Intended.{Payment, paid}
use rosetta_thought.Services.Construction.Payloads.RoundTrip.{Asks}
use rosetta_thought.Services.Construction.Combine.{construction_combine, construction_submit}
use rosetta_thought.Services.Construction.Combine.Sign.{
  SignedSpend, signature_of, IsSigned, IsFaithfulSigned, unlocked,
}
use rosetta_thought.Services.Construction.Combine.Flow.{submit_sends}
use rosetta_thought.Services.Wiring.{indexer_of, client_of}

module _ {Address Hash : Type 0} (kit : Toolkit Address) (config : Configuration) (floats : Floats)
    (to_float : ℕ → Float64) (reads : Reads Hash) (lib : Library) (node : Types.Client)
    (wire : Wire) where
  -- Online, for a request to pay from coins that are outputs of stored transactions, parsed by the
  -- client, with their own scripts and amounts, and a signature for each of its payloads: preprocess
  -- and metadata answer, with the fee for the estimated size at thoughtd's rate; payloads answers for
  -- the metadata of that response, and combine for its unsigned transaction and the signatures; and
  -- what submit sends to thoughtd for the text of combine is the hexadecimal form of the serialized
  -- transaction that spends each coin with its own unlocking script and pays each amount. It is
  -- relied on that the codecs read what they write, and that no signature starts with a zero byte.
  pub payment_reaches_node :
      (xs : List SignedSpend) (payments : List (Payment Address)) (operations : List Operation)
      (multiplier : Option Float64) (rate : Float64)
      (offers : Offers kit config
        (map (λ x. x.spend) xs)
        operations
        (options_of kit config to_float (map (λ x. x.spend) xs) operations multiplier)
        (record { script_pub_keys = map (λ x. x.spend.script_pub_key) xs }))
      → config.mode ≡ online
      → Rpc.suggested_fee_rate wire default_confirmation_target ≡ ok rate
      → AreCreated reads lib node
          (map coin_of (map (λ x. x.spend) xs))
          (map (λ x. x.spend.script_pub_key) xs)
      → IsFaithfulSigned kit config
      → All (IsSigned kit config) xs
      → Asks kit config (map (λ x. x.spend) xs) payments operations offers.written_metadata
      → (options : Metadata) × (prepared : MetadataResponse) × (response : PayloadsResponse)
        × (text : Text) × (tx : MsgTx) × (bytes : Bytes) × (construction_preprocess kit config
              to_float operations multiplier
            ≡ ok options)
        × (construction_metadata floats kit config (client_of lib wire) (indexer_of reads) options
            ≡ ok prepared)
        × (prepared.suggested_fee
            ≡ record {
              value = format_int (
                  estimated_fee floats rate multiplier
                    (to_float (transaction_overhead + expected_size kit config operations)));
              currency = config.currency;
            }
              ∷ [])
        × (construction_payloads kit config operations prepared.metadata ≡ ok response)
        × (construction_combine kit config response.unsigned_transaction (map signature_of xs)
            ≡ ok text)
        × (construction_submit kit config (client_of lib wire) text ≡ (
            or_wrap ErrorName.thoughtd (Rpc.send_raw_transaction wire (encode_to_string bytes))
            >>= λ tx_hash. ok (record { hash = tx_hash })))
        × (kit.serialize tx ≡ some bytes)
        × (tx.tx_in ≡ map (unlocked kit config) xs)
        × (tx.tx_out ≡ map paid payments)
  payment_reaches_node xs payments operations multiplier rate offers is_online given created
        faithful are asks =
      let spends = map (λ x. x.spend) xs in
      let scripts = map (λ x. x.spend.script_pub_key) xs in
      let found =
        get_script_pub_keys-AreCreated reads lib node (map coin_of spends) scripts created in
      let (response, text, tx, bytes, answered, combined, submitted, written, ins, outs) =
        submit_sends kit config (client_of lib wire) xs payments operations offers.written_metadata
          is_online faithful are asks in
      (
        offers.written_options,
        prepared_at kit config floats to_float spends operations multiplier scripts offers rate,
        response,
        text,
        tx,
        bytes,
        preprocess-ok kit config floats to_float spends operations multiplier scripts offers,
        metadata-ok kit config floats to_float spends operations multiplier scripts offers
            (client_of lib wire) (indexer_of reads) rate is_online given found,
        refl,
        answered,
        combined,
        submitted,
        written,
        ins,
        outs,
      )
