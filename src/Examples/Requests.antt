-- ===== src/Examples/Requests.antt =====
-- The wallet keeps what the Construction API relies on, and a request of it asks for its payment.
use rosetta_thought.Prelude.{◌≡◌, refl, some, List, [], ◌∷◌, map, arith}
use rosetta_thought.Prelude.Int.{pos, negsuc}
use rosetta_thought.Text.{codes, text_eq}
use rosetta_thought.Text.Decimal.{format_int}
use rosetta_thought.Text.Split.{NoColon, no_colon-NoColon}
use rosetta_thought.Text.Hex.{encode_to_string, decode_string, from_hex_char}
use rosetta_thought.Sdk.{Operation}
use rosetta_thought.Services.Interfaces.{SignedTransaction}
use rosetta_thought.Services.Construction.Payloads.{payload_descriptions}
use rosetta_thought.Services.Construction.Payloads.Intended.{
  IsSpend, IsPayment, IsFaithful, unsigned_of,
}
use rosetta_thought.Services.Construction.Payloads.RoundTrip.{Asks}
use rosetta_thought.Services.Construction.Combine.Sign.{IsSigned, IsFaithfulSigned}
use rosetta_thought.Examples.Codec.{encode, decode-encode, encode-IsBytes}
use rosetta_thought.Examples.Wallet.{
  match_types, kit, config, hash, spending, paying, spend, payment, signed_spend, scripts_of_one,
  request_metadata,
}
use rosetta_thought.Examples.Json.{msg_tx, unsigned_json, signed_json, metadata_json}

pub kit-IsFaithful : IsFaithful kit config
kit-IsFaithful = record {
  serializes = λ tx some_input wire.
      (encode msg_tx tx, refl, encode-IsBytes msg_tx tx, decode-encode msg_tx tx);
  hashes = λ script addr tx i class_of small. (script, refl);
  fresh = λ version. refl;
  sequence = omega arith;
}

pub kit-IsFaithfulSigned : IsFaithfulSigned kit config
kit-IsFaithfulSigned = record {
  marshals = λ transaction amounts good.
      let t : SignedTransaction = record {
        transaction = encode_to_string transaction;
        input_amounts = map format_int amounts;
      } in
      (encode signed_json t, refl, encode-IsBytes signed_json t, decode-encode signed_json t);
  reads = λ bytes. refl;
}

pub hash-NoColon : NoColon hash
hash-NoColon = no_colon-NoColon hash refl

pub script_decoded : decode_string (codes "6161") ≡ some (codes "aa")
unfolding decode_string from_hex_char
script_decoded = refl

pub spend-IsSpend : IsSpend kit config spend
spend-IsSpend = record {
  account = refl;
  coin = refl;
  clean = hash-NoColon;
  long = refl;
  id_length = refl;
  id_bytes = ground arith;
  known = refl;
  printed = refl;
  small = omega arith;
  decoded = script_decoded;
  single = (codes "aa", refl);
}

pub payment-IsPayment : IsPayment kit config payment
payment-IsPayment = record {
  account = refl;
  decoded = refl;
  pays = refl;
  back = (_, codes "bb", refl, refl);
  fits = ground arith;
  script_bytes = ground arith;
}

pub signed_spend-IsSigned : IsSigned kit config signed_spend
signed_spend-IsSigned = record {
  spend = spend-IsSpend;
  nonzero = omega arith;
  high_length = refl;
  low_length = refl;
  r_scalar = refl;
  s_scalar = refl;
  pushed = refl;
  script_bytes = ground arith;
  owner = (codes "aa", _, codes "aa", refl, refl, refl);
}

-- The output is asked for before the input.
abbrev pub request : List Operation
request = paying ∷ spending ∷ []

pub request_matched :
    kit.match_operations (payload_descriptions config) request
    ≡ some (
        record { operations = spending ∷ []; amounts = some (negsuc 9) ∷ [] }
        ∷ record { operations = paying ∷ []; amounts = some (pos 8) ∷ [] }
        ∷ [])
unfolding match_types text_eq format_int
request_matched = refl

pub request-Asks : Asks kit config (spend ∷ []) (payment ∷ []) request request_metadata
request-Asks = record {
  faithful = kit-IsFaithful;
  are_spends = (spend-IsSpend, tt);
  are_payments = (payment-IsPayment, tt);
  some_spend = λ h. cc;
  unused = [];
  matched = request_matched;
  metadata = record { script_pub_keys = scripts_of_one };
  unmarshalled = decode-encode metadata_json (record { script_pub_keys = scripts_of_one });
  scripts = refl;
  marshals = λ bytes good.
      let u = unsigned_of bytes scripts_of_one (spend ∷ []) in
      (encode unsigned_json u, refl, encode-IsBytes unsigned_json u, decode-encode unsigned_json u);
}
