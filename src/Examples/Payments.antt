-- ===== src/Examples/Payments.antt =====
-- Examples of the Construction API.
use rosetta_thought.Prelude.{
  ◌+◌, ltb, ◌↔◌, ◌≡◌, refl, true, false, Option, none, some, List, [], ◌∷◌, map, arith, All,
}
use rosetta_thought.Prelude.Int.{ℤ, pos, negsuc}
use rosetta_thought.Outcome.{ok, err, panic}
use rosetta_thought.Text.{Text, codes, text_eq}
use rosetta_thought.Text.Decimal.{format_int}
use rosetta_thought.Text.Hex.{
  Bytes, encode_to_string, decode_string, decode_string-encode_to_string,
}
use rosetta_thought.Sdk.{plain, Metadata}
use rosetta_thought.Services.Interfaces.{Client, Indexer, UnsignedTransaction, PreprocessOptions}
use rosetta_thought.Configuration.{offline}
use rosetta_thought.Services.Construction.Modes.{moded, modes_agree}
use rosetta_thought.Services.Construction.Intent.{
  construction_derive, preprocess_descriptions, construction_preprocess,
}
use rosetta_thought.Services.Construction.Intent.Size.{
  HasAccount, count_type, output_addresses, total_size, expected_size,
}
use rosetta_thought.Services.Construction.Fee.{Floats, MetadataResponse, construction_metadata}
use rosetta_thought.Services.Construction.Fee.Prepare.{
  IsFee, Offers, options_of, preprocess_metadata,
}
use rosetta_thought.Thought.Address.{
  ScriptClass, other_class, parse_single_address, IsEmptySingle, parse_single_address_panics,
}
use rosetta_thought.Services.Construction.Toolkit.{MsgTx, decode_intermediate}
use rosetta_thought.Services.Construction.Payloads.{PayloadsResponse, construction_payloads}
use rosetta_thought.Services.Construction.Payloads.Intended.{intended, paid, spent}
use rosetta_thought.Services.Construction.Payloads.RoundTrip.{payloads-parse}
use rosetta_thought.Services.Construction.Parse.{construction_parse}
use rosetta_thought.Services.Construction.Parse.Short.{construction_parse_panics}
use rosetta_thought.Services.Construction.Combine.{
  signature_halves, construction_combine, construction_hash,
}
use rosetta_thought.Services.Construction.Combine.Halves.{signature_halves_panics}
use rosetta_thought.Services.Construction.Combine.Sign.{signature_of, unlocked}
use rosetta_thought.Services.Construction.Combine.Flow.{construction_flow}
use rosetta_thought.Examples.Codec.{Codec, encode, decode, decode-encode, encode-IsBytes, as_json}
use rosetta_thought.Examples.Wallet.{
  match_types, kit, config, spending, spend, payment, signed_spend, scripts_of_one,
  request_metadata,
}
use rosetta_thought.Examples.Json.{msg_tx, unsigned_json, options_json, metadata_json}
use rosetta_thought.Examples.Requests.{
  kit-IsFaithfulSigned, spend-IsSpend, signed_spend-IsSigned, request, request-Asks,
}

payloads-parse_example :
    (response : PayloadsResponse) × (construction_payloads kit config request request_metadata
      ≡ ok response)
    × (map (λ payload. payload.address) response.payloads ≡ codes "aa" ∷ [])
    × (construction_parse kit config false response.unsigned_transaction
        ≡ ok (record {
          operations = intended config (spend ∷ []) (payment ∷ []);
          account_identifier_signers = [];
        }))
payloads-parse_example =
    payloads-parse kit config (spend ∷ []) (payment ∷ []) request request_metadata request-Asks

construction_flow_example :
    (response : PayloadsResponse) × (text : Text) × (tx : MsgTx) × (construction_payloads kit config
        request request_metadata
      ≡ ok response)
    × (construction_combine kit config response.unsigned_transaction
          (signature_of signed_spend ∷ [])
        ≡ ok text)
    × (construction_parse kit config true text
        ≡ ok (record {
          operations = intended config (spend ∷ []) (payment ∷ []);
          account_identifier_signers = record { address = codes "aa" } ∷ [];
        }))
    × (construction_hash kit config text ≡ ok (record { hash = kit.hash_string (kit.tx_hash tx) }))
    × (tx.tx_in ≡ unlocked kit config signed_spend ∷ [])
    × (tx.tx_out ≡ paid payment ∷ [])
construction_flow_example =
    construction_flow kit config (signed_spend ∷ []) (payment ∷ []) request request_metadata
      kit-IsFaithfulSigned (signed_spend-IsSigned, tt) request-Asks

-- A thoughtd that answers a transaction with its text.
abbrev echo : Client
echo = record {
  get_peers = ok [];
  send_raw_transaction = λ raw. ok raw;
  suggested_fee_rate = λ target. ok 0;
  raw_mempool = ok [];
}

abbrev sixty_three : Bytes
sixty_three = codes "123456789012345678901234567890123456789012345678901234567890123"

signature_halves_panics_example :
    signature_halves (record { elements = 0 ∷ sixty_three; spare = [] }) ≡ panic
signature_halves_panics_example = signature_halves_panics sixty_three refl

pub request-HasAccount : All HasAccount request
request-HasAccount = (
  λ h. (record { address = codes "bb" }, refl),
  ((λ h. (record { address = codes "aa" }, refl)), tt),
)

-- 10 bytes, 148 for the input, and 9 and 2 for the output.
expected_size_example : 10 + expected_size kit config request ≡ 169
unfolding count_type output_addresses total_size text_eq
expected_size_example = refl

pub preprocess_matched :
    kit.match_operations (preprocess_descriptions config) request
    ≡ some (record { operations = spending ∷ []; amounts = some (negsuc 9) ∷ [] } ∷ [])
unfolding match_types text_eq format_int
preprocess_matched = refl

abbrev pub offered : PreprocessOptions
offered = options_of kit config (λ n. n) (spend ∷ []) request none

abbrev pub request_offers :
    Offers kit config (spend ∷ []) request offered (record { script_pub_keys = scripts_of_one })
request_offers = record {
  are_spends = (spend-IsSpend, tt);
  amounts = some (negsuc 9) ∷ [];
  unused = [];
  matched = preprocess_matched;
  accounts = request-HasAccount;
  written_options = as_json options_json offered;
  marshals_options = refl;
  unmarshals_options = decode-encode options_json offered;
  written_metadata = request_metadata;
  marshals_metadata = refl;
  unmarshals_metadata = decode-encode metadata_json (record { script_pub_keys = scripts_of_one });
}

-- Arithmetic on the bits, which are ordered as the numbers are.
abbrev pub floats : Floats
floats = record { times = λ x y. x; over = λ x y. x; less = ltb; to_int64 = λ x. pos x }

abbrev indexer : Indexer
indexer = record {
  get_block_lazy = λ identifier. err plain;
  get_block_transaction = λ block transaction. err plain;
  get_coins = λ account. err plain;
  get_script_pub_keys = λ coins. ok scripts_of_one;
  get_balance = λ account currency identifier. err plain;
}

preprocess_metadata_example :
    (options : Metadata) × (response : MetadataResponse) × (fee : ℤ) × (construction_preprocess kit
        config
        (λ n. n)
        request
        none
      ≡ ok options)
    × (construction_metadata floats kit config echo indexer options ≡ ok response)
    × (kit.unmarshal_metadata response.metadata
        ≡ some (record { script_pub_keys = scripts_of_one }))
    × (response.suggested_fee ≡ record { value = format_int fee; currency = config.currency } ∷ [])
    × IsFee floats 0 none (10 + expected_size kit config request) fee
preprocess_metadata_example =
    preprocess_metadata kit config floats (λ n. n) echo indexer (spend ∷ []) request none 0
      scripts_of_one refl request_offers refl refl

modes_agree_example :
    (construction_derive kit (moded kit config offline) (some (codes "aa"))
      ≡ construction_derive kit config (some (codes "aa")))
    × (construction_preprocess kit (moded kit config offline) (λ n. n) request none
        ≡ construction_preprocess kit config (λ n. n) request none)
    × (construction_payloads kit (moded kit config offline) request request_metadata
        ≡ construction_payloads kit config request request_metadata)
    × (construction_parse kit (moded kit config offline) true (codes "aa")
        ≡ construction_parse kit config true (codes "aa"))
    × (construction_combine kit
          (moded kit config offline)
          (codes "aa")
          (signature_of signed_spend ∷ [])
        ≡ construction_combine kit config (codes "aa") (signature_of signed_spend ∷ []))
    × (construction_hash kit (moded kit config offline) (codes "aa")
        ≡ construction_hash kit config (codes "aa"))
modes_agree_example =
    modes_agree kit config offline (some (codes "aa")) (λ n. n) request none request_metadata true
      (codes "aa") (signature_of signed_spend ∷ [])

-- A script for one signature with no address.
abbrev no_address : Bytes → Option (ScriptClass × List Text × ℤ)
no_address script = some (other_class, [], pos 1)

parse_single_address_panics_example :
    (parse_single_address no_address (codes "ab") ≡ panic) ↔ IsEmptySingle (no_address (codes "ab"))
parse_single_address_panics_example = parse_single_address_panics no_address (codes "ab")

-- A transaction with an input, of which the JSON has no address.
abbrev one_input : MsgTx
one_input = record { version = pos 3; tx_in = spent kit spend ∷ []; tx_out = []; lock_time = 0 }

abbrev no_addresses : UnsignedTransaction
no_addresses = record {
  transaction = encode_to_string (encode msg_tx one_input);
  script_pub_keys = [];
  input_amounts = [];
  input_addresses = [];
}

encoded_decoded :
    {A : Type 0} (codec : Codec A) (x : A)
    → decode_intermediate (decode codec) (decode_string (encode_to_string (encode codec x))) ≡ ok x
encoded_decoded codec x =
    rw (decode_string-encode_to_string (encode codec x) (encode-IsBytes codec x))
      (rw (decode-encode codec x) refl)

construction_parse_panics_example :
    construction_parse kit config false (encode_to_string (encode unsigned_json no_addresses))
    ≡ panic
construction_parse_panics_example =
    construction_parse_panics kit config (encode_to_string (encode unsigned_json no_addresses))
      no_addresses one_input (encoded_decoded unsigned_json no_addresses)
      (encoded_decoded msg_tx one_input) (omega arith)
