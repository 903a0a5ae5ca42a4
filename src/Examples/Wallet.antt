-- ===== src/Examples/Wallet.antt =====
-- A toolkit for the Construction API whose scripts are addresses and whose hashes are texts, with the
-- payment of two coins to one account.
use rosetta_thought.Prelude.{
  take, ◌++◌, ℕ, zero, suc, true, false, Option, none, some, List, [], ◌∷◌, map, if◌then◌else◌,
}
use rosetta_thought.Prelude.Int.{ℤ, pos, negsuc}
use rosetta_thought.Text.{Text, codes, text_eq}
use rosetta_thought.Text.Decimal.{read_digits, format_int}
use rosetta_thought.Text.Hex.{Bytes}
use rosetta_thought.Sdk.{Operation, Amount, Metadata, coin_spent}
use rosetta_thought.Thought.Types.{ScriptPubKey, input_op_type, output_op_type}
use rosetta_thought.Thought.Coin.{coin_identifier}
use rosetta_thought.Thought.Address.{pub_key_hash}
use rosetta_thought.Configuration.{Configuration, online, mainnet, mainnet_params}
use rosetta_thought.Services.Construction.Toolkit.{Toolkit, Descriptions, Match}
use rosetta_thought.Services.Construction.Payloads.Intended.{Spend, Payment}
use rosetta_thought.Services.Construction.Combine.Sign.{SignedSpend}
use rosetta_thought.Examples.Codec.{encode, decode, as_json, of_json}
use rosetta_thought.Examples.Json.{msg_tx, unsigned_json, signed_json, options_json, metadata_json}

-- The amount of an operation as a number.
unfoldable negative : Option ℕ → Option ℤ
negative none = none
negative (some zero) = some (pos 0)
negative (some (suc n)) = some (negsuc n)

unfoldable positive : Option ℕ → Option ℤ
positive none = none
positive (some n) = some (pos n)

unfoldable amount_of : Option Amount → Option ℤ
unfolding negative positive read_digits
amount_of none = none
amount_of (some a) = elim a.value [
  | [] ↦ none
  | c ∷ s ↦ elim (text_eq (c ∷ []) (codes "-")) [
    | true ↦ negative (read_digits 0 s)
    | false ↦ positive (read_digits 0 (c ∷ s))
  ]
]

unfoldable of_type : Text → List Operation → List Operation
of_type type [] = []
of_type type (o ∷ os) = let rest = of_type type os in if text_eq o.type type then o ∷ rest else rest

-- The matcher of the examples goes by the type alone.
unfoldable pub match_types : Descriptions → List Operation → Option (List Match)
unfolding of_type amount_of
match_types ds os = some (
    map
      (λ d. record {
        operations = of_type d.type os;
        amounts = map (λ o. amount_of o.amount) (of_type d.type os);
      })
      ds.operation_descriptions)

abbrev pub scripts_of_one : List ScriptPubKey
scripts_of_one =
    record {
      asm = [];
      hex = codes "6161";
      required_sigs = pos 1;
      type = codes "pubkeyhash";
      addresses = codes "aa" ∷ [];
    }
    ∷ []

abbrev last : List Bytes → Option Bytes
last [] = none
last (b ∷ []) = some b
last (b ∷ c ∷ _) = some c

abbrev pub kit : Toolkit Text
kit = record {
  match_operations = match_types;
  marshal_options = λ o. some (as_json options_json o);
  unmarshal_options = of_json options_json;
  marshal_metadata = λ m. some (as_json metadata_json m);
  unmarshal_metadata = of_json metadata_json;
  marshal_unsigned = λ u. some (encode unsigned_json u);
  unmarshal_unsigned = decode unsigned_json;
  marshal_signed = λ s. some (encode signed_json s);
  unmarshal_signed = decode signed_json;
  new_hash_from_str = λ text. some (take 32 text);
  hash_string = λ id. id ++ id;
  hash160 = λ key. key;
  new_address_pub_key_hash = λ hash params. some hash;
  decode_address = λ address params. some address;
  encode_address = λ address. address;
  address_string = λ address. address;
  new_tx_from_bytes = decode msg_tx;
  tx_hash = encode msg_tx;
  pay_to_addr_script = λ address. some address;
  extract_pk_script_addrs = λ params script. some (pub_key_hash, script ∷ [], pos 1);
  calc_signature_hash = λ script hash_type tx i. some script;
  compute_pk_script = λ script_sig. some script_sig;
  script_of_data = last;
  sig_hash_all = 1;
  new_msg_tx = λ version. record { version = version; tx_in = []; tx_out = []; lock_time = 0 };
  mainnet_tx_version = pos 2;
  testnet_tx_version = pos 1;
  max_tx_in_sequence_num = 7;
  serialize = λ tx. some (encode msg_tx tx);
  deserialize = decode msg_tx;
  set_byte_slice = λ bytes. (0, false);
  serialize_signature = λ r s. r ∷ s ∷ [];
}

abbrev pub config : Configuration
config = record {
  mode = online;
  network = record { blockchain = codes "Thought"; network = codes "Mainnet" };
  network_chain = mainnet;
  params = mainnet_params;
  currency = record { symbol = codes "THT"; decimals = pos 8 };
  genesis_block_identifier = record { index = pos 0; hash = codes "g" };
  port = pos 8080;
  rpc_port = 10617;
  config_path = [];
  pruning = record { frequency_minutes = 1; depth = pos 5; min_height = pos 10 };
  indexer_path = [];
  thoughtd_path = [];
  compressors = [];
}

abbrev pub hash : Text
hash = codes "00000000917e049641189c33d6b1275100000000917e049641189c33d6b12751"

abbrev amount : ℤ → Amount
amount value = record { value = format_int value; currency = config.currency }

abbrev pub spending : Operation
spending = record {
  operation_identifier = record { index = pos 5; network_index = none };
  type = input_op_type;
  status = none;
  account = some (record { address = codes "aa" });
  amount = some (amount (negsuc 9));
  coin_change = some (record {
    coin_identifier = record { identifier = coin_identifier hash (pos 3) };
    coin_action = coin_spent;
  });
  metadata = Metadata.empty;
}

abbrev pub paying : Operation
paying = record {
  operation_identifier = record { index = pos 4; network_index = none };
  type = output_op_type;
  status = none;
  account = some (record { address = codes "bb" });
  amount = some (amount (pos 8));
  coin_change = none;
  metadata = Metadata.empty;
}

abbrev pub spend : Spend
spend = record {
  operation = spending;
  address = codes "aa";
  amount = negsuc 9;
  hash = hash;
  id = take 32 hash;
  vout = 3;
  script_pub_key = record {
    asm = [];
    hex = codes "6161";
    required_sigs = pos 1;
    type = codes "pubkeyhash";
    addresses = codes "aa" ∷ [];
  };
  script = codes "aa";
}

abbrev pub payment : Payment Text
payment = record {
  operation = paying;
  address = codes "bb";
  amount = pos 8;
  addr = codes "bb";
  pk_script = codes "bb";
}

abbrev thirty_one : Bytes
thirty_one = codes "1234567890123456789012345678901"

abbrev pub signed_spend : SignedSpend
signed_spend = record {
  spend = spend;
  first = 3;
  high = thirty_one;
  low = 5 ∷ thirty_one;
  spare = [];
  r = 0;
  s = 0;
  public_key = codes "aa";
  script_sig = codes "aa";
}

-- The metadata of the request, with the script of the coin.
abbrev pub request_metadata : Metadata
request_metadata = as_json metadata_json (record { script_pub_keys = scripts_of_one })
