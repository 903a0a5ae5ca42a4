-- ===== src/Examples/Mined.antt =====
-- A mined transaction as the client parses it, in a storage that the indexer reads.
use rosetta_thought.Prelude.{◌≡◌, refl, Option, none, some, List, [], ◌∷◌, if◌then◌else◌, arith}
use mathlib.Core.Path.{subst}
use rosetta_thought.Prelude.Int.{pos}
use rosetta_thought.Outcome.{ok, err}
use rosetta_thought.Text.{Text, codes, text_eq}
use rosetta_thought.Text.Decimal.{format_int}
use rosetta_thought.Text.Split.{no_colon-NoColon}
use rosetta_thought.Sdk
use rosetta_thought.Sdk.{
  Failure, plain, Coin, Metadata, Json, BlockIdentifier, Operation, context_done, coin_created,
}
use rosetta_thought.Thought.Types.{
  ScriptPubKey, ScriptSig, OperationMetadata, Transaction, Library, input_metadata, output_metadata,
  output_op_type, coinbase_op_type, success_status,
}
use rosetta_thought.Thought.Coin.{coin_identifier}
use rosetta_thought.Thought.Operations.{
  parse_tx_operations, parse_inputs, parse_outputs, parse_output_transaction_operation,
  coinbase_tx_operation, parse_amount, output_account, output_coin_change, is_coinbase_input,
  parse_output_account,
}
use rosetta_thought.Indexer.Queries.{Reads}
use rosetta_thought.Indexer.Queries.Parsed.{Created}
use rosetta_thought.Examples.{client, pay, coinbase}
use rosetta_thought.Examples.Codec.{
  Codec, pair, via, list, int, text, decode-encode, option, as_json, of_json,
}
use rosetta_thought.Examples.Json.{script_pub_key}
use rosetta_thought.Examples.Wallet.{hash}

pub script_sig : Codec ScriptSig
script_sig =
    via (pair text text) (λ s. (s.asm, s.hex)) (λ x. record { asm = x.0; hex = x.1 }) (λ s. refl)

pub metadata_json : Codec OperationMetadata
metadata_json =
    via (pair text (pair (option script_sig) (pair int (pair (list text) (option script_pub_key)))))
      (λ m. (m.coinbase, (m.script_sig, (m.sequence, (m.tx_in_witness, m.script_pub_key)))))
      (λ x. record {
        coinbase = x.0;
        script_sig = x.1.0;
        sequence = x.1.1.0;
        tx_in_witness = x.1.1.1.0;
        script_pub_key = x.1.1.1.1;
      })
      (λ m. refl)

-- A library that writes the metadata of an operation as one string.
abbrev pub written : OperationMetadata → Metadata
written m = as_json metadata_json m

abbrev pub reading : Metadata → Option OperationMetadata
reading = of_json metadata_json

abbrev pub lib : Library
lib = record {
  marshal_block = λ b. some Metadata.empty;
  marshal_transaction = λ t. some Metadata.empty;
  marshal_operation = λ o. some (written o);
  marshal_peer = λ p. some Metadata.empty;
  negate_value = λ v. some (b'-' ∷ v);
  new_amount = λ f. some (pos f);
}

pub written-same :
    (m : OperationMetadata) (metadata : Metadata)
    → some (written m) ≡ some metadata
    → written m ≡ metadata
written-same m metadata h = cc

pub reading-written :
    (m : OperationMetadata) (metadata : Metadata)
    → lib.marshal_operation m ≡ some metadata
    → reading metadata ≡ some m
reading-written m metadata h =
    subst (λ d. reading d ≡ some m) (written-same m metadata h) (decode-encode metadata_json m)

abbrev pub mined : Transaction
mined = record {
  hex = [];
  hash = hash;
  size = pos 100;
  vsize = pos 100;
  version = pos 1;
  locktime = pos 0;
  weight = pos 400;
  inputs = coinbase ∷ [];
  outputs = pay 50 (pos 0) ∷ [];
}

abbrev pub paid_script : ScriptPubKey
paid_script = record {
  asm = [];
  hex = codes "76a9";
  required_sigs = pos 1;
  type = codes "pubkeyhash";
  addresses = codes "3x" ∷ [];
}

abbrev pub mined_operations : List Operation
mined_operations =
    record {
      operation_identifier = record { index = pos 0; network_index = some (pos 0) };
      type = coinbase_op_type;
      status = some success_status;
      account = none;
      amount = none;
      coin_change = none;
      metadata = written (input_metadata coinbase);
    }
    ∷ record {
      operation_identifier = record { index = pos 1; network_index = some (pos 0) };
      type = output_op_type;
      status = some success_status;
      account = some (record { address = codes "3x" });
      amount = some (record { value = codes "50"; currency = client.currency });
      coin_change = some (record {
        coin_identifier = record { identifier = coin_identifier hash (pos 0) };
        coin_action = coin_created;
      });
      metadata = written (output_metadata (pay 50 (pos 0)));
    }
    ∷ []

pub mined_parsed : parse_tx_operations lib client mined 0 [] ≡ ok mined_operations
unfolding parse_tx_operations parse_inputs parse_outputs parse_output_transaction_operation
    coinbase_tx_operation parse_amount output_account output_coin_change is_coinbase_input
    parse_output_account text_eq format_int
mined_parsed = refl

abbrev pub mined_transaction : Sdk.Transaction
mined_transaction = record {
  transaction_identifier = record { hash = hash };
  operations = mined_operations;
  metadata = Metadata.empty;
}

abbrev pub reads : Reads Text
reads = record {
  new_hash_from_str = λ text. some text;
  hash_string = λ text. text;
  find_transaction = λ text. ok (some mined_transaction);
  unmarshal_operation = reading;
  hash_currency = λ currency. currency.symbol;
  add_values = λ a b. if text_eq b (b'-' ∷ a) then some (codes "0") else none;
  get_block_lazy = λ identifier. err plain;
  get_balance = λ account currency index. err plain;
  get_block_transaction = λ block transaction. err plain;
  get_coins = λ account. err plain;
}

abbrev pub asked : Coin
asked = record {
  coin_identifier = record { identifier = coin_identifier hash (pos 0) };
  amount = some (record { value = codes "-50"; currency = client.currency });
}

pub mined_value : parse_amount lib (pay 50 (pos 0)).value ≡ ok (pos 50)
unfolding parse_amount
mined_value = refl

pub cancels : reads.add_values (format_int (pos 50)) (codes "-50") ≡ some (codes "0")
unfolding text_eq format_int
cancels = refl

pub asked-Created : Created reads lib client asked paid_script
asked-Created = record {
  tx = mined;
  tx_index = 0;
  coins = [];
  transaction = mined_transaction;
  parsed = mined_parsed;
  hash = hash;
  clean = no_colon-NoColon hash refl;
  long = refl;
  known = refl;
  stored = refl;
  index = 0;
  small = omega arith;
  named = refl;
  output = pay 50 (pos 0);
  output_at = refl;
  has_script = refl;
  value = pos 50;
  has_value = mined_value;
  negated = codes "-50";
  asked = refl;
  cancels = cancels;
  reads_back = reading-written (output_metadata (pay 50 (pos 0)));
}
