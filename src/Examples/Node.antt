-- ===== src/Examples/Node.antt =====
-- Examples of the endpoints over the indexer and thoughtd.
use rosetta_thought.Prelude.{ℕ, suc, ◌+◌, ◌≡◌, refl, none, some, [], ◌∷◌, arith}
use rosetta_thought.Prelude.Int.{pos, negsuc}
use rosetta_thought.Outcome.{ok, ◌>>=◌}
use rosetta_thought.Text.{Text, codes, text_eq}
use rosetta_thought.Text.Decimal.{format_int}
use rosetta_thought.Text.Split.{no_colon-NoColon}
use rosetta_thought.Text.Hex.{Bytes, encode_to_string}
use rosetta_thought.Sdk
use rosetta_thought.Sdk.{Operation, Metadata, BlockResponse, Amount, AccountIdentifier}
use rosetta_thought.Thought.Types.{
  Output, Transaction, input_metadata, output_metadata, output_op_type, coinbase_op_type,
  success_status,
}
use rosetta_thought.Thought.Coin.{coin_identifier}
use rosetta_thought.Thought.Operations.{
  parse_tx_operations, parse_inputs, parse_outputs, parse_output_transaction_operation,
  coinbase_tx_operation, parse_amount, output_account, output_coin_change, is_coinbase_input,
  parse_output_account,
}
use rosetta_thought.Thought.Rpc
use rosetta_thought.Thought.Rpc.{Wire, suggested_fee_rate, send, response_err}
use rosetta_thought.Configuration.{online}
use rosetta_thought.Indexer.Queries.{Reads, get_balance}
use rosetta_thought.Indexer.Queries.Balance.{Held}
use rosetta_thought.Indexer.Queries.Parsed.{Created}
use rosetta_thought.Services.Errors.{ErrorName}
use rosetta_thought.Services.Interfaces.{or_wrap}
use rosetta_thought.Services.Data.{account_balance}
use rosetta_thought.Services.Construction.Toolkit.{MsgTx}
use rosetta_thought.Services.Construction.Intent.{construction_preprocess}
use rosetta_thought.Services.Construction.Intent.Size.{expected_size}
use rosetta_thought.Services.Construction.Fee.{
  MetadataResponse, construction_metadata, estimated_fee,
}
use rosetta_thought.Services.Construction.Fee.Prepare.{coin_of}
use rosetta_thought.Services.Construction.Payloads.{PayloadsResponse, construction_payloads}
use rosetta_thought.Services.Construction.Payloads.Intended.{paid}
use rosetta_thought.Services.Construction.Combine.{construction_combine, construction_submit}
use rosetta_thought.Services.Construction.Combine.Sign.{signature_of, unlocked}
use rosetta_thought.Services.Wiring.{indexer_of, client_of}
use rosetta_thought.Services.Wiring.Balance.{account_balance-Held}
use rosetta_thought.Services.Wiring.Payment.{payment_reaches_node}
use rosetta_thought.Examples.{client, pay, coinbase}
use rosetta_thought.Examples.Mined.{lib, written, reads, reading-written}
use rosetta_thought.Examples.Wallet.{hash, kit, config, spend, payment, signed_spend}
use rosetta_thought.Examples.Requests.{
  kit-IsFaithfulSigned, signed_spend-IsSigned, request, request-Asks,
}
use rosetta_thought.Examples.Payments.{request_offers, floats}
use rosetta_thought.Examples.Queries.{no_account, twenty}

balance_answered :
    account_balance config (indexer_of no_account) (record { address = codes "3x" }) none
    ≡ ok (record {
      block_identifier = twenty;
      balances = record { value = codes "0"; currency = config.currency } ∷ [];
    })
unfolding account_balance get_balance
balance_answered = refl

account_balance-Held_example :
    (response : BlockResponse) × (amount : Amount) × (config.mode ≡ online)
    × (no_account.get_block_lazy none ≡ ok response)
    × (twenty ≡ response.block.block_identifier)
    × (record { value = codes "0"; currency = config.currency } ∷ [] ≡ amount ∷ [])
    × Held config.currency
        (no_account.get_balance
          (record { address = codes "3x" })
          config.currency
          response.block.block_identifier.index)
        amount
account_balance-Held_example =
    account_balance-Held config no_account (record { address = codes "3x" }) none
      (record {
        block_identifier = twenty;
        balances = record { value = codes "0"; currency = config.currency } ∷ [];
      })
      balance_answered

-- A transaction whose fourth output is the coin that the request spends.
abbrev earned : Output
earned = record { value = 10; index = pos 3; script_pub_key = some spend.script_pub_key }

abbrev earning : Transaction
earning = record {
  hex = [];
  hash = hash;
  size = pos 100;
  vsize = pos 100;
  version = pos 1;
  locktime = pos 0;
  weight = pos 400;
  inputs = coinbase ∷ [];
  outputs = pay 50 (pos 0) ∷ pay 50 (pos 1) ∷ pay 50 (pos 2) ∷ earned ∷ [];
}

-- The operation of the output with this number, after the one of the coinbase.
abbrev output_op : ℕ → Output → Text → Text → Operation
output_op n output address value = record {
  operation_identifier = record { index = pos (suc n); network_index = some (pos n) };
  type = output_op_type;
  status = some success_status;
  account = some (record { address = address });
  amount = some (record { value = value; currency = client.currency });
  coin_change = some (record {
    coin_identifier = record { identifier = coin_identifier hash (pos n) };
    coin_action = Sdk.coin_created;
  });
  metadata = written (output_metadata output);
}

abbrev earning_transaction : Sdk.Transaction
earning_transaction = record {
  transaction_identifier = record { hash = hash };
  operations =
      record {
        operation_identifier = record { index = pos 0; network_index = some (pos 0) };
        type = coinbase_op_type;
        status = some success_status;
        account = none;
        amount = none;
        coin_change = none;
        metadata = written (input_metadata coinbase);
      }
      ∷ output_op 0 (pay 50 (pos 0)) (codes "3x") (codes "50")
      ∷ output_op 1 (pay 50 (pos 1)) (codes "3x") (codes "50")
      ∷ output_op 2 (pay 50 (pos 2)) (codes "3x") (codes "50")
      ∷ output_op 3 earned (codes "aa") (codes "10")
      ∷ [];
  metadata = Metadata.empty;
}

earning_parsed : parse_tx_operations lib client earning 0 [] ≡ ok earning_transaction.operations
unfolding parse_tx_operations parse_inputs parse_outputs parse_output_transaction_operation
    coinbase_tx_operation parse_amount output_account output_coin_change is_coinbase_input
    parse_output_account text_eq format_int
earning_parsed = refl

abbrev stored : Reads Text
stored = record reads { find_transaction = λ text. ok (some earning_transaction) }

earned_value : parse_amount lib earned.value ≡ ok (pos 10)
unfolding parse_amount
earned_value = refl

earned_cancels : stored.add_values (format_int (pos 10)) (format_int (negsuc 9)) ≡ some (codes "0")
unfolding text_eq format_int
earned_cancels = refl

spend-Created : Created stored lib client (coin_of spend) spend.script_pub_key
spend-Created = record {
  tx = earning;
  tx_index = 0;
  coins = [];
  transaction = earning_transaction;
  parsed = earning_parsed;
  hash = hash;
  clean = no_colon-NoColon hash refl;
  long = refl;
  known = refl;
  stored = refl;
  index = 3;
  small = omega arith;
  named = refl;
  output = earned;
  output_at = refl;
  has_script = refl;
  value = pos 10;
  has_value = earned_value;
  negated = format_int (negsuc 9);
  asked = refl;
  cancels = earned_cancels;
  reads_back = reading-written (output_metadata earned);
}

-- A thoughtd whose fee rate is 0 and that names every transaction "t".
abbrev thoughtd : Wire
thoughtd = record {
  exchange = λ r. ok (200, []);
  decode_block = λ body. none;
  decode_info = λ body. none;
  decode_peers = λ body. none;
  decode_text = λ body. some (record { result = codes "t"; error = none });
  decode_int = λ body. none;
  decode_texts = λ body. none;
  decode_fee_rate = λ body. some (record { result = some 0; error = none });
}

rate_given : suggested_fee_rate thoughtd (pos 2) ≡ ok 0
unfolding suggested_fee_rate send response_err
rate_given = refl

payment_reaches_node_example :
    (options : Metadata) × (prepared : MetadataResponse) × (response : PayloadsResponse)
    × (text : Text) × (tx : MsgTx) × (bytes : Bytes) × (construction_preprocess kit config
          (λ n. n)
          request
          none
        ≡ ok options)
    × (construction_metadata floats kit config (client_of lib thoughtd) (indexer_of stored) options
        ≡ ok prepared)
    × (prepared.suggested_fee
        ≡ record {
          value = format_int (estimated_fee floats 0 none (10 + expected_size kit config request));
          currency = config.currency;
        }
          ∷ [])
    × (construction_payloads kit config request prepared.metadata ≡ ok response)
    × (construction_combine kit config response.unsigned_transaction
          (signature_of signed_spend ∷ [])
        ≡ ok text)
    × (construction_submit kit config (client_of lib thoughtd) text ≡ (
        or_wrap ErrorName.thoughtd (Rpc.send_raw_transaction thoughtd (encode_to_string bytes))
        >>= λ tx_hash. ok (record { hash = tx_hash })))
    × (kit.serialize tx ≡ some bytes)
    × (tx.tx_in ≡ unlocked kit config signed_spend ∷ [])
    × (tx.tx_out ≡ paid payment ∷ [])
payment_reaches_node_example =
    payment_reaches_node kit config floats (λ n. n) stored lib client thoughtd (signed_spend ∷ [])
      (payment ∷ []) request none 0 request_offers refl rate_given (spend-Created, tt)
      kit-IsFaithfulSigned (signed_spend-IsSigned, tt) request-Asks
