-- ===== src/Thought/Operations.antt =====
-- `parseTxOperations` of thought/client.go and what it calls: one operation for each input and each
-- output of a transaction.
pub mod Shape
use rosetta_thought.Prelude.{
  ℕ, zero, suc, ◌+◌, ◌≡◌, refl, Bool, ◌&&◌, not, Option, none, some, List, [], ◌∷◌, ◌++◌, arith,
  ◌==◌, if◌then◌else◌, length,
}
use rosetta_thought.Prelude.Int.{ℤ, pos, ltb_ℤ}
use rosetta_thought.Outcome.{Outcome, ok, err, panic, ◌>>=◌, or_err, deref}
use rosetta_thought.Map.{Map, lookup}
use rosetta_thought.Text.{Text, text_eq}
use rosetta_thought.Text.Decimal.{format_int}
use rosetta_thought.Sdk.{
  Failure, plain, foreign, previous_tx_missing, AccountIdentifier, AccountCoin, Operation,
  OperationIdentifier, CoinChange, coin_created, coin_spent, Currency,
}
use rosetta_thought.Thought.Types.{
  Input, Output, ScriptPubKey, Transaction, Client, Library, input_metadata, output_metadata,
  input_op_type, output_op_type, coinbase_op_type, success_status, null_data,
}
use rosetta_thought.Thought.Coin.{coin_identifier}

unfoldable pub is_coinbase_input : Input → ℕ → ℕ → Bool
is_coinbase_input input tx_index input_index =
    tx_index == 0
    && (input_index == 0 && (text_eq input.tx_hash [] && not (text_eq input.coinbase [])))

-- `getInputTxHash`: `none` for the coinbase input.
unfoldable pub input_tx_hash : Input → ℕ → ℕ → Option (Text × ℤ)
input_tx_hash input tx_index input_index =
    if is_coinbase_input input tx_index input_index then none else some (input.tx_hash, input.vout)

abbrev one_address : Text → List Text → AccountIdentifier
one_address hex (a ∷ []) = record { address = a }
one_address hex _ = record { address = hex }

unfoldable pub parse_output_account : ScriptPubKey → AccountIdentifier
parse_output_account script = one_address script.hex script.addresses

-- The account of an output: one with a blank address is named after the output.
unfoldable pub output_account : ScriptPubKey → Text → ℕ → AccountIdentifier
unfolding parse_output_account
output_account script tx_hash network_index =
    let account = parse_output_account script in
    if length account.address == 0
    then record { address = coin_identifier tx_hash (pos network_index) }
    else account

-- An OP_RETURN output makes no coin.
unfoldable pub output_coin_change : ScriptPubKey → Text → ℕ → Option CoinChange
output_coin_change script tx_hash network_index =
    if text_eq script.type null_data
    then none
    else some (record {
      coin_identifier = record { identifier = coin_identifier tx_hash (pos network_index) };
      coin_action = coin_created;
    })

abbrev at : ℕ → ℕ → OperationIdentifier
at index network_index = record { index = pos index; network_index = some (pos network_index) }

module _ (lib : Library) where
  unfoldable pub parse_amount : ℕ → Outcome Failure ℤ
  parse_amount value = do
    amount ← or_err (foreign 3) (lib.new_amount value)
    if ltb_ℤ amount (pos 0) then err plain else ok amount

  module _ (client : Client) where
    unfoldable pub coinbase_tx_operation : Input → ℕ → ℕ → Outcome Failure Operation
    coinbase_tx_operation input index network_index = do
      metadata ← or_err (foreign 2) (lib.marshal_operation (input_metadata input))
      ok (record {
        operation_identifier = at index network_index;
        type = coinbase_op_type;
        status = some success_status;
        account = none;
        amount = none;
        coin_change = none;
        metadata = metadata;
      })

    unfoldable pub parse_input_transaction_operation :
        Input → ℕ → ℕ → AccountCoin → Outcome Failure Operation
    parse_input_transaction_operation input index network_index account_coin = do
      metadata ← or_err (foreign 2) (lib.marshal_operation (input_metadata input))
      amount ← deref account_coin.coin.amount
      new_value ← or_err (foreign 4) (lib.negate_value amount.value)
      ok (record {
        operation_identifier = at index network_index;
        type = input_op_type;
        status = some success_status;
        account = account_coin.account;
        amount = some (record { value = new_value; currency = client.currency });
        coin_change = some (record {
          coin_identifier = record { identifier = coin_identifier input.tx_hash input.vout };
          coin_action = coin_spent;
        });
        metadata = metadata;
      })

    unfoldable pub parse_output_transaction_operation :
        Output → Text → ℕ → ℕ → Outcome Failure Operation
    unfolding output_account output_coin_change
    parse_output_transaction_operation output tx_hash index network_index = do
      amount ← parse_amount output.value
      metadata ← or_err (foreign 2) (lib.marshal_operation (output_metadata output))
      script ← deref output.script_pub_key
      ok (record {
        operation_identifier = at index network_index;
        type = output_op_type;
        status = some success_status;
        account = some (output_account script tx_hash network_index);
        amount = some (record { value = format_int amount; currency = client.currency });
        coin_change = output_coin_change script tx_hash network_index;
        metadata = metadata;
      })

    -- The loop over the inputs from the one at `network_index`; a coinbase input ends it.
    unfoldable pub parse_inputs :
        ℕ → Map AccountCoin → ℕ → List Operation → List Input → Outcome Failure (List Operation)
    parse_inputs tx_index coins network_index tx_ops [] = ok tx_ops
    parse_inputs tx_index coins network_index tx_ops (input ∷ inputs) =
        if is_coinbase_input input tx_index network_index
        then (do
          tx_op ← coinbase_tx_operation input (length tx_ops) network_index
          ok (tx_ops ++ tx_op ∷ []))
        else (do
          account_coin ←
              or_err previous_tx_missing (lookup (coin_identifier input.tx_hash input.vout) coins)
          tx_op ← parse_input_transaction_operation input (length tx_ops) network_index account_coin
          parse_inputs tx_index coins (suc network_index) (tx_ops ++ tx_op ∷ []) inputs)

    -- The loop over the outputs from the one at `network_index`.
    unfoldable pub parse_outputs :
        Text → ℕ → List Operation → List Output → Outcome Failure (List Operation)
    parse_outputs tx_hash network_index tx_ops [] = ok tx_ops
    parse_outputs tx_hash network_index tx_ops (output ∷ outputs) = do
      tx_op ← parse_output_transaction_operation output tx_hash (length tx_ops) network_index
      parse_outputs tx_hash (suc network_index) (tx_ops ++ tx_op ∷ []) outputs

    unfoldable pub parse_tx_operations :
        Transaction → ℕ → Map AccountCoin → Outcome Failure (List Operation)
    parse_tx_operations tx tx_index coins = do
      tx_ops ← parse_inputs tx_index coins 0 [] tx.inputs
      parse_outputs tx.hash 0 tx_ops tx.outputs
