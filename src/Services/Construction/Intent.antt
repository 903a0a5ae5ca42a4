-- ===== src/Services/Construction/Intent.antt =====
-- ConstructionDerive, estimateSize and ConstructionPreprocess of services/construction_service.go.
pub mod Size
use rosetta_thought.Prelude.{
  ℕ, ◌+◌, Bool, true, false, Option, none, some, List, [], ◌∷◌, if◌then◌else◌, length,
}
use rosetta_thought.Outcome.{Outcome, ok, err, panic, ◌>>=◌, deref, traverse}
use rosetta_thought.Text.{Text, text_eq}
use rosetta_thought.Text.Hex.{Bytes}
use rosetta_thought.Sdk.{
  Failure, plain, Float64, Operation, Coin, CoinChange, CoinIdentifier, Amount, AccountIdentifier,
  Metadata, coin_spent,
}
use rosetta_thought.Thought.Types.{
  input_op_type, output_op_type, transaction_overhead, input_size, output_overhead,
  p2pkh_script_pubkey_size,
}
use rosetta_thought.Configuration.{Configuration}
use rosetta_thought.Services.Errors.{Error, ErrorName, wrap_err}
use rosetta_thought.Services.Interfaces.{PreprocessOptions}
use rosetta_thought.Services.Construction.Toolkit.{
  Toolkit, Descriptions, OperationDescription, negative_amount, positive_amount, Match,
  or_wrap_foreign, index,
}

-- The two descriptions that operations are matched against.
abbrev pub input_description : Configuration → OperationDescription
input_description config = record {
  type = input_op_type;
  account_exists = true;
  amount_exists = true;
  amount_sign = negative_amount;
  currency = config.currency;
  coin_action = some coin_spent;
  allow_repeats = true;
}

abbrev pub output_description : Configuration → OperationDescription
output_description config = record {
  type = output_op_type;
  account_exists = true;
  amount_exists = true;
  amount_sign = positive_amount;
  currency = config.currency;
  coin_action = none;
  allow_repeats = true;
}

abbrev pub preprocess_descriptions : Configuration → Descriptions
preprocess_descriptions config = record {
  operation_descriptions = input_description config ∷ [];
  err_unmatched = false;
}

-- `CoinChange cannot be nil`.
abbrev pub spent_coin : Operation → Outcome Error CoinIdentifier
spent_coin input = elim input.coin_change [
  | none ↦ err (wrap_err ErrorName.unclear_intent (some plain))
  | some change ↦ ok change.coin_identifier
]

module _ {Address : Type 0} (kit : Toolkit Address) (config : Configuration) where
  -- `public_key` are the bytes of the request's key, if it has one.
  unfoldable pub construction_derive : Option Bytes → Outcome Error AccountIdentifier
  construction_derive public_key = do
    key ← deref public_key
    addr ←
        or_wrap_foreign ErrorName.unable_to_derive
          (kit.new_address_pub_key_hash (kit.hash160 key) config.params)
    ok (record { address = kit.encode_address addr })

  abbrev pub script_size : Option Bytes → ℕ
  script_size none = p2pkh_script_pubkey_size
  script_size (some script) = length script

  abbrev pub address_size : Option Address → ℕ
  address_size none = p2pkh_script_pubkey_size
  address_size (some addr) = script_size (kit.pay_to_addr_script addr)

  -- What an operation adds to the size; an output without an account is dereferenced.
  unfoldable pub operation_size : Operation → Outcome Error ℕ
  operation_size operation =
      if text_eq operation.type input_op_type
      then ok input_size
      else if text_eq operation.type output_op_type
      then (do
        account ← deref operation.account
        ok (output_overhead + address_size (kit.decode_address account.address config.params)))
      else ok 0

  -- The loop over the operations, with the size so far.
  unfoldable pub add_sizes : ℕ → List Operation → Outcome Error ℕ
  unfolding operation_size
  add_sizes size [] = ok size
  add_sizes size (operation ∷ operations) = do
    more ← operation_size operation
    add_sizes (size + more) operations

  unfoldable pub estimate_size : List Operation → Outcome Error ℕ
  unfolding add_sizes
  estimate_size operations = add_sizes transaction_overhead operations

  -- The loop over the matched inputs.
  unfoldable pub input_coin : Operation → Outcome Error Coin
  input_coin input = do
    identifier ← spent_coin input
    ok (record { coin_identifier = identifier; amount = input.amount })

  -- `to_float` is the conversion of an int to a float64.
  unfoldable pub construction_preprocess :
      (ℕ → Float64) → List Operation → Option Float64 → Outcome Error Metadata
  unfolding estimate_size input_coin
  construction_preprocess to_float operations suggested_fee_multiplier = do
    matches ←
        or_wrap_foreign ErrorName.unclear_intent
          (kit.match_operations (preprocess_descriptions config) operations)
    inputs ← index matches 0
    coins ← traverse input_coin inputs.operations
    size ← estimate_size operations
    or_wrap_foreign ErrorName.unable_to_parse_intermediate_result (
        kit.marshal_options (record {
          coins = coins;
          estimated_size = to_float size;
          fee_multiplier = suggested_fee_multiplier;
        }))
