-- ===== src/Services/Errors.antt =====
-- services/errors.go: the errors of the endpoints. An error is named by the variable that holds it.
pub mod Codes
use rosetta_thought.Prelude.{ℕ, Bool, true, false, Option, List, [], ◌∷◌}
use rosetta_thought.Text.{Text, codes}
use rosetta_thought.Sdk.{Failure}

pub data ErrorName : Type 0 where
  unimplemented unavailable_offline not_ready thoughtd block_not_found : ErrorName
  unable_to_derive unclear_intent unable_to_parse_intermediate_result : ErrorName
  script_pub_keys_missing invalid_coin unable_to_decode_address : ErrorName
  unable_to_decode_script_pub_key unable_to_calculate_signature_hash : ErrorName
  unsupported_script_type unable_to_compute_pk_script unable_to_get_coins : ErrorName
  transaction_not_found could_not_get_fee_rate unable_to_get_balance : ErrorName

-- `types.Error`; the details hold the error that was wrapped.
pub record Error : Type 0 where
  pub code : ℕ
  pub message : Text
  pub retriable : Bool
  pub details : Option Failure

abbrev plain_error : ℕ → Text → Error
plain_error code message = record {
  code = code;
  message = message;
  retriable = false;
  details = Option.none;
}

unfoldable pub standard : ErrorName → Error
standard unimplemented = plain_error 0 (codes "Endpoint not implemented")
standard unavailable_offline = plain_error 1 (codes "Endpoint unavailable offline")
standard not_ready = record {
  code = 2;
  message = codes "Thoughtd is not ready";
  retriable = true;
  details = Option.none;
}
standard thoughtd = plain_error 3 (codes "Thoughtd error")
standard block_not_found = plain_error 4 (codes "Block not found")
standard unable_to_derive = plain_error 5 (codes "Unable to derive address")
standard unclear_intent = plain_error 6 (codes "Unable to parse intent")
standard unable_to_parse_intermediate_result =
    plain_error 7 (codes "Unable to parse intermediate result")
standard script_pub_keys_missing = plain_error 8 (codes "Missing ScriptPubKeys")
standard invalid_coin = plain_error 9 (codes "Coin is invalid")
standard unable_to_decode_address = plain_error 10 (codes "Unable to decode address")
standard unable_to_decode_script_pub_key = plain_error 11 (codes "Unable to decode ScriptPubKey")
standard unable_to_calculate_signature_hash =
    plain_error 12 (codes "Unable to calculate signature hash")
standard unsupported_script_type = plain_error 13 (codes "Script type is not supported")
standard unable_to_compute_pk_script = plain_error 14 (codes "Unable to compute PK script")
standard unable_to_get_coins = plain_error 15 (codes "Unable to get coins")
standard transaction_not_found = plain_error 16 (codes "Transaction not found")
standard could_not_get_fee_rate = plain_error 17 (codes "Could not get suggested fee rate")
standard unable_to_get_balance = plain_error 18 (codes "Unable to get balance")

-- The list `Errors` that /network/options returns.
abbrev pub errors : List ErrorName
errors =
    unimplemented ∷ unavailable_offline ∷ not_ready ∷ thoughtd ∷ block_not_found ∷ unable_to_derive
    ∷ unclear_intent ∷ unable_to_parse_intermediate_result ∷ script_pub_keys_missing ∷ invalid_coin
    ∷ unable_to_decode_address ∷ unable_to_decode_script_pub_key
    ∷ unable_to_calculate_signature_hash ∷ unsupported_script_type ∷ unable_to_compute_pk_script
    ∷ unable_to_get_coins ∷ transaction_not_found ∷ could_not_get_fee_rate ∷ unable_to_get_balance
    ∷ []

unfoldable pub wrap_err : ErrorName → Option Failure → Error
wrap_err name cause = record {
  code = (standard name).code;
  message = (standard name).message;
  retriable = (standard name).retriable;
  details = cause;
}
