-- ===== src/Services/Errors/Codes.antt =====
-- The codes of the errors in services/errors.go.
use rosetta_thought.Prelude.{◌≡◌, refl, Option, some, get_elem?}
use rosetta_thought.Sdk.{Failure}
use rosetta_thought.Services.Errors.{ErrorName, standard, wrap_err, errors}

-- Every error that an endpoint returns stands in the list of /network/options at the position that
-- its code gives, whatever it wraps; so the list is complete and no two of its errors share a code.
wrap_err-listed :
    (name : ErrorName) (cause : Option Failure)
    → get_elem? errors (wrap_err name cause).code ≡ some name
unfolding wrap_err standard
wrap_err-listed ErrorName.unimplemented cause = refl
wrap_err-listed ErrorName.unavailable_offline cause = refl
wrap_err-listed ErrorName.not_ready cause = refl
wrap_err-listed ErrorName.thoughtd cause = refl
wrap_err-listed ErrorName.block_not_found cause = refl
wrap_err-listed ErrorName.unable_to_derive cause = refl
wrap_err-listed ErrorName.unclear_intent cause = refl
wrap_err-listed ErrorName.unable_to_parse_intermediate_result cause = refl
wrap_err-listed ErrorName.script_pub_keys_missing cause = refl
wrap_err-listed ErrorName.invalid_coin cause = refl
wrap_err-listed ErrorName.unable_to_decode_address cause = refl
wrap_err-listed ErrorName.unable_to_decode_script_pub_key cause = refl
wrap_err-listed ErrorName.unable_to_calculate_signature_hash cause = refl
wrap_err-listed ErrorName.unsupported_script_type cause = refl
wrap_err-listed ErrorName.unable_to_compute_pk_script cause = refl
wrap_err-listed ErrorName.unable_to_get_coins cause = refl
wrap_err-listed ErrorName.transaction_not_found cause = refl
wrap_err-listed ErrorName.could_not_get_fee_rate cause = refl
wrap_err-listed ErrorName.unable_to_get_balance cause = refl
