-- ===== src/Services/Construction/Fee.antt =====
-- ConstructionMetadata of services/construction_service.go: the fee, and the scripts of the coins.
pub mod Prepare
use rosetta_thought.Prelude.{ℕ, ◌≡◌, Bool, Option, none, some, List, [], ◌∷◌, if◌then◌else◌}
use rosetta_thought.Prelude.Int.{ℤ, pos}
use rosetta_thought.Outcome.{Outcome, ok, err, panic, ◌>>=◌}
use rosetta_thought.Text.Decimal.{format_int}
use rosetta_thought.Sdk.{Failure, Float64, Amount, Metadata}
use rosetta_thought.Configuration.{Configuration}
use rosetta_thought.Services.Errors.{Error, ErrorName}
use rosetta_thought.Services.Interfaces.{Client, Indexer, PreprocessOptions, or_wrap, when_online}
use rosetta_thought.Services.Construction.Toolkit.{Toolkit, or_wrap_foreign}

-- The arithmetic of float64.
pub record Floats : Type 0 where
  pub times : Float64 → Float64 → Float64
  pub over : Float64 → Float64 → Float64
  pub less : Float64 → Float64 → Bool
  pub to_int64 : Float64 → ℤ

-- The bits of 0.00001, 1000 and 100000000.
abbrev pub min_fee_rate : Float64
min_fee_rate = 0x3ee4f8b588e368f1

abbrev pub bytes_in_kb : Float64
bytes_in_kb = 0x408f400000000000

abbrev pub notions_in_thought : Float64
notions_in_thought = 0x4197d78400000000

abbrev pub default_confirmation_target : ℤ
default_confirmation_target = pos 2

pub record MetadataResponse : Type 0 where
  pub metadata : Metadata
  pub suggested_fee : List Amount

module _ (floats : Floats) where
  abbrev multiplied : Float64 → Option Float64 → Float64
  multiplied rate none = rate
  multiplied rate (some multiplier) = floats.times rate multiplier

  -- The rate for a kilobyte: multiplied if that was asked for, and not below the least one.
  unfoldable pub fee_per_kb : Float64 → Option Float64 → Float64
  fee_per_kb rate fee_multiplier =
      let asked = multiplied rate fee_multiplier in
      if floats.less asked min_fee_rate then min_fee_rate else asked

  unfoldable pub estimated_fee : Float64 → Option Float64 → Float64 → ℤ
  unfolding fee_per_kb
  estimated_fee rate fee_multiplier estimated_size =
      let satoshis_per_b =
        floats.over (floats.times (fee_per_kb rate fee_multiplier) notions_in_thought)
          bytes_in_kb in
      floats.to_int64 (floats.times satoshis_per_b estimated_size)

  unfoldable pub construction_metadata :
      {Address : Type 0}
      → Toolkit Address
      → Configuration
      → Client
      → Indexer
      → Metadata
      → Outcome Error MetadataResponse
  unfolding estimated_fee
  construction_metadata kit config client i request_options = when_online config.mode (do
    options ←
        or_wrap_foreign ErrorName.unable_to_parse_intermediate_result
          (kit.unmarshal_options request_options)
    rate ←
        or_wrap ErrorName.could_not_get_fee_rate
          (client.suggested_fee_rate default_confirmation_target)
    let fee = estimated_fee rate options.fee_multiplier options.estimated_size
    scripts ← or_wrap ErrorName.script_pub_keys_missing (i.get_script_pub_keys options.coins)
    metadata ←
        or_wrap_foreign ErrorName.unable_to_parse_intermediate_result
          (kit.marshal_metadata (record { script_pub_keys = scripts }))
    ok (record {
      metadata = metadata;
      suggested_fee = record { value = format_int fee; currency = config.currency } ∷ [];
    }))
