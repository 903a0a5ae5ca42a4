-- ===== src/Services/Construction/Fee/Prepare.antt =====
-- From the operations of a payment to its fee and the scripts that the later endpoints need.
use rosetta_thought.Prelude.{
  ℕ, ◌≡◌, refl, ◌∙◌, false, Option, none, some, List, [], ◌∷◌, if◌then◌else◌, map, All, Bool-cases,
  ◌⊎◌, inl, inr, ◌+◌,
}
use rosetta_thought.Prelude.Int.{ℤ, pos}
use rosetta_thought.Outcome.{ok, traverse}
use rosetta_thought.Text.Decimal.{format_int}
use rosetta_thought.Sdk.{Float64, Metadata, Operation, Coin}
use rosetta_thought.Thought.Types.{ScriptPubKey, transaction_overhead}
use rosetta_thought.Thought.Coin.{coin_identifier}
use rosetta_thought.Configuration.{Configuration, online}
use rosetta_thought.Services.Interfaces.{
  Client, Indexer, PreprocessOptions, ConstructionMetadata, when_online-same,
}
use rosetta_thought.Services.Construction.Toolkit.{Toolkit, Match}
use rosetta_thought.Services.Construction.Intent.{
  preprocess_descriptions, input_coin, construction_preprocess,
}
use rosetta_thought.Services.Construction.Intent.Size.{
  HasAccount, expected_size, estimate_size-expected,
}
use rosetta_thought.Services.Construction.Fee.{
  Floats, min_fee_rate, fee_per_kb, estimated_fee, construction_metadata, MetadataResponse,
  default_confirmation_target,
}
use rosetta_thought.Services.Construction.Payloads.Intended.{Spend, IsSpend}

least_bound :
    (floats : Floats) (rate : Float64)
    → floats.less min_fee_rate min_fee_rate ≡ false
    → floats.less (if floats.less rate min_fee_rate then min_fee_rate else rate) min_fee_rate
      ≡ false
least_bound floats rate same = elim (Bool-cases (floats.less rate min_fee_rate)) [
  | inl low ↦ rw low same
  | inr high ↦ rw high high
]

-- Where the least rate is not below itself, the rate for a kilobyte is never below the least one,
-- whatever multiplier is asked for.
pub fee_per_kb_bound :
    (floats : Floats) (rate : Float64) (fee_multiplier : Option Float64)
    → floats.less min_fee_rate min_fee_rate ≡ false
    → floats.less (fee_per_kb floats rate fee_multiplier) min_fee_rate ≡ false
unfolding fee_per_kb
fee_per_kb_bound floats rate none same = least_bound floats rate same
fee_per_kb_bound floats rate (some multiplier) same =
    least_bound floats (floats.times rate multiplier) same

-- The rate or, if it is below 0.00001, that; numbers are the bits of a float64.
abbrev pub least : Floats → Float64 → Float64
least floats rate = if floats.less rate 0x3ee4f8b588e368f1 then 0x3ee4f8b588e368f1 else rate

-- The fee for `size` bytes at a rate for a kilobyte: of 100000000 notions, for 1000 bytes.
abbrev pub fee_at : Floats → Float64 → Float64 → ℤ
fee_at floats rate size =
    floats.to_int64
      (floats.times (floats.over (floats.times rate 0x4197d78400000000) 0x408f400000000000) size)

-- The fee that is due: at the rate of thoughtd, times the multiplier if one is asked for, and no less
-- than the least rate.
abbrev pub IsFee : Floats → Float64 → Option Float64 → Float64 → ℤ → Type 0
IsFee floats rate multiplier size fee =
    ((multiplier ≡ none) × (fee ≡ fee_at floats (least floats rate) size))
    ⊎ ((m : Float64) × (multiplier ≡ some m)
        × (fee ≡ fee_at floats (least floats (floats.times rate m)) size))

estimated_fee-IsFee :
    (floats : Floats) (rate : Float64) (multiplier : Option Float64) (size : Float64)
    → IsFee floats rate multiplier size (estimated_fee floats rate multiplier size)
unfolding estimated_fee fee_per_kb
estimated_fee-IsFee floats rate none size = inl (refl, refl)
estimated_fee-IsFee floats rate (some m) size = inr (m, refl, refl)

-- The coin that a spending operation names, with the operation's amount.
abbrev pub coin_of : Spend → Coin
coin_of s = record {
  coin_identifier = record { identifier = coin_identifier s.hash (pos s.vout) };
  amount = s.operation.amount;
}

module _ {Address : Type 0} (kit : Toolkit Address) (config : Configuration) where
  coins-ok :
      (spends : List Spend)
      → All (IsSpend kit config) spends
      → traverse (input_coin kit config) (map (λ s. s.operation) spends) ≡ ok (map coin_of spends)
  unfolding traverse input_coin
  coins-ok [] is = refl
  coins-ok (s ∷ spends) is = rw is.0.coin (rw (coins-ok spends is.1) refl)

  -- The operations match, those of outputs have accounts, and the options and the metadata that one
  -- endpoint hands to the next are read as they were written.
  pub record Offers (spends : List Spend) (operations : List Operation)
      (options : PreprocessOptions) (metadata : ConstructionMetadata) : Type 0 where
    pub are_spends : All (IsSpend kit config) spends
    pub amounts : List (Option ℤ)
    pub unused : List Match
    pub matched :
        kit.match_operations (preprocess_descriptions config) operations
        ≡ some (record { operations = map (λ s. s.operation) spends; amounts = amounts } ∷ unused)
    pub accounts : All HasAccount operations
    pub written_options : Metadata
    pub marshals_options : kit.marshal_options options ≡ some written_options
    pub unmarshals_options : kit.unmarshal_options written_options ≡ some options
    pub written_metadata : Metadata
    pub marshals_metadata : kit.marshal_metadata metadata ≡ some written_metadata
    pub unmarshals_metadata : kit.unmarshal_metadata written_metadata ≡ some metadata

  -- The options of the coins, with the size that is estimated.
  abbrev pub options_of :
      (ℕ → Float64) → List Spend → List Operation → Option Float64 → PreprocessOptions
  options_of to_float spends operations multiplier = record {
    coins = map coin_of spends;
    estimated_size = to_float (transaction_overhead + expected_size kit config operations);
    fee_multiplier = multiplier;
  }

  module _ (floats : Floats) (to_float : ℕ → Float64) (spends : List Spend)
      (operations : List Operation) (multiplier : Option Float64) (scripts : List ScriptPubKey)
      (offers : Offers spends operations
        (options_of to_float spends operations multiplier)
        (record { script_pub_keys = scripts })) where
    -- The response of metadata at this rate.
    abbrev pub prepared_at : Float64 → MetadataResponse
    prepared_at rate = record {
      metadata = offers.written_metadata;
      suggested_fee =
          record {
            value = format_int (
                estimated_fee floats rate multiplier
                  (to_float (transaction_overhead + expected_size kit config operations)));
            currency = config.currency;
          }
          ∷ [];
    }

    pub preprocess-ok :
        construction_preprocess kit config to_float operations multiplier
        ≡ ok offers.written_options
    unfolding construction_preprocess
    preprocess-ok = rw offers.matched (
        rw (coins-ok spends offers.are_spends) (
          rw (estimate_size-expected kit config operations offers.accounts)
            (rw offers.marshals_options refl)))

    pub metadata-ok :
        (client : Client) (indexer : Indexer) (rate : Float64)
        → config.mode ≡ online
        → client.suggested_fee_rate default_confirmation_target ≡ ok rate
        → indexer.get_script_pub_keys (map coin_of spends) ≡ ok scripts
        → construction_metadata floats kit config client indexer offers.written_options
          ≡ ok (prepared_at rate)
    unfolding construction_metadata
    metadata-ok client indexer rate is_online given found =
        when_online-same config.mode _ is_online
        ∙ rw offers.unmarshals_options (rw given (rw found (rw offers.marshals_metadata refl)))

  -- Online, for operations whose outputs have accounts and whose inputs match as the coins of a payment,
  -- if thoughtd gives a fee rate, the indexer the scripts of the coins, and options and metadata are
  -- read as they were written: preprocess answers with options for which metadata answers with those
  -- scripts, and with one fee in the currency of the configuration: for the estimated size of the
  -- operations at the rate, times the multiplier if one is asked for, and no less than 0.00001.
  pub preprocess_metadata :
      (floats : Floats) (to_float : ℕ → Float64) (client : Client) (indexer : Indexer)
      (spends : List Spend) (operations : List Operation) (multiplier : Option Float64)
      (rate : Float64) (scripts : List ScriptPubKey)
      → config.mode ≡ online
      → Offers spends operations
          (options_of to_float spends operations multiplier)
          (record { script_pub_keys = scripts })
      → client.suggested_fee_rate default_confirmation_target ≡ ok rate
      → indexer.get_script_pub_keys (map coin_of spends) ≡ ok scripts
      → (options : Metadata) × (response : MetadataResponse) × (fee : ℤ) × (construction_preprocess
            kit config to_float operations multiplier
          ≡ ok options)
        × (construction_metadata floats kit config client indexer options ≡ ok response)
        × (kit.unmarshal_metadata response.metadata ≡ some (record { script_pub_keys = scripts }))
        × (response.suggested_fee
            ≡ record { value = format_int fee; currency = config.currency } ∷ [])
        × IsFee floats rate multiplier
            (to_float (transaction_overhead + expected_size kit config operations))
            fee
  preprocess_metadata floats to_float client indexer spends operations multiplier rate scripts
        is_online offers given found =
      (
        offers.written_options,
        prepared_at floats to_float spends operations multiplier scripts offers rate,
        estimated_fee floats rate multiplier
            (to_float (transaction_overhead + expected_size kit config operations)),
        preprocess-ok floats to_float spends operations multiplier scripts offers,
        metadata-ok floats to_float spends operations multiplier scripts offers client indexer rate
            is_online given found,
        offers.unmarshals_metadata,
        refl,
        estimated_fee-IsFee floats rate multiplier
            (to_float (transaction_overhead + expected_size kit config operations)),
      )
