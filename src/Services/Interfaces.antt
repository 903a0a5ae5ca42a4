-- ===== src/Services/Interfaces.antt =====
-- services/types.go: the two interfaces that the endpoints use, and the data that the construction
-- endpoints hand to one another.
use rosetta_thought.Prelude.{ℕ, ◌≡◌, refl, List, Option}
use rosetta_thought.Prelude.Int.{ℤ}
use rosetta_thought.Outcome.{Outcome, ok, err, panic}
use rosetta_thought.Text.{Text}
use rosetta_thought.Sdk.{
  Failure, Float64, Peer, PartialBlockIdentifier, BlockIdentifier, BlockResponse, Transaction,
  TransactionIdentifier, AccountIdentifier, Coin, Currency, Amount,
}
use rosetta_thought.Thought.Types.{ScriptPubKey}
use rosetta_thought.Configuration.{Mode, online, offline}
use rosetta_thought.Services.Errors.{Error, ErrorName, wrap_err}

abbrev pub inline_fetch_limit : ℕ
inline_fetch_limit = 100

pub record Client : Type 0 where
  pub get_peers : Outcome Failure (List Peer)
  pub send_raw_transaction : Text → Outcome Failure Text
  pub suggested_fee_rate : ℤ → Outcome Failure Float64
  pub raw_mempool : Outcome Failure (List Text)

pub record Indexer : Type 0 where
  pub get_block_lazy : Option PartialBlockIdentifier → Outcome Failure BlockResponse
  pub get_block_transaction : BlockIdentifier → TransactionIdentifier → Outcome Failure Transaction
  pub get_coins : AccountIdentifier → Outcome Failure (List Coin × BlockIdentifier)
  pub get_script_pub_keys : List Coin → Outcome Failure (List ScriptPubKey)
  pub get_balance :
      AccountIdentifier
      → Currency
      → Option PartialBlockIdentifier
      → Outcome Failure (Amount × BlockIdentifier)

pub record UnsignedTransaction : Type 0 where
  pub transaction : Text
  pub script_pub_keys : List ScriptPubKey
  pub input_amounts : List Text
  pub input_addresses : List Text

pub record PreprocessOptions : Type 0 where
  pub coins : List Coin
  pub estimated_size : Float64
  pub fee_multiplier : Option Float64

pub record ConstructionMetadata : Type 0 where
  pub script_pub_keys : List ScriptPubKey

pub record SignedTransaction : Type 0 where
  pub transaction : Text
  pub input_amounts : List Text

-- `if err != nil { return nil, wrapErr(name, err) }`.
abbrev pub or_wrap {ℓ} : {A : Type ℓ} → ErrorName → Outcome Failure A → Outcome Error A
or_wrap name (ok a) = ok a
or_wrap name (err e) = err (wrap_err name (Option.some e))
or_wrap name panic = panic

-- `if s.config.Mode != configuration.Online { return nil, wrapErr(ErrUnavailableOffline, nil) }`.
abbrev pub when_online {ℓ} : {A : Type ℓ} → Mode → Outcome Error A → Outcome Error A
when_online online rest = rest
when_online offline rest = err (wrap_err ErrorName.unavailable_offline Option.none)

pub when_online-same :
    {A : Type 0} (mode : Mode) (rest : Outcome Error A)
    → mode ≡ online
    → when_online mode rest ≡ rest
when_online-same mode rest same = rw same refl
