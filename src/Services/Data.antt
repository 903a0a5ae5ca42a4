-- ===== src/Services/Data.antt =====
-- The endpoints of the Data API: services/account_service.go, block_service.go, mempool_service.go
-- and network_service.go.
pub mod Answers
use rosetta_thought.Prelude.{
  ℕ, Bool, Option, none, some, List, [], map, ltb, length, if◌then◌else◌, ◌∷◌,
}
use rosetta_thought.Prelude.Int.{ℤ}
use rosetta_thought.Outcome.{Outcome, ok, err, panic, ◌>>=◌, traverse, map_err}
use rosetta_thought.Text.{Text, codes}
use rosetta_thought.Sdk.{
  Failure, PartialBlockIdentifier, BlockIdentifier, BlockResponse, Block, Transaction,
  TransactionIdentifier, AccountIdentifier, Coin, Amount, NetworkStatus, NetworkIdentifier,
}
use rosetta_thought.Configuration.{Configuration}
use rosetta_thought.Services.Errors
use rosetta_thought.Services.Errors.{
  Error, ErrorName, wrap_err, unable_to_get_balance, unable_to_get_coins, transaction_not_found,
  thoughtd, unimplemented, not_ready, errors,
}
use rosetta_thought.Services.Interfaces.{Client, Indexer, inline_fetch_limit, or_wrap, when_online}
use rosetta_thought.Thought.Types.{operation_types, operation_statuses, OperationStatus}

pub record AccountBalanceResponse : Type 0 where
  pub block_identifier : BlockIdentifier
  pub balances : List Amount

pub record AccountCoinsResponse : Type 0 where
  pub block_identifier : BlockIdentifier
  pub coins : List Coin

-- `err` of a dropped error: only its name is kept.
abbrev or_drop {ℓ} : {A : Type ℓ} → ErrorName → Outcome Failure A → Outcome Error A
or_drop name o = map_err (λ _. wrap_err name none) o

module _ (config : Configuration) (i : Indexer) where
  unfoldable pub account_balance :
      AccountIdentifier → Option PartialBlockIdentifier → Outcome Error AccountBalanceResponse
  account_balance account block = when_online config.mode (do
    (amount, at) ← or_wrap unable_to_get_balance (i.get_balance account config.currency block)
    ok (record { block_identifier = at; balances = amount ∷ [] }))

  unfoldable pub account_coins : AccountIdentifier → Outcome Error AccountCoinsResponse
  account_coins account = when_online config.mode (do
    (coins, at) ← or_wrap unable_to_get_coins (i.get_coins account)
    ok (record { block_identifier = at; coins = coins }))

  -- The loop of `Block` over the other transactions.
  unfoldable pub fetch_transactions :
      BlockIdentifier → List TransactionIdentifier → Outcome Error (List Transaction)
  fetch_transactions block =
      traverse (λ other. or_wrap transaction_not_found (i.get_block_transaction block other))

  unfoldable pub block : Option PartialBlockIdentifier → Outcome Error BlockResponse
  block identifier = when_online config.mode (do
    response ← or_wrap Errors.block_not_found (i.get_block_lazy identifier)
    if ltb inline_fetch_limit (length response.other_transactions) then ok response else do
      txs ← fetch_transactions response.block.block_identifier response.other_transactions
      ok (record { block = record response.block { transactions = txs }; other_transactions = [] }))

  unfoldable pub block_transaction :
      BlockIdentifier → TransactionIdentifier → Outcome Error Transaction
  block_transaction block transaction =
      when_online config.mode
        (or_wrap transaction_not_found (i.get_block_transaction block transaction))

module _ (config : Configuration) (client : Client) where
  unfoldable pub mempool : Outcome Error (List TransactionIdentifier)
  mempool = when_online config.mode (do
    transactions ← or_wrap thoughtd client.raw_mempool
    ok (map (λ tx. record { hash = tx }) transactions))

  unfoldable pub mempool_transaction : TransactionIdentifier → Outcome Error Transaction
  mempool_transaction tx = when_online config.mode (err (wrap_err unimplemented none))

  unfoldable pub network_status : Indexer → Outcome Error NetworkStatus
  network_status i = when_online config.mode (do
    peers ← or_wrap thoughtd client.get_peers
    cached ← or_drop not_ready (i.get_block_lazy none)
    ok (record {
      current_block_identifier = cached.block.block_identifier;
      current_block_timestamp = cached.block.timestamp;
      genesis_block_identifier = config.genesis_block_identifier;
      peers = peers;
    }))

unfoldable pub network_list : Configuration → List NetworkIdentifier
network_list config = config.network ∷ []

abbrev pub node_version : Text
node_version = codes "0.18.2"

abbrev pub middleware_version : Text
middleware_version = codes "0.0.9"

-- What /network/options answers: the versions and what is allowed.
pub record NetworkOptionsResponse : Type 0 where
  pub node_version : Text
  pub middleware_version : Text
  pub operation_statuses : List OperationStatus
  pub operation_types : List Text
  pub errors : List ErrorName
  pub historical_balance_lookup : Bool
  pub mempool_coins : Bool

unfoldable pub network_options : NetworkOptionsResponse
network_options = record {
  node_version = node_version;
  middleware_version = middleware_version;
  operation_statuses = operation_statuses;
  operation_types = operation_types;
  errors = errors;
  historical_balance_lookup = Bool.true;
  mempool_coins = Bool.false;
}
