-- ===== src/Sdk.antt =====
-- The types of rosetta-sdk-go that the program builds and reads, with the fields that it uses, and
-- the errors of Go as `errors.Is` tells them apart: wrapping by `%w` keeps the sentinel, so an error
-- is its sentinel here, and the text of a message is left out.
use rosetta_thought.Prelude.{ℕ, Option, List, Bool}
use rosetta_thought.Prelude.Int.{ℤ}
use rosetta_thought.Text.{Text}

pub data Failure : Type 0 where
  block_not_found json_rpc_error : Failure  -- sentinels of thought/client.go
  missing_transaction not_implemented : Failure  -- sentinels of the indexer package
  orphan_head head_block_not_found coin_not_found account_missing : Failure  -- sentinels of the SDK
  context_done : Failure  -- `ctx.Err()`
  previous_tx_missing : Failure  -- "error finding previous tx"
  plain : Failure  -- any other `errors.New` or `fmt.Errorf` of the program
  foreign : ℕ → Failure  -- an error that a callee outside the program makes

-- `map[string]interface{}` holds JSON values.
mutual
  pub data Json : Type 0 where
    null : Json
    bool : Bool → Json
    number : Text → Json
    string : Text → Json
    array : Items → Json
    object : Metadata → Json

  pub data Items : Type 0 where
    nil : Items
    item : Json → Items → Items

  pub data Metadata : Type 0 where
    empty : Metadata
    field : Text → Json → Metadata → Metadata

-- A float64, as its IEEE 754 bits.
abbrev pub Float64 : Type 0
Float64 = ℕ

pub record Currency : Type 0 where
  pub symbol : Text
  pub decimals : ℤ

pub record Amount : Type 0 where
  pub value : Text
  pub currency : Currency

pub record AccountIdentifier : Type 0 where
  pub address : Text

pub record CoinIdentifier : Type 0 where
  pub identifier : Text

pub data CoinAction : Type 0 where
  coin_created coin_spent : CoinAction

pub record CoinChange : Type 0 where
  pub coin_identifier : CoinIdentifier
  pub coin_action : CoinAction

pub record Coin : Type 0 where
  pub coin_identifier : CoinIdentifier
  pub amount : Option Amount

pub record AccountCoin : Type 0 where
  pub account : Option AccountIdentifier
  pub coin : Coin

pub record OperationIdentifier : Type 0 where
  pub index : ℤ
  pub network_index : Option ℤ

pub record Operation : Type 0 where
  pub operation_identifier : OperationIdentifier
  pub type : Text
  pub status : Option Text
  pub account : Option AccountIdentifier
  pub amount : Option Amount
  pub coin_change : Option CoinChange
  pub metadata : Metadata

pub record TransactionIdentifier : Type 0 where
  pub hash : Text

pub record Transaction : Type 0 where
  pub transaction_identifier : TransactionIdentifier
  pub operations : List Operation
  pub metadata : Metadata

pub record BlockIdentifier : Type 0 where
  pub index : ℤ
  pub hash : Text

pub record PartialBlockIdentifier : Type 0 where
  pub index : Option ℤ
  pub hash : Option Text

pub record Block : Type 0 where
  pub block_identifier : BlockIdentifier
  pub parent_block_identifier : BlockIdentifier
  pub timestamp : ℤ
  pub transactions : List Transaction
  pub metadata : Metadata

pub record BlockResponse : Type 0 where
  pub block : Block
  pub other_transactions : List TransactionIdentifier

pub record Peer : Type 0 where
  pub peer_id : Text
  pub metadata : Metadata

pub record NetworkIdentifier : Type 0 where
  pub blockchain : Text
  pub network : Text

pub record NetworkStatus : Type 0 where
  pub current_block_identifier : BlockIdentifier
  pub current_block_timestamp : ℤ
  pub genesis_block_identifier : BlockIdentifier
  pub peers : List Peer
