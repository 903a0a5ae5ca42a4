-- ===== src/Indexer/Schedule.antt =====
-- The sections of `BlockSeen`, `BlockAdded` and `BlockRemoved` (indexer/indexer.go) together with the
-- coin storage and the head block of the SDK's database, in any order that the syncer lets them run: a
-- block is stored on top of the head, and only the head is removed, each when the block before has left
-- `BlockAdded`.
pub mod Created
pub mod Ready
pub mod Passes
pub mod Finds
pub mod Fresh
pub mod Counting
pub mod NoLoss
pub mod Gathers
use rosetta_thought.Prelude.{
  ◌≡◌, Bool, true, false, ◌&&◌, ◌||◌, Option, none, some, List, [], ◌∷◌, if◌then◌else◌,
}
use rosetta_thought.Prelude.Int.{pos, ◌+ℤ◌, eqb_ℤ}
use rosetta_thought.Map.{Map}
use rosetta_thought.Outcome.{Outcome, ok}
use rosetta_thought.Text.{Text, text_eq}
use rosetta_thought.Sdk
use rosetta_thought.Sdk.{
  Failure, AccountCoin, AccountIdentifier, BlockIdentifier, Coin, CoinChange, Operation,
  coin_created, coin_spent,
}
use rosetta_thought.Thought.Created.{created_coin}
use rosetta_thought.Indexer.WaitTable.{State, WaitTableEntry}
use rosetta_thought.Indexer.Events.{seen_load, seen_count, added_clean}

-- The coin that the operations create under an identifier: the last one, if several do.
abbrev pub later : Option AccountCoin → Option AccountCoin → Option AccountCoin
later old none = old
later old (some coin) = some coin

abbrev pub coin_at : Text → Option (Text × AccountCoin) → Option AccountCoin
coin_at k none = none
coin_at k (some (j, coin)) = if text_eq j k then some coin else none

abbrev pub made : Text → List Operation → Option AccountCoin
made k [] = none
made k (op ∷ ops) = later (coin_at k (created_coin op)) (made k ops)

abbrev pub block_made : Text → List Sdk.Transaction → Option AccountCoin
block_made k [] = none
block_made k (tx ∷ txs) = later (made k tx.operations) (block_made k txs)

-- Whether an operation spends the coin with this identifier.
abbrev pub change_spends : Text → Option CoinChange → Bool
change_spends k none = false
change_spends k (some change) = elim change.coin_action [
  | coin_created ↦ false
  | coin_spent ↦ text_eq change.coin_identifier.identifier k
]

abbrev pub spends : Text → List Operation → Bool
spends k [] = false
spends k (op ∷ ops) = change_spends k op.coin_change || spends k ops

abbrev pub block_spends : Text → List Sdk.Transaction → Bool
block_spends k [] = false
block_spends k (tx ∷ txs) = spends k tx.operations || block_spends k txs

-- A coin as the storage hands it out.
abbrev pub as_stored : AccountCoin → Coin × Option AccountIdentifier
as_stored v = (v.coin, v.account)

-- The coin storage of rosetta-sdk-go, with what the program relies on: adding or removing a block
-- leaves the coins that it neither spends nor creates, and adding stores those that it creates and does
-- not spend.
pub record CoinStorage : Type 1 where
  pub Coins : Type 0
  pub get_coin : Text → Coins → Outcome Failure (Coin × Option AccountIdentifier)
  pub add_block : Sdk.Block → Coins → Coins
  pub add_block-keeps :
      (k : Text) (block : Sdk.Block) (coins : Coins)
      → block_spends k block.transactions ≡ false
      → block_made k block.transactions ≡ none
      → get_coin k (add_block block coins) ≡ get_coin k coins
  pub remove_block : Sdk.Block → Coins → Coins
  pub remove_block-keeps :
      (k : Text) (block : Sdk.Block) (coins : Coins)
      → block_spends k block.transactions ≡ false
      → block_made k block.transactions ≡ none
      → get_coin k (remove_block block coins) ≡ get_coin k coins
  pub add_block-stores :
      (k : Text) (v : AccountCoin) (block : Sdk.Block) (coins : Coins)
      → block_spends k block.transactions ≡ false
      → block_made k block.transactions ≡ some v
      → get_coin k (add_block block coins) ≡ ok (as_stored v)

module _ (storage : CoinStorage) where
  -- The fields of the indexer, the coins and the head of the database, if it has blocks, and the block whose
  -- `BlockAdded` has stored it and not yet cleaned the cache.
  pub record World : Type 0 where
    pub shared : State
    pub coins : storage.Coins
    pub head : Option BlockIdentifier
    pub adding : Option Sdk.Block

-- `load` and `count` are sections of `BlockSeen`, `store` and `clean` of `BlockAdded`, `remove` is
-- `BlockRemoved` for the head, and `table` stands for any section that writes the wait table only.
pub data Event : Type 0 where
  load : Sdk.Block → Event
  count : Event
  store : Sdk.Block → Event
  clean : Event
  remove : Sdk.Block → Event
  table : Map WaitTableEntry → Event

-- The block comes after the head: on an empty database, the syncer starts with any block.
abbrev pub follows : Sdk.Block → Option BlockIdentifier → Bool
follows block none = true
follows block (some head) = eqb_ℤ block.block_identifier.index (head.index +ℤ pos 1)

abbrev pub is_head : Sdk.Block → Option BlockIdentifier → Bool
is_head block none = false
is_head block (some head) =
    eqb_ℤ block.block_identifier.index head.index && text_eq block.block_identifier.hash head.hash

module _ (storage : CoinStorage) where
  abbrev store_on_head : Sdk.Block → Option Sdk.Block → World storage → World storage
  store_on_head block (some before) w = w
  store_on_head block none w =
      if follows block w.head
      then record {
        shared = w.shared;
        coins = storage.add_block block w.coins;
        head = some block.block_identifier;
        adding = some block;
      }
      else w

  abbrev clean_pending : Option Sdk.Block → World storage → World storage
  clean_pending none w = w
  clean_pending (some block) w = record w { shared = added_clean block w.shared; adding = none }

  abbrev remove_head : Sdk.Block → Option Sdk.Block → World storage → World storage
  remove_head block (some adding) w = w
  remove_head block none w =
      if is_head block w.head
      then record {
        shared = w.shared;
        coins = storage.remove_block block w.coins;
        head = some block.parent_block_identifier;
        adding = none;
      }
      else w

  -- An event that the syncer does not let happen leaves the world as it is.
  unfoldable pub happen : Event → World storage → World storage
  happen (load block) w = record w { shared = seen_load block w.shared }
  happen count w = record w { shared = seen_count w.shared }
  happen (store block) w = store_on_head block w.adding w
  happen clean w = clean_pending w.adding w
  happen (remove block) w = remove_head block w.adding w
  happen (table t) w = record w { shared = record w.shared { waiter = t } }

  unfoldable pub run : List Event → World storage → World storage
  run [] w = w
  run (e ∷ events) w = run events (happen e w)
