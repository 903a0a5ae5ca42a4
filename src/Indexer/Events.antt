-- ===== src/Indexer/Events.antt =====
-- `BlockSeen`, `BlockAdded` and `BlockRemoved` of indexer/indexer.go, as the sections between which
-- other goroutines may run. An argument is what a call of the SDK's storage returned.
pub mod Cache
use rosetta_thought.Prelude.{none, some, List, [], ◌∷◌}
use rosetta_thought.Prelude.Int.{pos, ◌+ℤ◌, int64}
use rosetta_thought.Map.{Map, delete}
use rosetta_thought.Outcome.{Outcome, ok, err, panic}
use rosetta_thought.Sdk
use rosetta_thought.Sdk.{Failure, AccountCoin, Operation}
use rosetta_thought.Thought.Created.{created_coin, add_coins}
use rosetta_thought.Indexer.WaitTable.{State, close_seen, abort_waiting, WaitTableEntry}

-- `load intermediate`: the coins that the block creates go into the cache.
unfoldable pub load_coins : List Sdk.Transaction → Map AccountCoin → Map AccountCoin
load_coins [] cache = cache
load_coins (tx ∷ txs) cache = load_coins txs (add_coins tx.operations cache)

unfoldable pub drop_coin : Operation → Map AccountCoin → Map AccountCoin
drop_coin op cache = elim (created_coin op) [ none ↦ cache | some (k, coin) ↦ delete k cache ]

unfoldable pub drop_coins : List Operation → Map AccountCoin → Map AccountCoin
drop_coins [] cache = cache
drop_coins (op ∷ ops) cache = drop_coins ops (drop_coin op cache)

-- `clean cache intermediate`: they leave it again.
unfoldable pub clean_coins : List Sdk.Transaction → Map AccountCoin → Map AccountCoin
clean_coins [] cache = cache
clean_coins (tx ∷ txs) cache = clean_coins txs (drop_coins tx.operations cache)

abbrev pub with_waiter :
    State → Outcome Failure (Map WaitTableEntry) → Outcome Failure (Unit {0}) × State
with_waiter s (ok table) = (ok tt, record s { waiter = table })
with_waiter s (err e) = (err e, s)
with_waiter s panic = (panic, s)

-- The three sections of `BlockSeen`.
unfoldable pub seen_load : Sdk.Block → State → State
seen_load block s = record s { coin_cache = load_coins block.transactions s.coin_cache }

unfoldable pub seen_count : State → State
seen_count s = record s { seen = int64 (s.seen +ℤ pos 1) }

unfoldable pub seen_close : Sdk.Block → State → Outcome Failure (Unit {0}) × State
seen_close block s = with_waiter s (close_seen block.transactions s.waiter)

-- `acquired`: what `seenSemaphore.Acquire` returned; `see_block`: what `SeeBlock` returned.
unfoldable pub block_seen :
    Outcome Failure (Unit {0})
    → Outcome Failure (Unit {0})
    → Sdk.Block
    → State
    → Outcome Failure (Unit {0}) × State
unfolding seen_load seen_count seen_close
block_seen (err e) see_block block s = (err e, s)
block_seen panic see_block block s = (panic, s)
block_seen (ok _) see_block block s =
    let t = seen_count (seen_load block s) in
    elim see_block [ ok _ ↦ seen_close block t | err e ↦ (err e, t) | panic ↦ (panic, t) ]

-- The two sections of `BlockAdded` after the block is stored.
unfoldable pub added_clean : Sdk.Block → State → State
added_clean block s = record s { coin_cache = clean_coins block.transactions s.coin_cache }

unfoldable pub added_abort : Sdk.Block → State → Outcome Failure (Unit {0}) × State
added_abort block s =
    with_waiter s (abort_waiting (int64 (block.block_identifier.index +ℤ pos 1)) s.waiter)

-- `add_block`: what `AddBlock` returned.
unfoldable pub block_added :
    Outcome Failure (Unit {0}) → Sdk.Block → State → Outcome Failure (Unit {0}) × State
unfolding added_clean added_abort
block_added (err e) block s = (err e, s)
block_added panic block s = (panic, s)
block_added (ok _) block s = added_abort block (added_clean block s)

-- `remove_block`: what `RemoveBlock` returned. The cache and the waiters are left alone.
unfoldable pub block_removed :
    Outcome Failure (Unit {0}) → State → Outcome Failure (Unit {0}) × State
block_removed remove_block s = (remove_block, s)
