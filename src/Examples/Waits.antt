-- ===== src/Examples/Waits.antt =====
-- Examples of the goroutines that share the wait table.
use rosetta_thought.Prelude.{◌≢◌, ◌↔◌, ◌⊎◌, ◌≡◌, refl, none, some, [], ◌∷◌, Bool, true, false}
use rosetta_thought.Prelude.Int.{pos, int64, ◌+ℤ◌}
use rosetta_thought.Map.{lookup, insert}
use rosetta_thought.Outcome.{ok}
use rosetta_thought.Text.{codes, text_eq}
use rosetta_thought.Sdk
use rosetta_thought.Sdk.{
  AccountCoin, AccountIdentifier, Coin, BlockIdentifier, Failure, coin_not_found, plain, Metadata,
  previous_tx_missing,
}
use rosetta_thought.Indexer.WaitTable.{
  State, WaitTableEntry, init, register, release, close_waiting, close_seen, close_channel,
  abort_waiting, abort_entry,
}
use rosetta_thought.Indexer.Events.Cache.{seen_added_cache, block_creates}
use rosetta_thought.Thought.Created.{created_coin}
use rosetta_thought.Indexer.Events.{seen_load, added_clean, seen_close, added_abort}
use rosetta_thought.Indexer.Interleaving.Counting.{count, lowest}
use rosetta_thought.Indexer.Interleaving.Refinement.{
  Effect, bag_of, Step-Effect, table_counts_waits,
}
use rosetta_thought.Indexer.Interleaving.{System, start, Reach, here, next, enter}
use rosetta_thought.Indexer.Interleaving.Safety.{channels_close_once, release_finds_entry}
use rosetta_thought.Indexer.Interleaving.Waking.{seen_wakes, added_wakes}
use rosetta_thought.Examples.Blocks.{second_ops}
use rosetta_thought.Examples.Goroutines.{tx_z, block_z}

-- One goroutine waits for "z", for the block at height 1.
abbrev waiting : System
waiting = record {
  shared = record {
    coin_cache = [];
    seen = pos 0;
    waiter = register (codes "z") (pos 1) [];
    waiter_locked = false;
  };
  waits = record { tx_hash = codes "z"; height = pos 1; is_given_up = false } ∷ [];
}

waiting-Reach : Reach waiting
waiting-Reach = next here (enter (codes "z") (pos 1))

channels_close_once_example :
    ((seen_close block_z waiting.shared).0 ≡ ok tt)
    × ((added_abort block_z waiting.shared).0 ≡ ok tt)
channels_close_once_example = channels_close_once waiting block_z waiting-Reach

release_finds_entry_example :
    (val : WaitTableEntry) × (lookup (codes "z") waiting.shared.waiter ≡ some val)
    × ((release (codes "z") waiting.shared).0 ≡ ok val.aborted)
    × ((release (codes "z") waiting.shared).1.waiter_locked ≡ false)
release_finds_entry_example =
    release_finds_entry waiting
      (record { tx_hash = codes "z"; height = pos 1; is_given_up = false }) [] [] waiting-Reach refl

abbrev entry : Bool → Bool → WaitTableEntry
entry closed aborted = record {
  listeners = pos 1;
  channel_is_closed = closed;
  channel_closed = closed;
  aborted = aborted;
  earliest_block = pos 1;
}

abbrev shared : Bool → Bool → State
shared closed aborted = record {
  coin_cache = [];
  seen = pos 0;
  waiter = (codes "z", entry closed aborted) ∷ [];
  waiter_locked = false;
}

closed_by_seen : seen_close block_z waiting.shared ≡ (ok tt, shared true false)
unfolding seen_close close_seen close_waiting close_channel lookup insert text_eq register int64
    ◌+ℤ◌
closed_by_seen = refl

closed_by_added : added_abort block_z waiting.shared ≡ (ok tt, shared true true)
unfolding added_abort abort_waiting abort_entry close_channel lookup insert text_eq register int64
    ◌+ℤ◌
closed_by_added = refl

seen_wakes_example :
    (val : WaitTableEntry) × (lookup (codes "z") (shared true false).waiter ≡ some val)
    × (val.channel_is_closed ≡ true)
seen_wakes_example =
    seen_wakes waiting block_z [] [] tx_z
      (record { tx_hash = codes "z"; height = pos 1; is_given_up = false }) [] []
      (shared true false) waiting-Reach refl refl refl closed_by_seen

next_height :
    lowest (codes "z") waiting.waits ≡ some (int64 (block_z.block_identifier.index +ℤ pos 1))
unfolding text_eq int64 ◌+ℤ◌
next_height = refl

added_wakes_example :
    (val new : WaitTableEntry) × (lookup (codes "z") waiting.shared.waiter ≡ some val)
    × (lookup (codes "z") (shared true true).waiter ≡ some new)
    × (new.channel_is_closed ≡ true)
    × ((new.aborted ≡ true) ⊎ (val.channel_closed ≡ true))
added_wakes_example =
    added_wakes waiting block_z (codes "z") (shared true true) waiting-Reach next_height
      closed_by_added

-- A block whose one transaction makes the coins "b:0" and "b:1".
abbrev block_b : Sdk.Block
block_b = record block_z { transactions = record tx_z { operations = second_ops } ∷ [] }

seen_added_cache_example :
    (block_creates (codes "b:1") block_b.transactions ≡ true
      → (lookup (codes "b:1") (seen_load block_b init).coin_cache ≢ none)
        × (lookup (codes "b:1") (added_clean block_b (seen_load block_b init)).coin_cache ≡ none))
    × (block_creates (codes "b:1") block_b.transactions ≡ false
        → (lookup (codes "b:1") (seen_load block_b init).coin_cache
            ≡ lookup (codes "b:1") init.coin_cache)
          × (lookup (codes "b:1") (added_clean block_b (seen_load block_b init)).coin_cache
              ≡ lookup (codes "b:1") init.coin_cache))
seen_added_cache_example = seen_added_cache block_b init (codes "b:1")

-- The first of the two cases is the one that applies.
creates_b : block_creates (codes "b:1") block_b.transactions ≡ true
unfolding created_coin text_eq
creates_b = refl

table_counts_waits_example :
    ((lookup (codes "z") waiting.shared.waiter ≡ none) ↔ (count (codes "z") waiting.waits ≡ 0))
    × (bag_of waiting (codes "z") ≡ count (codes "z") waiting.waits)
table_counts_waits_example = table_counts_waits waiting (codes "z") waiting-Reach

Step-Effect_example :
    Effect {a = start} {b = waiting} (enter (codes "z") (pos 1)) (bag_of start) (bag_of waiting)
Step-Effect_example = Step-Effect here (enter (codes "z") (pos 1))
