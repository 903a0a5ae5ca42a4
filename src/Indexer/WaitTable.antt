-- ===== src/Indexer/WaitTable.antt =====
-- indexer/wait_table.go, and the sections of indexer.go that hold its lock.
use rosetta_thought.Prelude.{
  Bool, true, false, ◌&&◌, not, Option, none, some, List, [], ◌∷◌, if◌then◌else◌,
}
use rosetta_thought.Prelude.Int.{ℤ, pos, ◌+ℤ◌, ◌-ℤ◌, eqb_ℤ, ltb_ℤ}
use rosetta_thought.Map.{Map, lookup, insert, delete}
use rosetta_thought.Outcome.{Outcome, ok, err, panic, ◌>>=◌}
use rosetta_thought.Text.{Text}
use rosetta_thought.Sdk
use rosetta_thought.Sdk.{Failure, plain, AccountCoin}

-- The channel carries nothing: all that matters is whether it is closed, which Go keeps in it and
-- the entry keeps once more in `channel_closed`.
pub record WaitTableEntry : Type 0 where
  pub listeners : ℤ
  pub channel_is_closed : Bool
  pub channel_closed : Bool
  pub aborted : Bool
  pub earliest_block : ℤ

-- The fields of `Indexer` that its goroutines write. `waiter_locked`: the lock of the wait table was
-- left held by a section that has returned.
pub record State : Type 0 where
  pub coin_cache : Map AccountCoin
  pub seen : ℤ
  pub waiter : Map WaitTableEntry
  pub waiter_locked : Bool

abbrev pub init : State
init = record { coin_cache = []; seen = pos 0; waiter = []; waiter_locked = false }

-- `close(val.channel)`: closing a closed channel panics.
unfoldable pub close_channel : WaitTableEntry → Outcome Failure WaitTableEntry
close_channel val =
    if val.channel_is_closed then panic else ok (record val { channel_is_closed = true })

-- The body of the loop of `BlockSeen` over the transactions, at one transaction.
unfoldable pub close_waiting : Text → Map WaitTableEntry → Outcome Failure (Map WaitTableEntry)
unfolding close_channel
close_waiting tx_hash table = elim (lookup tx_hash table) [
  | none ↦ ok table
  | some val ↦ if val.channel_closed then ok table else do
    closed ← close_channel (record val { channel_closed = true })
    ok (insert tx_hash closed table)
]

unfoldable pub close_seen :
    List Sdk.Transaction → Map WaitTableEntry → Outcome Failure (Map WaitTableEntry)
close_seen [] table = ok table
close_seen (tx ∷ txs) table = do
  table' ← close_waiting tx.transaction_identifier.hash table
  close_seen txs table'

-- The body of the loop of `BlockAdded` over the wait table, at one entry.
unfoldable pub abort_entry : ℤ → WaitTableEntry → Outcome Failure WaitTableEntry
unfolding close_channel
abort_entry next val =
    if eqb_ℤ val.earliest_block next && not val.channel_closed
    then close_channel (record val { channel_closed = true; aborted = true })
    else ok val

unfoldable pub abort_waiting : ℤ → Map WaitTableEntry → Outcome Failure (Map WaitTableEntry)
abort_waiting next [] = ok []
abort_waiting next ((k, val) ∷ table) = do
  val' ← abort_entry next val
  table' ← abort_waiting next table
  ok ((k, val') ∷ table')

abbrev fresh : ℤ → WaitTableEntry
fresh height = record {
  listeners = pos 0;
  channel_is_closed = false;
  channel_closed = false;
  aborted = false;
  earliest_block = height;
}

abbrev pub or_fresh : ℤ → Option WaitTableEntry → WaitTableEntry
or_fresh height none = fresh height
or_fresh height (some val) = val

abbrev pub join : ℤ → WaitTableEntry → WaitTableEntry
join height val = record val {
  earliest_block = if ltb_ℤ height val.earliest_block then height else val.earliest_block;
  listeners = val.listeners +ℤ pos 1;
}

-- The end of `findCoin`: one more goroutine waits for the transaction, for a block at `height`.
unfoldable pub register : Text → ℤ → Map WaitTableEntry → Map WaitTableEntry
register tx_hash height table =
    insert tx_hash (join height (or_fresh height (lookup tx_hash table))) table

-- The section of `findCoins` after the channel was closed: one listener less, and the entry goes
-- with the last. With no entry the function returns and leaves the lock held.
unfoldable pub release : Text → State → Outcome Failure Bool × State
release tx_hash s = elim (lookup tx_hash s.waiter) [
  | none ↦ (err plain, record s { waiter_locked = true })
  | some val ↦
      let left = val.listeners -ℤ pos 1 in
      (
        ok val.aborted,
        record s {
          waiter =
              if eqb_ℤ left (pos 0)
              then delete tx_hash s.waiter
              else insert tx_hash (record val { listeners = left }) s.waiter;
        },
      )
]
