-- ===== src/Indexer/Interleaving.antt =====
-- The goroutines of the indexer as interleaved sections (indexer/indexer.go). Each step is a section
-- that one goroutine runs alone, holding the lock that it holds in the source.
pub mod Counting
pub mod Closing
pub mod Entering
pub mod Leaving
pub mod Invariant
pub mod Safety
pub mod Waking
pub mod Refinement
use rosetta_thought.Prelude.{◌≡◌, Bool, true, false, List, [], ◌∷◌, ◌++◌, Option, some}
use rosetta_thought.Prelude.Int.{ℤ}
use rosetta_thought.Map.{lookup}
use rosetta_thought.Outcome.{Outcome, ok}
use rosetta_thought.Text.{Text}
use rosetta_thought.Sdk
use rosetta_thought.Indexer.WaitTable.{State, WaitTableEntry, init, register, release}
use rosetta_thought.Indexer.Events.{seen_load, seen_count, seen_close, added_clean, added_abort}

-- A wait that `findCoin` has entered in the table for a block at `height`. `is_given_up`: `findCoins`
-- has returned without taking it out.
pub record Wait : Type 0 where
  pub tx_hash : Text
  pub height : ℤ
  pub is_given_up : Bool

-- The shared state, and the waits that are entered in the table and not taken out.
pub record System : Type 0 where
  pub shared : State
  pub waits : List Wait

abbrev pub start : System
start = record { shared = init; waits = [] }

pub data Step (a : System) : System → Type 0 where
  -- `BlockSeen`, in three sections
  load :
      (block : Sdk.Block) → Step a (record { shared = seen_load block a.shared; waits = a.waits })
  count : Step a (record { shared = seen_count a.shared; waits = a.waits })
  close :
      (block : Sdk.Block) (s : State)
      → seen_close block a.shared ≡ (ok tt, s)
      → Step a (record { shared = s; waits = a.waits })
  -- `BlockAdded`, in two
  clean :
      (block : Sdk.Block) → Step a (record { shared = added_clean block a.shared; waits = a.waits })
  abort :
      (block : Sdk.Block) (s : State)
      → added_abort block a.shared ≡ (ok tt, s)
      → Step a (record { shared = s; waits = a.waits })
  -- the end of `findCoin` for a block at `height`
  enter :
      (tx_hash : Text) (height : ℤ)
      → Step a (record {
        shared = record {
          coin_cache = a.shared.coin_cache;
          seen = a.shared.seen;
          waiter = register tx_hash height a.shared.waiter;
          waiter_locked = a.shared.waiter_locked;
        };
        waits = record { tx_hash = tx_hash; height = height; is_given_up = false } ∷ a.waits;
      })
  -- a wait of `findCoins` that found its channel closed
  leave :
      (w : Wait) (front back : List Wait) (val : WaitTableEntry) (aborted : Bool) (s : State)
      → a.waits ≡ front ++ w ∷ back
      → w.is_given_up ≡ false
      → lookup w.tx_hash a.shared.waiter ≡ some val
      → val.channel_is_closed ≡ true
      → release w.tx_hash a.shared ≡ (ok aborted, s)
      → Step a (record { shared = s; waits = front ++ back })
  -- `findCoins` returns on an error of another coin, or as its context is done, before the channel
  -- is closed: the wait stays in the table
  give_up :
      (w : Wait) (front back : List Wait)
      → a.waits ≡ front ++ w ∷ back
      → Step a
          (record { shared = a.shared; waits = front ++ record w { is_given_up = true } ∷ back })

pub data Reach : System → Type 0 where
  here : Reach start
  next : {a b : System} → Reach a → Step a b → Reach b
