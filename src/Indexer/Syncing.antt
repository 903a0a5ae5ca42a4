-- ===== src/Indexer/Syncing.antt =====
-- `waitForNode` and `Sync` of indexer/indexer.go: the indexer waits until thoughtd answers, and syncs
-- from the block after the head of its storage.
use rosetta_thought.Prelude.{
  ℕ, ◌≡◌, ◌⊎◌, inl, inr, refl, Option, none, some, List, [], ◌∷◌, ◌++◌, All,
}
use rosetta_thought.Prelude.Int.{ℤ, pos, negsuc, ◌+ℤ◌, int64}
use rosetta_thought.Outcome.{Outcome, ok, err, panic}
use rosetta_thought.Sdk.{BlockIdentifier, Failure, NetworkStatus}

-- One pass of the loop of waitForNode: what NetworkStatus returned, and what ContextSleep did after
-- an error.
pub record Poll : Type 0 where
  pub status : Outcome Failure NetworkStatus
  pub sleep : Option Failure

-- `none`: it still waits after the polls.
unfoldable pub wait_for_node : List Poll → Option (Outcome Failure (Unit {0}))
wait_for_node [] = none
wait_for_node (poll ∷ polls) = elim poll.status [
  | ok status ↦ some (ok tt)
  | panic ↦ some panic
  | err e ↦ elim poll.sleep [ some f ↦ some (err f) | none ↦ wait_for_node polls ]
]

abbrev pub index_placeholder : ℤ
index_placeholder = negsuc 0

abbrev pub size_multiplier : ℕ
size_multiplier = 5

-- What the syncer of rosetta-sdk-go is made with and is told to sync.
pub record SyncRun : Type 0 where
  pub past_blocks : List BlockIdentifier
  pub size_multiplier : ℕ
  pub start_index : ℤ
  pub end_index : ℤ

unfoldable pub start_index : Option BlockIdentifier → ℤ
start_index none = index_placeholder
start_index (some head) = int64 (head.index +ℤ pos 1)

-- `head` is the head block of the block storage, if that has one, `cache` its block cache, and `run`
-- the `Sync` of the syncer.
unfoldable pub after_wait_for_node :
    Option BlockIdentifier
    → List BlockIdentifier
    → (SyncRun → Outcome Failure (Unit {0}))
    → Outcome Failure (Unit {0})
    → Outcome Failure (Unit {0})
unfolding start_index
after_wait_for_node head cache run (err e) = err e
after_wait_for_node head cache run panic = panic
after_wait_for_node head cache run (ok _) = run (record {
  past_blocks = cache;
  size_multiplier = size_multiplier;
  start_index = start_index head;
  end_index = index_placeholder;
})

abbrev run_when_done :
    (Outcome Failure (Unit {0}) → Outcome Failure (Unit {0}))
    → Option (Outcome Failure (Unit {0}))
    → Option (Outcome Failure (Unit {0}))
run_when_done f none = none
run_when_done f (some waited) = some (f waited)

unfoldable pub sync :
    List Poll
    → Option BlockIdentifier
    → List BlockIdentifier
    → (SyncRun → Outcome Failure (Unit {0}))
    → Option (Outcome Failure (Unit {0}))
unfolding after_wait_for_node wait_for_node
sync polls head cache run = run_when_done (after_wait_for_node head cache run) (wait_for_node polls)

-- A poll that fails and is slept over.
abbrev pub Fails : Poll → Type 0
Fails poll = ((e : Failure) × (poll.status ≡ err e)) × (poll.sleep ≡ none)

wait_for_node-append :
    (failing later : List Poll)
    → All Fails failing
    → wait_for_node (failing ++ later) ≡ wait_for_node later
unfolding wait_for_node
wait_for_node-append [] later fails = refl
wait_for_node-append (poll ∷ polls) later ((status, sleep), fails) =
    rw (status.1, sleep) (wait_for_node-append polls later fails)

start_index-cases :
    (head : Option BlockIdentifier)
    → ((head ≡ none) × (start_index head ≡ negsuc 0))
      ⊎ ((block : BlockIdentifier) × (head ≡ some block)
          × (start_index head ≡ int64 (block.index +ℤ pos 1)))
unfolding start_index
start_index-cases none = inl (refl, refl)
start_index-cases (some block) = inr (block, refl, refl)

-- However often thoughtd fails to answer first, once it answers, Sync runs the syncer without an end
-- with the past blocks of the storage: from -1, which stands for the genesis, if there is no head,
-- and else from the height of the head plus one, as an int64.
pub sync_starts :
    (failing later : List Poll) (poll : Poll) (status : NetworkStatus)
    (head : Option BlockIdentifier) (cache : List BlockIdentifier)
    (run : SyncRun → Outcome Failure (Unit {0}))
    → All Fails failing
    → poll.status ≡ ok status
    → (from : ℤ) × (sync (failing ++ poll ∷ later) head cache run
        ≡ some (
            run (record {
              past_blocks = cache;
              size_multiplier = 5;
              start_index = from;
              end_index = negsuc 0;
            })))
      × (((head ≡ none) × (from ≡ negsuc 0))
          ⊎ ((block : BlockIdentifier) × (head ≡ some block)
              × (from ≡ int64 (block.index +ℤ pos 1))))
unfolding sync
sync_starts failing later poll status head cache run fails answers = (
  start_index head,
  rw (wait_for_node-append failing (poll ∷ later) fails) (rw answers refl),
  start_index-cases head,
)

-- If the context is done while thoughtd has not answered, Sync fails with its error and does not run
-- the syncer.
pub sync_cancelled :
    (failing later : List Poll) (poll : Poll) (e done : Failure) (head : Option BlockIdentifier)
    (cache : List BlockIdentifier) (run : SyncRun → Outcome Failure (Unit {0}))
    → All Fails failing
    → poll.status ≡ err e
    → poll.sleep ≡ some done
    → sync (failing ++ poll ∷ later) head cache run ≡ some (err done)
unfolding sync
sync_cancelled failing later poll e done head cache run fails status sleep =
    rw (wait_for_node-append failing (poll ∷ later) fails) (rw (status, sleep) refl)
