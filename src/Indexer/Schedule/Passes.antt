-- ===== src/Indexer/Schedule/Passes.antt =====
-- `findCoin` of indexer/indexer.go among the sections of `BlockSeen` and `BlockAdded`: what a pass of
-- its loop reads, and that it never waits for a coin that is there.
use rosetta_thought.Prelude.{
  ◌≡◌, refl, ◌⊎◌, inl, inr, ◌∙◌, sym, ◌+◌, ◌<◌, none, some, List, [], ◌∷◌, All, Bool-cases, Option,
  arith, true,
}
use rosetta_thought.Prelude.Int.{pos, ◌+ℤ◌, eqb_ℤ_iff, pos_part, neg_part, int_laws}
use rosetta_thought.Outcome.{Outcome, ok, err}
use rosetta_thought.Text.{Text}
use rosetta_thought.Sdk
use rosetta_thought.Sdk.{
  AccountCoin, AccountIdentifier, BlockIdentifier, Coin, Failure, coin_not_found,
  head_block_not_found, context_done,
}
use rosetta_thought.Indexer.Find.{Pass}
use rosetta_thought.Indexer.Schedule.{
  CoinStorage, World, Event, load, count, store, clean, remove, table, store_on_head, clean_pending,
  happen, run, follows,
}
use rosetta_thought.Indexer.Schedule.Ready.{Leaves}

-- The events before the reads of one pass: of `i.seen`, of the snapshot of the database (`ReadTransaction`),
-- of the cache, and of the head block with the wait table locked.
pub record Between : Type 0 where
  pub to_start : List Event
  pub to_snapshot : List Event
  pub to_cache : List Event
  pub to_lock : List Event

abbrev pub stored_head : Option BlockIdentifier → Outcome Failure BlockIdentifier
stored_head none = err head_block_not_found
stored_head (some head) = ok head

module _ (storage : CoinStorage) where
  abbrev pub at_start : Between → World storage → World storage
  at_start b w = run storage b.to_start w

  abbrev pub at_snapshot : Between → World storage → World storage
  at_snapshot b w = run storage b.to_snapshot (at_start b w)

  abbrev pub at_cache : Between → World storage → World storage
  at_cache b w = run storage b.to_cache (at_snapshot b w)

  abbrev pub at_lock : Between → World storage → World storage
  at_lock b w = run storage b.to_lock (at_cache b w)

  -- A pass without a stored head sleeps and looks again; one whose sleep is cut short is the last.
  abbrev pub pass_at : Text → Between → World storage → Pass
  pass_at k b w = record {
    before_start = λ _. (at_start b w).shared;
    before_cache = λ _. (at_cache b w).shared;
    before_lock = λ _. (at_lock b w).shared;
    coin_head_block = stored_head (at_snapshot b w).head;
    sleep = none;
    stored_coin = storage.get_coin k (at_snapshot b w).coins;
    current_head_block = stored_head (at_lock b w).head;
  }

  abbrev pub passes_at : Text → List Between → World storage → List Pass
  passes_at k [] w = []
  passes_at k (b ∷ bs) w = pass_at k b w ∷ passes_at k bs (at_lock b w)

-- The head went up.
abbrev pub IsBelow : Option BlockIdentifier → Option BlockIdentifier → Type 0
IsBelow a none = ⊥
IsBelow none (some b) = Unit
IsBelow (some a) (some b) =
    pos_part a.index + neg_part b.index < pos_part b.index + neg_part a.index

pub IsBelow-trans : (a b c : Option BlockIdentifier) → IsBelow a b → IsBelow b c → IsBelow a c
IsBelow-trans a b none up up' = up'
IsBelow-trans none b (some c) up up' = tt
IsBelow-trans (some a) none (some c) up up' = absurd up
IsBelow-trans (some a) (some b) (some c) up up' = omega arith

-- A pass finds no stored head, or between its snapshot and its look into the cache a block was stored.
abbrev pub IsBusy : (storage : CoinStorage) → Between → World storage → Type 0
IsBusy storage b w =
    ((at_snapshot storage b w).head ≡ none)
    ⊎ IsBelow (at_snapshot storage b w).head (at_cache storage b w).head

abbrev pub AreBusy : (storage : CoinStorage) → List Between → World storage → Type 0
AreBusy storage [] w = Unit
AreBusy storage (b ∷ bs) w = IsBusy storage b w × AreBusy storage bs (at_lock storage b w)

-- No block is removed.
abbrev pub Stays : Event → Type 0
Stays (remove block) = ⊥
Stays _ = Unit

-- None is removed after the snapshot.
abbrev pub IsSteady : Between → Type 0
IsSteady b = All Stays b.to_cache × All Stays b.to_lock

-- No event of the passes spends the coin, and none removes a block after a snapshot.
abbrev pub AllLeave : Text → AccountCoin → List Between → Type 0
AllLeave k v = All (λ b.
    All (Leaves k v) b.to_start
    × All (Leaves k v) b.to_snapshot
    × All (Leaves k v) b.to_cache
    × All (Leaves k v) b.to_lock
    × IsSteady b)

module _ (storage : CoinStorage) where
  -- The head and the coins are as before, or the head went up.
  abbrev pub Moved : World storage → World storage → Type 0
  Moved a b = ((b.head ≡ a.head) × (b.coins ≡ a.coins)) ⊎ IsBelow a.head b.head

  pub Moved-trans : (a b c : World storage) → Moved a b → Moved b c → Moved a c
  Moved-trans a b c (inl (h, d)) (inl (h', d')) = inl (h' ∙ h, d' ∙ d)
  Moved-trans a b c (inl (h, d)) (inr up) = inr (rw (sym h) up)
  Moved-trans a b c (inr up) (inl (h, d)) = inr (rw h up)
  Moved-trans a b c (inr up) (inr up') = inr (IsBelow-trans a.head b.head c.head up up')

  follows-IsBelow :
      (block : Sdk.Block) (head : Option BlockIdentifier)
      → follows block head ≡ true
      → IsBelow head (some block.block_identifier)
  follows-IsBelow block none is = tt
  follows-IsBelow block (some head) is =
      let e = (eqb_ℤ_iff block.block_identifier.index (head.index +ℤ pos 1)).0 is in
      rw e (omega int_laws)

  store-Moved :
      (block : Sdk.Block) (adding : Option Sdk.Block) (w : World storage)
      → Moved w (store_on_head storage block adding w)
  store-Moved block (some before) w = inl (refl, refl)
  store-Moved block none w = elim (Bool-cases (follows block w.head)) [
    | inr skip ↦ rw skip (inl (refl, refl))
    | inl next ↦ rw next (inr (follows-IsBelow block w.head next))
  ]

  happen-Moved : (e : Event) (w : World storage) → Stays e → Moved w (happen storage e w)
  unfolding happen
  happen-Moved (load block) w stays = inl (refl, refl)
  happen-Moved count w stays = inl (refl, refl)
  happen-Moved (store block) w stays = store-Moved block w.adding w
  happen-Moved clean w stays = go w.adding
    where
      go : (adding : Option Sdk.Block) → Moved w (clean_pending storage adding w)
      go none = inl (refl, refl)
      go (some block) = inl (refl, refl)
  happen-Moved (remove block) w stays = absurd stays
  happen-Moved (table t) w stays = inl (refl, refl)

  pub run-Moved :
      (events : List Event) (w : World storage) → All Stays events → Moved w (run storage events w)
  unfolding run
  run-Moved [] w stays = inl (refl, refl)
  run-Moved (e ∷ events) w (stays, rest) =
      Moved-trans w (happen storage e w) (run storage events (happen storage e w))
        (happen-Moved e w stays) (run-Moved events (happen storage e w) rest)
