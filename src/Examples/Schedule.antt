-- ===== src/Examples/Schedule.antt =====
-- Examples of looking coins up while blocks are seen and added.
use rosetta_thought.Prelude.{
  All, ◌≡◌, ◌≢◌, refl, ◌⊎◌, inl, inr, Bool, none, some, [], ◌∷◌, arith, if◌then◌else◌, true, false,
}
use rosetta_thought.Prelude.Int.{int64, pos, ◌+ℤ◌, eqb_ℤ, eqb_ℤ_iff}
use rosetta_thought.Map.{Map, lookup}
use rosetta_thought.Outcome.{ok, err}
use rosetta_thought.Text.{codes, text_eq, text_eq_iff}
use rosetta_thought.Sdk
use rosetta_thought.Sdk.{
  AccountCoin, AccountIdentifier, BlockIdentifier, Coin, CoinChange, Failure, Operation,
  coin_not_found, missing_transaction, coin_created, coin_spent, context_done, Metadata,
}
use rosetta_thought.Thought.Created.{created_coin}
use rosetta_thought.Indexer.WaitTable.{init}
use rosetta_thought.Indexer.Find.{
  Environment, find_coin, find_coin_pass, find_coins, check_header_match, done,
}
use rosetta_thought.Indexer.Schedule.{
  World, happen, load, count, store, clean, block_made, block_spends, as_stored, run,
}
use rosetta_thought.Indexer.Schedule.Ready.{IsReady, seen_stays-IsReady}
use rosetta_thought.Indexer.Schedule.Passes.{Between, pass_at, passes_at, AreBusy}
use rosetta_thought.Indexer.Schedule.NoLoss.{counted_block_not_awaited}
use rosetta_thought.Indexer.Schedule.Gathers.{IsAtHand, find_coins-IsAtHand}
use rosetta_thought.Indexer.Schedule.Finds.{find_coin_never_waits}
use rosetta_thought.Examples.{client, genesis, two_txs}
use rosetta_thought.Examples.Blocks.{created}
use rosetta_thought.Examples.CoinMap.{map_storage}

-- A block on top of the genesis block, whose one operation creates the coin "b:0".
abbrev block_b : Sdk.Block
block_b = record {
  block_identifier = record { index = pos 1; hash = codes "h" };
  parent_block_identifier = genesis;
  timestamp = pos 0;
  transactions =
      record {
        transaction_identifier = record { hash = codes "b" };
        operations = created 0 0 (codes "b:0") (codes "40") ∷ [];
        metadata = Metadata.empty;
      }
      ∷ [];
  metadata = Metadata.empty;
}

abbrev coin_b : AccountCoin
coin_b = record {
  account = some (record { address = codes "3x" });
  coin = record {
    coin_identifier = record { identifier = codes "b:0" };
    amount = some (record { value = codes "40"; currency = client.currency });
  };
}

abbrev at_genesis : World map_storage
at_genesis = record { shared = init; coins = []; head = some genesis; adding = none }

b_makes : block_made (codes "b:0") block_b.transactions ≡ some coin_b
unfolding created_coin text_eq
b_makes = refl

b_spends_not : block_spends (codes "b:0") block_b.transactions ≡ false
b_spends_not = refl

-- The block is counted, added and cleaned after it was seen.
seen_stays-IsReady_example :
    IsReady map_storage
      (codes "b:0")
      coin_b
      (run map_storage (load block_b ∷ count ∷ store block_b ∷ clean ∷ []) at_genesis)
unfolding lookup
seen_stays-IsReady_example =
    seen_stays-IsReady map_storage (codes "b:0") coin_b block_b (count ∷ store block_b ∷ clean ∷ [])
      at_genesis b_makes refl tt (tt, ((b_spends_not, inr b_makes), (tt, tt)))

-- It is added and cleaned between the snapshot and the look into the cache of the first pass.
abbrev overtaken : Between
overtaken = record {
  to_start = [];
  to_snapshot = count ∷ [];
  to_cache = store block_b ∷ clean ∷ [];
  to_lock = [];
}

abbrev quiet : Between
quiet = record { to_start = []; to_snapshot = []; to_cache = []; to_lock = [] }

abbrev b_is_seen : World map_storage
b_is_seen = run map_storage (load block_b ∷ []) at_genesis

b-IsReady : IsReady map_storage (codes "b:0") coin_b b_is_seen
unfolding lookup
b-IsReady =
    seen_stays-IsReady map_storage (codes "b:0") coin_b block_b [] at_genesis b_makes refl tt tt

abbrev same : BlockIdentifier → BlockIdentifier → Bool
same a b = if eqb_ℤ a.index b.index then text_eq a.hash b.hash else false

same-eq : (a b : BlockIdentifier) → same a b ≡ true → a ≡ b
same-eq a b h = ground (arith, eqb_ℤ_iff a.index b.index, text_eq_iff a.hash b.hash)

find_coin_never_waits_example :
    ((find_coin same
        (pos 2)
        (codes "b:0")
        (passes_at map_storage (codes "b:0") (overtaken ∷ quiet ∷ []) b_is_seen)
        init).0
      ≡ ok (as_stored coin_b))
    ⊎ (((find_coin same
            (pos 2)
            (codes "b:0")
            (passes_at map_storage (codes "b:0") (overtaken ∷ quiet ∷ []) b_is_seen)
            init).0
          ≡ err context_done)
        × AreBusy map_storage (overtaken ∷ quiet ∷ []) b_is_seen)
find_coin_never_waits_example =
    find_coin_never_waits map_storage same (pos 2) (codes "b:0") coin_b (overtaken ∷ quiet ∷ [])
      b_is_seen init same-eq
      (
        (tt, (tt, tt), ((b_spends_not, inr b_makes), (tt, tt)), tt, ((tt, (tt, tt)), tt)),
        ((tt, tt, tt, tt, (tt, tt)), tt),
      )
      b-IsReady

-- The block is seen after the look into the cache, before the wait table is locked.
abbrev late : Between
late = record {
  to_start = [];
  to_snapshot = [];
  to_cache = [];
  to_lock = load block_b ∷ count ∷ [];
}

counted_block_not_awaited_example :
    (find_coin_pass same
      (pos 2)
      (codes "b:0")
      (pass_at map_storage (codes "b:0") late at_genesis)
      init).0
    ≢ done (err missing_transaction)
unfolding lookup
counted_block_not_awaited_example =
    counted_block_not_awaited map_storage same (pos 2) (codes "b:0") coin_b late at_genesis init
      block_b 0 [] [] [] same-eq (inl (refl, inl refl, tt)) refl (omega arith)
      (inr b_makes, (tt, tt)) (tt, (tt, (tt, tt))) b_makes refl

-- The coin is looked for after the block was seen, added and cleaned, in the second pass.
abbrev among_events : Environment
among_events = record {
  same_head = same;
  head_block = ok block_b.block_identifier;
  passes = λ k. passes_at map_storage (codes "b:0") (overtaken ∷ quiet ∷ []) b_is_seen;
  wake = λ hash. none;
}

quiet_in_the_end : ¬ AreBusy map_storage (overtaken ∷ quiet ∷ []) b_is_seen
unfolding run happen ◌+ℤ◌
quiet_in_the_end (first, (inl empty, rest)) =
    absurd (let e : some block_b.block_identifier ≡ none = empty in cc)
quiet_in_the_end (first, (inr second, rest)) = omega arith

b-IsAtHand : IsAtHand map_storage among_events (codes "b:0") coin_b
b-IsAtHand = record {
  between = overtaken ∷ quiet ∷ [];
  world = b_is_seen;
  passes = refl;
  leaves = (
    (tt, (tt, tt), ((b_spends_not, inr b_makes), (tt, tt)), tt, ((tt, (tt, tt)), tt)),
    ((tt, tt, tt, tt, (tt, tt)), tt),
  );
  ready = b-IsReady;
  quiet = quiet_in_the_end;
}

on_head : check_header_match (ok block_b.block_identifier) (some two_txs) ≡ ok tt
unfolding check_header_match int64 ◌+ℤ◌
on_head = refl

find_coins-IsAtHand_example :
    (m : Map AccountCoin) × ((find_coins [] among_events (some two_txs) (codes "b:0" ∷ []) init).0
      ≡ ok m)
    × All (λ k. lookup k m ≡ some coin_b) (codes "b:0" ∷ [])
find_coins-IsAtHand_example =
    find_coins-IsAtHand map_storage (λ k. coin_b) [] among_events (some two_txs) (codes "b:0" ∷ [])
      init same-eq on_head (b-IsAtHand, tt)
