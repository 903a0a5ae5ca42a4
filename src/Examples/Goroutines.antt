-- ===== src/Examples/Goroutines.antt =====
-- Examples of looking coins up while other goroutines run.
use rosetta_thought.Prelude.{map, ◌≡◌, refl, Option, none, some, [], ◌∷◌, Bool}
use rosetta_thought.Prelude.Int.{pos, int64, ◌-ℤ◌, ◌+ℤ◌}
use rosetta_thought.Map.{Map, lookup, insert, delete}
use rosetta_thought.Outcome.{Outcome, ok, err}
use rosetta_thought.Text.{codes, text_eq}
use rosetta_thought.Text.Split.{split}
use rosetta_thought.Sdk
use rosetta_thought.Sdk.{
  AccountCoin, AccountIdentifier, Coin, BlockIdentifier, Failure, coin_not_found, plain, Metadata,
  previous_tx_missing,
}
use rosetta_thought.Thought.Coin.{transaction_hash}
use rosetta_thought.Thought.Transactions.Creates.{Known}
use rosetta_thought.Indexer.WaitTable.{
  init, register, release, close_waiting, close_seen, close_channel,
}
use rosetta_thought.Indexer.Events.{seen_close}
use rosetta_thought.Indexer.Find.{
  Pass, Environment, find_coins, find_coins_once, find_coin, find_coin_pass, look_in_cache,
  wait_or_again, look_up, await_all, after_wait, after_look_up, check_header_match, merge,
}
use rosetta_thought.Indexer.Find.Complete.{find_coins-Known}
use rosetta_thought.Indexer.Find.Stored.{find_coins-stored}
use rosetta_thought.Indexer.Fetch.Whole.{block_total}
use rosetta_thought.Indexer.Fetch.{Attempt, fetch_raw, block, checked}
use rosetta_thought.Examples.{lib, client, two_txs, earlier_coin, earlier_coins, genesis}
use rosetta_thought.Examples.Blocks.{fetched, settled, lib-Works, spendable, payable}

abbrev same : BlockIdentifier → BlockIdentifier → Bool
same a b = text_eq a.hash b.hash

-- A pass that nothing runs beside, at the genesis block.
abbrev quiet : Outcome Failure (Coin × Option AccountIdentifier) → Pass
quiet stored = record {
  before_start = λ s. s;
  before_cache = λ s. s;
  before_lock = λ s. s;
  coin_head_block = ok genesis;
  sleep = none;
  stored_coin = stored;
  current_head_block = ok genesis;
}

abbrev pub tx_z : Sdk.Transaction
tx_z = record {
  transaction_identifier = record { hash = codes "z" };
  operations = [];
  metadata = Metadata.empty;
}

-- A block with one transaction "z".
abbrev pub block_z : Sdk.Block
block_z = record {
  block_identifier = record { index = pos 0; hash = codes "g" };
  parent_block_identifier = record { index = pos 0; hash = codes "g" };
  timestamp = pos 0;
  transactions = tx_z ∷ [];
  metadata = Metadata.empty;
}

-- No coin is stored; whoever waits is woken by the block of "z".
abbrev pub nothing_stored : Environment
nothing_stored = record {
  same_head = same;
  head_block = ok genesis;
  passes = λ coin. quiet (err coin_not_found) ∷ [];
  wake = λ hash. some (λ s. (seen_close block_z s).1);
}

-- Every coin is stored.
abbrev pub all_stored : Environment
all_stored = record {
  same_head = same;
  head_block = ok genesis;
  passes = λ coin. quiet (ok (earlier_coin.coin, earlier_coin.account)) ∷ [];
  wake = λ hash. none;
}

-- The coin is missed, waited for, and found when it is looked for again.
pub found_later :
    (find_coins (all_stored ∷ []) nothing_stored (some two_txs) (codes "z:1" ∷ []) init).0
    ≡ ok earlier_coins
unfolding find_coins find_coins_once find_coin find_coin_pass look_in_cache wait_or_again look_up
    await_all after_wait after_look_up check_header_match merge lookup insert delete text_eq
    transaction_hash split register release close_waiting close_seen close_channel seen_close int64
    ◌-ℤ◌ ◌+ℤ◌
found_later = refl

find_coins-Known_example : Known earlier_coins (codes "z:1" ∷ [])
find_coins-Known_example =
    find_coins-Known (all_stored ∷ []) nothing_stored (some two_txs) (codes "z:1" ∷ []) init
      earlier_coins found_later

abbrev pub fetching : Attempt
fetching = record { raw = ok (two_txs, codes "z:1" ∷ []); sleep = none }

pub got_raw : fetch_raw 0 (fetching ∷ []) ≡ ok (some two_txs, codes "z:1" ∷ [])
unfolding fetch_raw
got_raw = refl

block_total_example :
    (parsed : Sdk.Block) × ((block lib client
        (λ b. none)
        (fetching ∷ [])
        (all_stored ∷ [])
        nothing_stored
        init).0
      ≡ checked lib client (λ b. none) parsed)
    × (map (λ tx. tx.transaction_identifier.hash) parsed.transactions
        ≡ map (λ tx. tx.hash) two_txs.txs)
block_total_example =
    block_total lib client (λ b. none) lib-Works two_txs (codes "z:1" ∷ []) (fetching ∷ [])
      (all_stored ∷ []) nothing_stored init earlier_coins got_raw fetched found_later spendable
      payable settled

-- The storage has no head block at first.
abbrev stored_later : Environment
stored_later = record {
  same_head = same;
  head_block = ok genesis;
  passes = λ coin.
      record (quiet (err coin_not_found)) { coin_head_block = err Failure.head_block_not_found }
      ∷ quiet (ok (earlier_coin.coin, earlier_coin.account))
      ∷ [];
  wake = λ hash. none;
}

genesis_allows : check_header_match (ok genesis) (some two_txs) ≡ ok tt
unfolding check_header_match text_eq int64 ◌+ℤ◌
genesis_allows = refl

find_coins-stored_example :
    (m : Map AccountCoin) × ((find_coins [] stored_later (some two_txs) (codes "z:1" ∷ []) init).0
      ≡ ok m)
    × Known m (codes "z:1" ∷ [])
find_coins-stored_example =
    find_coins-stored [] stored_later (some two_txs) (codes "z:1" ∷ []) init genesis_allows (
      record {
        first =
            record (quiet (err coin_not_found)) {
              coin_head_block = err Failure.head_block_not_found;
            }
            ∷ [];
        pass = quiet (ok (earlier_coin.coin, earlier_coin.account));
        later = [];
        passes = refl;
        waits = ((refl, refl), tt);
        head = genesis;
        has_head = refl;
        stored = (earlier_coin.coin, earlier_coin.account);
        has_coin = refl;
      },
      tt,
    )
