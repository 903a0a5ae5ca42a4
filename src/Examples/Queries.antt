-- ===== src/Examples/Queries.antt =====
-- Examples of the queries, the pruner and the sync of the indexer.
use rosetta_thought.Prelude.{◌≡◌, ◌⊎◌, refl, ◌<◌, none, some, [], ◌∷◌, arith, All, length}
use rosetta_thought.Prelude.Int.{ℤ, pos, negsuc, ◌+ℤ◌, int64}
use rosetta_thought.Outcome.{Outcome, ok, err}
use rosetta_thought.Text.{Text, codes}
use rosetta_thought.Text.Split.{no_colon-NoColon}
use rosetta_thought.Sdk.{Failure, plain, Metadata, BlockIdentifier, context_done}
use rosetta_thought.Thought.Coin.{
  coin_identifier, transaction_hash, parse_coin_identifier_bound,
  parse_coin_identifier-coin_identifier,
}
use rosetta_thought.Configuration.{PruningConfiguration}
use rosetta_thought.Indexer.Pruning.{prune, Allowed, prune-Allowed}
use rosetta_thought.Indexer.Syncing.{Poll, SyncRun, sync, sync_starts}
use rosetta_thought.Indexer.Queries.{Reads, get_script_pub_keys}
use rosetta_thought.Indexer.Queries.Scripts.{AreScriptsOf, get_script_pub_keys-AreScriptsOf}
use rosetta_thought.Indexer.Queries.Parsed.{get_script_pub_keys-AreCreated}
use rosetta_thought.Examples.{client, genesis}
use rosetta_thought.Examples.Wallet.{hash}
use rosetta_thought.Examples.Mined.{lib, paid_script, reads, asked, asked-Created}

get_script_pub_keys-AreCreated_example :
    get_script_pub_keys reads (asked ∷ []) ≡ ok (paid_script ∷ [])
get_script_pub_keys-AreCreated_example =
    get_script_pub_keys-AreCreated reads lib client (asked ∷ []) (paid_script ∷ [])
      (asked-Created, tt)

script_found : get_script_pub_keys reads (asked ∷ []) ≡ ok (paid_script ∷ [])
script_found =
    get_script_pub_keys-AreCreated reads lib client (asked ∷ []) (paid_script ∷ [])
      (asked-Created, tt)

get_script_pub_keys-AreScriptsOf_example : AreScriptsOf reads (asked ∷ []) (paid_script ∷ [])
get_script_pub_keys-AreScriptsOf_example =
    get_script_pub_keys-AreScriptsOf reads (asked ∷ []) (paid_script ∷ []) script_found

parse_coin_identifier_bound_example :
    (7 < 4294967296)
    × (text : Text) × (transaction_hash (coin_identifier hash (pos 7)) ≡ ok text)
    × (length text ≡ 64)
    × (some text ≡ some hash)
parse_coin_identifier_bound_example =
    parse_coin_identifier_bound (λ text. some text) (coin_identifier hash (pos 7)) hash 7
      (parse_coin_identifier-coin_identifier (λ text. some text) hash 7 hash
        (no_colon-NoColon hash refl) refl refl (omega arith))

abbrev depth_five : PruningConfiguration
depth_five = record { frequency_minutes = 1; depth = pos 5; min_height = pos 10 }

abbrev pub twenty : BlockIdentifier
twenty = record { index = pos 20; hash = codes "t" }

prune-Allowed_example :
    All
      (Allowed depth_five (none ∷ some twenty ∷ []))
      (prune depth_five (none ∷ some twenty ∷ []) context_done).0
prune-Allowed_example =
    prune-Allowed depth_five (none ∷ some twenty ∷ []) context_done
      (tt, ((refl, (ground arith), refl, (ground arith)), tt))

abbrev no_answer : Poll
no_answer = record { status = err plain; sleep = none }

abbrev answer : Poll
answer = record {
  status = ok (record {
    current_block_identifier = genesis;
    current_block_timestamp = pos 0;
    genesis_block_identifier = genesis;
    peers = [];
  });
  sleep = none;
}

-- A syncer that stops at once, as cancelled.
abbrev syncer : SyncRun → Outcome Failure (Unit {0})
syncer run = err context_done

sync_starts_example :
    (from : ℤ) × (sync (no_answer ∷ answer ∷ []) (some twenty) [] syncer
      ≡ some (
          syncer (record {
            past_blocks = [];
            size_multiplier = 5;
            start_index = from;
            end_index = negsuc 0;
          })))
    × (((some twenty ≡ none) × (from ≡ negsuc 0))
        ⊎ ((block : BlockIdentifier) × (some twenty ≡ some block)
            × (from ≡ int64 (block.index +ℤ pos 1))))
sync_starts_example =
    sync_starts (no_answer ∷ []) [] answer
      (record {
        current_block_identifier = genesis;
        current_block_timestamp = pos 0;
        genesis_block_identifier = genesis;
        peers = [];
      })
      (some twenty) [] syncer (((plain, refl), refl), tt) refl

-- A storage with a block and no account.
abbrev pub no_account : Reads Text
no_account = record reads {
  get_block_lazy = λ identifier. ok (record {
    block = record {
      block_identifier = twenty;
      parent_block_identifier = genesis;
      timestamp = pos 0;
      transactions = [];
      metadata = Metadata.empty;
    };
    other_transactions = [];
  });
  get_balance = λ account currency index. err Failure.account_missing;
}
