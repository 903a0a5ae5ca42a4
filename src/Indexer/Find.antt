-- ===== src/Indexer/Find.antt =====
-- `findCoin`, `checkHeaderMatch` and `findCoins` of indexer/indexer.go. Other goroutines run between
-- the sections: what they make of the shared state is a function, part of the environment.
pub mod Complete
pub mod Reads
pub mod Stored
use rosetta_thought.Prelude.{
  ◌≡◌, Bool, true, false, ◌&&◌, ◌||◌, not, Option, none, some, List, [], ◌∷◌, ◌++◌, if◌then◌else◌,
}
use rosetta_thought.Prelude.Int.{ℤ, pos, ◌+ℤ◌, eqb_ℤ, int64}
use rosetta_thought.Map.{Map, lookup, insert}
use rosetta_thought.Outcome.{Outcome, ok, err, panic, ◌>>=◌, deref}
use rosetta_thought.Text.{Text, text_eq}
use rosetta_thought.Sdk
use rosetta_thought.Sdk.{
  Failure, plain, missing_transaction, orphan_head, head_block_not_found, coin_not_found,
  context_done, AccountCoin, AccountIdentifier, BlockIdentifier, Coin,
}
use rosetta_thought.Thought.Types.{Block}
use rosetta_thought.Thought.Coin.{transaction_hash}
use rosetta_thought.Indexer.WaitTable.{State, register, release}

-- One pass of the loop of `findCoin`: what the storages and `ContextSleep` returned, and what the
-- other goroutines did up to the three reads of the shared state.
pub record Pass : Type 0 where
  pub before_start : State → State
  pub before_cache : State → State
  pub before_lock : State → State
  pub coin_head_block : Outcome Failure BlockIdentifier
  pub sleep : Option Failure
  pub stored_coin : Outcome Failure (Coin × Option AccountIdentifier)
  pub current_head_block : Outcome Failure BlockIdentifier

pub data Verdict : Type 0 where
  again : Verdict
  done : Outcome Failure (Coin × Option AccountIdentifier) → Verdict

-- `same_head` is the comparison of two `types.Hash` of rosetta-sdk-go.
module _ (same_head : BlockIdentifier → BlockIdentifier → Bool) (height : ℤ) where
  -- With the wait table locked: look again if anything moved, or else wait for the transaction.
  unfoldable pub wait_or_again :
      Text → ℤ → BlockIdentifier → Outcome Failure BlockIdentifier → State → Verdict × State
  wait_or_again coin_identifier start_seen coin_head (err e) s = (done (err e), s)
  wait_or_again coin_identifier start_seen coin_head panic s = (done panic, s)
  wait_or_again coin_identifier start_seen coin_head (ok current) s =
      if not (same_head current coin_head) || not (eqb_ℤ s.seen start_seen)
      then (again, s)
      else elim (transaction_hash coin_identifier) [
        | ok tx_hash ↦
            (done (err missing_transaction), record s { waiter = register tx_hash height s.waiter })
        | err e ↦ (done (err e), s)
        | panic ↦ (done panic, s)
      ]

  -- After a storage that does not have the coin: the cache, and then the wait table.
  unfoldable pub look_in_cache : Text → ℤ → BlockIdentifier → Pass → State → Verdict × State
  unfolding wait_or_again
  look_in_cache coin_identifier start_seen coin_head pass s =
      let t = pass.before_cache s in
      elim (lookup coin_identifier t.coin_cache) [
        | some acc_coin ↦ (done (ok (acc_coin.coin, acc_coin.account)), t)
        | none ↦
            wait_or_again coin_identifier start_seen coin_head pass.current_head_block
              (pass.before_lock t)
      ]

  unfoldable pub find_coin_pass : Text → Pass → State → Verdict × State
  unfolding look_in_cache
  find_coin_pass coin_identifier pass s =
      let t = pass.before_start s in
      elim pass.coin_head_block [
        | err head_block_not_found ↦ elim pass.sleep [
          | none ↦ (again, t)
          | some e ↦ (done (err e), t)
        ]
        | err e ↦ (done (err e), t)
        | panic ↦ (done panic, t)
        | ok coin_head ↦ elim pass.stored_coin [
          | ok found ↦ (done (ok found), t)
          | err coin_not_found ↦ look_in_cache coin_identifier t.seen coin_head pass t
          | err e ↦ (done (err e), t)
          | panic ↦ (done panic, t)
        ]
      ]

  -- The passes end where the context is done.
  unfoldable pub find_coin :
      Text → List Pass → State → Outcome Failure (Coin × Option AccountIdentifier) × State
  unfolding find_coin_pass
  find_coin coin_identifier [] s = (err context_done, s)
  find_coin coin_identifier (pass ∷ passes) s = elim (find_coin_pass coin_identifier pass s).0 [
    | done outcome ↦ (outcome, (find_coin_pass coin_identifier pass s).1)
    | again ↦ find_coin coin_identifier passes (find_coin_pass coin_identifier pass s).1
  ]

-- `errors.Is(err, ErrHeadBlockNotFound)` lets a missing head pass. A nil block is dereferenced only
-- if there is a head.
unfoldable pub check_header_match :
    Outcome Failure BlockIdentifier → Option Block → Outcome Failure (Unit {0})
check_header_match (err head_block_not_found) raw = ok tt
check_header_match (err e) raw = err e
check_header_match panic raw = panic
check_header_match (ok head) raw = do
  block ← deref raw
  if eqb_ℤ block.height (int64 (head.index +ℤ pos 1))
        && not (text_eq block.previous_block_hash head.hash)
      then err orphan_head
      else ok tt

-- What one call of `findCoins` meets: the head, the passes for each coin, and for each transaction
-- waited for what happened until its channel was closed (`none`: the context was done first).
pub record Environment : Type 0 where
  pub same_head : BlockIdentifier → BlockIdentifier → Bool
  pub head_block : Outcome Failure BlockIdentifier
  pub passes : Text → List Pass
  pub wake : Text → Option (State → State)

abbrev pub height_of : Option Block → ℤ
height_of none = pos 0
height_of (some block) = block.height

module _ (env : Environment) (height : ℤ) where
  -- The loop over the coins: those found, and those to wait for.
  unfoldable pub look_up :
      List Text
      → Map AccountCoin
      → List Text
      → State
      → Outcome Failure (Map AccountCoin × List Text) × State
  look_up [] coin_map remaining s = (ok (coin_map, remaining), s)
  look_up (coin ∷ coins) coin_map remaining s =
      let found = find_coin env.same_head height coin (env.passes coin) s in
      elim found.0 [
        | ok (c, owner) ↦
            look_up coins (insert coin (record { account = owner; coin = c }) coin_map) remaining
              found.1
        | err missing_transaction ↦ look_up coins coin_map (remaining ++ coin ∷ []) found.1
        | err e ↦ (err e, found.1)
        | panic ↦ (panic, found.1)
      ]

-- The loop over the coins to wait for; the result says whether a wait was aborted.
unfoldable pub await_all : Environment → List Text → Bool → State → Outcome Failure Bool × State
await_all env [] should_abort s = (ok should_abort, s)
await_all env (coin ∷ coins) should_abort s = elim (transaction_hash coin) [
  | err e ↦ (err e, s)
  | panic ↦ (panic, s)
  | ok tx_hash ↦ elim (lookup tx_hash s.waiter) [
    | none ↦ (err plain, s)
    | some entry ↦ elim (env.wake tx_hash) [
      | none ↦ (err context_done, s)
      | some others ↦ elim (release tx_hash (others s)).0 [
        | err e ↦ (err e, (release tx_hash (others s)).1)
        | panic ↦ (panic, (release tx_hash (others s)).1)
        | ok aborted ↦ await_all env coins (should_abort || aborted) (release tx_hash (others s)).1
      ]
    ]
  ]
]

-- `for k, v := range foundCoins { coinMap[k] = v }`.
unfoldable pub merge : Map AccountCoin → Map AccountCoin → Map AccountCoin
merge [] coin_map = coin_map
merge ((k, v) ∷ found) coin_map = merge found (insert k v coin_map)

abbrev pub merge_result :
    Map AccountCoin
    → Outcome Failure (Map AccountCoin) × State
    → Outcome Failure (Map AccountCoin) × State
merge_result coin_map (ok found, s) = (ok (merge found coin_map), s)
merge_result coin_map (err e, s) = (err e, s)
merge_result coin_map (panic, s) = (panic, s)

-- One call of `findCoins`, with the call that it makes of itself for what it waited for.
module _ (again : List Text → State → Outcome Failure (Map AccountCoin) × State) where
  unfoldable pub after_wait :
      Map AccountCoin
      → List Text
      → Outcome Failure Bool × State
      → Outcome Failure (Map AccountCoin) × State
  after_wait coin_map remaining (ok true, s) = (err orphan_head, s)
  after_wait coin_map remaining (ok false, s) = merge_result coin_map (again remaining s)
  after_wait coin_map remaining (err e, s) = (err e, s)
  after_wait coin_map remaining (panic, s) = (panic, s)

  unfoldable pub after_look_up :
      Environment
      → Outcome Failure (Map AccountCoin × List Text) × State
      → Outcome Failure (Map AccountCoin) × State
  unfolding after_wait
  after_look_up env (ok (coin_map, []), s) = (ok coin_map, s)
  after_look_up env (ok (coin_map, coin ∷ coins), s) =
      after_wait coin_map (coin ∷ coins) (await_all env (coin ∷ coins) false s)
  after_look_up env (err e, s) = (err e, s)
  after_look_up env (panic, s) = (panic, s)

  unfoldable pub find_coins_once :
      Environment → Option Block → List Text → State → Outcome Failure (Map AccountCoin) × State
  unfolding after_look_up
  find_coins_once env raw coins s = elim (check_header_match env.head_block raw) [
    | ok _ ↦ after_look_up env (look_up env (height_of raw) coins [] [] s)
    | err e ↦ (err e, s)
    | panic ↦ (panic, s)
  ]

-- `later` are the environments of the calls that this one makes of itself; they end where the
-- context is done.
unfoldable pub find_coins :
    List Environment
    → Environment
    → Option Block
    → List Text
    → State
    → Outcome Failure (Map AccountCoin) × State
unfolding find_coins_once
find_coins [] env raw = find_coins_once (λ remaining s. (err context_done, s)) env raw
find_coins (next ∷ later) env raw = find_coins_once (find_coins later next raw) env raw
