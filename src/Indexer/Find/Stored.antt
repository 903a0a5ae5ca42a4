-- ===== src/Indexer/Find/Stored.antt =====
-- `findCoins` where the coin storage has the coins.
use rosetta_thought.Prelude.{◌≡◌, refl, ap, ◌∙◌, List, [], ◌∷◌, ◌++◌, Option, none, All}
use rosetta_thought.Prelude.Int.{ℤ}
use rosetta_thought.Map.{Map, insert}
use rosetta_thought.Outcome.{Outcome, ok, err, panic, ok-same}
use rosetta_thought.Text.{Text}
use rosetta_thought.Sdk.{
  Failure, context_done, head_block_not_found, AccountCoin, AccountIdentifier, BlockIdentifier,
  Coin,
}
use rosetta_thought.Thought.Types.{Block}
use rosetta_thought.Thought.Transactions.Creates.{Known}
use rosetta_thought.Indexer.WaitTable.{State}
use rosetta_thought.Indexer.Find.{
  Pass, Environment, find_coin_pass, find_coin, check_header_match, height_of, look_up,
  after_look_up, find_coins_once, find_coins,
}
use rosetta_thought.Indexer.Find.Complete.{find_coins-Known}

-- A pass that finds no head block and sleeps.
abbrev pub NoHead : Pass → Type 0
NoHead pass = (pass.coin_head_block ≡ err head_block_not_found) × (pass.sleep ≡ none)

-- After any number of passes without a head block, one at which the storage has the coin.
pub record IsStored (env : Environment) (coin : Text) : Type 0 where
  pub first : List Pass
  pub pass : Pass
  pub later : List Pass
  pub passes : env.passes coin ≡ first ++ pass ∷ later
  pub waits : All NoHead first
  pub head : BlockIdentifier
  pub has_head : pass.coin_head_block ≡ ok head
  pub stored : Coin × Option AccountIdentifier
  pub has_coin : pass.stored_coin ≡ ok stored

find_coin-stored :
    (env : Environment) (height : ℤ) (coin : Text) (first later : List Pass) (pass : Pass)
    (head : BlockIdentifier) (stored : Coin × Option AccountIdentifier) (s : State)
    → All NoHead first
    → pass.coin_head_block ≡ ok head
    → pass.stored_coin ≡ ok stored
    → (find_coin env.same_head height coin (first ++ pass ∷ later) s).0 ≡ ok stored
unfolding find_coin find_coin_pass
find_coin-stored env height coin [] later pass head stored s no_head h c = rw h (rw c refl)
find_coin-stored env height coin (p ∷ first) later pass head stored s ((no_head, sleeps), rest) h
      c =
    rw no_head (
      rw sleeps
        (find_coin-stored env height coin first later pass head stored (p.before_start s) rest h c))

look_up-stored :
    (env : Environment) (height : ℤ) (coins : List Text) (coin_map : Map AccountCoin) (s : State)
    → All (IsStored env) coins
    → (m : Map AccountCoin) × ((look_up env height coins coin_map [] s).0 ≡ ok (m, []))
unfolding look_up
look_up-stored env height [] coin_map s stored = (coin_map, refl)
look_up-stored env height (coin ∷ coins) coin_map s (is, rest) =
    let e : (find_coin env.same_head height coin (env.passes coin) s).0 ≡ ok is.stored =
      ap (λ passes. (find_coin env.same_head height coin passes s).0) is.passes
      ∙ find_coin-stored env height coin is.first is.later is.pass is.head is.stored s is.waits
          is.has_head is.has_coin in
    let (m, found) =
      look_up-stored env height coins
        (insert coin (record { account = is.stored.1; coin = is.stored.0 }) coin_map)
        (find_coin env.same_head height coin (env.passes coin) s).1 rest in
    (m, rw (e, look_up) found)

module _ (again : List Text → State → Outcome Failure (Map AccountCoin) × State)
    (env : Environment) where
  pub after_look_up-all :
      (found : Outcome Failure (Map AccountCoin × List Text) × State) (m : Map AccountCoin)
      → found.0 ≡ ok (m, [])
      → (after_look_up again env found).0 ≡ ok m
  unfolding after_look_up
  after_look_up-all (ok (coin_map, []), t) m e = ap (λ x. ok x.0) (ok-same e)
  after_look_up-all (ok (coin_map, coin ∷ coins), t) m e =
      absurd (let same = ap (λ x. x.1) (ok-same e) in cc)
  after_look_up-all (err x, t) m e = absurd (cc)
  after_look_up-all (panic, t) m e = absurd (cc)

  find_coins_once-stored :
      (raw : Option Block) (coins : List Text) (s : State)
      → check_header_match env.head_block raw ≡ ok tt
      → All (IsStored env) coins
      → (m : Map AccountCoin) × ((find_coins_once again env raw coins s).0 ≡ ok m)
  unfolding find_coins_once
  find_coins_once-stored raw coins s allowed stored =
      let (m, found) = look_up-stored env (height_of raw) coins [] s stored in
      (
        m,
        rw (allowed, find_coins_once)
            (after_look_up-all (look_up env (height_of raw) coins [] [] s) m found),
      )

find_coins-returns :
    (later : List Environment) (env : Environment) (raw : Option Block) (coins : List Text)
    (s : State)
    → check_header_match env.head_block raw ≡ ok tt
    → All (IsStored env) coins
    → (m : Map AccountCoin) × ((find_coins later env raw coins s).0 ≡ ok m)
unfolding find_coins
find_coins-returns [] env raw coins s allowed stored =
    find_coins_once-stored (λ remaining t. (err context_done, t)) env raw coins s allowed stored
find_coins-returns (next ∷ later) env raw coins s allowed stored =
    find_coins_once-stored (find_coins later next raw) env raw coins s allowed stored

-- If the head of the storage allows the block and the coin storage has each coin, after any number of
-- passes of findCoin without a head block, then findCoins returns a map with all the coins, however
-- few calls of itself the context leaves it.
pub find_coins-stored :
    (later : List Environment) (env : Environment) (raw : Option Block) (coins : List Text)
    (s : State)
    → check_header_match env.head_block raw ≡ ok tt
    → All (IsStored env) coins
    → (m : Map AccountCoin) × ((find_coins later env raw coins s).0 ≡ ok m) × Known m coins
find_coins-stored later env raw coins s allowed stored =
    let (m, e) = find_coins-returns later env raw coins s allowed stored in
    (m, e, find_coins-Known later env raw coins s m e)
