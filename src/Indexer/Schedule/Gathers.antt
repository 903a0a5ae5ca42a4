-- ===== src/Indexer/Schedule/Gathers.antt =====
-- `findCoins` of indexer/indexer.go for coins that seen blocks create.
use rosetta_thought.Prelude.{
  ◌≡◌, refl, ap, ◌∙◌, true, some, Option, List, [], ◌∷◌, All, Bool-cases, inl, inr,
}
use rosetta_thought.Prelude.Int.{ℤ}
use rosetta_thought.Map.{Map, lookup, insert, lookup-insert}
use rosetta_thought.Outcome.{Outcome, ok, err}
use rosetta_thought.Text.{Text, text_eq, text_eq_iff}
use rosetta_thought.Sdk.{Failure, AccountCoin, BlockIdentifier, context_done}
use rosetta_thought.Thought.Types.{Block}
use rosetta_thought.Indexer.WaitTable.{State}
use rosetta_thought.Indexer.Find.{
  Environment, find_coin, check_header_match, height_of, look_up, find_coins_once, find_coins,
}
use rosetta_thought.Indexer.Find.Stored.{after_look_up-all}
use rosetta_thought.Indexer.Schedule.{CoinStorage, World, as_stored}
use rosetta_thought.Indexer.Schedule.Ready.{IsReady}
use rosetta_thought.Indexer.Schedule.Passes.{Between, passes_at, AreBusy, AllLeave}
use rosetta_thought.Indexer.Schedule.Finds.{find_coin_never_waits}

-- The passes for the coin run among sections of `BlockSeen` and `BlockAdded` that leave it unspent,
-- from where it is ready, and one of them finds a head block stored, and no other block is stored
-- between its snapshot and its look into the cache.
pub record IsAtHand (storage : CoinStorage) (env : Environment) (k : Text) (v : AccountCoin)
    : Type 0 where
  pub between : List Between
  pub world : World storage
  pub passes : env.passes k ≡ passes_at storage k between world
  pub leaves : AllLeave k v between
  pub ready : IsReady storage k v world
  pub quiet : ¬ AreBusy storage between world

module _ (storage : CoinStorage) (expected : Text → AccountCoin) where
  abbrev IsRight : Map AccountCoin → Text → Type 0
  IsRight m k = lookup k m ≡ some (expected k)

  module _ (env : Environment)
      (distinguishes : (a b : BlockIdentifier) → env.same_head a b ≡ true → a ≡ b) where
    find_coin-IsAtHand :
        (height : ℤ) (k : Text) (s : State)
        → IsAtHand storage env k (expected k)
        → (find_coin env.same_head height k (env.passes k) s).0 ≡ ok (as_stored (expected k))
    find_coin-IsAtHand height k s h =
        ap (λ passes. (find_coin env.same_head height k passes s).0) h.passes
        ∙ elim (find_coin_never_waits storage env.same_head height k (expected k) h.between h.world
            s distinguishes h.leaves h.ready) [
              | inl found ↦ found
              | inr (ended, busy) ↦ absurd (h.quiet busy)
            ]

    insert-IsRight :
        (k j : Text) (m : Map AccountCoin) → IsRight m j → IsRight (insert k (expected k) m) j
    insert-IsRight k j m right = elim (Bool-cases (text_eq k j)) [
      | inl same ↦
          lookup-insert k j (expected k) m
          ∙ rw same (ap (λ x. some (expected x)) ((text_eq_iff k j).0 same))
      | inr differ ↦ lookup-insert k j (expected k) m ∙ rw differ right
    ]

    look_up-IsRight :
        (height : ℤ) (coins : List Text) (m : Map AccountCoin) (s : State)
        → All (λ k. IsAtHand storage env k (expected k)) coins
        → (found : Map AccountCoin) × ((look_up env height coins m [] s).0 ≡ ok (found, []))
          × All (IsRight found) coins
          × ((j : Text) → IsRight m j → IsRight found j)
    unfolding look_up
    look_up-IsRight height [] m s at_hand = (m, refl, tt, λ j right. right)
    look_up-IsRight height (k ∷ coins) m s (first, rest) =
        let e = find_coin-IsAtHand height k s first in
        let (found, is, right, kept) =
          look_up-IsRight height coins (insert k (expected k) m)
            (find_coin env.same_head height k (env.passes k) s).1 rest in
        (
          found,
          rw (e, look_up) is,
          (kept k (lookup-insert k k (expected k) m ∙ rw ((text_eq_iff k k).1 refl) refl), right),
          λ j right_before. kept j (insert-IsRight k j m right_before),
        )

    once-IsRight :
        (again : List Text → State → Outcome Failure (Map AccountCoin) × State) (raw : Option Block)
        (coins : List Text) (s : State)
        → check_header_match env.head_block raw ≡ ok tt
        → All (λ k. IsAtHand storage env k (expected k)) coins
        → (m : Map AccountCoin) × ((find_coins_once again env raw coins s).0 ≡ ok m)
          × All (IsRight m) coins
    unfolding find_coins_once
    once-IsRight again raw coins s allowed at_hand =
        let (m, found, right, kept) = look_up-IsRight (height_of raw) coins [] s at_hand in
        (
          m,
          rw (allowed, find_coins_once)
              (after_look_up-all again env (look_up env (height_of raw) coins [] [] s) m found),
          right,
        )

-- If the head of the storage allows the block, and every coin is at hand, that is, it is in the
-- storage or in the cache, it stays unspent in the midst of BlockSeen and BlockAdded while findCoin
-- runs, and some pass finds a head block stored and no block is stored between its snapshot and its
-- look into the cache, then findCoins returns, however few calls of itself the context leaves it, and its map has
-- each coin as it was at hand. A block that is removed has nothing to do with the coins and goes
-- before the snapshot of a pass, and equal hashes are of the same head.
pub find_coins-IsAtHand :
    (storage : CoinStorage) (expected : Text → AccountCoin) (later : List Environment)
    (env : Environment) (raw : Option Block) (coins : List Text) (s : State)
    → ((a b : BlockIdentifier) → env.same_head a b ≡ true → a ≡ b)
    → check_header_match env.head_block raw ≡ ok tt
    → All (λ k. IsAtHand storage env k (expected k)) coins
    → (m : Map AccountCoin) × ((find_coins later env raw coins s).0 ≡ ok m)
      × All (λ k. lookup k m ≡ some (expected k)) coins
unfolding find_coins
find_coins-IsAtHand storage expected [] env raw coins s distinguishes allowed at_hand =
    once-IsRight storage expected env distinguishes (λ remaining t. (err context_done, t)) raw coins
      s allowed at_hand
find_coins-IsAtHand storage expected (next ∷ later) env raw coins s distinguishes allowed at_hand =
    once-IsRight storage expected env distinguishes (find_coins later next raw) raw coins s allowed
      at_hand
