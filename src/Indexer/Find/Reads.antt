-- ===== src/Indexer/Find/Reads.antt =====
-- What a pass of `findCoin` (indexer/indexer.go) does by what it reads.
use rosetta_thought.Prelude.{
  ◌≢◌, Bool-cases, Option-cases, inl, inr, ◌≡◌, refl, none, some, Option, Bool, false,
}
use rosetta_thought.Prelude.Int.{ℤ, eqb_ℤ}
use rosetta_thought.Map.{lookup}
use rosetta_thought.Outcome.{Outcome, ok, err, panic}
use rosetta_thought.Text.{Text}
use rosetta_thought.Sdk.{
  AccountCoin, AccountIdentifier, BlockIdentifier, Coin, head_block_not_found, coin_not_found,
  missing_transaction, Failure,
}
use rosetta_thought.Indexer.WaitTable.{State}
use rosetta_thought.Indexer.Find.{Pass, again, done, find_coin_pass, look_in_cache, wait_or_again}

module _ (same_head : BlockIdentifier → BlockIdentifier → Bool) (height : ℤ) (k : Text) where
  pub pass-empty :
      (pass : Pass) (s : State)
      → pass.coin_head_block ≡ err head_block_not_found
      → pass.sleep ≡ none
      → (find_coin_pass same_head height k pass s).0 ≡ again
  unfolding find_coin_pass
  pass-empty pass s empty slept = rw (empty, slept) refl

  pub pass-stored :
      (pass : Pass) (s : State) (head : BlockIdentifier) (found : Coin × Option AccountIdentifier)
      → pass.coin_head_block ≡ ok head
      → pass.stored_coin ≡ ok found
      → (find_coin_pass same_head height k pass s).0 ≡ done (ok found)
  unfolding find_coin_pass
  pass-stored pass s head found is stored = rw (is, stored) refl

  pub pass-cache :
      (pass : Pass) (s : State) (head : BlockIdentifier)
      → pass.coin_head_block ≡ ok head
      → pass.stored_coin ≡ err coin_not_found
      → find_coin_pass same_head height k pass s
        ≡ look_in_cache same_head height k
            (pass.before_start s).seen
            head
            pass
            (pass.before_start s)
  unfolding find_coin_pass
  pass-cache pass s head is missing = rw (is, missing, find_coin_pass) refl

  module _ (start_seen : ℤ) (head : BlockIdentifier) where
    pub look-cached :
        (v : AccountCoin) (pass : Pass) (s : State)
        → lookup k (pass.before_cache s).coin_cache ≡ some v
        → (look_in_cache same_head height k start_seen head pass s).0
          ≡ done (ok (v.coin, v.account))
    unfolding look_in_cache
    look-cached v pass s cached = rw (cached, look_in_cache) refl

    pub look-again :
        (current : BlockIdentifier) (pass : Pass) (s : State)
        → lookup k (pass.before_cache s).coin_cache ≡ none
        → pass.current_head_block ≡ ok current
        → same_head current head ≡ false
        → (look_in_cache same_head height k start_seen head pass s).0 ≡ again
    unfolding look_in_cache wait_or_again
    look-again current pass s gone now differ = rw (gone, look_in_cache) (rw (now, differ) refl)

    -- The seen blocks were counted further since the pass started: it does not wait.
    wait-counted :
        (current : Outcome Failure BlockIdentifier) (s : State)
        → current ≢ err missing_transaction
        → eqb_ℤ s.seen start_seen ≡ false
        → (wait_or_again same_head height k start_seen head current s).0
          ≢ done (err missing_transaction)
    unfolding wait_or_again
    wait-counted (err e) s other counted = λ h. other cc
    wait-counted panic s other counted = λ h. cc
    wait-counted (ok current) s other counted = elim (Bool-cases (same_head current head)) [
      | inl same ↦ rw same (rw counted (λ h. cc))
      | inr moved ↦ rw moved (λ h. cc)
    ]

    pub look-counted :
        (pass : Pass) (s : State)
        → pass.current_head_block ≢ err missing_transaction
        → eqb_ℤ (pass.before_lock (pass.before_cache s)).seen start_seen ≡ false
        → (look_in_cache same_head height k start_seen head pass s).0
          ≢ done (err missing_transaction)
    unfolding look_in_cache
    look-counted pass s other counted =
        elim (Option-cases (lookup k (pass.before_cache s).coin_cache)) [
          | inr (c, cached) ↦ rw (cached, look_in_cache) (λ h. cc)
          | inl gone ↦
              rw (gone, look_in_cache)
                (wait-counted pass.current_head_block (pass.before_lock (pass.before_cache s)) other
                  counted)
        ]
