-- ===== src/Indexer/Queries/Balance.antt =====
-- What GetBalance answers.
use rosetta_thought.Prelude.{◌≡◌, refl, sym, ap, Option, ◌⊎◌, inl, inr}
use rosetta_thought.Outcome.{Outcome, ok, err, panic, >>=-eq-ok, ok-same}
use rosetta_thought.Sdk.{
  Failure, account_missing, AccountIdentifier, Amount, BlockIdentifier, BlockResponse, Currency,
  PartialBlockIdentifier,
}
use rosetta_thought.Indexer.Queries.{Reads, zero_value, balance_or_zero, get_balance}

-- The answer of the storage, or zero in the currency for an account that it does not have.
abbrev pub Held : Currency → Outcome Failure Amount → Amount → Type 0
Held currency answer amount =
    (answer ≡ ok amount)
    ⊎ ((answer ≡ err account_missing)
        × (amount ≡ record { value = zero_value; currency = currency }))

balance_or_zero-Held :
    (currency : Currency) (answer : Outcome Failure Amount) (amount : Amount)
    → balance_or_zero currency answer ≡ ok amount
    → Held currency answer amount
balance_or_zero-Held currency (ok a) amount h = inl h
balance_or_zero-Held currency (err account_missing) amount h = inr (refl, sym (ok-same h))
balance_or_zero-Held currency (err e) amount h = absurd (cc)
balance_or_zero-Held currency panic amount h = absurd (cc)

module _ {Hash : Type 0} (reads : Reads Hash) where
  -- GetBalance answers with the block that the identifier names and what the storage holds for the
  -- account at that block's height, or zero in the asked currency where it has no such account.
  pub get_balance-Held :
      (account : AccountIdentifier) (currency : Currency)
      (identifier : Option PartialBlockIdentifier) (amount : Amount) (block : BlockIdentifier)
      → get_balance reads account currency identifier ≡ ok (amount, block)
      → (response : BlockResponse) × (reads.get_block_lazy identifier ≡ ok response)
        × (response.block.block_identifier ≡ block)
        × Held currency (reads.get_balance account currency block.index) amount
  unfolding get_balance
  get_balance-Held account currency identifier amount block h =
      let (response, got, h1) = >>=-eq-ok (reads.get_block_lazy identifier) _ h in
      let (found, held, h2) =
        >>=-eq-ok
          (balance_or_zero currency
            (reads.get_balance account currency response.block.block_identifier.index))
          _ h1 in
      let same = ok-same h2 in
      (
        response,
        got,
        ap (λ x. x.1) same,
        rw (sym (ap (λ x. x.1) same), sym (ap (λ x. x.0) same))
            (balance_or_zero-Held currency
              (reads.get_balance account currency response.block.block_identifier.index) found
              held),
      )
