-- ===== src/Services/Wiring/Balance.antt =====
-- /account/balance (services/account_service.go) over the indexer.
use rosetta_thought.Prelude.{◌≡◌, ◌∙◌, sym, ap, Option, [], ◌∷◌}
use rosetta_thought.Outcome.{ok, >>=-eq-ok, ok-same}
use rosetta_thought.Sdk.{AccountIdentifier, Amount, BlockResponse, PartialBlockIdentifier}
use rosetta_thought.Configuration.{Configuration, online}
use rosetta_thought.Services.Errors.{unable_to_get_balance}
use rosetta_thought.Services.Interfaces.{or_wrap}
use rosetta_thought.Services.Data.{AccountBalanceResponse, account_balance}
use rosetta_thought.Services.Data.Answers.{or_wrap-eq-ok, when_online-eq-ok, when_online_mode}
use rosetta_thought.Indexer.Queries.{Reads, get_balance}
use rosetta_thought.Indexer.Queries.Balance.{Held, get_balance-Held}
use rosetta_thought.Services.Wiring.{indexer_of}

module _ {Hash : Type 0} (config : Configuration) (reads : Reads Hash) where
  -- /account/balance answers only online, and over the indexer it answers with the block that the
  -- storage has for the request, and with one balance: what the storage holds for the account at that
  -- block's height in the configured currency, or zero where it has no such account.
  pub account_balance-Held :
      (account : AccountIdentifier) (at : Option PartialBlockIdentifier)
      (answer : AccountBalanceResponse)
      → account_balance config (indexer_of reads) account at ≡ ok answer
      → (response : BlockResponse) × (amount : Amount) × (config.mode ≡ online)
        × (reads.get_block_lazy at ≡ ok response)
        × (answer.block_identifier ≡ response.block.block_identifier)
        × (answer.balances ≡ amount ∷ [])
        × Held config.currency
            (reads.get_balance account config.currency response.block.block_identifier.index)
            amount
  unfolding account_balance
  account_balance-Held account at answer h =
      let running = when_online-eq-ok config.mode _ answer h in
      let ((amount, block), got, last) =
        >>=-eq-ok (or_wrap unable_to_get_balance (get_balance reads account config.currency at)) _
          running in
      let (response, read, named, held) =
        get_balance-Held reads account config.currency at amount block
          (or_wrap-eq-ok unable_to_get_balance _ (amount, block) got) in
      let same = ok-same last in
      (
        response,
        amount,
        when_online_mode config.mode _ answer h,
        read,
        ap (λ x. x.block_identifier) (sym same) ∙ sym named,
        ap (λ x. x.balances) (sym same),
        rw named held,
      )
