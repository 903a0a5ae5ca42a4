-- ===== src/Indexer/Storage.antt =====
-- What the storages of rosetta-sdk-go call: indexer/balance_storage_helper.go,
-- indexer/balance_storage_handler.go and indexer/coin_storage_helper.go.
use rosetta_thought.Prelude.{Bool, false, List, []}
use rosetta_thought.Prelude.Int.{ℤ}
use rosetta_thought.Outcome.{Outcome, ok, err}
use rosetta_thought.Sdk
use rosetta_thought.Sdk.{
  Failure, not_implemented, AccountIdentifier, Amount, BlockIdentifier, Currency, Operation,
}
use rosetta_thought.Indexer.Queries.{zero_value}

-- The helper of the balance storage: an account that is not stored has nothing, and nothing is exempt.
unfoldable pub helper_account_balance :
    AccountIdentifier → Currency → BlockIdentifier → Outcome Failure Amount
helper_account_balance account currency block =
    ok (record { value = zero_value; currency = currency })

-- `BalanceExemption` is a type of rosetta-sdk-go.
abbrev pub balance_exemptions : (BalanceExemption : Type 0) → List BalanceExemption
balance_exemptions BalanceExemption = []

unfoldable pub exempt_func : Operation → Bool
exempt_func op = false

abbrev pub helper_accounts_reconciled : Outcome Failure ℤ
helper_accounts_reconciled = err not_implemented

abbrev pub helper_accounts_seen : Outcome Failure ℤ
helper_accounts_seen = err not_implemented

-- The handler, for a type of balance changes.
unfoldable pub handler_block_added :
    {BalanceChange : Type 0} → Sdk.Block → List BalanceChange → Outcome Failure (Unit {0})
handler_block_added block changes = ok tt

unfoldable pub handler_block_removed :
    {BalanceChange : Type 0} → Sdk.Block → List BalanceChange → Outcome Failure (Unit {0})
handler_block_removed block changes = ok tt

unfoldable pub handler_accounts_reconciled : ℤ → Outcome Failure (Unit {0})
handler_accounts_reconciled n = ok tt

unfoldable pub handler_accounts_seen : ℤ → Outcome Failure (Unit {0})
handler_accounts_seen n = ok tt

-- The helper of the coin storage: `head` is the head block of the block storage in a transaction.
unfoldable pub current_block_identifier :
    {DbTransaction : Type 0}
    → (DbTransaction → Outcome Failure BlockIdentifier)
    → DbTransaction
    → Outcome Failure BlockIdentifier
current_block_identifier head transaction = head transaction
