-- ===== src/Services/Data/Answers.antt =====
-- What the endpoints of the Data API answer.
use rosetta_thought.Prelude.{
  ◌≡◌, refl, ◌⊎◌, ◌≤◌, ◌<◌, inl, inr, Option, none, List, [], ◌∷◌, length, ltb, Bool-cases, arith,
}
use mathlib.Core.Path.{subst}
use rosetta_thought.Outcome.{Outcome, ok, err, panic, ◌>>=◌, >>=-eq-ok, traverse}
use rosetta_thought.Sdk.{
  Failure, PartialBlockIdentifier, BlockIdentifier, BlockResponse, Transaction,
  TransactionIdentifier, AccountIdentifier,
}
use rosetta_thought.Configuration.{Configuration, Mode, online, offline}
use rosetta_thought.Services.Errors.{Error, ErrorName, wrap_err}
use rosetta_thought.Services.Interfaces.{Client, Indexer, inline_fetch_limit, or_wrap, when_online}
use rosetta_thought.Services.Data.{
  account_balance, account_coins, fetch_transactions, block, block_transaction, mempool,
  mempool_transaction, network_status,
}

abbrev pub Refuses {ℓ} : {A : Type ℓ} → Outcome Error A → Type ℓ
Refuses o = o ≡ err (wrap_err ErrorName.unavailable_offline none)

-- Offline, each of the endpoints that needs thoughtd or the indexer refuses as unavailable,
-- whatever the two would have answered.
offline-Refuses :
    (config : Configuration) (i : Indexer) (client : Client)
    → config.mode ≡ offline
    → ((account : AccountIdentifier) (at : Option PartialBlockIdentifier)
        → Refuses (account_balance config i account at))
      × ((account : AccountIdentifier) → Refuses (account_coins config i account))
      × ((at : Option PartialBlockIdentifier) → Refuses (block config i at))
      × ((at : BlockIdentifier) (tx : TransactionIdentifier)
          → Refuses (block_transaction config i at tx))
      × Refuses (mempool config client)
      × ((tx : TransactionIdentifier) → Refuses (mempool_transaction config client tx))
      × Refuses (network_status config client i)
unfolding account_balance account_coins block block_transaction mempool mempool_transaction
    network_status
offline-Refuses config i client h = (
  λ account at. ground (arith, h),
  λ account. ground (arith, h),
  λ at. ground (arith, h),
  λ at tx. ground (arith, h),
  ground (arith, h),
  λ tx. ground (arith, h),
  ground (arith, h),
)

-- The transactions that the indexer has for the identifiers, one by one and in their order.
pub data Fetched (i : Indexer) (at : BlockIdentifier)
    : List TransactionIdentifier → List Transaction → Type 0 where
  nothing : Fetched i at [] []
  next :
      (other : TransactionIdentifier) (tx : Transaction) {others : List TransactionIdentifier}
      {txs : List Transaction}
      → i.get_block_transaction at other ≡ ok tx
      → Fetched i at others txs
      → Fetched i at (other ∷ others) (tx ∷ txs)

pub or_wrap-eq-ok :
    {A : Type 0} (name : ErrorName) (o : Outcome Failure A) (a : A)
    → or_wrap name o ≡ ok a
    → o ≡ ok a
or_wrap-eq-ok name (ok b) a h = cc
or_wrap-eq-ok name (err e) a h = absurd (cc)
or_wrap-eq-ok name panic a h = absurd (cc)

pub when_online-eq-ok :
    {A : Type 0} (mode : Mode) (o : Outcome Error A) (a : A) → when_online mode o ≡ ok a → o ≡ ok a
when_online-eq-ok online o a h = h
when_online-eq-ok offline o a h = absurd (cc)

pub when_online_mode :
    {A : Type 0} (mode : Mode) (o : Outcome Error A) (a : A)
    → when_online mode o ≡ ok a
    → mode ≡ online
when_online_mode online o a h = refl
when_online_mode offline o a h = absurd (cc)

module _ (config : Configuration) (i : Indexer) where
  fetch_transactions-Fetched :
      (at : BlockIdentifier) (others : List TransactionIdentifier) (txs : List Transaction)
      → fetch_transactions config i at others ≡ ok txs
      → Fetched i at others txs
  unfolding fetch_transactions traverse
  fetch_transactions-Fetched at [] [] h = nothing
  fetch_transactions-Fetched at [] (tx ∷ txs) h = absurd (cc)
  fetch_transactions-Fetched at (other ∷ others) txs h =
      let (tx, got, rest) =
        >>=-eq-ok (or_wrap ErrorName.transaction_not_found (i.get_block_transaction at other)) _
          h in
      let (txs', got', last) = >>=-eq-ok (fetch_transactions config i at others) _ rest in
      let same : tx ∷ txs' ≡ txs = cc in
      subst (λ ts. Fetched i at (other ∷ others) ts) same
        (next other tx (or_wrap-eq-ok ErrorName.transaction_not_found _ tx got)
          (fetch_transactions-Fetched at others txs' got'))

  abbrev pub Complete : BlockResponse → BlockResponse → Type 0
  Complete lazy answer =
      ((inline_fetch_limit < length lazy.other_transactions) × (answer ≡ lazy))
      ⊎ ((length lazy.other_transactions ≤ inline_fetch_limit)
          × (answer.block.block_identifier ≡ lazy.block.block_identifier)
          × (answer.block.parent_block_identifier ≡ lazy.block.parent_block_identifier)
          × (answer.block.timestamp ≡ lazy.block.timestamp)
          × (answer.other_transactions ≡ [])
          × Fetched i lazy.block.block_identifier lazy.other_transactions answer.block.transactions)

  inlined :
      (lazy answer : BlockResponse)
      → length lazy.other_transactions ≤ inline_fetch_limit
      → (◌>>=◌ {B = BlockResponse}
          (fetch_transactions config i lazy.block.block_identifier lazy.other_transactions)
          (λ txs.
            ok (record {
              block = record lazy.block { transactions = txs };
              other_transactions = [];
            })))
        ≡ ok answer
      → Complete lazy answer
  inlined lazy answer few h =
      let (txs, got, last) =
        >>=-eq-ok (fetch_transactions config i _ lazy.other_transactions) _ h in
      let same : txs ≡ answer.block.transactions = ground arith in
      let fetched = fetch_transactions-Fetched _ lazy.other_transactions txs got in
      inr (
        few,
        ground arith,
        ground arith,
        ground arith,
        ground arith,
        subst (λ ts. Fetched i lazy.block.block_identifier lazy.other_transactions ts) same fetched,
      )

  -- A block that /block answers with comes from one lazy answer of the indexer: above a hundred
  -- other transactions it is that answer itself; up to a hundred, it has the same block identifier,
  -- parent and timestamp, no other transactions are left, and its transactions are those that the
  -- indexer has for them, in order.
  pub block-Fetched :
      (at : Option PartialBlockIdentifier) (answer : BlockResponse)
      → block config i at ≡ ok answer
      → (lazy : BlockResponse) × (i.get_block_lazy at ≡ ok lazy) × Complete lazy answer
  unfolding block
  block-Fetched at answer h =
      let online = when_online-eq-ok config.mode _ answer h in
      let (lazy, got, rest) =
        >>=-eq-ok (or_wrap ErrorName.block_not_found (i.get_block_lazy at)) _ online in
      (
        lazy,
        or_wrap-eq-ok ErrorName.block_not_found _ lazy got,
        elim (Bool-cases (ltb inline_fetch_limit (length lazy.other_transactions))) [
          | inl many ↦ inl (ground (arith, many), ground (arith, many))
          | inr few ↦ inlined lazy answer (ground (arith, few)) (rw few at rest)
        ],
      )
