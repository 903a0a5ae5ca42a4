-- ===== src/Services/Wiring/Block.antt =====
-- /block and /block/transaction (services/block_service.go) over the indexer, for a stored block.
use rosetta_thought.Prelude.{
  ◌≡◌, refl, ◌∙◌, ◌⊎◌, inl, inr, ◌<◌, ◌≤◌, Bool-cases, List, [], ◌∷◌, Option, All, map, length,
  length-map, ltb, arith,
}
use rosetta_thought.Outcome.{ok, traverse}
use rosetta_thought.Sdk
use rosetta_thought.Sdk.{
  BlockResponse, PartialBlockIdentifier, Transaction, TransactionIdentifier, BlockIdentifier,
}
use rosetta_thought.Configuration.{Configuration, online}
use rosetta_thought.Services.Interfaces.{inline_fetch_limit, when_online-same}
use rosetta_thought.Services.Data.{block, block_transaction, fetch_transactions}
use rosetta_thought.Indexer.Queries
use rosetta_thought.Indexer.Queries.{Reads}
use rosetta_thought.Services.Wiring.{indexer_of}

abbrev pub lazy_form : Sdk.Block → BlockResponse
lazy_form b = record {
  block = record b { transactions = [] };
  other_transactions = map (λ tx. tx.transaction_identifier) b.transactions;
}

module _ {Hash : Type 0} (config : Configuration) (reads : Reads Hash) where
  abbrev HasAll : BlockIdentifier → List Transaction → Type 0
  HasAll at = All (λ tx. reads.get_block_transaction at tx.transaction_identifier ≡ ok tx)

  -- The storage has the block: lazily under the request, and each of its transactions.
  pub record IsStored (at : Option PartialBlockIdentifier) (b : Sdk.Block) : Type 0 where
    pub lazy : reads.get_block_lazy at ≡ ok (lazy_form b)
    pub each :
        All
          (λ tx. reads.get_block_transaction b.block_identifier tx.transaction_identifier ≡ ok tx)
          b.transactions

  fetch-all :
      (at : BlockIdentifier) (txs : List Transaction)
      → HasAll at txs
      → fetch_transactions config (indexer_of reads) at (map (λ tx. tx.transaction_identifier) txs)
        ≡ ok txs
  unfolding fetch_transactions traverse Queries.get_block_transaction
  fetch-all at [] has = refl
  fetch-all at (tx ∷ txs) (first, rest) = rw first (rw (fetch-all at txs rest) refl)

  transactions_served :
      (at : BlockIdentifier) (txs : List Transaction)
      → config.mode ≡ online
      → HasAll at txs
      → All
          (λ tx. block_transaction config (indexer_of reads) at tx.transaction_identifier ≡ ok tx)
          txs
  unfolding block_transaction Queries.get_block_transaction
  transactions_served at [] is_online has = tt
  transactions_served at (tx ∷ txs) is_online (first, rest) =
      (rw is_online (rw first refl), transactions_served at txs is_online rest)

  -- Online, of a block that the storage has, with each of its transactions: /block answers with the
  -- whole block if it has up to a hundred transactions; if it has more, /block answers with the block
  -- without them and their identifiers, and /block/transaction answers with each for its identifier.
  pub block_served :
      (at : Option PartialBlockIdentifier) (b : Sdk.Block)
      → config.mode ≡ online
      → IsStored at b
      → ((length b.transactions ≤ 100)
          × (block config (indexer_of reads) at
              ≡ ok (record { block = b; other_transactions = [] })))
        ⊎ ((100 < length b.transactions)
            × (block config (indexer_of reads) at ≡ ok (lazy_form b))
            × All
                (λ tx.
                  block_transaction config
                    (indexer_of reads)
                    b.block_identifier
                    tx.transaction_identifier
                  ≡ ok tx)
                b.transactions)
  unfolding block Queries.get_block_lazy
  block_served at b is_online stored =
      elim (Bool-cases (ltb inline_fetch_limit (length b.transactions))) [
        | inl many ↦ inr (
          ground (arith, many),
          when_online-same config.mode _ is_online ∙ rw stored.lazy (rw length-map (rw many refl)),
          transactions_served b.block_identifier b.transactions is_online stored.each,
        )
        | inr few ↦ inl (
          ground (arith, few),
          when_online-same config.mode _ is_online
              ∙ rw stored.lazy (
                  rw length-map
                    (rw few (rw (fetch-all b.block_identifier b.transactions stored.each) refl))),
        )
      ]
