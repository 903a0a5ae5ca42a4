-- ===== src/Thought/Transactions/Spends.antt =====
-- What the operations of a parsed block take from the coins that they spend.
use rosetta_thought.Prelude.{
  ℕ, suc, ◌≡◌, sym, ap, ◌∙◌, some, none, List, [], ◌∷◌, ◌++◌, arith, length, Bool-cases, inl, inr,
  All,
}
use rosetta_thought.Outcome.{
  ok, or_err, deref, >>=-eq-ok, deref-eq-ok, or_err-eq-ok, ok-same, if-eq-ok,
}
use rosetta_thought.Map.{Map, lookup}
use rosetta_thought.Text.{Text, text_eq}
use rosetta_thought.Sdk
use rosetta_thought.Sdk.{
  Operation, AccountCoin, Amount, CoinChange, coin_created, coin_spent, foreign,
  previous_tx_missing,
}
use rosetta_thought.Thought.Types.{
  Input, Output, Transaction, Block, Client, Library, input_metadata, output_metadata, null_data,
  transaction_metadata,
}
use rosetta_thought.Thought.Coin.{coin_identifier}
use rosetta_thought.Thought.Created.{add_coins}
use rosetta_thought.Thought.BlockData.{parse_block_data}
use rosetta_thought.Thought.Operations.{
  is_coinbase_input, coinbase_tx_operation, parse_input_transaction_operation,
  parse_output_transaction_operation, parse_amount, output_coin_change, parse_inputs, parse_outputs,
  parse_tx_operations,
}
use rosetta_thought.Thought.Transactions.{
  parse_transaction, parse_transactions, parse_block, skip_transaction_operations,
}

module _ (lib : Library) (client : Client) where
  -- The coin is of the operation's account, and the operation's amount is its amount negated.
  pub record Debits (op : Operation) (coin : AccountCoin) : Type 0 where
    pub account : op.account ≡ coin.account
    pub amount : Amount
    pub has_amount : coin.coin.amount ≡ some amount
    pub negated : Text
    pub negates : lib.negate_value amount.value ≡ some negated
    pub takes : op.amount ≡ some (record { value = negated; currency = client.currency })

  -- If the operation spends a coin, then it is one of these, and is debited.
  abbrev pub Spends : Map AccountCoin → Operation → Type 0
  Spends coins op =
      (change : CoinChange)
      → op.coin_change ≡ some change
      → change.coin_action ≡ coin_spent
      → (coin : AccountCoin) × (lookup change.coin_identifier.identifier coins ≡ some coin)
        × Debits op coin

  -- Each transaction spends coins of the map, or of the transactions before it.
  abbrev pub Replays : Map AccountCoin → List Sdk.Transaction → Type 0
  Replays coins [] = Unit
  Replays coins (tx ∷ txs) =
      All (Spends coins) tx.operations × Replays (add_coins tx.operations coins) txs

  All-snoc :
      (coins : Map AccountCoin) (ops : List Operation) (op : Operation)
      → All (Spends coins) ops
      → Spends coins op
      → All (Spends coins) (ops ++ op ∷ [])
  All-snoc coins [] op h p = (p, tt)
  All-snoc coins (o ∷ ops) op h p = (h.0, All-snoc coins ops op h.1 p)

  coinbase-Spends :
      (coins : Map AccountCoin) (input : Input) (i n : ℕ) (op : Operation)
      → coinbase_tx_operation lib client input i n ≡ ok op
      → Spends coins op
  unfolding coinbase_tx_operation
  coinbase-Spends coins input i n op h =
      let (metadata, a, h₁) =
        >>=-eq-ok (or_err (foreign 2) (lib.marshal_operation (input_metadata input))) _ h in
      let nothing : op.coin_change ≡ none = ground arith in λ change has spent. absurd (cc)

  input-Spends :
      (coins : Map AccountCoin) (input : Input) (i n : ℕ) (coin : AccountCoin) (op : Operation)
      → lookup (coin_identifier input.tx_hash input.vout) coins ≡ some coin
      → parse_input_transaction_operation lib client input i n coin ≡ ok op
      → Spends coins op
  unfolding parse_input_transaction_operation
  input-Spends coins input i n coin op found h =
      let (metadata, a, h₁) =
        >>=-eq-ok (or_err (foreign 2) (lib.marshal_operation (input_metadata input))) _ h in
      let (amount, b, h₂) = >>=-eq-ok (deref coin.coin.amount) _ h₁ in
      let (value, c, h₃) = >>=-eq-ok (or_err (foreign 4) (lib.negate_value amount.value)) _ h₂ in
      let same = ok-same h₃ in
      λ change has spent.
        let e : record {
          coin_identifier = record { identifier = coin_identifier input.tx_hash input.vout };
          coin_action = coin_spent;
        }
            ≡ change =
          (let e' = ap (λ o. o.coin_change) same ∙ has in cc) in
        (
          coin,
          ap (λ c. lookup c.coin_identifier.identifier coins) (sym e) ∙ found,
          record {
            account = ap (λ o. o.account) (sym same);
            amount = amount;
            has_amount = deref-eq-ok coin.coin.amount amount b;
            negated = value;
            negates = or_err-eq-ok (foreign 4) (lib.negate_value amount.value) value c;
            takes = ap (λ o. o.amount) (sym same);
          },
        )

  output-Spends :
      (coins : Map AccountCoin) (output : Output) (hash : Text) (i n : ℕ) (op : Operation)
      → parse_output_transaction_operation lib client output hash i n ≡ ok op
      → Spends coins op
  unfolding parse_output_transaction_operation output_coin_change
  output-Spends coins output hash i n op h =
      let (amount, a, h₁) = >>=-eq-ok (parse_amount lib output.value) _ h in
      let (metadata, b, h₂) =
        >>=-eq-ok (or_err (foreign 2) (lib.marshal_operation (output_metadata output))) _ h₁ in
      let (script, c, h₃) = >>=-eq-ok (deref output.script_pub_key) _ h₂ in
      let same = ok-same h₃ in
      λ change has spent.
        let e : output_coin_change script hash n ≡ some change =
          ap (λ o. o.coin_change) same ∙ has in
        absurd (elim (Bool-cases (text_eq script.type null_data)) [
          | inl burnt ↦ ground (arith, e, burnt)
          | inr spendable ↦ ground (arith, e, spendable, spent)
        ])

  inputs-Spends :
      (t n : ℕ) (coins : Map AccountCoin) (acc : List Operation) (inputs : List Input)
      (ops : List Operation)
      → parse_inputs lib client t coins n acc inputs ≡ ok ops
      → All (Spends coins) acc
      → All (Spends coins) ops
  unfolding parse_inputs
  inputs-Spends t n coins acc [] ops h so_far = rw (← ok-same h) so_far
  inputs-Spends t n coins acc (input ∷ inputs) ops h so_far =
      elim (if-eq-ok (is_coinbase_input input t n) _ _ h) [
        | inl (_, first) ↦
            let (op, made, rest) =
              >>=-eq-ok (coinbase_tx_operation lib client input (length acc) n) _ first in
            rw (← ok-same rest)
              (All-snoc coins acc op so_far (coinbase-Spends coins input (length acc) n op made))
        | inr (_, other) ↦
            let (coin, found, h₁) =
              >>=-eq-ok
                (or_err previous_tx_missing
                  (lookup (coin_identifier input.tx_hash input.vout) coins))
                _ other in
            let (op, made, h₂) =
              >>=-eq-ok (parse_input_transaction_operation lib client input (length acc) n coin) _
                h₁ in
            inputs-Spends t (suc n) coins (acc ++ op ∷ []) inputs ops h₂ (
              All-snoc coins acc op so_far (
                input-Spends coins input (length acc) n coin op
                  (or_err-eq-ok previous_tx_missing
                    (lookup (coin_identifier input.tx_hash input.vout) coins) coin found)
                  made))
      ]

  outputs-Spends :
      (hash : Text) (n : ℕ) (coins : Map AccountCoin) (acc : List Operation) (outputs : List Output)
      (ops : List Operation)
      → parse_outputs lib client hash n acc outputs ≡ ok ops
      → All (Spends coins) acc
      → All (Spends coins) ops
  unfolding parse_outputs
  outputs-Spends hash n coins acc [] ops h so_far = rw (← ok-same h) so_far
  outputs-Spends hash n coins acc (output ∷ outputs) ops h so_far =
      let (op, made, rest) =
        >>=-eq-ok (parse_output_transaction_operation lib client output hash (length acc) n) _ h in
      outputs-Spends hash (suc n) coins (acc ++ op ∷ []) outputs ops rest
        (All-snoc coins acc op so_far (output-Spends coins output hash (length acc) n op made))

  transaction-Spends :
      (block : Block) (t : ℕ) (coins : Map AccountCoin) (tx : Transaction)
      (parsed : Sdk.Transaction)
      → parse_transaction lib client block t coins tx ≡ ok parsed
      → All (Spends coins) parsed.operations
  unfolding parse_transaction parse_tx_operations skip_transaction_operations
  transaction-Spends block t coins tx parsed h =
      let (ops, made, h₁) = >>=-eq-ok (parse_tx_operations lib client tx t coins) _ h in
      let (mid, first, last) = >>=-eq-ok (parse_inputs lib client t coins 0 [] tx.inputs) _ made in
      let (metadata, m, h₂) =
        >>=-eq-ok (or_err (foreign 2) (lib.marshal_transaction (transaction_metadata tx))) _ h₁ in
      rw (← ap (λ x. x.operations) (ok-same h₂)) (
        outputs-Spends tx.hash 0 coins mid tx.outputs ops last
          (inputs-Spends t 0 coins [] tx.inputs mid first tt))

  transactions-Replays :
      (block : Block) (t : ℕ) (coins : Map AccountCoin) (txs : List Transaction)
      (parsed : List Sdk.Transaction)
      → parse_transactions lib client block t coins txs ≡ ok parsed
      → Replays coins parsed
  unfolding parse_transactions
  transactions-Replays block t coins [] parsed h = rw (← ok-same h) tt
  transactions-Replays block t coins (tx ∷ txs) parsed h =
      let (first, made, h₁) = >>=-eq-ok (parse_transaction lib client block t coins tx) _ h in
      let (rest, more, h₂) =
        >>=-eq-ok
          (parse_transactions lib client block (suc t) (add_coins first.operations coins) txs) _
          h₁ in
      rw (← ok-same h₂) (
        transaction-Spends block t coins tx first made,
        transactions-Replays block (suc t) (add_coins first.operations coins) txs rest more,
      )

  -- In a parsed block, an operation that spends a coin spends one of the given coins or one that an
  -- earlier transaction of the block creates: it is of the account that the coin is of, and its amount
  -- is the coin's, negated, in the client's currency.
  pub parse_block-Replays :
      (block : Block) (coins : Map AccountCoin) (parsed : Sdk.Block)
      → parse_block lib client (some block) coins ≡ ok parsed
      → Replays coins parsed.transactions
  unfolding parse_block
  parse_block-Replays block coins parsed h =
      let (rblock, described, h₁) = >>=-eq-ok (parse_block_data lib (some block)) _ h in
      let (txs, made, h₂) =
        >>=-eq-ok (parse_transactions lib client block 0 coins block.txs) _ h₁ in
      rw (← ap (λ b. b.transactions) (ok-same h₂))
        (transactions-Replays block 0 coins block.txs txs made)
