-- ===== src/Thought/Operations/Shape.antt =====
-- The shape of what `parseTxOperations` returns: the numbering of the operations, and how many.
use rosetta_thought.Prelude.{
  ℕ, suc, ◌+◌, ◌≡◌, List, [], ◌∷◌, ◌++◌, arith, if◌then◌else◌, length, length-append, Bool-cases,
  inl, inr,
}
use rosetta_thought.Prelude.Int.{pos}
use rosetta_thought.Outcome.{ok, or_err, >>=-eq-ok}
use rosetta_thought.Map.{Map, lookup}
use rosetta_thought.Text.{Text}
use rosetta_thought.Sdk.{Operation, AccountCoin, previous_tx_missing}
use rosetta_thought.Thought.Types.{Input, Output, Transaction, Client, Library}
use rosetta_thought.Thought.Coin.{coin_identifier}
use rosetta_thought.Thought.Operations.{
  is_coinbase_input, coinbase_tx_operation, parse_input_transaction_operation,
  parse_output_transaction_operation, parse_inputs, parse_outputs, parse_tx_operations,
}

-- The operations are numbered from `k`.
abbrev pub Numbered : ℕ → List Operation → Type 0
Numbered k [] = Unit
Numbered k (op ∷ ops) = (op.operation_identifier.index ≡ pos k) × Numbered (suc k) ops

Numbered-snoc :
    (k : ℕ) (ops : List Operation) (op : Operation)
    → Numbered k ops
    → op.operation_identifier.index ≡ pos (k + length ops)
    → Numbered k (ops ++ op ∷ [])
Numbered-snoc k [] op h e = ground arith
Numbered-snoc k (o ∷ ops) op h e = (h.0, Numbered-snoc (suc k) ops op h.1 (ground arith))

length-snoc : (ops : List Operation) (op : Operation) → length (ops ++ op ∷ []) ≡ suc (length ops)
length-snoc ops op = ground (arith, length-append ops (op ∷ []))

-- How many of the inputs the loop reaches: a coinbase input is the last.
abbrev pub reached : ℕ → ℕ → List Input → ℕ
reached t n [] = 0
reached t n (input ∷ inputs) =
    if is_coinbase_input input t n then 1 else suc (reached t (suc n) inputs)

module _ (lib : Library) (client : Client) where
  coinbase-index :
      (input : Input) (i n : ℕ) (op : Operation)
      → coinbase_tx_operation lib client input i n ≡ ok op
      → op.operation_identifier.index ≡ pos i
  unfolding coinbase_tx_operation
  coinbase-index input i n op h = ground arith

  input-index :
      (input : Input) (i n : ℕ) (c : AccountCoin) (op : Operation)
      → parse_input_transaction_operation lib client input i n c ≡ ok op
      → op.operation_identifier.index ≡ pos i
  unfolding parse_input_transaction_operation
  input-index input i n c op h = ground arith

  output-index :
      (output : Output) (hash : Text) (i n : ℕ) (op : Operation)
      → parse_output_transaction_operation lib client output hash i n ≡ ok op
      → op.operation_identifier.index ≡ pos i
  unfolding parse_output_transaction_operation
  output-index output hash i n op h = ground arith

  snoc :
      (ops : List Operation) (op : Operation)
      → Numbered 0 ops
      → op.operation_identifier.index ≡ pos (length ops)
      → Numbered 0 (ops ++ op ∷ [])
  snoc ops op h e = Numbered-snoc 0 ops op h (ground arith)

  -- The operations of the inputs are numbered, and there is one for each input that is reached.
  inputs-Numbered :
      (t : ℕ) (coins : Map AccountCoin) (n : ℕ) (acc : List Operation) (inputs : List Input)
      (ops : List Operation)
      → Numbered 0 acc
      → parse_inputs lib client t coins n acc inputs ≡ ok ops
      → Numbered 0 ops × (length ops ≡ length acc + reached t n inputs)
  unfolding parse_inputs
  inputs-Numbered t coins n acc [] ops h e =
      let same : acc ≡ ops = cc in rw (← same) (h, omega arith)
  inputs-Numbered t coins n acc (input ∷ inputs) ops h e =
      elim (Bool-cases (is_coinbase_input input t n)) [
        | inl b ↦
            let (op, made, rest) =
              >>=-eq-ok (coinbase_tx_operation lib client input (length acc) n) _ (rw b at e) in
            let same : acc ++ op ∷ [] ≡ ops = cc in
            rw (← same, b)
              (
                snoc acc op h (coinbase-index input (length acc) n op made),
                omega (arith, length-snoc acc op),
              )
        | inr b ↦
            let (coin, known, next) =
              >>=-eq-ok
                (or_err previous_tx_missing
                  (lookup (coin_identifier input.tx_hash input.vout) coins))
                _ (rw b at e) in
            let (op, made, rest) =
              >>=-eq-ok (parse_input_transaction_operation lib client input (length acc) n coin) _
                next in
            let (numbered, count) =
              inputs-Numbered t coins (suc n) (acc ++ op ∷ []) inputs ops
                (snoc acc op h (input-index input (length acc) n coin op made)) rest in
            rw b (numbered, omega (arith, length-snoc acc op))
      ]

  outputs-Numbered :
      (hash : Text) (n : ℕ) (acc : List Operation) (outputs : List Output) (ops : List Operation)
      → Numbered 0 acc
      → parse_outputs lib client hash n acc outputs ≡ ok ops
      → Numbered 0 ops × (length ops ≡ length acc + length outputs)
  unfolding parse_outputs
  outputs-Numbered hash n acc [] ops h e = let same : acc ≡ ops = cc in rw (← same) (h, omega arith)
  outputs-Numbered hash n acc (output ∷ outputs) ops h e =
      let (op, made, rest) =
        >>=-eq-ok (parse_output_transaction_operation lib client output hash (length acc) n) _ e in
      let (numbered, count) =
        outputs-Numbered hash (suc n) (acc ++ op ∷ []) outputs ops
          (snoc acc op h (output-index output hash (length acc) n op made)) rest in
      (numbered, omega (arith, length-snoc acc op))

  -- The operations of a transaction are numbered from 0 without a gap, and there is one for each
  -- input up to a coinbase and one for each output.
  pub parse_tx_operations-Numbered :
      (tx : Transaction) (t : ℕ) (coins : Map AccountCoin) (ops : List Operation)
      → parse_tx_operations lib client tx t coins ≡ ok ops
      → Numbered 0 ops × (length ops ≡ reached t 0 tx.inputs + length tx.outputs)
  unfolding parse_tx_operations
  parse_tx_operations-Numbered tx t coins ops e =
      let (mid, first, rest) = >>=-eq-ok (parse_inputs lib client t coins 0 [] tx.inputs) _ e in
      let (h, count) = inputs-Numbered t coins 0 [] tx.inputs mid tt first in
      let (numbered, total) = outputs-Numbered tx.hash 0 mid tx.outputs ops h rest in
      (numbered, omega arith)
