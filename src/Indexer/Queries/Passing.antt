-- ===== src/Indexer/Queries/Passing.antt =====
-- Which operations of a parsed transaction the search of GetScriptPubKeys goes past.
use rosetta_thought.Prelude.{
  ℕ, suc, ◌≡◌, ◌≢◌, refl, sym, ap, ◌∙◌, some, List, [], ◌∷◌, ◌++◌, false, Bool-cases, inl, inr, ◌⊎◌,
  arith, All, length, append_assoc, append-nil,
}
use rosetta_thought.Prelude.Int.{ℤ, pos, eqb_ℤ}
use rosetta_thought.Outcome.{ok, deref, or_err, >>=-eq-ok, ok-same, or_err-eq-ok}
use rosetta_thought.Map.{Map, lookup}
use rosetta_thought.Text.{Text, text_eq}
use rosetta_thought.Text.Decimal.{format_int}
use rosetta_thought.Sdk.{foreign, previous_tx_missing, Operation, Coin, AccountCoin}
use rosetta_thought.Thought.Types.{
  output_op_type, input_op_type, coinbase_op_type, Input, Output, Client, Library, output_metadata,
}
use rosetta_thought.Thought.Coin.{coin_identifier}
use rosetta_thought.Thought.Operations.{
  is_coinbase_input, coinbase_tx_operation, parse_input_transaction_operation, parse_amount,
  parse_output_transaction_operation, parse_inputs, parse_outputs,
}
use rosetta_thought.Indexer.Queries.{Reads, script_of}

-- The search for the output `n` goes past the operation.
abbrev pub Passes : ℕ → Operation → Type 0
Passes n op =
    (text_eq op.type output_op_type ≡ false)
    ⊎ ((k : ℕ) × (op.operation_identifier.network_index ≡ some (pos k)) × (k ≢ n))

pub All-snoc :
    (P : Operation → Type 0) (ops : List Operation) (op : Operation)
    → All P ops
    → P op
    → All P (ops ++ op ∷ [])
All-snoc P [] op all p = (p, tt)
All-snoc P (o ∷ ops) op all p = (all.0, All-snoc P ops op all.1 p)

pub some_same : {A : Type 0} {a b : A} → some a ≡ some b → a ≡ b
some_same h = cc

pos_ne : (k n : ℕ) → k ≢ n → eqb_ℤ (pos k) (pos n) ≡ false
pos_ne k n h = ground arith

module _ {Hash : Type 0} (reads : Reads Hash) where
  pub script_of-append :
      (coin : Coin) (n : ℕ) (ops later : List Operation)
      → All (Passes n) ops
      → script_of reads coin n (ops ++ later) ≡ script_of reads coin n later
  unfolding script_of
  script_of-append coin n [] later pass = refl
  script_of-append coin n (op ∷ ops) later (inl other, pass) =
      rw other (script_of-append coin n ops later pass)
  script_of-append coin n (op ∷ ops) later (inr (k, place, elsewhere), pass) =
      elim (Bool-cases (text_eq op.type output_op_type)) [
        | inr other ↦ rw other (script_of-append coin n ops later pass)
        | inl output ↦
            rw (output, place) (rw (pos_ne k n elsewhere) (script_of-append coin n ops later pass))
      ]

module _ (lib : Library) (client : Client) where
  coinbase-type :
      (input : Input) (i m : ℕ) (op : Operation)
      → coinbase_tx_operation lib client input i m ≡ ok op
      → op.type ≡ coinbase_op_type
  unfolding coinbase_tx_operation
  coinbase-type input i m op h = ground arith

  input-type :
      (input : Input) (i m : ℕ) (c : AccountCoin) (op : Operation)
      → parse_input_transaction_operation lib client input i m c ≡ ok op
      → op.type ≡ input_op_type
  unfolding parse_input_transaction_operation
  input-type input i m c op h = ground arith

  coinbase-Passes :
      (input : Input) (i m n : ℕ) (op : Operation)
      → coinbase_tx_operation lib client input i m ≡ ok op
      → Passes n op
  coinbase-Passes input i m n op h =
      inl (rw (coinbase-type input i m op h) (unfold text_eq in refl))

  input-Passes :
      (input : Input) (i m n : ℕ) (c : AccountCoin) (op : Operation)
      → parse_input_transaction_operation lib client input i m c ≡ ok op
      → Passes n op
  input-Passes input i m n c op h = inl (rw (input-type input i m c op h) (unfold text_eq in refl))

  pub inputs-Passes :
      (t : ℕ) (coins : Map AccountCoin) (m n : ℕ) (acc : List Operation) (inputs : List Input)
      (ops : List Operation)
      → All (Passes n) acc
      → parse_inputs lib client t coins m acc inputs ≡ ok ops
      → All (Passes n) ops
  unfolding parse_inputs
  inputs-Passes t coins m n acc [] ops h e = let same : acc ≡ ops = cc in rw (← same) h
  inputs-Passes t coins m n acc (input ∷ inputs) ops h e =
      elim (Bool-cases (is_coinbase_input input t m)) [
        | inl b ↦
            let (op, made, rest) =
              >>=-eq-ok (coinbase_tx_operation lib client input (length acc) m) _ (rw b at e) in
            let same : acc ++ op ∷ [] ≡ ops = cc in
            rw (← same)
              (All-snoc (Passes n) acc op h (coinbase-Passes input (length acc) m n op made))
        | inr b ↦
            let (coin, known, next) =
              >>=-eq-ok
                (or_err previous_tx_missing
                  (lookup (coin_identifier input.tx_hash input.vout) coins))
                _ (rw b at e) in
            let (op, made, rest) =
              >>=-eq-ok (parse_input_transaction_operation lib client input (length acc) m coin) _
                next in
            inputs-Passes t coins (suc m) n (acc ++ op ∷ []) inputs ops
              (All-snoc (Passes n) acc op h (input-Passes input (length acc) m n coin op made)) rest
      ]

  -- What the output becomes.
  pub record Becomes (output : Output) (n : ℕ) (op : Operation) : Type 0 where
    pub type : op.type ≡ output_op_type
    pub place : op.operation_identifier.network_index ≡ some (pos n)
    pub value : ℤ
    pub parsed : parse_amount lib output.value ≡ ok value
    pub amount : op.amount ≡ some (record { value = format_int value; currency = client.currency })
    pub marshalled : lib.marshal_operation (output_metadata output) ≡ some op.metadata

  pub output-Becomes :
      (output : Output) (hash : Text) (i n : ℕ) (op : Operation)
      → parse_output_transaction_operation lib client output hash i n ≡ ok op
      → Becomes output n op
  unfolding parse_output_transaction_operation
  output-Becomes output hash i n op h =
      let (value, parsed, h1) = >>=-eq-ok (parse_amount lib output.value) _ h in
      let (metadata, marshalled, h2) =
        >>=-eq-ok (or_err (foreign 2) (lib.marshal_operation (output_metadata output))) _ h1 in
      let (script, given, h3) = >>=-eq-ok (deref output.script_pub_key) _ h2 in
      let same = ok-same h3 in
      record {
        type = ap (λ o. o.type) (sym same);
        place = ap (λ o. o.operation_identifier.network_index) (sym same);
        value = value;
        parsed = parsed;
        amount = ap (λ o. o.amount) (sym same);
        marshalled =
            or_err-eq-ok (foreign 2) (lib.marshal_operation (output_metadata output)) metadata
              marshalled
            ∙ ap (λ o. some o.metadata) same;
      }

  pub outputs-extend :
      (hash : Text) (m : ℕ) (acc : List Operation) (outputs : List Output) (ops : List Operation)
      → parse_outputs lib client hash m acc outputs ≡ ok ops
      → (rest : List Operation) × (ops ≡ acc ++ rest)
  unfolding parse_outputs
  outputs-extend hash m acc [] ops e =
      ([], let same : acc ≡ ops = cc in sym same ∙ sym (append-nil acc))
  outputs-extend hash m acc (output ∷ outputs) ops e =
      let (op, made, next) =
        >>=-eq-ok (parse_output_transaction_operation lib client output hash (length acc) m) _ e in
      let (rest, same) = outputs-extend hash (suc m) (acc ++ op ∷ []) outputs ops next in
      (op ∷ rest, same ∙ append_assoc acc (op ∷ []) rest)
