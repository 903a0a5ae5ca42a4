-- ===== src/Thought/Transactions/Complete.antt =====
-- What `ParseBlock` makes of the coins that `GetRawBlock` names.
use rosetta_thought.Prelude.{
  ℕ, suc, ◌≡◌, ◌≢◌, true, false, none, some, List, [], ◌∷◌, ◌++◌, arith, length, Bool-cases,
  Option-cases, inl, inr,
}
use rosetta_thought.Outcome.{ok, err, >>=-ne-err}
use rosetta_thought.Map.{Map, lookup}
use rosetta_thought.Text.{Text, text_eq, text_eq_iff}
use rosetta_thought.Sdk.{Operation, AccountCoin, previous_tx_missing}
use rosetta_thought.Thought.Types.{Input, Output, Transaction, Block, Client, Library}
use rosetta_thought.Thought.Coin.{coin_identifier}
use rosetta_thought.Thought.Created.{add_coins}
use rosetta_thought.Thought.RawBlock.{get_raw_block, contains_string, input_coins, block_coins}
use rosetta_thought.Thought.BlockData.{parse_block_data}
use rosetta_thought.Thought.Operations.{
  is_coinbase_input, input_tx_hash, coinbase_tx_operation, parse_input_transaction_operation,
  parse_output_transaction_operation, parse_amount, parse_inputs, parse_outputs,
  parse_tx_operations,
}
use rosetta_thought.Thought.Transactions.{parse_transaction, parse_transactions, parse_block}
use rosetta_thought.Thought.Transactions.Creates.{
  created_ids, Known, Known-append, Known-left, Known-right, Known-add_coins, transaction-creates,
}

-- Every input that names a transaction of `hashes` spends a coin of `created`.
abbrev pub InputsSettled : ℕ → List Text → List Text → ℕ → List Input → Type 0
InputsSettled t hashes created n [] = Unit
InputsSettled t hashes created n (input ∷ inputs) =
    (is_coinbase_input input t n ≡ false
      → contains_string hashes input.tx_hash ≡ true
      → contains_string created (coin_identifier input.tx_hash input.vout) ≡ true)
    × InputsSettled t hashes created (suc n) inputs

-- A spend inside the block is of a coin that an earlier transaction of the block creates.
abbrev pub Settled : ℕ → List Text → List Text → List Transaction → Type 0
Settled t hashes created [] = Unit
Settled t hashes created (tx ∷ txs) =
    InputsSettled t (hashes ++ tx.hash ∷ []) created 0 tx.inputs
    × Settled (suc t) (hashes ++ tx.hash ∷ []) (created ++ created_ids tx.hash 0 tx.outputs) txs

contains-Known :
    (coins : Map AccountCoin) (xs : List Text) (k : Text)
    → Known coins xs
    → contains_string xs k ≡ true
    → lookup k coins ≢ none
unfolding contains_string
contains-Known coins [] k h c = cc
contains-Known coins (x ∷ xs) k h c = elim (Bool-cases (text_eq x k)) [
  | inl same ↦ rw (← ((text_eq_iff x k).0 same)) h.0
  | inr other ↦ contains-Known coins xs k h.1 (ground arith)
]

module _ (lib : Library) (client : Client) where
  block_data-ne : (block : Block) → parse_block_data lib (some block) ≢ err previous_tx_missing
  unfolding parse_block_data
  block_data-ne block h = ground arith

  coinbase-ne :
      (input : Input) (i n : ℕ)
      → coinbase_tx_operation lib client input i n ≢ err previous_tx_missing
  unfolding coinbase_tx_operation
  coinbase-ne input i n h = ground arith

  input-ne :
      (input : Input) (i n : ℕ) (c : AccountCoin)
      → parse_input_transaction_operation lib client input i n c ≢ err previous_tx_missing
  unfolding parse_input_transaction_operation
  input-ne input i n c h = ground arith

  output-ne :
      (output : Output) (hash : Text) (i n : ℕ)
      → parse_output_transaction_operation lib client output hash i n ≢ err previous_tx_missing
  unfolding parse_output_transaction_operation parse_amount
  output-ne output hash i n h = ground arith

  outputs-ne :
      (hash : Text) (n : ℕ) (acc : List Operation) (outputs : List Output)
      → parse_outputs lib client hash n acc outputs ≢ err previous_tx_missing
  unfolding parse_outputs
  outputs-ne hash n acc [] = λ h. cc
  outputs-ne hash n acc (output ∷ outputs) =
      >>=-ne-err (parse_output_transaction_operation lib client output hash (length acc) n) _
        previous_tx_missing (output-ne output hash (length acc) n)
        (λ op _. outputs-ne hash (suc n) (acc ++ op ∷ []) outputs)

  -- The loop over the inputs finds each coin, in the raw block's list or among those created so far.
  pub input-Known :
      (t : ℕ) (hashes created : List Text) (n : ℕ) (input : Input) (inputs : List Input)
      (coins : Map AccountCoin)
      → is_coinbase_input input t n ≡ false
      → Known coins (input_coins t hashes n (input ∷ inputs))
      → InputsSettled t hashes created n (input ∷ inputs)
      → Known coins created
      → lookup (coin_identifier input.tx_hash input.vout) coins ≢ none
  unfolding input_coins input_tx_hash
  input-Known t hashes created n input inputs coins b known settled earlier =
      elim (Bool-cases (contains_string hashes input.tx_hash)) [
        | inl inside ↦ contains-Known coins created _ earlier (settled.0 b inside)
        | inr outside ↦
            let k : Known coins
                (coin_identifier input.tx_hash input.vout ∷ input_coins t hashes (suc n) inputs) =
              rw (b, outside) at known in
            k.0
      ]

  pub input_coins-tail :
      (t : ℕ) (hashes : List Text) (n : ℕ) (input : Input) (inputs : List Input)
      (coins : Map AccountCoin)
      → Known coins (input_coins t hashes n (input ∷ inputs))
      → Known coins (input_coins t hashes (suc n) inputs)
  unfolding input_coins
  input_coins-tail t hashes n input inputs coins = Known-right coins _ _

  inputs-ne :
      (t : ℕ) (hashes created : List Text) (n : ℕ) (acc : List Operation) (inputs : List Input)
      (coins : Map AccountCoin)
      → Known coins (input_coins t hashes n inputs)
      → InputsSettled t hashes created n inputs
      → Known coins created
      → parse_inputs lib client t coins n acc inputs ≢ err previous_tx_missing
  unfolding parse_inputs
  inputs-ne t hashes created n acc [] coins known settled earlier = λ h. cc
  inputs-ne t hashes created n acc (input ∷ inputs) coins known settled earlier =
      elim (Bool-cases (is_coinbase_input input t n)) [
        | inl b ↦ rw b (
            >>=-ne-err (coinbase_tx_operation lib client input (length acc) n) _ previous_tx_missing
              (coinbase-ne input (length acc) n) (λ op _ h. cc))
        | inr b ↦
            rw b (elim (Option-cases (lookup (coin_identifier input.tx_hash input.vout) coins)) [
              | inl missing ↦ absurd (
                  input-Known t hashes created n input inputs coins b known settled earlier missing)
              | inr (coin, found) ↦ rw found (
                  >>=-ne-err
                    (parse_input_transaction_operation lib client input (length acc) n coin) _
                    previous_tx_missing (input-ne input (length acc) n coin)
                    (λ op _.
                      inputs-ne t hashes created (suc n) (acc ++ op ∷ []) inputs coins
                        (input_coins-tail t hashes n input inputs coins known) settled.1 earlier))
            ])
      ]

  tx-ne :
      (t : ℕ) (hashes created : List Text) (tx : Transaction) (coins : Map AccountCoin)
      → Known coins (input_coins t hashes 0 tx.inputs)
      → InputsSettled t hashes created 0 tx.inputs
      → Known coins created
      → parse_tx_operations lib client tx t coins ≢ err previous_tx_missing
  unfolding parse_tx_operations
  tx-ne t hashes created tx coins known settled earlier =
      >>=-ne-err (parse_inputs lib client t coins 0 [] tx.inputs) _ previous_tx_missing
        (inputs-ne t hashes created 0 [] tx.inputs coins known settled earlier)
        (λ ops _. outputs-ne tx.hash 0 ops tx.outputs)

  transaction-ne :
      (block : Block) (t : ℕ) (coins : Map AccountCoin) (tx : Transaction)
      → parse_tx_operations lib client tx t coins ≢ err previous_tx_missing
      → parse_transaction lib client block t coins tx ≢ err previous_tx_missing
  unfolding parse_transaction
  transaction-ne block t coins tx ne h = ground arith

  transactions-ne :
      (block : Block) (t : ℕ) (hashes created : List Text) (txs : List Transaction)
      (coins : Map AccountCoin)
      → Known coins (block_coins t hashes txs)
      → Settled t hashes created txs
      → Known coins created
      → parse_transactions lib client block t coins txs ≢ err previous_tx_missing
  unfolding parse_transactions block_coins
  transactions-ne block t hashes created [] coins known settled earlier = λ h. cc
  transactions-ne block t hashes created (tx ∷ txs) coins known settled earlier =
      let hashes' = hashes ++ tx.hash ∷ [] in
      let here = Known-left coins (input_coins t hashes' 0 tx.inputs) _ known in
      let later = Known-right coins (input_coins t hashes' 0 tx.inputs) _ known in
      >>=-ne-err (parse_transaction lib client block t coins tx) _ previous_tx_missing
        (transaction-ne block t coins tx (tx-ne t hashes' created tx coins here settled.0 earlier))
        (λ parsed made.
          >>=-ne-err
            (parse_transactions lib client block (suc t) (add_coins parsed.operations coins) txs) _
            previous_tx_missing
            (transactions-ne block (suc t) hashes' (created ++ created_ids tx.hash 0 tx.outputs) txs
              (add_coins parsed.operations coins) (Known-add_coins parsed.operations coins _ later)
              settled.1
              (Known-append _ created _ (Known-add_coins parsed.operations coins created earlier)
                (transaction-creates lib client block t coins tx parsed made)))
            (λ rest _ h. cc))

  -- Given the coins that `get_raw_block` names, in a block whose spends of its own transactions are
  -- of coins that earlier ones create, `parse_block` does not fail for want of a previous output.
  parse_block_complete :
      (block raw : Block) (names : List Text) (coins : Map AccountCoin)
      → get_raw_block (ok (some block)) ≡ ok (raw, names)
      → Known coins names
      → Settled 0 [] [] block.txs
      → (raw ≡ block) × (parse_block lib client (some raw) coins ≢ err previous_tx_missing)
  unfolding get_raw_block parse_block
  parse_block_complete block raw names coins got known settled =
      let same : raw ≡ block = cc in
      let listed : block_coins 0 [] block.txs ≡ names = cc in
      (
        same,
        rw same (
            >>=-ne-err (parse_block_data lib (some block)) _ previous_tx_missing
              (block_data-ne block)
              (λ rblock _.
                >>=-ne-err (parse_transactions lib client block 0 coins block.txs) _
                  previous_tx_missing
                  (transactions-ne block 0 [] [] block.txs coins (rw listed known) settled tt)
                  (λ txs _ h. cc))),
      )
