-- ===== src/Thought/Transactions/Total.antt =====
-- When `ParseBlock` succeeds.
use rosetta_thought.Prelude.{
  ℕ, suc, ◌≡◌, refl, false, some, List, [], ◌∷◌, ◌++◌, arith, length, Bool-cases, Option-cases, inl,
  inr, All, map,
}
use rosetta_thought.Prelude.Int.{ℤ, pos, ltb_ℤ}
use rosetta_thought.Outcome.{Outcome, ok}
use rosetta_thought.Map.{Map, lookup, insert, lookup-insert}
use rosetta_thought.Text.{Text, text_eq}
use rosetta_thought.Text.Decimal.{format_int}
use rosetta_thought.Sdk
use rosetta_thought.Sdk.{Failure, Operation, AccountCoin, Amount, Metadata, previous_tx_missing}
use rosetta_thought.Thought.Types.{
  ScriptPubKey, Input, Output, Transaction, Block, Client, Library, BlockMetadata,
  TransactionMetadata, OperationMetadata, null_data, input_metadata, output_metadata,
  transaction_metadata, block_metadata,
}
use rosetta_thought.Thought.Coin.{coin_identifier}
use rosetta_thought.Thought.Created.{created_coin, add_coin, add_coins}
use rosetta_thought.Thought.RawBlock.{get_raw_block, input_coins, block_coins}
use rosetta_thought.Thought.BlockData.{parse_block_data}
use rosetta_thought.Thought.Operations.{
  is_coinbase_input, coinbase_tx_operation, parse_input_transaction_operation,
  parse_output_transaction_operation, parse_amount, output_coin_change, parse_inputs, parse_outputs,
  parse_tx_operations,
}
use rosetta_thought.Thought.Transactions.{
  parse_transaction, parse_transactions, parse_block, skip_transaction_operations,
}
use rosetta_thought.Thought.Transactions.Creates.{
  created_ids, Known, Known-append, Known-left, Known-right, Known-add_coins, transaction-creates,
}
use rosetta_thought.Thought.Transactions.Complete.{
  InputsSettled, Settled, input-Known, input_coins-tail,
}

-- What `ParseBlock` relies on: JSON objects of the metadata can be made, and the decimal of an
-- integer can be negated.
pub record Works (lib : Library) : Type 0 where
  pub block : (b : BlockMetadata) → (m : Metadata) × (lib.marshal_block b ≡ some m)
  pub transaction :
      (t : TransactionMetadata) → (m : Metadata) × (lib.marshal_transaction t ≡ some m)
  pub operation : (o : OperationMetadata) → (m : Metadata) × (lib.marshal_operation o ≡ some m)
  pub negates : (a : ℤ) → (v : Text) × (lib.negate_value (format_int a) ≡ some v)

-- A coin has an amount that can be negated.
abbrev pub Spendable : Library → AccountCoin → Type 0
Spendable lib c =
    (amount : Amount) × (c.coin.amount ≡ some amount)
    × (v : Text) × (lib.negate_value amount.value ≡ some v)

-- An output has a script and an amount that is not negative.
abbrev pub Payable : Library → Output → Type 0
Payable lib output =
    (amount : ℤ) × (lib.new_amount output.value ≡ some amount)
    × (ltb_ℤ amount (pos 0) ≡ false)
    × (script : ScriptPubKey) × (output.script_pub_key ≡ some script)

abbrev pub AllSpendable : Library → Map AccountCoin → Type 0
AllSpendable lib coins = (k : Text) (c : AccountCoin) → lookup k coins ≡ some c → Spendable lib c

-- The coin that the operation creates, if any, is spendable.
abbrev Makes : Library → Operation → Type 0
Makes lib op = (k : Text) (c : AccountCoin) → created_coin op ≡ some (k, c) → Spendable lib c

abbrev Yields : {A : Type 0} → Outcome Failure A → (A → Type 0) → Type 0
Yields o P = (a : _) × (o ≡ ok a) × P a

module _ (lib : Library) (client : Client) (works : Works lib) where
  coinbase-total :
      (input : Input) (i n : ℕ) → Yields (coinbase_tx_operation lib client input i n) (Makes lib)
  unfolding coinbase_tx_operation created_coin
  coinbase-total input i n =
      let (m, made) = works.operation (input_metadata input) in rw made (_, refl, λ k c h. cc)

  input-total :
      (input : Input) (i n : ℕ) (c : AccountCoin)
      → Spendable lib c
      → Yields (parse_input_transaction_operation lib client input i n c) (Makes lib)
  unfolding parse_input_transaction_operation created_coin
  input-total input i n c (amount, has, v, negated) =
      let (m, made) = works.operation (input_metadata input) in
      rw (made, has, negated) (_, refl, λ k c h. cc)

  output-total :
      (output : Output) (hash : Text) (i n : ℕ)
      → Payable lib output
      → Yields (parse_output_transaction_operation lib client output hash i n) (Makes lib)
  unfolding parse_output_transaction_operation parse_amount created_coin output_coin_change
  output-total output hash i n (amount, is, positive, script, has) =
      let (m, made) = works.operation (output_metadata output) in
      let (v, negated) = works.negates amount in
      rw (is, positive, made, has)
        (
          _,
          refl,
          λ k c h. elim (Bool-cases (text_eq script.type null_data)) [
            | inl burnt ↦ absurd (ground (arith, h, burnt))
            | inr spendable ↦ (
              record { value = format_int amount; currency = client.currency },
              ground (arith, h, spendable),
              v,
              negated,
            )
          ],
        )

  All-snoc :
      (P : Operation → Type 0) (ops : List Operation) (op : Operation)
      → All P ops
      → P op
      → All P (ops ++ op ∷ [])
  All-snoc P [] op h p = (p, tt)
  All-snoc P (o ∷ ops) op h p = (h.0, All-snoc P ops op h.1 p)

  inputs-total :
      (t : ℕ) (hashes created : List Text) (n : ℕ) (acc : List Operation) (inputs : List Input)
      (coins : Map AccountCoin)
      → Known coins (input_coins t hashes n inputs)
      → InputsSettled t hashes created n inputs
      → Known coins created
      → AllSpendable lib coins
      → All (Makes lib) acc
      → Yields (parse_inputs lib client t coins n acc inputs) (All (Makes lib))
  unfolding parse_inputs
  inputs-total t hashes created n acc [] coins known settled earlier fine so_far =
      (acc, refl, so_far)
  inputs-total t hashes created n acc (input ∷ inputs) coins known settled earlier fine so_far =
      elim (Bool-cases (is_coinbase_input input t n)) [
        | inl b ↦
            let (op, made, good) = coinbase-total input (length acc) n in
            rw (b, made) (_, refl, All-snoc (Makes lib) acc op so_far good)
        | inr b ↦ elim (Option-cases (lookup (coin_identifier input.tx_hash input.vout) coins)) [
          | inl missing ↦ absurd (
              input-Known lib client t hashes created n input inputs coins b known settled earlier
                missing)
          | inr (coin, found) ↦
              let (op, made, good) = input-total input (length acc) n coin (fine _ coin found) in
              rw (b, found, made)
                (inputs-total t hashes created (suc n) (acc ++ op ∷ []) inputs coins
                  (input_coins-tail lib client t hashes n input inputs coins known) settled.1
                  earlier fine (All-snoc (Makes lib) acc op so_far good))
        ]
      ]

  outputs-total :
      (hash : Text) (n : ℕ) (acc : List Operation) (outputs : List Output)
      → All (Payable lib) outputs
      → All (Makes lib) acc
      → Yields (parse_outputs lib client hash n acc outputs) (All (Makes lib))
  unfolding parse_outputs
  outputs-total hash n acc [] payable so_far = (acc, refl, so_far)
  outputs-total hash n acc (output ∷ outputs) payable so_far =
      let (op, made, good) = output-total output hash (length acc) n payable.0 in
      rw made (
        outputs-total hash (suc n) (acc ++ op ∷ []) outputs payable.1
          (All-snoc (Makes lib) acc op so_far good))

  tx-total :
      (t : ℕ) (hashes created : List Text) (tx : Transaction) (coins : Map AccountCoin)
      → Known coins (input_coins t hashes 0 tx.inputs)
      → InputsSettled t hashes created 0 tx.inputs
      → Known coins created
      → AllSpendable lib coins
      → All (Payable lib) tx.outputs
      → Yields (parse_tx_operations lib client tx t coins) (All (Makes lib))
  unfolding parse_tx_operations
  tx-total t hashes created tx coins known settled earlier fine payable =
      let (mid, first, good) =
        inputs-total t hashes created 0 [] tx.inputs coins known settled earlier fine tt in
      rw first (outputs-total tx.hash 0 mid tx.outputs payable good)

  transaction-total :
      (block : Block) (t : ℕ) (tx : Transaction) (coins : Map AccountCoin)
      → Yields (parse_tx_operations lib client tx t coins) (All (Makes lib))
      → Yields (parse_transaction lib client block t coins tx) (λ parsed.
        All (Makes lib) parsed.operations × (parsed.transaction_identifier.hash ≡ tx.hash))
  unfolding parse_transaction skip_transaction_operations
  transaction-total block t tx coins (ops, made, good) =
      let (m, marshalled) = works.transaction (transaction_metadata tx) in
      rw (made, marshalled) (_, refl, (good, refl))

  insert-AllSpendable :
      (j : Text) (coin : AccountCoin) (coins : Map AccountCoin)
      → Spendable lib coin
      → AllSpendable lib coins
      → AllSpendable lib (insert j coin coins)
  insert-AllSpendable j coin coins good fine k c h = elim (Bool-cases (text_eq j k)) [
    | inl here ↦
        let same : coin ≡ c = ground (arith, h, here, lookup-insert j k coin coins) in
        rw (← same) good
    | inr there ↦ fine k c (ground (arith, h, there, lookup-insert j k coin coins))
  ]

  add_coin-AllSpendable :
      (op : Operation) (coins : Map AccountCoin)
      → Makes lib op
      → AllSpendable lib coins
      → AllSpendable lib (add_coin op coins)
  unfolding add_coin
  add_coin-AllSpendable op coins makes fine = elim (Option-cases (created_coin op)) [
    | inl nothing ↦ λ k c h. fine k c (rw (add_coin, nothing) at h)
    | inr ((j, coin), creates) ↦ λ k c h.
        insert-AllSpendable j coin coins (makes j coin creates) fine k c
          (rw (add_coin, creates) at h)
  ]

  add_coins-AllSpendable :
      (ops : List Operation) (coins : Map AccountCoin)
      → All (Makes lib) ops
      → AllSpendable lib coins
      → AllSpendable lib (add_coins ops coins)
  unfolding add_coins
  add_coins-AllSpendable [] coins makes fine = fine
  add_coins-AllSpendable (op ∷ ops) coins makes fine =
      add_coins-AllSpendable ops (add_coin op coins) makes.1
        (add_coin-AllSpendable op coins makes.0 fine)

  abbrev Payables : List Transaction → Type 0
  Payables = All (λ tx. All (Payable lib) tx.outputs)

  -- The transactions are those of the raw block, in order.
  abbrev SameHashes : List Transaction → List Sdk.Transaction → Type 0
  SameHashes txs parsed =
      map (λ tx. tx.transaction_identifier.hash) parsed ≡ map (λ tx. tx.hash) txs

  transactions-total :
      (block : Block) (t : ℕ) (hashes created : List Text) (txs : List Transaction)
      (coins : Map AccountCoin)
      → Known coins (block_coins t hashes txs)
      → Settled t hashes created txs
      → Known coins created
      → AllSpendable lib coins
      → Payables txs
      → Yields (parse_transactions lib client block t coins txs) (SameHashes txs)
  unfolding parse_transactions block_coins
  transactions-total block t hashes created [] coins known settled earlier fine payable =
      ([], refl, refl)
  transactions-total block t hashes created (tx ∷ txs) coins known settled earlier fine payable =
      let hashes' = hashes ++ tx.hash ∷ [] in
      let here = Known-left coins (input_coins t hashes' 0 tx.inputs) _ known in
      let later = Known-right coins (input_coins t hashes' 0 tx.inputs) _ known in
      let (parsed, made, (makes, hash)) =
        transaction-total block t tx coins
          (tx-total t hashes' created tx coins here settled.0 earlier fine payable.0) in
      let coins' = add_coins parsed.operations coins in
      let (rest, got, same) =
        transactions-total block (suc t) hashes' (created ++ created_ids tx.hash 0 tx.outputs) txs
          coins' (Known-add_coins parsed.operations coins _ later) settled.1
          (Known-append coins' created _ (Known-add_coins parsed.operations coins created earlier)
            (transaction-creates lib client block t coins tx parsed made))
          (add_coins-AllSpendable parsed.operations coins makes fine) payable.1 in
      rw (made, got) (parsed ∷ rest, refl, cc (hash, same))

  -- With a library that makes the metadata of every block, transaction and operation and negates the
  -- decimal of every integer, a block is parsed, with its transactions in order, if the coins that `get_raw_block` names are in
  -- the map, all coins of the map have amounts that can be negated, every output has a script and an
  -- amount that is not negative, and what the block spends of its own transactions are coins that
  -- earlier ones of it create.
  pub parse_block_total :
      (block raw : Block) (names : List Text) (coins : Map AccountCoin)
      → get_raw_block (ok (some block)) ≡ ok (raw, names)
      → Known coins names
      → AllSpendable lib coins
      → All (λ tx. All (Payable lib) tx.outputs) block.txs
      → Settled 0 [] [] block.txs
      → (parsed : Sdk.Block) × (parse_block lib client (some raw) coins ≡ ok parsed)
        × (map (λ tx. tx.transaction_identifier.hash) parsed.transactions
            ≡ map (λ tx. tx.hash) block.txs)
  unfolding get_raw_block parse_block parse_block_data
  parse_block_total block raw names coins got known fine payable settled =
      let same : raw ≡ block = cc in
      let listed : block_coins 0 [] block.txs ≡ names = cc in
      let (m, marshalled) = works.block (block_metadata block) in
      let (txs, made, hashes) =
        transactions-total block 0 [] [] block.txs coins (rw listed known) settled tt fine
          payable in
      rw (same, marshalled, made) (_, refl, hashes)
