-- ===== src/Thought/Transactions/Creates.antt =====
-- The coins that a parsed transaction adds to the map are those that its outputs are named by.
use rosetta_thought.Prelude.{
  ℕ, suc, ◌≡◌, refl, ◌≢◌, Option, none, some, List, [], ◌∷◌, ◌++◌, arith, length, Bool-cases, inl,
  inr, All, ◌∙◌, append_assoc, append-nil,
}
use rosetta_thought.Prelude.Int.{pos}
use rosetta_thought.Outcome.{ok, or_err, deref, >>=-eq-ok, deref-eq-ok}
use rosetta_thought.Map.{Map, lookup, lookup-insert_self}
use rosetta_thought.Text.{Text, text_eq}
use rosetta_thought.Sdk
use rosetta_thought.Sdk.{Operation, AccountCoin, foreign, Failure}
use rosetta_thought.Thought.Types.{
  output_metadata, null_data, ScriptPubKey, Output, Transaction, Block, Client, Library,
}
use rosetta_thought.Thought.Coin.{coin_identifier}
use rosetta_thought.Thought.Created.{created_coin, add_coin, add_coins, add_coins_keeps}
use rosetta_thought.Thought.Operations.{
  output_coin_change, parse_output_transaction_operation, parse_amount, parse_inputs, parse_outputs,
  parse_tx_operations,
}
use rosetta_thought.Thought.Transactions.{parse_transaction}

-- The coins that the outputs from number `n` on create.
abbrev output_id : Text → ℕ → Option Sdk.CoinChange → List Text
output_id hash n none = []
output_id hash n (some change) = coin_identifier hash (pos n) ∷ []

abbrev script_id : Text → ℕ → Output → List Text
script_id hash n output = elim output.script_pub_key [
  | none ↦ []
  | some script ↦ output_id hash n (output_coin_change script hash n)
]

abbrev pub created_ids : Text → ℕ → List Output → List Text
created_ids hash n [] = []
created_ids hash n (output ∷ outputs) = script_id hash n output ++ created_ids hash (suc n) outputs

-- The map has every coin of the list.
abbrev pub Known : Map AccountCoin → List Text → Type 0
Known coins = All (λ k. lookup k coins ≢ none)

pub Known-append :
    (coins : Map AccountCoin) (xs ys : List Text)
    → Known coins xs
    → Known coins ys
    → Known coins (xs ++ ys)
Known-append coins [] ys h k = k
Known-append coins (x ∷ xs) ys h k = (h.0, Known-append coins xs ys h.1 k)

pub Known-left :
    (coins : Map AccountCoin) (xs ys : List Text) → Known coins (xs ++ ys) → Known coins xs
Known-left coins [] ys h = tt
Known-left coins (x ∷ xs) ys h = (h.0, Known-left coins xs ys h.1)

pub Known-right :
    (coins : Map AccountCoin) (xs ys : List Text) → Known coins (xs ++ ys) → Known coins ys
Known-right coins [] ys h = h
Known-right coins (x ∷ xs) ys h = Known-right coins xs ys h.1

pub Known-add_coins :
    (ops : List Operation) (coins : Map AccountCoin) (xs : List Text)
    → Known coins xs
    → Known (add_coins ops coins) xs
Known-add_coins ops coins [] h = tt
Known-add_coins ops coins (x ∷ xs) h =
    (add_coins_keeps ops coins x h.0, Known-add_coins ops coins xs h.1)

add_coins-append :
    (xs ys : List Operation) (coins : Map AccountCoin)
    → add_coins (xs ++ ys) coins ≡ add_coins ys (add_coins xs coins)
unfolding add_coins
add_coins-append [] ys coins = refl
add_coins-append (x ∷ xs) ys coins = add_coins-append xs ys (add_coin x coins)

add_coin-insert :
    (op : Operation) (m : Map AccountCoin) (change : Sdk.CoinChange)
    → op.coin_change ≡ some change
    → change.coin_action ≡ Sdk.coin_created
    → lookup change.coin_identifier.identifier (add_coin op m) ≢ none
unfolding add_coin created_coin
add_coin-insert op m change e c = rw (e, c) (rw lookup-insert_self (λ h. cc))

module _ (lib : Library) (client : Client) where
  output-change :
      (output : Output) (hash : Text) (i n : ℕ) (op : Operation)
      → parse_output_transaction_operation lib client output hash i n ≡ ok op
      → (script : ScriptPubKey) × (output.script_pub_key ≡ some script)
        × (op.coin_change ≡ output_coin_change script hash n)
  unfolding parse_output_transaction_operation
  output-change output hash i n op h =
      let (amount, a, h₁) = >>=-eq-ok (parse_amount lib output.value) _ h in
      let (metadata, b, h₂) =
        >>=-eq-ok (or_err (foreign 2) (lib.marshal_operation (output_metadata output))) _ h₁ in
      let (script, c, h₃) = >>=-eq-ok (deref output.script_pub_key) _ h₂ in
      (script, deref-eq-ok output.script_pub_key script c, ground arith)

  output-creates :
      (output : Output) (hash : Text) (i n : ℕ) (op : Operation) (m : Map AccountCoin)
      → parse_output_transaction_operation lib client output hash i n ≡ ok op
      → Known (add_coin op m) (script_id hash n output)
  unfolding output_coin_change
  output-creates output hash i n op m h =
      let (script, has, change) = output-change output hash i n op h in
      rw has (elim (Bool-cases (text_eq script.type null_data)) [
        | inl burnt ↦ rw burnt tt
        | inr spendable ↦ rw spendable (add_coin-insert op m _ (change ∙ rw spendable) refl, tt)
      ])

  outputs-extend :
      (hash : Text) (n : ℕ) (acc : List Operation) (outputs : List Output) (ops : List Operation)
      → parse_outputs lib client hash n acc outputs ≡ ok ops
      → (rest : List Operation) × (ops ≡ acc ++ rest)
  unfolding parse_outputs
  outputs-extend hash n acc [] ops e = ([], cc (append-nil acc))
  outputs-extend hash n acc (output ∷ outputs) ops e =
      let (op, made, next) =
        >>=-eq-ok (parse_output_transaction_operation lib client output hash (length acc) n) _ e in
      let (rest, same) = outputs-extend hash (suc n) (acc ++ op ∷ []) outputs ops next in
      (op ∷ rest, same ∙ append_assoc acc (op ∷ []) rest)

  outputs-create :
      (hash : Text) (n : ℕ) (acc : List Operation) (outputs : List Output) (ops : List Operation)
      (coins : Map AccountCoin)
      → parse_outputs lib client hash n acc outputs ≡ ok ops
      → Known (add_coins ops coins) (created_ids hash n outputs)
  unfolding parse_outputs
  outputs-create hash n acc [] ops coins e = tt
  outputs-create hash n acc (output ∷ outputs) ops coins e =
      let (op, made, next) =
        >>=-eq-ok (parse_output_transaction_operation lib client output hash (length acc) n) _ e in
      let (rest, same) = outputs-extend hash (suc n) (acc ++ op ∷ []) outputs ops next in
      Known-append (add_coins ops coins) (script_id hash n output)
        (created_ids hash (suc n) outputs)
        (rw
          (same, add_coins-append (acc ++ op ∷ []) rest coins, add_coins-append acc (op ∷ []) coins)
          (Known-add_coins rest _ (script_id hash n output) (
            unfold add_coins in
            output-creates output hash (length acc) n op (add_coins acc coins) made)))
        (outputs-create hash (suc n) (acc ++ op ∷ []) outputs ops coins next)

  -- The operations of a transaction create the coins that its outputs are named by.
  pub transaction-creates :
      (block : Block) (t : ℕ) (coins : Map AccountCoin) (tx : Transaction)
      (parsed : Sdk.Transaction)
      → parse_transaction lib client block t coins tx ≡ ok parsed
      → Known (add_coins parsed.operations coins) (created_ids tx.hash 0 tx.outputs)
  unfolding parse_transaction parse_tx_operations
  transaction-creates block t coins tx parsed h =
      let (ops, made, next) = >>=-eq-ok (parse_tx_operations lib client tx t coins) _ h in
      let (mid, first, last) = >>=-eq-ok (parse_inputs lib client t coins 0 [] tx.inputs) _ made in
      let same : parsed.operations ≡ ops = ground arith in
      rw same (outputs-create tx.hash 0 mid tx.outputs ops coins last)
