-- ===== src/Indexer/Queries/Parsed.antt =====
-- GetScriptPubKeys on transactions that the client has parsed.
use mathlib.Core.Path.{subst}
use rosetta_thought.Prelude.{
  ℕ, zero, suc, ◌+◌, ◌<◌, ◌≡◌, refl, sym, ◌∙◌, some, List, [], ◌∷◌, ◌++◌, inr, get_elem?, arith,
  All, length, append_assoc,
}
use rosetta_thought.Prelude.Int.{ℤ, pos, eqb_ℤ_iff}
use rosetta_thought.Outcome.{ok, traverse, >>=-eq-ok, ok-same}
use rosetta_thought.Map.{Map}
use rosetta_thought.Text.{Text, text_eq_refl}
use rosetta_thought.Text.Decimal.{format_int}
use rosetta_thought.Text.Split.{NoColon}
use rosetta_thought.Sdk
use rosetta_thought.Sdk.{
  Failure, plain, foreign, previous_tx_missing, Operation, Coin, Amount, AccountCoin, Metadata,
}
use rosetta_thought.Thought.Types.{
  ScriptPubKey, output_op_type, Output, Transaction, Client, Library, output_metadata,
}
use rosetta_thought.Thought.Coin.{coin_identifier, parse_coin_identifier-coin_identifier}
use rosetta_thought.Thought.Operations.{
  parse_amount, parse_output_transaction_operation, parse_inputs, parse_outputs,
  parse_tx_operations,
}
use rosetta_thought.Indexer.Queries.{
  Reads, zero_value, checked_script, script_of, script_of_coin, get_script_pub_keys,
}
use rosetta_thought.Indexer.Queries.Passing.{
  All-snoc, Becomes, Passes, inputs-Passes, output-Becomes, outputs-extend, script_of-append,
  some_same,
}

module _ {Hash : Type 0} (reads : Reads Hash) (lib : Library) (client : Client) where
  -- A coin that is asked for with the amount of an output that the client parsed, negated, in the
  -- client's currency; the output's metadata reads as it was written.
  pub record Created (coin : Coin) (script : ScriptPubKey) : Type 0 where
    pub tx : Transaction
    pub tx_index : ℕ
    pub coins : Map AccountCoin
    pub transaction : Sdk.Transaction
    pub parsed : parse_tx_operations lib client tx tx_index coins ≡ ok transaction.operations
    pub hash : Hash
    pub clean : NoColon tx.hash
    pub long : length tx.hash ≡ 64
    pub known : reads.new_hash_from_str tx.hash ≡ some hash
    pub stored : reads.find_transaction (reads.hash_string hash) ≡ ok (some transaction)
    pub index : ℕ
    pub small : index < 4294967296
    pub named : coin.coin_identifier.identifier ≡ coin_identifier tx.hash (pos index)
    pub output : Output
    pub output_at : get_elem? tx.outputs index ≡ some output
    pub has_script : output.script_pub_key ≡ some script
    pub value : ℤ
    pub has_value : parse_amount lib output.value ≡ ok value
    pub negated : Text
    pub asked : coin.amount ≡ some (record { value = negated; currency = client.currency })
    pub cancels : reads.add_values (format_int value) negated ≡ some zero_value
    pub reads_back :
        (metadata : Metadata)
        → lib.marshal_operation (output_metadata output) ≡ some metadata
        → reads.unmarshal_operation metadata ≡ some (output_metadata output)

  checked_script-Becomes :
      (coin : Coin) (script : ScriptPubKey) (c : Created coin script) (op : Operation)
      → Becomes lib client c.output c.index op
      → checked_script reads coin op ≡ ok (some script)
  unfolding checked_script output_metadata
  checked_script-Becomes coin script c op b =
      let same_value : b.value ≡ c.value = ok-same (sym b.parsed ∙ c.has_value) in
      rw (c.reads_back op.metadata b.marshalled) (
        rw (b.amount, c.asked)
          (rw (text_eq_refl (reads.hash_currency client.currency))
            (rw (same_value) (rw c.cancels (rw (text_eq_refl zero_value) (rw c.has_script refl))))))

  script_of-Becomes :
      (coin : Coin) (script : ScriptPubKey) (c : Created coin script) (op : Operation)
      (later : List Operation)
      → Becomes lib client c.output c.index op
      → script_of reads coin c.index (op ∷ later) ≡ ok (some script)
  unfolding script_of
  script_of-Becomes coin script c op later b = rw (b.type) (
      rw (text_eq_refl output_op_type) (
        rw b.place (
          rw ((eqb_ℤ_iff (pos c.index) (pos c.index)).1 refl)
            (checked_script-Becomes coin script c op b))))

  script_of-outputs :
      (coin : Coin) (script : ScriptPubKey) (c : Created coin script) (m j : ℕ)
      (acc : List Operation) (outputs : List Output) (ops : List Operation)
      → All (Passes c.index) acc
      → m + j ≡ c.index
      → get_elem? outputs j ≡ some c.output
      → parse_outputs lib client c.tx.hash m acc outputs ≡ ok ops
      → script_of reads coin c.index ops ≡ ok (some script)
  unfolding parse_outputs
  script_of-outputs coin script c m j acc [] ops pass sum at e = absurd (cc)
  script_of-outputs coin script c m zero acc (output ∷ outputs) ops pass sum at e =
      let (op, made, next) =
        >>=-eq-ok (parse_output_transaction_operation lib client output c.tx.hash (length acc) m) _
          e in
      let (rest, same) =
        outputs-extend lib client c.tx.hash (suc m) (acc ++ op ∷ []) outputs ops next in
      let b : Becomes lib client c.output c.index op =
        subst (λ o. Becomes lib client o c.index op) (some_same at)
          (subst (λ k. Becomes lib client output k op) (omega arith)
            (output-Becomes lib client output c.tx.hash (length acc) m op made)) in
      rw (same ∙ append_assoc acc (op ∷ []) rest) (
        script_of-append reads coin c.index acc (op ∷ rest) pass
        ∙ script_of-Becomes coin script c op rest b)
  script_of-outputs coin script c m (suc i) acc (output ∷ outputs) ops pass sum at e =
      let (op, made, next) =
        >>=-eq-ok (parse_output_transaction_operation lib client output c.tx.hash (length acc) m) _
          e in
      let b = output-Becomes lib client output c.tx.hash (length acc) m op made in
      script_of-outputs coin script c (suc m) i (acc ++ op ∷ []) outputs ops
        (All-snoc (Passes c.index) acc op pass (inr (m, b.place, omega arith))) (omega arith) at
        next

  script_of_coin-Created :
      (coin : Coin) (script : ScriptPubKey)
      → Created coin script
      → script_of_coin reads coin ≡ ok script
  unfolding script_of_coin parse_tx_operations script_of
  script_of_coin-Created coin script c =
      let (mid, first, rest) =
        >>=-eq-ok (parse_inputs lib client c.tx_index c.coins 0 [] c.tx.inputs) _ c.parsed in
      let pass =
        inputs-Passes lib client c.tx_index c.coins 0 c.index [] c.tx.inputs mid tt first in
      rw c.named (
        rw
          (parse_coin_identifier-coin_identifier reads.new_hash_from_str c.tx.hash c.index c.hash
            c.clean c.long c.known c.small)
          (rw c.stored (
            rw
              (script_of-outputs coin script c 0 c.index mid c.tx.outputs c.transaction.operations
                pass (omega arith) c.output_at rest)
              refl)))

  abbrev pub AreCreated : List Coin → List ScriptPubKey → Type 0
  AreCreated [] [] = Unit
  AreCreated [] (script ∷ scripts) = ⊥
  AreCreated (coin ∷ coins) [] = ⊥
  AreCreated (coin ∷ coins) (script ∷ scripts) = Created coin script × AreCreated coins scripts

  -- For outputs of stored transactions that the client parsed, asked for by their identifiers and
  -- their negated amounts, GetScriptPubKeys returns the scripts of the outputs, in order: if their
  -- transactions have hashes of 64 bytes without a colon and are found under them, and the metadata of
  -- the outputs reads as it was written.
  pub get_script_pub_keys-AreCreated :
      (coins : List Coin) (scripts : List ScriptPubKey)
      → AreCreated coins scripts
      → get_script_pub_keys reads coins ≡ ok scripts
  unfolding get_script_pub_keys traverse
  get_script_pub_keys-AreCreated [] [] created = refl
  get_script_pub_keys-AreCreated [] (script ∷ scripts) created = absurd created
  get_script_pub_keys-AreCreated (coin ∷ coins) [] created = absurd created
  get_script_pub_keys-AreCreated (coin ∷ coins) (script ∷ scripts) created =
      rw (script_of_coin-Created coin script created.0)
        (rw (get_script_pub_keys-AreCreated coins scripts created.1) refl)
