-- ===== src/Indexer/Queries/Scripts.antt =====
-- Which scripts GetScriptPubKeys finds.
use rosetta_thought.Prelude.{
  ℕ, suc, ◌≡◌, refl, sym, ap, ◌∙◌, Option, none, some, List, [], ◌∷◌, true, inl, inr, get_elem?,
}
use rosetta_thought.Prelude.Int.{pos, eqb_ℤ, eqb_ℤ_iff}
use rosetta_thought.Outcome.{
  ok, deref, or_err, traverse, >>=-eq-ok, deref-eq-ok, ok-same, or_err-eq-ok, if-eq-ok,
}
use rosetta_thought.Text.{text_eq, text_eq-eq}
use rosetta_thought.Sdk
use rosetta_thought.Sdk.{Failure, plain, foreign, Operation, Coin, Amount}
use rosetta_thought.Thought.Types.{ScriptPubKey, OperationMetadata, output_op_type}
use rosetta_thought.Thought.Coin.{parse_coin_identifier}
use rosetta_thought.Indexer.Queries.{
  Reads, zero_value, found, checked_script, script_of, script_of_coin, get_script_pub_keys,
}

found-eq-ok : (o : Option Sdk.Transaction) (t : Sdk.Transaction) → found o ≡ ok t → o ≡ some t
found-eq-ok none t h = cc
found-eq-ok (some s) t h = cc

module _ {Hash : Type 0} (reads : Reads Hash) where
  -- The script is that of the output operation, which is the coin's: the two amounts have one
  -- currency and add up to zero.
  pub record Pays (coin : Coin) (index : ℕ) (op : Operation) (script : ScriptPubKey) : Type 0 where
    pub output : op.type ≡ output_op_type
    pub place : op.operation_identifier.network_index ≡ some (pos index)
    pub metadata : OperationMetadata
    pub unmarshalled : reads.unmarshal_operation op.metadata ≡ some metadata
    pub script_of_output : metadata.script_pub_key ≡ some script
    pub op_amount : Amount
    pub coin_amount : Amount
    pub has_amount : op.amount ≡ some op_amount
    pub coin_has_amount : coin.amount ≡ some coin_amount
    pub same_currency :
        text_eq (reads.hash_currency op_amount.currency) (reads.hash_currency coin_amount.currency)
        ≡ true
    pub cancels : reads.add_values op_amount.value coin_amount.value ≡ some zero_value

  -- A transaction found under the hash that the coin's identifier names has an operation that pays the coin.
  pub record IsScriptOf (coin : Coin) (script : ScriptPubKey) : Type 0 where
    pub hash : Hash
    pub index : ℕ
    pub parsed :
        parse_coin_identifier reads.new_hash_from_str coin.coin_identifier.identifier
        ≡ ok (hash, index)
    pub transaction : Sdk.Transaction
    pub stored : reads.find_transaction (reads.hash_string hash) ≡ ok (some transaction)
    pub op : Operation
    pub position : ℕ
    pub in_transaction : get_elem? transaction.operations position ≡ some op
    pub pays : Pays coin index op script

  abbrev pub AreScriptsOf : List Coin → List ScriptPubKey → Type 0
  AreScriptsOf [] [] = Unit
  AreScriptsOf [] (script ∷ scripts) = ⊥
  AreScriptsOf (coin ∷ coins) [] = ⊥
  AreScriptsOf (coin ∷ coins) (script ∷ scripts) =
      IsScriptOf coin script × AreScriptsOf coins scripts

  checked_script-Pays :
      (coin : Coin) (index : ℕ) (op : Operation) (script : ScriptPubKey)
      → op.type ≡ output_op_type
      → op.operation_identifier.network_index ≡ some (pos index)
      → checked_script reads coin op ≡ ok (some script)
      → Pays coin index op script
  unfolding checked_script
  checked_script-Pays coin index op script output place h =
      let (metadata, read, h1) =
        >>=-eq-ok (or_err (foreign 9) (reads.unmarshal_operation op.metadata)) _ h in
      let (op_amount, has, h2) = >>=-eq-ok (deref op.amount) _ h1 in
      let (coin_amount, coin_has, h3) = >>=-eq-ok (deref coin.amount) _ h2 in
      elim (if-eq-ok
        (text_eq (reads.hash_currency op_amount.currency)
          (reads.hash_currency coin_amount.currency))
        _ _ h3) [
          | inr (differ, h4) ↦ absurd (cc)
          | inl (same, h4) ↦
              let (addition, added, h5) =
                >>=-eq-ok (or_err (foreign 9) (reads.add_values op_amount.value coin_amount.value))
                  _ h4 in
              elim (if-eq-ok (text_eq addition zero_value) _ _ h5) [
                | inr (rest, h6) ↦ absurd (cc)
                | inl (nothing, h6) ↦ record {
                  output = output;
                  place = place;
                  metadata = metadata;
                  unmarshalled =
                      or_err-eq-ok (foreign 9) (reads.unmarshal_operation op.metadata) metadata
                        read;
                  script_of_output = ok-same h6;
                  op_amount = op_amount;
                  coin_amount = coin_amount;
                  has_amount = deref-eq-ok op.amount op_amount has;
                  coin_has_amount = deref-eq-ok coin.amount coin_amount coin_has;
                  same_currency = same;
                  cancels =
                      or_err-eq-ok (foreign 9) (reads.add_values op_amount.value coin_amount.value)
                        addition added
                      ∙ ap some (text_eq-eq addition zero_value nothing);
                }
              ]
        ]

  script_of-Pays :
      (coin : Coin) (index : ℕ) (ops : List Operation) (script : ScriptPubKey)
      → script_of reads coin index ops ≡ ok (some script)
      → (position : ℕ) × (op : Operation) × (get_elem? ops position ≡ some op)
        × Pays coin index op script
  unfolding script_of
  script_of-Pays coin index [] script h = absurd (cc)
  script_of-Pays coin index (op ∷ ops) script h =
      elim (if-eq-ok (text_eq op.type output_op_type) _ _ h) [
        | inr (other, h1) ↦ later ops op (script_of-Pays coin index ops script h1)
        | inl (output, h1) ↦
            let (network_index, place, h2) =
              >>=-eq-ok (deref op.operation_identifier.network_index) _ h1 in
            let placed = deref-eq-ok op.operation_identifier.network_index network_index place in
            elim (if-eq-ok (eqb_ℤ network_index (pos index)) _ _ h2) [
              | inr (elsewhere, h3) ↦ later ops op (script_of-Pays coin index ops script h3)
              | inl (here, h3) ↦ (
                0,
                op,
                refl,
                checked_script-Pays coin index op script (text_eq-eq op.type output_op_type output)
                    (placed ∙ ap some ((eqb_ℤ_iff network_index (pos index)).0 here)) h3,
              )
            ]
      ]
    where
      later :
          (os : List Operation) (o : Operation)
          → ((k : ℕ) × (x : Operation) × (get_elem? os k ≡ some x) × Pays coin index x script)
          → (k : ℕ) × (x : Operation) × (get_elem? (o ∷ os) k ≡ some x) × Pays coin index x script
      later os o (k, x, at, pays) = (suc k, x, at, pays)

  script_of_coin-IsScriptOf :
      (coin : Coin) (script : ScriptPubKey)
      → script_of_coin reads coin ≡ ok script
      → IsScriptOf coin script
  unfolding script_of_coin
  script_of_coin-IsScriptOf coin script h =
      let ((hash, index), parsed, h1) =
        >>=-eq-ok (parse_coin_identifier reads.new_hash_from_str coin.coin_identifier.identifier) _
          h in
      let (result, read, h2) = >>=-eq-ok (reads.find_transaction (reads.hash_string hash)) _ h1 in
      let (transaction, is_found, h3) = >>=-eq-ok (found result) _ h2 in
      let (got, looked, h4) = >>=-eq-ok (script_of reads coin index transaction.operations) _ h3 in
      let (position, op, at, pays) =
        script_of-Pays coin index transaction.operations script
          (looked ∙ ap ok (or_err-eq-ok plain got script h4)) in
      record {
        hash = hash;
        index = index;
        parsed = parsed;
        transaction = transaction;
        stored = read ∙ ap ok (found-eq-ok result transaction is_found);
        op = op;
        position = position;
        in_transaction = at;
        pays = pays;
      }

  traverse-AreScriptsOf :
      (coins : List Coin) (scripts : List ScriptPubKey)
      → traverse (script_of_coin reads) coins ≡ ok scripts
      → AreScriptsOf coins scripts
  unfolding traverse
  traverse-AreScriptsOf [] [] h = tt
  traverse-AreScriptsOf [] (script ∷ scripts) h = absurd (cc)
  traverse-AreScriptsOf (coin ∷ coins) scripts h =
      let (first, found_first, h1) = >>=-eq-ok (script_of_coin reads coin) _ h in
      let (others, found_others, h2) = >>=-eq-ok (traverse (script_of_coin reads) coins) _ h1 in
      rw (sym (ok-same h2)) (
        script_of_coin-IsScriptOf coin first found_first,
        traverse-AreScriptsOf coins others found_others,
      )

  -- The scripts that GetScriptPubKeys returns are those of the coins, in order: each stands in an
  -- output operation with the coin's index, in the transaction that is stored under the hash that the
  -- coin's identifier names, and the amounts of operation and coin cancel in one currency.
  pub get_script_pub_keys-AreScriptsOf :
      (coins : List Coin) (scripts : List ScriptPubKey)
      → get_script_pub_keys reads coins ≡ ok scripts
      → AreScriptsOf coins scripts
  unfolding get_script_pub_keys
  get_script_pub_keys-AreScriptsOf coins scripts h = traverse-AreScriptsOf coins scripts h
