-- ===== src/Services/Construction/Payloads/Build.antt =====
-- The transaction and the texts that a payment's operations become.
use rosetta_thought.Prelude.{
  ℕ, suc, ◌+◌, ◌≤◌, ◌<◌, ◌≡◌, ◌≢◌, refl, ap, ◌∙◌, Option, some, List, [], ◌∷◌, ◌++◌, arith, length,
  map, drop, get_elem?-drop, drop-suc, All, append_assoc, append-nil,
}
use rosetta_thought.Prelude.Int.{ℤ, int64_of_IsInt64}
use rosetta_thought.Outcome.{Outcome, ok}
use rosetta_thought.Text.{Text}
use rosetta_thought.Text.Decimal.{format_int}
use rosetta_thought.Text.Hex.{
  Bytes, IsBytes, encode_to_string, decode_string, decode_string-encode_to_string,
}
use rosetta_thought.Sdk.{Operation}
use rosetta_thought.Thought.Types.{ScriptPubKey}
use rosetta_thought.Thought.Coin.{parse_coin_identifier-coin_identifier}
use rosetta_thought.Thought.Address.{parse_single_address}
use rosetta_thought.Configuration.{Configuration}
use rosetta_thought.Services.Errors.{Error}
use rosetta_thought.Services.Interfaces.{ConstructionMetadata}
use rosetta_thought.Services.Construction.Toolkit.{
  Toolkit, MsgTx, Match, index, decode_intermediate,
}
use rosetta_thought.Services.Construction.Payloads.{
  Signable, tx_in_of, add_inputs, tx_out_of, add_outputs, sign_input, sign_inputs, encode_unsigned,
}
use rosetta_thought.Services.Construction.Payloads.Intended.{
  Spend, Payment, IsSpend, IsPayment, IsFaithful, spent, paid, IsWire, InputFits, OutputFits,
  Marshals, unsigned_of,
}

pub index-drop :
    {A : Type 0} (xs : List A) (i : ℕ) {x : A} {ys : List A}
    → drop i xs ≡ x ∷ ys
    → index {E = Error} xs i ≡ ok x
index-drop xs i h = rw (get_elem?-drop i xs h) refl

abbrev pub signable : Spend → Bytes → Signable
signable s hash = record {
  address = s.address;
  amount = format_int s.amount;
  payload = record { address = s.address; bytes = hash };
}

-- The amounts and the addresses that go with the unsigned transaction.
abbrev pub Matching : List Spend → List Signable → Type 0
Matching spends signables =
    (map (λ s. s.amount) signables ≡ map (λ s. format_int s.amount) spends)
    × (map (λ s. s.address) signables ≡ map (λ s. s.address) spends)
    × (map (λ s. s.payload.address) signables ≡ map (λ s. s.address) spends)

module _ {Address : Type 0} (kit : Toolkit Address) (config : Configuration) where
  tx_in_of-ok :
      (s : Spend) → IsSpend kit config s → tx_in_of kit config s.operation ≡ ok (spent kit s)
  unfolding tx_in_of
  tx_in_of-ok s is = rw is.coin (
      rw
        (parse_coin_identifier-coin_identifier kit.new_hash_from_str s.hash s.vout s.id is.clean
          is.long is.known is.small)
        refl)

  tx_out_of-ok :
      (p : Payment Address) (amount : Outcome Error (Option ℤ))
      → IsPayment kit config p
      → amount ≡ ok (some p.amount)
      → tx_out_of kit config p.operation amount ≡ ok (paid p)
  unfolding tx_out_of
  tx_out_of-ok p amount is given =
      rw (is.account)
        (rw (is.decoded) (rw (is.pays, given) (rw (int64_of_IsInt64 p.amount is.fits) refl)))

  pub add_inputs-ok :
      (spends : List Spend) (tx : MsgTx)
      → All (IsSpend kit config) spends
      → add_inputs kit config (map (λ s. s.operation) spends) tx
        ≡ ok (record tx { tx_in = tx.tx_in ++ map (spent kit) spends })
  unfolding add_inputs
  add_inputs-ok [] tx is = rw append-nil refl
  add_inputs-ok (s ∷ spends) tx is = rw (tx_in_of-ok s is.0) (
      add_inputs-ok spends (record tx { tx_in = tx.tx_in ++ spent kit s ∷ [] }) is.1
      ∙ ap (λ ins. ok (record tx { tx_in = ins }))
          (append_assoc tx.tx_in (spent kit s ∷ []) (map (spent kit) spends)))

  pub add_outputs-ok :
      (amounts : List (Option ℤ)) (i : ℕ) (payments : List (Payment Address)) (tx : MsgTx)
      → All (IsPayment kit config) payments
      → drop i amounts ≡ map (λ p. some p.amount) payments
      → add_outputs kit config amounts i (map (λ p. p.operation) payments) tx
        ≡ ok (record tx { tx_out = tx.tx_out ++ map paid payments })
  unfolding add_outputs
  add_outputs-ok amounts i [] tx is given = rw append-nil refl
  add_outputs-ok amounts i (p ∷ payments) tx is given =
      rw (tx_out_of-ok p (index amounts i) is.0 (index-drop amounts i given)) (
        add_outputs-ok amounts (suc i) payments (record tx { tx_out = tx.tx_out ++ paid p ∷ [] })
          is.1 (drop-suc i amounts given)
        ∙ ap (λ outs. ok (record tx { tx_out = outs }))
            (append_assoc tx.tx_out (paid p ∷ []) (map paid payments)))

  module _ (faithful : IsFaithful kit config) (inputs : Match) (metadata : ConstructionMetadata)
      (tx : MsgTx) where
    sign_input-ok :
        (i : ℕ) (s : Spend) {ops : List Operation} {amounts : List (Option ℤ)}
        {scripts : List ScriptPubKey}
        → IsSpend kit config s
        → i < length tx.tx_in
        → drop i inputs.operations ≡ s.operation ∷ ops
        → drop i inputs.amounts ≡ some s.amount ∷ amounts
        → drop i metadata.script_pub_keys ≡ s.script_pub_key ∷ scripts
        → (hash : Bytes) × (sign_input kit config inputs metadata tx i ≡ ok (signable s hash))
    unfolding sign_input parse_single_address
    sign_input-ok i s is small op amount script =
        let (addr, single) = is.single in
        let (hash, made) = faithful.hashes s.script addr tx i single small in
        (
          hash,
          rw (index-drop inputs.operations i op) (
              rw is.account (
                rw (index-drop metadata.script_pub_keys i script) (
                  rw is.decoded
                    (rw single (rw (index-drop inputs.amounts i amount) (rw made refl)))))),
        )

    pub sign_inputs-ok :
        (i : ℕ) (spends : List Spend)
        → All (IsSpend kit config) spends
        → i + length spends ≤ length tx.tx_in
        → drop i inputs.operations ≡ map (λ s. s.operation) spends
        → drop i inputs.amounts ≡ map (λ s. some s.amount) spends
        → drop i metadata.script_pub_keys ≡ map (λ s. s.script_pub_key) spends
        → (signables : List Signable) × (sign_inputs kit config inputs metadata tx i
              (map (spent kit) spends)
            ≡ ok signables)
          × Matching spends signables
    unfolding sign_inputs
    sign_inputs-ok i [] is small op amount script = ([], refl, (refl, refl, refl))
    sign_inputs-ok i (s ∷ spends) is small op amount script =
        let (hash, made) = sign_input-ok i s is.0 (omega arith) op amount script in
        let (signables, rest, (amounts, addresses, payloads)) =
          sign_inputs-ok (suc i) spends is.1 (omega arith) (drop-suc i inputs.operations op)
            (drop-suc i inputs.amounts amount) (drop-suc i metadata.script_pub_keys script) in
        (
          signable s hash ∷ signables,
          rw made (rw rest refl),
          (
            ap (λ xs. format_int s.amount ∷ xs) amounts,
            ap (λ xs. s.address ∷ xs) addresses,
            ap (λ xs. s.address ∷ xs) payloads,
          ),
        )

  pub spent-InputFits :
      (spends : List Spend)
      → IsFaithful kit config
      → All (IsSpend kit config) spends
      → All InputFits (map (spent kit) spends)
  spent-InputFits [] faithful is = tt
  spent-InputFits (s ∷ spends) faithful is = (
    (is.0.id_length, is.0.id_bytes, is.0.small, tt, faithful.sequence),
    spent-InputFits spends faithful is.1,
  )

  pub paid-OutputFits :
      (payments : List (Payment Address))
      → All (IsPayment kit config) payments
      → All OutputFits (map paid payments)
  paid-OutputFits [] is = tt
  paid-OutputFits (p ∷ payments) is =
      ((is.0.fits, is.0.script_bytes), paid-OutputFits payments is.1)

  -- What comes out of the encodings is what went in.
  pub encode_unsigned-ok :
      (tx : MsgTx) (metadata : ConstructionMetadata) (signables : List Signable)
      (spends : List Spend)
      → IsFaithful kit config
      → tx.tx_in ≢ []
      → IsWire kit config tx
      → ((bytes : Bytes)
          → IsBytes bytes
          → Marshals kit config (unsigned_of bytes metadata.script_pub_keys spends))
      → Matching spends signables
      → (text : Text) × (bytes : Bytes) × (encode_unsigned kit config tx metadata signables
          ≡ ok text)
        × (decode_intermediate kit.unmarshal_unsigned (decode_string text)
            ≡ ok (unsigned_of bytes metadata.script_pub_keys spends))
        × (decode_intermediate kit.deserialize (decode_string (encode_to_string bytes)) ≡ ok tx)
  unfolding encode_unsigned
  encode_unsigned-ok tx metadata signables spends faithful some_input wire marshals
        (amounts, addresses, _) =
      let (bytes, written, good, read) = faithful.serializes tx some_input wire in
      let (raw, marshalled, fine, unmarshalled) = marshals bytes good in
      (
        encode_to_string raw,
        bytes,
        rw written (rw (amounts, addresses) (rw marshalled refl)),
        rw (decode_string-encode_to_string raw fine) (rw unmarshalled refl),
        rw (decode_string-encode_to_string bytes good) (rw read refl),
      )
