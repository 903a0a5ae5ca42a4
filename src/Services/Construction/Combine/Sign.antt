-- ===== src/Services/Construction/Combine/Sign.antt =====
-- The signed inputs of a payment, and how they are read.
use rosetta_thought.Prelude.{
  ℕ, suc, ◌≡◌, ◌≢◌, refl, ap, ◌∙◌, some, false, List, [], ◌∷◌, ◌++◌, arith, length, length-append,
  map, drop, drop-suc, All, append_assoc, append-nil,
}
use rosetta_thought.Prelude.Int.{ℤ, pos}
use rosetta_thought.Outcome.{Outcome, ok}
use rosetta_thought.Text.Decimal.{format_int}
use rosetta_thought.Text.Hex.{encode_to_string, Bytes, IsBytes}
use rosetta_thought.Sdk.{Operation, AccountIdentifier}
use rosetta_thought.Thought.Types.{ScriptPubKey}
use rosetta_thought.Thought.Address.{ScriptClass, parse_single_address}
use rosetta_thought.Configuration.{Configuration}
use rosetta_thought.Services.Errors.{Error}
use rosetta_thought.Services.Interfaces.{UnsignedTransaction, SignedTransaction}
use rosetta_thought.Services.Construction.Toolkit.{Toolkit, TxIn}
use rosetta_thought.Services.Construction.Payloads.Intended.{
  IsFaithful, InputFits, Spend, IsSpend, intended_input, intended_inputs, spent,
}
use rosetta_thought.Services.Construction.Payloads.Build.{index-drop}
use rosetta_thought.Services.Construction.Parse.{signer, signed_inputs}
use rosetta_thought.Services.Construction.Parse.Reads.{input_operation-intended}
use rosetta_thought.Services.Construction.Combine.{
  Signature, normalized_signature, signature_script, sign_all,
}
use rosetta_thought.Services.Construction.Combine.Halves.{signature_halves-append}

-- A coin that is spent with its signature: the two halves of it, the scalars that they are, the key
-- and the script that unlocks the coin.
pub record SignedSpend : Type 0 where
  pub spend : Spend
  pub first : ℕ
  pub high : Bytes
  pub low : Bytes
  pub spare : Bytes
  pub r : ℕ
  pub s : ℕ
  pub public_key : Bytes
  pub script_sig : Bytes

-- The 64 bytes of R and S, and the key.
abbrev pub signature_of : SignedSpend → Signature
signature_of x = record {
  bytes = record { elements = (x.first ∷ x.high) ++ x.low; spare = x.spare };
  public_key = some x.public_key;
}

module _ {Address : Type 0} (kit : Toolkit Address) (config : Configuration) where
  -- R does not start with a zero byte, R and S are below the order of the group, and the script of
  -- signature and key is that of the address that the coin belongs to.
  pub record IsSigned (x : SignedSpend) : Type 0 where
    pub spend : IsSpend kit config x.spend
    pub nonzero : x.first ≢ 0
    pub high_length : length x.high ≡ 31
    pub low_length : length x.low ≡ 32
    pub r_scalar : kit.set_byte_slice (x.first ∷ x.high) ≡ (x.r, false)
    pub s_scalar : kit.set_byte_slice x.low ≡ (x.s, false)
    pub pushed :
        kit.script_of_data
          ((kit.serialize_signature x.r x.s ++ kit.sig_hash_all ∷ []) ∷ x.public_key ∷ [])
        ≡ some x.script_sig
    pub script_bytes : IsBytes x.script_sig
    pub owner :
        (pk_script : Bytes) × (class : ScriptClass) × (addr : Address) × (kit.compute_pk_script
            x.script_sig
          ≡ some pk_script)
        × (kit.extract_pk_script_addrs config.params pk_script ≡ some (class, addr ∷ [], pos 1))
        × (kit.encode_address addr ≡ x.spend.address)

  -- The JSON of signed transactions with amounts in decimal, and the second reader of serialized transactions.
  pub record IsFaithfulSigned : Type 0 where
    pub marshals :
        (transaction : Bytes) (amounts : List ℤ)
        → IsBytes transaction
        → (bytes : Bytes) × (kit.marshal_signed (record {
          transaction = encode_to_string transaction;
          input_amounts = map format_int amounts;
        })
            ≡ some bytes)
          × IsBytes bytes
          × (kit.unmarshal_signed bytes
              ≡ some (record {
                transaction = encode_to_string transaction;
                input_amounts = map format_int amounts;
              }))
    pub reads : (bytes : Bytes) → kit.new_tx_from_bytes bytes ≡ kit.deserialize bytes

  abbrev pub unlocked : SignedSpend → TxIn
  unlocked x = record (spent kit x.spend) { signature_script = x.script_sig }

  normalized_signature-ok :
      (x : SignedSpend)
      → IsSigned x
      → normalized_signature kit config (signature_of x).bytes
        ≡ ok (kit.serialize_signature x.r x.s ++ kit.sig_hash_all ∷ [])
  unfolding normalized_signature
  normalized_signature-ok x is =
      rw
        (signature_halves-append x.first x.high x.low x.spare is.nonzero is.high_length
          is.low_length)
        (rw (is.r_scalar, is.s_scalar) refl)

  signature_script-ok :
      (unsigned : UnsignedTransaction) (signatures : List Signature) (i : ℕ) (x : SignedSpend)
      {scripts : List ScriptPubKey} {rest : List Signature}
      → IsSigned x
      → drop i unsigned.script_pub_keys ≡ x.spend.script_pub_key ∷ scripts
      → drop i signatures ≡ signature_of x ∷ rest
      → signature_script kit config unsigned signatures i ≡ ok x.script_sig
  unfolding signature_script parse_single_address
  signature_script-ok unsigned signatures i x is script signature =
      let (addr, single) = is.spend.single in
      rw (index-drop unsigned.script_pub_keys i script) (
        rw is.spend.decoded (
          rw single (
            rw (index-drop signatures i signature)
              (rw (normalized_signature-ok x is) (rw is.pushed refl)))))

  pub sign_all-ok :
      (unsigned : UnsignedTransaction) (signatures : List Signature) (i : ℕ) (xs : List SignedSpend)
      → All IsSigned xs
      → drop i unsigned.script_pub_keys ≡ map (λ x. x.spend.script_pub_key) xs
      → drop i signatures ≡ map signature_of xs
      → sign_all kit config unsigned signatures i (map (λ x. spent kit x.spend) xs)
        ≡ ok (map unlocked xs)
  unfolding sign_all
  sign_all-ok unsigned signatures i [] is scripts given = refl
  sign_all-ok unsigned signatures i (x ∷ xs) is scripts given =
      rw (signature_script-ok unsigned signatures i x is.0 scripts given) (
        rw
          (sign_all-ok unsigned signatures (suc i) xs is.1
            (drop-suc i unsigned.script_pub_keys scripts) (drop-suc i signatures given))
          refl)

  signer-ok : (x : SignedSpend) → IsSigned x → signer kit config (unlocked x) ≡ ok x.spend.address
  unfolding signer parse_single_address
  signer-ok x is =
      let (pk_script, class, addr, computed, extracted, encoded) = is.owner in
      rw computed (rw extracted (rw encoded refl))

  abbrev pub signers_of : List SignedSpend → List AccountIdentifier
  signers_of = map (λ x. record { address = x.spend.address })

  pub signed_inputs-ok :
      (signed : SignedTransaction) (i : ℕ) (ops : List Operation) (signers : List AccountIdentifier)
      (xs : List SignedSpend)
      → i ≡ length ops
      → All IsSigned xs
      → drop i signed.input_amounts ≡ map (λ x. format_int x.spend.amount) xs
      → signed_inputs kit config signed i ops signers (map unlocked xs)
        ≡ ok (ops ++ intended_inputs config i (map (λ x. x.spend) xs), signers ++ signers_of xs)
  unfolding signed_inputs
  signed_inputs-ok signed i ops signers [] e is amounts = rw (append-nil, append-nil) refl
  signed_inputs-ok signed i ops signers (x ∷ xs) e is amounts =
      let o = intended_input config i x.spend in
      rw (signer-ok x is.0) (
        rw (index-drop signed.input_amounts i amounts) (
          rw
            (input_operation-intended kit config i (length ops) x.spend (unlocked x) is.0.spend refl
              e)
            (signed_inputs-ok signed (suc i) (ops ++ o ∷ [])
                (signers ++ record { address = x.spend.address } ∷ []) xs
                (omega (arith, length-append ops (o ∷ []))) is.1
                (drop-suc i signed.input_amounts amounts)
              ∙ pair_append)))
    where
      pair_append :
          ◌≡◌ {A = Outcome Error (List Operation × List AccountIdentifier)}
            (ok (
              (ops ++ intended_input config i x.spend ∷ [])
                  ++ intended_inputs config (suc i) (map (λ y. y.spend) xs),
              (signers ++ record { address = x.spend.address } ∷ []) ++ signers_of xs,
            ))
            (ok (
              ops ++ intended_inputs config i (map (λ y. y.spend) (x ∷ xs)),
              signers ++ signers_of (x ∷ xs),
            ))
      pair_append = rw (append_assoc, append_assoc) refl

  pub map_spend :
      (xs : List SignedSpend)
      → map (spent kit) (map (λ x. x.spend) xs) ≡ map (λ x. spent kit x.spend) xs
  map_spend [] = refl
  map_spend (x ∷ xs) = ap (λ ys. spent kit x.spend ∷ ys) (map_spend xs)

  pub map_of_spend :
      {B : Type 0} (f : Spend → B) (xs : List SignedSpend)
      → map f (map (λ x. x.spend) xs) ≡ map (λ x. f x.spend) xs
  map_of_spend f [] = refl
  map_of_spend f (x ∷ xs) = ap (λ ys. f x.spend ∷ ys) (map_of_spend f xs)

  pub map_amounts :
      (xs : List SignedSpend)
      → map format_int (map (λ x. x.spend.amount) xs) ≡ map (λ x. format_int x.spend.amount) xs
  map_amounts [] = refl
  map_amounts (x ∷ xs) = ap (λ ys. format_int x.spend.amount ∷ ys) (map_amounts xs)

  pub unlocked-InputFits :
      (xs : List SignedSpend)
      → IsFaithful kit config
      → All IsSigned xs
      → All InputFits (map unlocked xs)
  unlocked-InputFits [] faithful are = tt
  unlocked-InputFits (x ∷ xs) faithful are = (
    (
      are.0.spend.id_length, are.0.spend.id_bytes, are.0.spend.small, are.0.script_bytes,
      faithful.sequence,
    ),
    unlocked-InputFits xs faithful are.1,
  )
