-- ===== src/Services/Construction/Payloads/Intended.antt =====
-- What a payment is: the coins that it spends and the amounts that it pays, and its operations as
-- they are meant to come back.
use rosetta_thought.Prelude.{
  ℕ, suc, ◌<◌, ◌≡◌, ◌≢◌, ◌⊎◌, none, some, List, [], ◌∷◌, ◌++◌, length, map, All,
}
use rosetta_thought.Prelude.Int.{ℤ, pos, IsInt64}
use rosetta_thought.Text.{Text}
use rosetta_thought.Text.Decimal.{format_int}
use rosetta_thought.Text.Hex.{Bytes, IsBytes, encode_to_string, decode_string}
use rosetta_thought.Text.Split.{NoColon}
use rosetta_thought.Sdk.{Operation, Metadata, coin_spent}
use rosetta_thought.Thought.Types.{ScriptPubKey, input_op_type, output_op_type}
use rosetta_thought.Thought.Coin.{coin_identifier}
use rosetta_thought.Thought.Address.{ScriptClass, pub_key_hash}
use rosetta_thought.Configuration.{Configuration}
use rosetta_thought.Services.Interfaces.{UnsignedTransaction}
use rosetta_thought.Services.Construction.Toolkit.{Toolkit, MsgTx, TxIn, TxOut}

-- A coin that is spent: the operation, and what it names.
pub record Spend : Type 0 where
  pub operation : Operation
  pub address : Text
  pub amount : ℤ
  pub hash : Text
  pub id : Bytes
  pub vout : ℕ
  pub script_pub_key : ScriptPubKey
  pub script : Bytes

pub record Payment (Address : Type 0) : Type 0 where
  pub operation : Operation
  pub address : Text
  pub amount : ℤ
  pub addr : Address
  pub pk_script : Bytes

-- The hash is a `chainhash.Hash`, the numbers fit a uint32 or an int64, and scripts are bytes.
abbrev pub InputFits : TxIn → Type 0
InputFits i =
    (length i.previous_out_point.hash ≡ 32)
    × IsBytes i.previous_out_point.hash
    × (i.previous_out_point.index < 4294967296)
    × IsBytes i.signature_script
    × (i.sequence < 4294967296)

abbrev pub OutputFits : TxOut → Type 0
OutputFits o = IsInt64 o.value × IsBytes o.pk_script

module _ {Address : Type 0} (kit : Toolkit Address) (config : Configuration) where
  -- The operation has an account and names its coin by the canonical identifier of an output that
  -- pays to a public key hash.
  pub record IsSpend (s : Spend) : Type 0 where
    pub account : s.operation.account ≡ some (record { address = s.address })
    pub coin :
        s.operation.coin_change
        ≡ some (record {
          coin_identifier = record { identifier = coin_identifier s.hash (pos s.vout) };
          coin_action = coin_spent;
        })
    pub clean : NoColon s.hash
    pub long : length s.hash ≡ 64
    pub id_length : length s.id ≡ 32
    pub id_bytes : IsBytes s.id
    pub known : kit.new_hash_from_str s.hash ≡ some s.id
    pub printed : kit.hash_string s.id ≡ s.hash
    pub small : s.vout < 4294967296
    pub decoded : decode_string s.script_pub_key.hex ≡ some s.script
    pub single :
        (addr : Address) × (kit.extract_pk_script_addrs config.params s.script
          ≡ some (pub_key_hash, addr ∷ [], pos 1))

  -- The account's address has a script, from which the same address is read.
  pub record IsPayment (p : Payment Address) : Type 0 where
    pub account : p.operation.account ≡ some (record { address = p.address })
    pub decoded : kit.decode_address p.address config.params ≡ some p.addr
    pub pays : kit.pay_to_addr_script p.addr ≡ some p.pk_script
    pub back :
        (class : ScriptClass) × (addr : Address) × (kit.extract_pk_script_addrs config.params
            p.pk_script
          ≡ some (class, addr ∷ [], pos 1))
        × (kit.address_string addr ≡ p.address)
    pub fits : IsInt64 p.amount
    pub script_bytes : IsBytes p.pk_script

  -- A transaction that the wire format can hold.
  pub record IsWire (tx : MsgTx) : Type 0 where
    pub version : (tx.version ≡ kit.mainnet_tx_version) ⊎ (tx.version ≡ kit.testnet_tx_version)
    pub lock_time : tx.lock_time ≡ 0
    pub ins : All InputFits tx.tx_in
    pub outs : All OutputFits tx.tx_out

  -- What the wire format and the signature hash are relied on for. A transaction without inputs is left
  -- out: its serialization reads as that of another kind.
  pub record IsFaithful : Type 0 where
    pub serializes :
        (tx : MsgTx)
        → tx.tx_in ≢ []
        → IsWire tx
        → (bytes : Bytes) × (kit.serialize tx ≡ some bytes)
          × IsBytes bytes
          × (kit.deserialize bytes ≡ some tx)
    pub hashes :
        (script : Bytes) (addr : Address) (tx : MsgTx) (i : ℕ)
        → kit.extract_pk_script_addrs config.params script ≡ some (pub_key_hash, addr ∷ [], pos 1)
        → i < length tx.tx_in
        → (hash : Bytes) × (kit.calc_signature_hash script kit.sig_hash_all tx i ≡ some hash)
    pub fresh :
        (version : ℤ)
        → kit.new_msg_tx version
          ≡ record { version = version; tx_in = []; tx_out = []; lock_time = 0 }
    pub sequence : kit.max_tx_in_sequence_num < 4294967296

  -- The JSON of an unsigned transaction is read as it was written.
  abbrev pub Marshals : UnsignedTransaction → Type 0
  Marshals u =
      (bytes : Bytes) × (kit.marshal_unsigned u ≡ some bytes)
      × IsBytes bytes
      × (kit.unmarshal_unsigned bytes ≡ some u)

-- The unsigned transaction with the scripts of a request and the amounts and addresses of its coins.
abbrev pub unsigned_of : Bytes → List ScriptPubKey → List Spend → UnsignedTransaction
unsigned_of bytes scripts spends = record {
  transaction = encode_to_string bytes;
  script_pub_keys = scripts;
  input_amounts = map (λ s. format_int s.amount) spends;
  input_addresses = map (λ s. s.address) spends;
}

-- The input and the output of the transaction.
abbrev pub spent : {Address : Type 0} → Toolkit Address → Spend → TxIn
spent kit s = record {
  previous_out_point = record { hash = s.id; index = s.vout };
  signature_script = [];
  sequence = kit.max_tx_in_sequence_num;
}

abbrev pub paid : {Address : Type 0} → Payment Address → TxOut
paid p = record { value = p.amount; pk_script = p.pk_script }

-- The operations of a payment, numbered.
abbrev pub intended_input : Configuration → ℕ → Spend → Operation
intended_input config i s = record {
  operation_identifier = record { index = pos i; network_index = some (pos i) };
  type = input_op_type;
  status = none;
  account = s.operation.account;
  amount = some (record { value = format_int s.amount; currency = config.currency });
  coin_change = s.operation.coin_change;
  metadata = Metadata.empty;
}

abbrev pub intended_output :
    {Address : Type 0} → Configuration → ℕ → ℕ → Payment Address → Operation
intended_output config i network_index p = record {
  operation_identifier = record { index = pos i; network_index = some (pos network_index) };
  type = output_op_type;
  status = none;
  account = p.operation.account;
  amount = some (record { value = format_int p.amount; currency = config.currency });
  coin_change = none;
  metadata = Metadata.empty;
}

abbrev pub intended_inputs : Configuration → ℕ → List Spend → List Operation
intended_inputs config i [] = []
intended_inputs config i (s ∷ spends) =
    intended_input config i s ∷ intended_inputs config (suc i) spends

abbrev pub intended_outputs :
    {Address : Type 0} → Configuration → ℕ → ℕ → List (Payment Address) → List Operation
intended_outputs config i n [] = []
intended_outputs config i n (p ∷ payments) =
    intended_output config i n p ∷ intended_outputs config (suc i) (suc n) payments

-- The inputs first, then the outputs.
abbrev pub intended :
    {Address : Type 0} → Configuration → List Spend → List (Payment Address) → List Operation
intended config spends payments =
    intended_inputs config 0 spends
    ++ intended_outputs config (length (intended_inputs config 0 spends)) 0 payments
