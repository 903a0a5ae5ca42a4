-- ===== src/Services/Construction/Toolkit.antt =====
-- What services/construction_service.go uses of thoughtd/wire, thoughtd/txscript, thoughtd/util,
-- thoughtd/thtec, secp256k1, encoding/json and rosetta-sdk-go: the types with the fields that it
-- sets and reads, and the functions as one record.
use rosetta_thought.Prelude.{ℕ, Bool, Option, none, some, List, [], ◌∷◌, ◌++◌, get_elem?}
use rosetta_thought.Prelude.Int.{ℤ}
use rosetta_thought.Outcome.{Outcome, ok, err, deref}
use rosetta_thought.Text.{Text}
use rosetta_thought.Text.Hex.{Bytes}
use rosetta_thought.Sdk.{foreign, Metadata, Operation, Currency, CoinAction}
use rosetta_thought.Thought.Address.{ScriptClass}
use rosetta_thought.Configuration.{Params}
use rosetta_thought.Services.Errors.{Error, ErrorName, wrap_err}
use rosetta_thought.Services.Interfaces.{
  UnsignedTransaction, PreprocessOptions, ConstructionMetadata, SignedTransaction,
}

-- `chainhash.Hash`: its bytes.
pub record OutPoint : Type 0 where
  pub hash : Bytes
  pub index : ℕ

pub record TxIn : Type 0 where
  pub previous_out_point : OutPoint
  pub signature_script : Bytes
  pub sequence : ℕ

pub record TxOut : Type 0 where
  pub value : ℤ
  pub pk_script : Bytes

pub record MsgTx : Type 0 where
  pub version : ℤ
  pub tx_in : List TxIn
  pub tx_out : List TxOut
  pub lock_time : ℕ

-- `AddTxIn` and `AddTxOut`.
abbrev pub add_tx_in : TxIn → MsgTx → MsgTx
add_tx_in input tx = record tx { tx_in = tx.tx_in ++ input ∷ [] }

abbrev pub add_tx_out : TxOut → MsgTx → MsgTx
add_tx_out output tx = record tx { tx_out = tx.tx_out ++ output ∷ [] }

-- `parser.Descriptions`: an operation has an account and an amount of one sign and currency.
pub data AmountSign : Type 0 where
  negative_amount positive_amount : AmountSign

pub record OperationDescription : Type 0 where
  pub type : Text
  pub account_exists : Bool
  pub amount_exists : Bool
  pub amount_sign : AmountSign
  pub currency : Currency
  pub coin_action : Option CoinAction
  pub allow_repeats : Bool

pub record Descriptions : Type 0 where
  pub operation_descriptions : List OperationDescription
  pub err_unmatched : Bool

-- `parser.Match`: the operations that fit a description, with their amounts (nil without one).
pub record Match : Type 0 where
  pub operations : List Operation
  pub amounts : List (Option ℤ)

-- `Address` is `util.Address`. A function that may fail returns an option.
pub record Toolkit (Address : Type 0) : Type 0 where
  -- rosetta-sdk-go
  pub match_operations : Descriptions → List Operation → Option (List Match)
  pub marshal_options : PreprocessOptions → Option Metadata
  pub unmarshal_options : Metadata → Option PreprocessOptions
  pub marshal_metadata : ConstructionMetadata → Option Metadata
  pub unmarshal_metadata : Metadata → Option ConstructionMetadata
  -- encoding/json
  pub marshal_unsigned : UnsignedTransaction → Option Bytes
  pub unmarshal_unsigned : Bytes → Option UnsignedTransaction
  pub marshal_signed : SignedTransaction → Option Bytes
  pub unmarshal_signed : Bytes → Option SignedTransaction
  -- thoughtd/chaincfg and thoughtd/util
  pub new_hash_from_str : Text → Option Bytes
  pub hash_string : Bytes → Text
  pub hash160 : Bytes → Bytes
  pub new_address_pub_key_hash : Bytes → Params → Option Address
  pub decode_address : Text → Params → Option Address
  pub encode_address : Address → Text
  pub address_string : Address → Text
  pub new_tx_from_bytes : Bytes → Option MsgTx
  pub tx_hash : MsgTx → Bytes
  -- thoughtd/txscript
  pub pay_to_addr_script : Address → Option Bytes
  pub extract_pk_script_addrs : Params → Bytes → Option (ScriptClass × List Address × ℤ)
  pub calc_signature_hash : Bytes → ℕ → MsgTx → ℕ → Option Bytes
  pub compute_pk_script : Bytes → Option Bytes
  pub script_of_data : List Bytes → Option Bytes
  pub sig_hash_all : ℕ
  -- thoughtd/wire
  pub new_msg_tx : ℤ → MsgTx
  pub mainnet_tx_version : ℤ
  pub testnet_tx_version : ℤ
  pub max_tx_in_sequence_num : ℕ
  pub serialize : MsgTx → Option Bytes
  pub deserialize : Bytes → Option MsgTx
  -- secp256k1 and thoughtd/thtec: whether the bytes overflowed the scalar, and the DER form of R and S
  pub set_byte_slice : Bytes → ℕ × Bool
  pub serialize_signature : ℕ → ℕ → Bytes

-- `if err != nil { return nil, wrapErr(name, err) }` after a call of the toolkit.
abbrev pub or_wrap_foreign {ℓ} : {A : Type ℓ} → ErrorName → Option A → Outcome Error A
or_wrap_foreign name none = err (wrap_err name (some (foreign 8)))
or_wrap_foreign name (some a) = ok a

-- `xs[i]`.
abbrev pub index {ℓ} : {E : Type 0} {A : Type ℓ} → List A → ℕ → Outcome E A
index xs i = deref (get_elem? xs i)

-- `hex.DecodeString` and `json.Unmarshal` of what one endpoint hands to another, both wrapped alike.
abbrev pub decode_intermediate {ℓ} :
    {A : Type ℓ} → (Bytes → Option A) → Option Bytes → Outcome Error A
decode_intermediate unmarshal none =
    err (wrap_err ErrorName.unable_to_parse_intermediate_result (some (foreign 8)))
decode_intermediate unmarshal (some bytes) =
    or_wrap_foreign ErrorName.unable_to_parse_intermediate_result (unmarshal bytes)
