-- ===== src/Thought/Types.antt =====
-- thought/types.go: the constants and the JSON structures of thoughtd. A pointer that JSON may leave
-- nil is an `Option`; the elements of a decoded slice are taken to be objects.
use rosetta_thought.Prelude.{true, false, ℕ, List, Option, Bool, [], ◌∷◌}
use rosetta_thought.Prelude.Int.{ℤ, pos}
use rosetta_thought.Text.{Text, codes}
use rosetta_thought.Sdk.{Float64, Metadata, BlockIdentifier, Currency}

abbrev pub input_op_type : Text
input_op_type = codes "INPUT"

abbrev pub output_op_type : Text
output_op_type = codes "OUTPUT"

abbrev pub coinbase_op_type : Text
coinbase_op_type = codes "COINBASE"

abbrev pub success_status : Text
success_status = codes "SUCCESS"

abbrev pub skipped_status : Text
skipped_status = codes "SKIPPED"

abbrev pub null_data : Text
null_data = codes "nulldata"

abbrev pub transaction_hash_length : ℕ
transaction_hash_length = 64

abbrev pub transaction_overhead : ℕ
transaction_overhead = 10

abbrev pub input_size : ℕ
input_size = 148

abbrev pub output_overhead : ℕ
output_overhead = 9

abbrev pub p2pkh_script_pubkey_size : ℕ
p2pkh_script_pubkey_size = 25

abbrev pub operation_types : List Text
operation_types = input_op_type ∷ output_op_type ∷ coinbase_op_type ∷ []

pub record OperationStatus : Type 0 where
  pub status : Text
  pub successful : Bool

abbrev pub operation_statuses : List OperationStatus
operation_statuses =
    record { status = success_status; successful = true }
    ∷ record { status = skipped_status; successful = false }
    ∷ []

pub record ScriptPubKey : Type 0 where
  pub asm : Text
  pub hex : Text
  pub required_sigs : ℤ
  pub type : Text
  pub addresses : List Text

pub record ScriptSig : Type 0 where
  pub asm : Text
  pub hex : Text

pub record BlockchainInfo : Type 0 where
  pub chain : Text
  pub blocks : ℤ
  pub best_block_hash : Text

pub record PeerInfo : Type 0 where
  pub addr : Text
  pub version : ℤ
  pub sub_ver : Text
  pub starting_height : ℤ
  pub relay_txes : Bool
  pub last_send : ℤ
  pub last_recv : ℤ
  pub ban_score : ℤ
  pub synced_blocks : ℤ
  pub synced_headers : ℤ

pub record Input : Type 0 where
  pub tx_hash : Text
  pub vout : ℤ
  pub script_sig : Option ScriptSig
  pub sequence : ℤ
  pub tx_in_witness : List Text
  pub coinbase : Text

pub record Output : Type 0 where
  pub value : Float64
  pub index : ℤ
  pub script_pub_key : Option ScriptPubKey

pub record Transaction : Type 0 where
  pub hex : Text
  pub hash : Text
  pub size : ℤ
  pub vsize : ℤ
  pub version : ℤ
  pub locktime : ℤ
  pub weight : ℤ
  pub inputs : List Input
  pub outputs : List Output

pub record Block : Type 0 where
  pub hash : Text
  pub height : ℤ
  pub previous_block_hash : Text
  pub time : ℤ
  pub median_time : ℤ
  pub nonce : ℤ
  pub merkle_root : Text
  pub version : ℤ
  pub size : ℤ
  pub weight : ℤ
  pub bits : Text
  pub difficulty : Float64
  pub cuckoo_proof : List ℤ
  pub txs : List Transaction

pub record BlockMetadata : Type 0 where
  pub nonce : ℤ
  pub merkle_root : Text
  pub version : ℤ
  pub size : ℤ
  pub weight : ℤ
  pub median_time : ℤ
  pub bits : Text
  pub difficulty : Float64
  pub cuckoo_proof : List ℤ

pub record TransactionMetadata : Type 0 where
  pub size : ℤ
  pub vsize : ℤ
  pub version : ℤ
  pub locktime : ℤ
  pub weight : ℤ

pub record OperationMetadata : Type 0 where
  pub coinbase : Text
  pub script_sig : Option ScriptSig
  pub sequence : ℤ
  pub tx_in_witness : List Text
  pub script_pub_key : Option ScriptPubKey

-- What `Metadata()` hands to `types.MarshalMap`.
unfoldable pub block_metadata : Block → BlockMetadata
block_metadata b = record {
  nonce = b.nonce;
  merkle_root = b.merkle_root;
  version = b.version;
  size = b.size;
  weight = b.weight;
  median_time = b.median_time;
  bits = b.bits;
  difficulty = b.difficulty;
  cuckoo_proof = b.cuckoo_proof;
}

unfoldable pub transaction_metadata : Transaction → TransactionMetadata
transaction_metadata t = record {
  size = t.size;
  vsize = t.vsize;
  version = t.version;
  locktime = t.locktime;
  weight = t.weight;
}

unfoldable pub input_metadata : Input → OperationMetadata
input_metadata i = record {
  coinbase = i.coinbase;
  script_sig = i.script_sig;
  sequence = i.sequence;
  tx_in_witness = i.tx_in_witness;
  script_pub_key = Option.none;
}

unfoldable pub output_metadata : Output → OperationMetadata
output_metadata o = record {
  coinbase = [];
  script_sig = Option.none;
  sequence = pos 0;
  tx_in_witness = [];
  script_pub_key = o.script_pub_key;
}

-- The fields of `Client` that the translation reads.
pub record Client : Type 0 where
  pub genesis_block_identifier : BlockIdentifier
  pub currency : Currency

-- What the translation calls outside the package: `types.MarshalMap` of rosetta-sdk-go at its four
-- types, `types.NegateValue` of rosetta-sdk-go, and `NewAmount` of thoughtd/util (`none`: an error).
pub record Library : Type 0 where
  pub marshal_block : BlockMetadata → Option Metadata
  pub marshal_transaction : TransactionMetadata → Option Metadata
  pub marshal_operation : OperationMetadata → Option Metadata
  pub marshal_peer : PeerInfo → Option Metadata
  pub negate_value : Text → Option Text
  pub new_amount : Float64 → Option ℤ
