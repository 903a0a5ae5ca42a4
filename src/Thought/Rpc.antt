-- ===== src/Thought/Rpc.antt =====
-- The JSON-RPC requests of thought/client.go and the responses of thought/types.go. The HTTP client
-- and the JSON decoder are parameters; the rest of `post`, `get` and the requests is here.
pub mod Blame
use rosetta_thought.Prelude.{
  ℕ, Bool, true, false, Option, none, some, List, [], ◌∷◌, ◌==◌, if◌then◌else◌,
}
use rosetta_thought.Prelude.Int.{ℤ, pos, negsuc, eqb_ℤ}
use rosetta_thought.Outcome.{Outcome, ok, err, ◌>>=◌, deref}
use rosetta_thought.Text.{Text, codes}
use rosetta_thought.Sdk
use rosetta_thought.Sdk.{
  Failure, Json, plain, foreign, json_rpc_error, Float64, PartialBlockIdentifier, NetworkStatus,
  Peer,
}
use rosetta_thought.Thought.Types.{Block, BlockchainInfo, PeerInfo, Client, Library}
use rosetta_thought.Thought.BlockData.{get_peers, network_status}
use rosetta_thought.Thought.RawBlock.{get_raw_block}

-- The request methods of thoughtd.
pub data RequestMethod : Type 0 where
  getblock getblockhash getblockchaininfo getpeerinfo : RequestMethod
  pruneblockchain sendrawtransaction estimatesmartfee getrawmempool : RequestMethod

-- An entry of `Params []interface{}`.
pub data Param : Type 0 where
  text_param : Text → Param
  int_param : ℤ → Param
  bool_param : Bool → Param

-- The body of a request; `get` leaves the parameters nil.
pub record Request : Type 0 where
  pub json_rpc : Text
  pub id : ℤ
  pub method : RequestMethod
  pub params : Option (List Param)

pub record ResponseError : Type 0 where
  pub code : ℤ
  pub message : Text

pub record Response (A : Type 0) : Type 0 where
  pub result : A
  pub error : Option ResponseError

abbrev pub json_rpc_version : Text
json_rpc_version = codes "2.0"

abbrev pub request_id : ℤ
request_id = pos 1

abbrev pub block_verbosity : ℤ
block_verbosity = pos 2

abbrev pub block_not_found_err_code : ℤ
block_not_found_err_code = negsuc 4

-- `Err()` of every response but that to `getblock`.
unfoldable pub response_err : Option ResponseError → Option Failure
response_err none = none
response_err (some e) = some json_rpc_error

-- `Err()` of `blockResponse`.
unfoldable pub block_response_err : Option ResponseError → Option Failure
block_response_err none = none
block_response_err (some e) =
    if eqb_ℤ e.code block_not_found_err_code
    then some Failure.block_not_found
    else some json_rpc_error

-- The HTTP client: the status and the body that a request got; and `json.Decode` of each response.
-- A result that a pointer holds may be `null`.
pub record Wire : Type 0 where
  pub exchange : Request → Outcome Failure (ℕ × Text)
  pub decode_block : Text → Option (Response (Option Block))
  pub decode_info : Text → Option (Response (Option BlockchainInfo))
  pub decode_peers : Text → Option (Response (List PeerInfo))
  pub decode_text : Text → Option (Response Text)
  pub decode_int : Text → Option (Response ℤ)
  pub decode_texts : Text → Option (Response (List Text))
  pub decode_fee_rate : Text → Option (Response (Option Float64))

abbrev result_or : {A : Type 0} → Option Failure → A → Outcome Failure A
result_or none result = ok result
result_or (some e) result = err e

abbrev pub read_response :
    {A : Type 0} → (Option ResponseError → Option Failure) → Option (Response A) → Outcome Failure A
read_response err_of none = err (foreign 3)
read_response err_of (some response) = result_or (err_of response.error) response.result

-- What `post` and `get` do once the request is built.
unfoldable pub send :
    {A : Type 0}
    → Wire
    → (Text → Option (Response A))
    → (Option ResponseError → Option Failure)
    → Request
    → Outcome Failure A
send wire decode err_of rpc_request = do
  (status, body) ← wire.exchange rpc_request
  if status == 200 then read_response err_of (decode body) else err plain

abbrev pub post_request : RequestMethod → List Param → Request
post_request method params = record {
  json_rpc = json_rpc_version;
  id = request_id;
  method = method;
  params = some params;
}

abbrev pub get_request : RequestMethod → Request
get_request method = record {
  json_rpc = json_rpc_version;
  id = request_id;
  method = method;
  params = none;
}

module _ (wire : Wire) where
  unfoldable pub send_raw_transaction : Text → Outcome Failure Text
  send_raw_transaction serialized_tx = send wire wire.decode_text response_err (
      post_request sendrawtransaction
        (text_param serialized_tx ∷ bool_param true ∷ bool_param false ∷ bool_param true ∷ []))

  -- A `null` result is dereferenced.
  unfoldable pub suggested_fee_rate : ℤ → Outcome Failure Float64
  suggested_fee_rate conf_target = do
    result ←
        send wire wire.decode_fee_rate response_err
          (post_request estimatesmartfee (int_param conf_target ∷ []))
    deref result

  unfoldable pub prune_blockchain : ℤ → Outcome Failure ℤ
  prune_blockchain height =
      send wire wire.decode_int response_err (post_request pruneblockchain (int_param height ∷ []))

  unfoldable pub raw_mempool : Outcome Failure (List Text)
  raw_mempool =
      send wire wire.decode_texts response_err (post_request getrawmempool (bool_param false ∷ []))

  unfoldable pub get_peer_info : Outcome Failure (List PeerInfo)
  get_peer_info = send wire wire.decode_peers response_err (get_request getpeerinfo)

  unfoldable pub get_blockchain_info : Outcome Failure (Option BlockchainInfo)
  get_blockchain_info = send wire wire.decode_info response_err (get_request getblockchaininfo)

  unfoldable pub get_hash_from_index : ℤ → Outcome Failure Text
  get_hash_from_index index =
      send wire wire.decode_text response_err (post_request getblockhash (int_param index ∷ []))

  -- The hash of the best block.
  abbrev best_block_hash : Outcome Failure Text
  best_block_hash = do result ← get_blockchain_info; info ← deref result; ok info.best_block_hash

  abbrev hash_of : Option ℤ → Option Text → Outcome Failure Text
  hash_of none none = best_block_hash
  hash_of none (some hash) = ok hash
  hash_of (some index) (some hash) = ok hash
  hash_of (some index) none = get_hash_from_index index

  unfoldable pub get_block_hash : Option PartialBlockIdentifier → Outcome Failure Text
  get_block_hash none = best_block_hash
  get_block_hash (some identifier) = hash_of identifier.index identifier.hash

  unfoldable pub get_block : Option PartialBlockIdentifier → Outcome Failure (Option Block)
  get_block identifier = do
    hash ← get_block_hash identifier
    send wire wire.decode_block block_response_err
        (post_request getblock (text_param hash ∷ int_param block_verbosity ∷ []))

  -- `GetRawBlock`, `GetPeers` and `NetworkStatus` with the requests that they make.
  unfoldable pub fetch_raw_block :
      Option PartialBlockIdentifier → Outcome Failure (Block × List Text)
  fetch_raw_block identifier = get_raw_block (get_block identifier)

  unfoldable pub fetch_peers : Library → Outcome Failure (List Peer)
  fetch_peers lib = get_peers lib get_peer_info

  unfoldable pub fetch_network_status : Library → Client → Outcome Failure NetworkStatus
  fetch_network_status lib client = network_status lib client (get_block none) get_peer_info
