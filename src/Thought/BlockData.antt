-- ===== src/Thought/BlockData.antt =====
-- `parseBlockData` of thought/client.go, and `NetworkStatus` and `GetPeers`, which need no more.
use rosetta_thought.Prelude.{
  ◌≡◌, Option, none, some, List, [], if◌then◌else◌, arith, ◌<◌, ◌^◌, ℕ, ◌+◌,
}
use rosetta_thought.Prelude.Int.{ℤ, pos, ◌-ℤ◌, ◌*ℤ◌, eqb_ℤ, int64, IsInt64}
use rosetta_thought.Outcome.{Outcome, ok, err, ◌>>=◌, or_err, traverse}
use rosetta_thought.Sdk
use rosetta_thought.Sdk.{Failure, plain, foreign, BlockIdentifier, Peer, NetworkStatus}
use rosetta_thought.Thought.Types.{Block, PeerInfo, Client, Library, block_metadata}

abbrev pub genesis_block_index : ℤ
genesis_block_index = pos 0

abbrev pub time_multiplier : ℤ
time_multiplier = pos 1000

-- The parent: a block at the genesis height is its own.
unfoldable pub parent_block_identifier : Block → BlockIdentifier
parent_block_identifier block =
    if eqb_ℤ block.height genesis_block_index
    then record { index = genesis_block_index; hash = block.hash }
    else record { index = int64 (block.height -ℤ pos 1); hash = block.previous_block_hash }

module _ (lib : Library) where
  unfoldable pub parse_block_data : Option Block → Outcome Failure Sdk.Block
  unfolding parent_block_identifier
  parse_block_data none = err plain
  parse_block_data (some block) = do
    metadata ← or_err (foreign 2) (lib.marshal_block (block_metadata block))
    ok (record {
      block_identifier = record { index = block.height; hash = block.hash };
      parent_block_identifier = parent_block_identifier block;
      timestamp = int64 (block.time *ℤ time_multiplier);
      transactions = [];
      metadata = metadata;
    })

  unfoldable pub parse_peer : PeerInfo → Outcome Failure Peer
  parse_peer info = do
    metadata ← or_err (foreign 2) (lib.marshal_peer info)
    ok (record { peer_id = info.addr; metadata = metadata })

  -- `get_peer_info` is what the `getpeerinfo` request came to.
  unfoldable pub get_peers : Outcome Failure (List PeerInfo) → Outcome Failure (List Peer)
  unfolding parse_peer
  get_peers get_peer_info = do info ← get_peer_info; traverse parse_peer info

  -- `get_block` is what the `getblock` request for the best block came to.
  unfoldable pub network_status :
      Client
      → Outcome Failure (Option Block)
      → Outcome Failure (List PeerInfo)
      → Outcome Failure NetworkStatus
  network_status client get_block get_peer_info = do
    raw_block ← get_block
    current_block ← parse_block_data raw_block
    peers ← get_peers get_peer_info
    ok (record {
      current_block_identifier = current_block.block_identifier;
      current_block_timestamp = current_block.timestamp;
      genesis_block_identifier = client.genesis_block_identifier;
      peers = peers;
    })

-- A raw block and its parsed form, for a height that int64 holds and that is not negative: the
-- height and hash are kept, the genesis block is its own parent, any other block's parent is the
-- block one lower that its header names, and no transaction is there yet.
pub record Describes (raw : Block) (parsed : Sdk.Block) : Type 0 where
  pub same_height : parsed.block_identifier.index ≡ raw.height
  pub same_hash : parsed.block_identifier.hash ≡ raw.hash
  pub genesis_parent : raw.height ≡ pos 0 → parsed.parent_block_identifier ≡ parsed.block_identifier
  pub later_parent :
      (n : ℕ)
      → raw.height ≡ pos (n + 1)
      → parsed.parent_block_identifier ≡ record { index = pos n; hash = raw.previous_block_hash }
  pub no_transactions : parsed.transactions ≡ []

height_before : (n : ℕ) → n + 1 < 2 ^ 63 → int64 (pos (n + 1) -ℤ pos 1) ≡ pos n
unfolding ◌-ℤ◌ int64
height_before n h = ground arith

module _ (lib : Library) where
  -- A block that is parsed, at a height that int64 holds, has the height and the hash of the raw
  -- block and no transactions yet; its parent is itself at the genesis height, and the block that
  -- the header names, one lower, at any height above.
  pub parse_block_data-Describes :
      (raw : Block) (parsed : Sdk.Block)
      → IsInt64 raw.height
      → parse_block_data lib (some raw) ≡ ok parsed
      → Describes raw parsed
  unfolding parse_block_data
  parse_block_data-Describes raw parsed bound h = record {
    same_height = ground arith;
    same_hash = ground arith;
    genesis_parent = ground arith;
    later_parent = λ n e. ground (arith, height_before n);
    no_transactions = ground arith;
  }
