-- ===== src/Services/Wiring.antt =====
-- What the services are given (`NewBlockchainRouter` of services/router.go, called by main.go): the
-- indexer, as the interface of services/types.go, and the client of thoughtd.
pub mod Balance
pub mod Payment
pub mod Block
use rosetta_thought.Outcome.{Outcome}
use rosetta_thought.Sdk.{Failure}
use rosetta_thought.Thought.Types.{Library}
use rosetta_thought.Thought.Rpc
use rosetta_thought.Thought.Rpc.{Wire, fetch_peers}
use rosetta_thought.Indexer.Queries
use rosetta_thought.Indexer.Queries.{Reads}
use rosetta_thought.Services.Interfaces.{Client, Indexer}

abbrev pub indexer_of : {Hash : Type 0} → Reads Hash → Indexer
indexer_of reads = record {
  get_block_lazy = Queries.get_block_lazy reads;
  get_block_transaction = Queries.get_block_transaction reads;
  get_coins = Queries.get_coins reads;
  get_script_pub_keys = Queries.get_script_pub_keys reads;
  get_balance = Queries.get_balance reads;
}

abbrev pub client_of : Library → Wire → Client
client_of lib wire = record {
  get_peers = fetch_peers wire lib;
  send_raw_transaction = Rpc.send_raw_transaction wire;
  suggested_fee_rate = Rpc.suggested_fee_rate wire;
  raw_mempool = Rpc.raw_mempool wire;
}
