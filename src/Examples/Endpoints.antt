-- ===== src/Examples/Endpoints.antt =====
-- Examples of the requests to thoughtd, of the endpoints and of the configuration.
use rosetta_thought.Prelude.{ℕ, ◌≡◌, refl, Option, none, some, List, [], ◌∷◌, if◌then◌else◌, ◌<◌}
use rosetta_thought.Prelude.Int.{pos, negsuc}
use rosetta_thought.Outcome.{ok, err, traverse}
use rosetta_thought.Text.{Text, codes, text_eq}
use rosetta_thought.Sdk
use rosetta_thought.Sdk.{
  Failure, PartialBlockIdentifier, BlockIdentifier, BlockResponse, Metadata, TransactionIdentifier,
  AccountIdentifier, plain,
}
use rosetta_thought.Thought.Types.{Block}
use rosetta_thought.Thought.RawBlock.{get_raw_block}
use rosetta_thought.Thought.Rpc.{
  Wire, Response, ResponseError, RequestMethod, fetch_raw_block, get_block, get_block_hash, send,
  block_response_err, post_request, text_param, int_param, block_verbosity,
  block_not_found_err_code,
}
use rosetta_thought.Thought.Rpc.Blame.{fetch_raw_block-blame}
use rosetta_thought.Configuration.{
  System, Configuration, mainnet_settings, load_configuration, load_mode, load_chain, load_port,
  atoi, online, offline, mainnet,
}
use rosetta_thought.Configuration.Load.{ModeOf, ChainOf, load_configuration-ok}
use rosetta_thought.Text.Decimal.{read_digits}
use rosetta_thought.Services.Interfaces.{Indexer}
use rosetta_thought.Services.Data.{block, fetch_transactions}
use rosetta_thought.Services.Data.Answers.{Complete, block-Fetched}

-- A thoughtd that knows no block.
abbrev unknown : Wire
unknown = record {
  exchange = λ r. ok (200, codes "no");
  decode_block = λ body. some (record {
    result = none;
    error = some (record { code = negsuc 4; message = codes "Block not found" });
  });
  decode_info = λ body. none;
  decode_peers = λ body. none;
  decode_text = λ body. none;
  decode_int = λ body. none;
  decode_texts = λ body. none;
  decode_fee_rate = λ body. none;
}

abbrev by_hash : Option PartialBlockIdentifier
by_hash = some (record { index = none; hash = some (codes "h") })

not_found : fetch_raw_block unknown by_hash ≡ err Failure.block_not_found
unfolding fetch_raw_block get_raw_block get_block get_block_hash send block_response_err
not_found = refl

fetch_raw_block-blame_example :
    (hash : Text) × (body : Text) × (response : Response (Option Block)) × (e : ResponseError)
    × (get_block_hash unknown by_hash ≡ ok hash)
    × (unknown.exchange
          (post_request RequestMethod.getblock (text_param hash ∷ int_param block_verbosity ∷ []))
        ≡ ok (200, body))
    × (unknown.decode_block body ≡ some response)
    × (response.error ≡ some e)
    × (e.code ≡ block_not_found_err_code)
fetch_raw_block-blame_example = fetch_raw_block-blame unknown (λ r h. cc) by_hash not_found

-- The environment variables of an offline mainnet server.
abbrev machine : System
machine = record {
  getenv = λ name.
      if text_eq name (codes "MODE")
      then codes "OFFLINE"
      else if text_eq name (codes "NETWORK")
      then mainnet
      else codes "8080";
  mkdir_all = λ path. none;
  join = λ a b. a;
}

abbrev loaded : Configuration
loaded = record {
  mode = offline;
  network = mainnet_settings.network;
  network_chain = mainnet_settings.network_chain;
  params = mainnet_settings.params;
  currency = mainnet_settings.currency;
  genesis_block_identifier = mainnet_settings.genesis_block_identifier;
  port = pos 8080;
  rpc_port = mainnet_settings.rpc_port;
  config_path = mainnet_settings.config_path;
  pruning = record { frequency_minutes = 60; depth = pos 10000; min_height = pos 100000 };
  indexer_path = [];
  thoughtd_path = [];
  compressors = mainnet_settings.compressors;
}

loads : load_configuration machine (codes "/data") ≡ ok loaded
unfolding load_configuration load_mode load_chain load_port atoi read_digits text_eq
loads = refl

load_configuration-ok_example :
    ModeOf machine (codes "/data") loaded
    × ChainOf machine loaded
    × ((n : ℕ) × (atoi (machine.getenv (codes "PORT")) ≡ some (pos n))
        × (loaded.port ≡ pos n)
        × (0 < n))
    × (loaded.pruning
        ≡ record { frequency_minutes = 60; depth = pos 10000; min_height = pos 100000 })
load_configuration-ok_example = load_configuration-ok machine (codes "/data") loaded loads

abbrev tx_of : Text → Sdk.Transaction
tx_of hash = record {
  transaction_identifier = record { hash = hash };
  operations = [];
  metadata = Metadata.empty;
}

abbrev stored_block : List Sdk.Transaction → Sdk.Block
stored_block txs = record {
  block_identifier = record { index = pos 1; hash = codes "h" };
  parent_block_identifier = record { index = pos 0; hash = codes "g" };
  timestamp = pos 3000;
  transactions = txs;
  metadata = Metadata.empty;
}

abbrev lazy : BlockResponse
lazy = record {
  block = stored_block [];
  other_transactions = record { hash = codes "a" } ∷ record { hash = codes "b" } ∷ [];
}

abbrev answered : BlockResponse
answered = record {
  block = stored_block (tx_of (codes "a") ∷ tx_of (codes "b") ∷ []);
  other_transactions = [];
}

abbrev indexer : Indexer
indexer = record {
  get_block_lazy = λ at. ok lazy;
  get_block_transaction = λ at tx. ok (tx_of tx.hash);
  get_coins = λ account. err plain;
  get_script_pub_keys = λ coins. err plain;
  get_balance = λ account currency at. err plain;
}

abbrev server : Configuration
server = record loaded { mode = online }

answers : block server indexer none ≡ ok answered
unfolding block fetch_transactions traverse
answers = refl

block-Fetched_example :
    (given : BlockResponse) × (indexer.get_block_lazy none ≡ ok given)
    × Complete server indexer given answered
block-Fetched_example = block-Fetched server indexer none answered answers
