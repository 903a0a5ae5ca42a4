-- ===== src/Examples.antt =====
-- Concrete data that the examples share: a library, a client and a block of two transactions.
pub mod Blocks
pub mod Goroutines
pub mod Waits
pub mod CoinMap
pub mod Schedule
pub mod Ledger
pub mod Retries
pub mod Endpoints
pub mod Codec
pub mod Json
pub mod Wallet
pub mod Requests
pub mod Payments
pub mod Mined
pub mod Queries
pub mod Node
pub mod Served
use rosetta_thought.Prelude.{ℕ, Option, none, some, List, [], ◌∷◌, Bool}
use rosetta_thought.Prelude.Int.{ℤ, pos}
use rosetta_thought.Map.{Map}
use rosetta_thought.Text.{Text, codes}
use rosetta_thought.Sdk
use rosetta_thought.Sdk.{AccountCoin, Metadata, BlockIdentifier, Currency}
use rosetta_thought.Thought.Types.{ScriptPubKey, Input, Output, Transaction, Block, Client, Library}

abbrev pub lib : Library
lib = record {
  marshal_block = λ b. some Metadata.empty;
  marshal_transaction = λ t. some Metadata.empty;
  marshal_operation = λ o. some Metadata.empty;
  marshal_peer = λ p. some Metadata.empty;
  negate_value = λ v. some (b'-' ∷ v);
  new_amount = λ f. some (pos f);
}

abbrev pub genesis : BlockIdentifier
genesis = record { index = pos 0; hash = codes "g" }

abbrev pub client : Client
client = record {
  genesis_block_identifier = genesis;
  currency = record { symbol = codes "THT"; decimals = pos 8 };
}

abbrev pub spend : Text → ℤ → Input
spend hash vout = record {
  tx_hash = hash;
  vout = vout;
  script_sig = none;
  sequence = pos 0;
  tx_in_witness = [];
  coinbase = [];
}

abbrev pub coinbase : Input
coinbase = record {
  tx_hash = [];
  vout = pos 0;
  script_sig = none;
  sequence = pos 0;
  tx_in_witness = [];
  coinbase = codes "c";
}

abbrev pub pay : ℕ → ℤ → Output
pay value index = record {
  value = value;
  index = index;
  script_pub_key = some (record {
    asm = [];
    hex = codes "76a9";
    required_sigs = pos 1;
    type = codes "pubkeyhash";
    addresses = codes "3x" ∷ [];
  });
}

abbrev transaction : Text → List Input → List Output → Transaction
transaction hash inputs outputs = record {
  hex = [];
  hash = hash;
  size = pos 100;
  vsize = pos 100;
  version = pos 1;
  locktime = pos 0;
  weight = pos 400;
  inputs = inputs;
  outputs = outputs;
}

abbrev pub first_tx : Transaction
first_tx = transaction (codes "a") (coinbase ∷ []) (pay 50 (pos 0) ∷ [])

-- It spends the output of the first one and an output of an earlier block.
abbrev pub second_tx : Transaction
second_tx =
    transaction (codes "b") (spend (codes "a") (pos 0) ∷ spend (codes "z") (pos 1) ∷ [])
      (pay 40 (pos 0) ∷ pay 12 (pos 1) ∷ [])

abbrev pub two_txs : Block
two_txs = record {
  hash = codes "h";
  height = pos 1;
  previous_block_hash = codes "g";
  time = pos 3;
  median_time = pos 3;
  nonce = pos 0;
  merkle_root = [];
  version = pos 1;
  size = pos 300;
  weight = pos 1200;
  bits = [];
  difficulty = 0;
  cuckoo_proof = [];
  txs = first_tx ∷ second_tx ∷ [];
}

abbrev pub earlier_coin : AccountCoin
earlier_coin = record {
  account = some (record { address = codes "3y" });
  coin = record {
    coin_identifier = record { identifier = codes "z:1" };
    amount = some (record { value = codes "5"; currency = client.currency });
  };
}

abbrev pub earlier_coins : Map AccountCoin
earlier_coins = (codes "z:1", earlier_coin) ∷ []
