-- ===== src/Configuration.antt =====
-- configuration/configuration.go: the configuration that the environment variables choose.
pub mod Load
use rosetta_thought.Prelude.{
  ℕ, zero, suc, ◌+◌, ◌-◌, ◌*◌, ◌≡◌, Bool, true, false, ◌&&◌, Option, none, some, List, [], ◌∷◌, ltb,
  leb, ◌==◌, if◌then◌else◌,
}
use rosetta_thought.Prelude.Int.{ℤ, pos, negsuc, leb_ℤ}
use rosetta_thought.Outcome.{Outcome, ok, err, panic, ◌>>=◌, ◌>>◌}
use rosetta_thought.Text.{Text, codes, text_eq}
use rosetta_thought.Text.Decimal.{read_digits}
use rosetta_thought.Sdk.{Failure, plain, foreign, Currency, NetworkIdentifier, BlockIdentifier}

pub data Mode : Type 0 where
  online offline : Mode

-- Which of the two `chaincfg.Params` of thoughtd is used.
pub data Params : Type 0 where
  mainnet_params testnet_params : Params

abbrev pub mainnet : Text
mainnet = codes "MAINNET"

abbrev pub testnet : Text
testnet = codes "TESTNET"

pub record PruningConfiguration : Type 0 where
  pub frequency_minutes : ℕ
  pub depth : ℤ
  pub min_height : ℤ

pub record CompressorEntry : Type 0 where
  pub namespace : Text
  pub dictionary_path : Text

pub record Configuration : Type 0 where
  pub mode : Mode
  pub network : NetworkIdentifier
  pub network_chain : Text
  pub params : Params
  pub currency : Currency
  pub genesis_block_identifier : BlockIdentifier
  pub port : ℤ
  pub rpc_port : ℕ
  pub config_path : Text
  pub pruning : PruningConfiguration
  pub indexer_path : Text
  pub thoughtd_path : Text
  pub compressors : List CompressorEntry

-- The operating system: `os.Getenv`, `os.MkdirAll` and `path.Join`.
pub record System : Type 0 where
  pub getenv : Text → Text
  pub mkdir_all : Text → Option Failure
  pub join : Text → Text → Text

unfoldable pub ensure_path_exists : System → Text → Outcome Failure (Unit {0})
ensure_path_exists os path = elim (os.mkdir_all path) [ none ↦ ok tt | some e ↦ err e ]

-- `strconv.Atoi`: a sign and digits, within int64.
abbrev signed : Bool → Option ℕ → Option ℤ
signed negative none = none
signed false (some n) = if ltb n 9223372036854775808 then some (pos n) else none
signed true (some zero) = some (pos 0)
signed true (some (suc n)) = if ltb n 9223372036854775808 then some (negsuc n) else none

abbrev digits_of : Text → Option ℕ
digits_of [] = none
digits_of (c ∷ s) = read_digits 0 (c ∷ s)

unfoldable pub atoi : Text → Option ℤ
atoi [] = none
atoi (c ∷ s) =
    if c == b'-'
    then signed true (digits_of s)
    else if c == b'+'
    then signed false (digits_of s)
    else signed false (digits_of (c ∷ s))

pub record ModeSettings : Type 0 where
  pub mode : Mode
  pub indexer_path : Text
  pub thoughtd_path : Text

-- The switch on MODE.
unfoldable pub load_mode : System → Text → Outcome Failure ModeSettings
unfolding ensure_path_exists
load_mode os base =
    let value = os.getenv (codes "MODE") in
    if text_eq value (codes "ONLINE")
    then (do
      let indexer = os.join base (codes "indexer")
      ensure_path_exists os indexer
      let thoughtd = os.join base (codes "thoughtd")
      ensure_path_exists os thoughtd
      ok (record { mode = online; indexer_path = indexer; thoughtd_path = thoughtd }))
    else if text_eq value (codes "OFFLINE")
    then ok (record { mode = offline; indexer_path = []; thoughtd_path = [] })
    else err plain

pub record ChainSettings : Type 0 where
  pub network : NetworkIdentifier
  pub network_chain : Text
  pub params : Params
  pub currency : Currency
  pub genesis_block_identifier : BlockIdentifier
  pub rpc_port : ℕ
  pub config_path : Text
  pub compressors : List CompressorEntry

abbrev pub genesis : BlockIdentifier
genesis = record {
  index = pos 0;
  hash = codes "00000000917e049641189c33d6b1275155e89b7b498b3b4f16d488f60afe513b";
}

-- The two cases of the switch on NETWORK that succeed.
abbrev pub mainnet_settings : ChainSettings
mainnet_settings = record {
  network = record { blockchain = codes "Thought"; network = codes "Mainnet" };
  network_chain = mainnet;
  params = mainnet_params;
  currency = record { symbol = codes "THT"; decimals = pos 8 };
  genesis_block_identifier = genesis;
  rpc_port = 10617;
  config_path = codes "/app/thought-mainnet.conf";
  compressors =
      record {
        namespace = codes "transaction";
        dictionary_path = codes "/app/mainnet-transaction.zstd";
      }
      ∷ [];
}

abbrev pub testnet_settings : ChainSettings
testnet_settings = record {
  network = record { blockchain = codes "Thought"; network = codes "Testnet3" };
  network_chain = testnet;
  params = testnet_params;
  currency = record { symbol = codes "tTHT"; decimals = pos 8 };
  genesis_block_identifier = genesis;
  rpc_port = 11617;
  config_path = codes "/app/thought-testnet.conf";
  compressors =
      record {
        namespace = codes "transaction";
        dictionary_path = codes "/app/testnet-transaction.zstd";
      }
      ∷ [];
}

unfoldable pub load_chain : System → Outcome Failure ChainSettings
load_chain os =
    let value = os.getenv (codes "NETWORK") in
    if text_eq value mainnet
    then ok mainnet_settings
    else if text_eq value testnet
    then ok testnet_settings
    else err plain

unfoldable pub load_port : System → Outcome Failure ℤ
load_port os = elim (atoi (os.getenv (codes "PORT"))) [
  | none ↦ err (foreign 5)
  | some port ↦ if leb_ℤ port (pos 0) then err plain else ok port
]

unfoldable pub load_configuration : System → Text → Outcome Failure Configuration
load_configuration os base = do
  m ← load_mode os base
  c ← load_chain os
  port ← load_port os
  ok (record {
    mode = m.mode;
    network = c.network;
    network_chain = c.network_chain;
    params = c.params;
    currency = c.currency;
    genesis_block_identifier = c.genesis_block_identifier;
    port = port;
    rpc_port = c.rpc_port;
    config_path = c.config_path;
    pruning = record { frequency_minutes = 60; depth = pos 10000; min_height = pos 100000 };
    indexer_path = m.indexer_path;
    thoughtd_path = m.thoughtd_path;
    compressors = c.compressors;
  })
