-- ===== src/Configuration/Load.antt =====
-- When a configuration loads, and what it then holds.
use rosetta_thought.Prelude.{
  ℕ, ◌<◌, ◌≡◌, refl, sym, ◌⊎◌, inl, inr, none, some, [], ◌∷◌, Bool-cases, arith,
}
use rosetta_thought.Prelude.Int.{ℤ, pos}
use rosetta_thought.Outcome.{Outcome, ok, >>=-eq-ok}
use rosetta_thought.Text.{Text, codes, text_eq, text_eq_iff}
use rosetta_thought.Configuration.{
  online, offline, mainnet, testnet, mainnet_params, testnet_params, Params, Configuration, System,
  ModeSettings, ChainSettings, atoi, load_mode, load_chain, load_port, load_configuration,
}

-- The mode is what MODE says; online, both directories are those of the base directory and were made.
abbrev pub ModeOf : System → Text → Configuration → Type 0
ModeOf os base c =
    ((os.getenv (codes "MODE") ≡ codes "ONLINE")
      × (c.mode ≡ online)
      × (c.indexer_path ≡ os.join base (codes "indexer"))
      × (c.thoughtd_path ≡ os.join base (codes "thoughtd"))
      × (os.mkdir_all c.indexer_path ≡ none)
      × (os.mkdir_all c.thoughtd_path ≡ none))
    ⊎ ((os.getenv (codes "MODE") ≡ codes "OFFLINE")
        × (c.mode ≡ offline)
        × (c.indexer_path ≡ [])
        × (c.thoughtd_path ≡ []))

-- The fields of a configuration that depend on the network.
abbrev pub chain_of : Configuration → ChainSettings
chain_of c = record {
  network = c.network;
  network_chain = c.network_chain;
  params = c.params;
  currency = c.currency;
  genesis_block_identifier = c.genesis_block_identifier;
  rpc_port = c.rpc_port;
  config_path = c.config_path;
  compressors = c.compressors;
}

-- What the fields are for one network: its name for Rosetta and for the chain, its parameters, the
-- symbol of its currency, the port of thoughtd, and its files.
abbrev chain : Text → Text → Params → Text → ℕ → Text → Text → ChainSettings
chain name network_chain params symbol rpc_port config_path dictionary_path = record {
  network = record { blockchain = codes "Thought"; network = name };
  network_chain = network_chain;
  params = params;
  currency = record { symbol = symbol; decimals = pos 8 };
  genesis_block_identifier = record {
    index = pos 0;
    hash = codes "00000000917e049641189c33d6b1275155e89b7b498b3b4f16d488f60afe513b";
  };
  rpc_port = rpc_port;
  config_path = config_path;
  compressors = record { namespace = codes "transaction"; dictionary_path = dictionary_path } ∷ [];
}

-- The chain is what NETWORK says, with all that belongs to it.
abbrev pub ChainOf : System → Configuration → Type 0
ChainOf os c =
    ((os.getenv (codes "NETWORK") ≡ codes "MAINNET")
      × (chain_of c
          ≡ chain (codes "Mainnet") (codes "MAINNET") mainnet_params (codes "THT") 10617
              (codes "/app/thought-mainnet.conf") (codes "/app/mainnet-transaction.zstd")))
    ⊎ ((os.getenv (codes "NETWORK") ≡ codes "TESTNET")
        × (chain_of c
            ≡ chain (codes "Testnet3") (codes "TESTNET") testnet_params (codes "tTHT") 11617
                (codes "/app/thought-testnet.conf") (codes "/app/testnet-transaction.zstd")))

-- The configuration of these settings.
abbrev configured : ModeSettings → ChainSettings → ℤ → Configuration
configured m c port = record {
  mode = m.mode;
  network = c.network;
  network_chain = c.network_chain;
  params = c.params;
  currency = c.currency;
  genesis_block_identifier = c.genesis_block_identifier;
  port = port;
  rpc_port = c.rpc_port;
  config_path = c.config_path;
  pruning = record { frequency_minutes = 60; depth = pos 10000; min_height = pos 100000 };
  indexer_path = m.indexer_path;
  thoughtd_path = m.thoughtd_path;
  compressors = c.compressors;
}

mode-eq :
    (os : System) (base : Text) (m : ModeSettings)
    → load_mode os base ≡ ok m
    → ((os.getenv (codes "MODE") ≡ codes "ONLINE")
        × (m.mode ≡ online)
        × (m.indexer_path ≡ os.join base (codes "indexer"))
        × (m.thoughtd_path ≡ os.join base (codes "thoughtd"))
        × (os.mkdir_all m.indexer_path ≡ none)
        × (os.mkdir_all m.thoughtd_path ≡ none))
      ⊎ ((os.getenv (codes "MODE") ≡ codes "OFFLINE")
          × (m.mode ≡ offline)
          × (m.indexer_path ≡ [])
          × (m.thoughtd_path ≡ []))
unfolding load_mode
mode-eq os base m e = ground (
  arith,
  text_eq_iff (os.getenv (codes "MODE")) (codes "ONLINE"),
  text_eq_iff (os.getenv (codes "MODE")) (codes "OFFLINE"),
)

ok-inj : {E A : Type 0} {a b : A} → ◌≡◌ {A = Outcome E A} (ok a) (ok b) → a ≡ b
ok-inj e = cc

chain-eq :
    (os : System) (c : ChainSettings)
    → load_chain os ≡ ok c
    → ((os.getenv (codes "NETWORK") ≡ codes "MAINNET")
        × (c
            ≡ chain
                (codes "Mainnet")
                (codes "MAINNET")
                mainnet_params
                (codes "THT")
                10617
                (codes "/app/thought-mainnet.conf")
                (codes "/app/mainnet-transaction.zstd")))
      ⊎ ((os.getenv (codes "NETWORK") ≡ codes "TESTNET")
          × (c
              ≡ chain
                  (codes "Testnet3")
                  (codes "TESTNET")
                  testnet_params
                  (codes "tTHT")
                  11617
                  (codes "/app/thought-testnet.conf")
                  (codes "/app/testnet-transaction.zstd")))
unfolding load_chain
chain-eq os c e = elim (Bool-cases (text_eq (os.getenv (codes "NETWORK")) mainnet)) [
  | inl is_mainnet ↦ inl (
    (text_eq_iff (os.getenv (codes "NETWORK")) mainnet).0 is_mainnet,
    sym (ok-inj (rw is_mainnet at e)),
  )
  | inr not_mainnet ↦ elim (Bool-cases (text_eq (os.getenv (codes "NETWORK")) testnet)) [
    | inl is_testnet ↦ inr (
      (text_eq_iff (os.getenv (codes "NETWORK")) testnet).0 is_testnet,
      sym (ok-inj (rw is_testnet at (rw not_mainnet at e))),
    )
    | inr not_testnet ↦ absurd (let f = rw not_testnet at (rw not_mainnet at e) in cc)
  ]
]

port-eq :
    (os : System) (port : ℤ)
    → load_port os ≡ ok port
    → (n : ℕ) × (atoi (os.getenv (codes "PORT")) ≡ some (pos n)) × (port ≡ pos n) × (0 < n)
unfolding load_port
port-eq os (pos n) e = (n, ground arith, refl, ground arith)
port-eq os (ℤ.negsuc n) e = absurd (ground arith)

-- A configuration that loads has the mode of MODE, with the directories of the base directory made
-- if it is online and none if it is offline; NETWORK names one of the two networks, and the network,
-- currency, genesis block, parameters, port of thoughtd, files and compressors are those of that
-- network; the port is the positive number that PORT spells; the pruning settings are fixed.
pub load_configuration-ok :
    (os : System) (base : Text) (c : Configuration)
    → load_configuration os base ≡ ok c
    → ModeOf os base c
      × ChainOf os c
      × ((n : ℕ) × (atoi (os.getenv (codes "PORT")) ≡ some (pos n)) × (c.port ≡ pos n) × (0 < n))
      × (c.pruning ≡ record { frequency_minutes = 60; depth = pos 10000; min_height = pos 100000 })
unfolding load_configuration
load_configuration-ok os base c e =
    let (m, got_mode, rest) = >>=-eq-ok (load_mode os base) _ e in
    let (s, got_chain, rest') = >>=-eq-ok (load_chain os) _ rest in
    let (port, got_port, last) = >>=-eq-ok (load_port os) _ rest' in
    let (n, spelled, is, positive) = port-eq os port got_port in
    let is_c : configured m s port ≡ c = cc in
    (
      rw (← is_c) (mode-eq os base m got_mode),
      rw (← is_c) (chain-eq os s got_chain),
      rw (← is_c) (n, spelled, is, positive),
      rw (← is_c) refl,
    )
