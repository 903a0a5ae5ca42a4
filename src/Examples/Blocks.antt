-- ===== src/Examples/Blocks.antt =====
-- Examples of the translation of blocks and of coin identifiers.
use rosetta_thought.Prelude.{
  map, Bool-cases, inl, inr, All, arith, ℕ, ◌≡◌, refl, Option, some, List, [], ◌∷◌, arith, length,
  ◌+◌,
}
use rosetta_thought.Prelude.Int.{ℤ, pos, int64, ◌-ℤ◌, ◌*ℤ◌, ◌+ℤ◌}
use rosetta_thought.Map.{Map, lookup}
use rosetta_thought.Outcome.{ok}
use rosetta_thought.Text.{Text, codes, text_eq}
use rosetta_thought.Text.Split.{NoColon, no_colon-NoColon}
use rosetta_thought.Text.Decimal.{format_int}
use rosetta_thought.Sdk
use rosetta_thought.Sdk.{AccountCoin, Operation, Metadata, previous_tx_missing}
use rosetta_thought.Thought.Coin.{
  coin_identifier, parse_coin_identifier, parse_coin_identifier-coin_identifier,
}
use rosetta_thought.Thought.RawBlock.{get_raw_block, block_coins, input_coins, contains_string}
use rosetta_thought.Thought.BlockData.{
  parse_block_data, Describes, parse_block_data-Describes, parent_block_identifier,
}
use rosetta_thought.Thought.Operations.{
  is_coinbase_input, input_tx_hash, parse_tx_operations, parse_inputs, parse_outputs,
  parse_input_transaction_operation, parse_output_transaction_operation, parse_amount,
  output_account, parse_output_account, output_coin_change,
}
use rosetta_thought.Thought.Operations.Shape.{Numbered, reached, parse_tx_operations-Numbered}
use rosetta_thought.Thought.Transactions.{parse_block}
use rosetta_thought.Thought.Transactions.Creates.{Known}
use rosetta_thought.Thought.Transactions.Complete.{Settled}
use rosetta_thought.Thought.Transactions.Total.{Works, AllSpendable, Payable, parse_block_total}
use rosetta_thought.Examples.{earlier_coin, pay, lib, client, two_txs, second_tx, earlier_coins}

-- Of the two coins that the block spends, only the one of an earlier block is to be looked up.
pub fetched : get_raw_block (ok (some two_txs)) ≡ ok (two_txs, codes "z:1" ∷ [])
unfolding get_raw_block block_coins input_coins contains_string input_tx_hash is_coinbase_input
    coin_identifier format_int text_eq
fetched = refl

known : Known earlier_coins (codes "z:1" ∷ [])
unfolding lookup text_eq
known = (λ h. cc, tt)

pub settled : Settled 0 [] [] two_txs.txs
unfolding contains_string is_coinbase_input coin_identifier format_int text_eq output_coin_change
settled = ((λ other listed. cc, tt), ((λ other listed. refl, (λ other listed. cc, tt)), tt))

pub lib-Works : Works lib
lib-Works = record {
  block = λ b. (Metadata.empty, refl);
  transaction = λ t. (Metadata.empty, refl);
  operation = λ o. (Metadata.empty, refl);
  negates = λ a. (b'-' ∷ format_int a, refl);
}

pub spendable : AllSpendable lib earlier_coins
unfolding lookup
spendable k c h = elim (Bool-cases (text_eq (codes "z:1") k)) [
  | inl here ↦
      let same : earlier_coin ≡ c = ground (arith, h, here) in
      rw (← same) (record { value = codes "5"; currency = client.currency }, refl, codes "-5", refl)
  | inr there ↦ absurd (ground (arith, h, there))
]

pay-Payable : (n : ℕ) (i : ℤ) → Payable lib (pay n i)
pay-Payable n i = (pos n, refl, ground arith, _, refl)

pub payable : All (λ tx. All (Payable lib) tx.outputs) two_txs.txs
payable =
    ((pay-Payable 50 (pos 0), tt), ((pay-Payable 40 (pos 0), (pay-Payable 12 (pos 1), tt)), tt))

parse_block_total_example :
    (parsed : Sdk.Block) × (parse_block lib client (some two_txs) earlier_coins ≡ ok parsed)
    × (map (λ tx. tx.transaction_identifier.hash) parsed.transactions
        ≡ map (λ tx. tx.hash) two_txs.txs)
parse_block_total_example =
    parse_block_total lib client lib-Works two_txs two_txs (codes "z:1" ∷ []) earlier_coins fetched
      known spendable payable settled

abbrev pub spent : ℕ → Text → Text → Text → Operation
spent n identifier value owner = record {
  operation_identifier = record { index = pos n; network_index = some (pos n) };
  type = codes "INPUT";
  status = some (codes "SUCCESS");
  account = some (record { address = owner });
  amount = some (record { value = value; currency = client.currency });
  coin_change = some (record {
    coin_identifier = record { identifier = identifier };
    coin_action = Sdk.coin_spent;
  });
  metadata = Metadata.empty;
}

abbrev pub created : ℕ → ℕ → Text → Text → Operation
created index n identifier value = record {
  operation_identifier = record { index = pos index; network_index = some (pos n) };
  type = codes "OUTPUT";
  status = some (codes "SUCCESS");
  account = some (record { address = codes "3x" });
  amount = some (record { value = value; currency = client.currency });
  coin_change = some (record {
    coin_identifier = record { identifier = identifier };
    coin_action = Sdk.coin_created;
  });
  metadata = Metadata.empty;
}

abbrev coin : Text → Text → Text → AccountCoin
coin identifier value owner = record {
  account = some (record { address = owner });
  coin = record {
    coin_identifier = record { identifier = identifier };
    amount = some (record { value = value; currency = client.currency });
  };
}

-- The second transaction: two coins are spent and two are made.
abbrev pub second_ops : List Operation
second_ops =
    spent 0 (codes "a:0") (codes "-50") (codes "3x")
    ∷ spent 1 (codes "z:1") (codes "-5") (codes "3y")
    ∷ created 2 0 (codes "b:0") (codes "40")
    ∷ created 3 1 (codes "b:1") (codes "12")
    ∷ []

abbrev both_coins : Map AccountCoin
both_coins = (codes "a:0", coin (codes "a:0") (codes "50") (codes "3x")) ∷ earlier_coins

second_parses : parse_tx_operations lib client second_tx 1 both_coins ≡ ok second_ops
unfolding parse_tx_operations parse_inputs parse_outputs parse_input_transaction_operation
    parse_output_transaction_operation parse_amount output_account parse_output_account
    output_coin_change is_coinbase_input coin_identifier format_int text_eq lookup
second_parses = refl

parse_tx_operations-Numbered_example :
    Numbered 0 second_ops × (length second_ops ≡ reached 1 0 second_tx.inputs + 2)
parse_tx_operations-Numbered_example =
    parse_tx_operations-Numbered lib client second_tx 1 both_coins second_ops second_parses

abbrev pub described : Sdk.Block
described = record {
  block_identifier = record { index = pos 1; hash = codes "h" };
  parent_block_identifier = record { index = pos 0; hash = codes "g" };
  timestamp = pos 3000;
  transactions = [];
  metadata = Metadata.empty;
}

data_parses : parse_block_data lib (some two_txs) ≡ ok described
unfolding parse_block_data parent_block_identifier int64 ◌-ℤ◌ ◌*ℤ◌ ◌+ℤ◌
data_parses = refl

parse_block_data-Describes_example : Describes two_txs described
parse_block_data-Describes_example =
    parse_block_data-Describes lib two_txs described (omega arith) data_parses

abbrev long_hash : Text
long_hash = codes "00000000917e049641189c33d6b1275155e89b7b498b3b4f16d488f60afe513b"

abbrev as_it_is : Text → Option Text
as_it_is hash = some hash

clean : NoColon long_hash
clean = no_colon-NoColon long_hash refl

parse_coin_identifier-coin_identifier_example :
    parse_coin_identifier as_it_is (coin_identifier long_hash (pos 12)) ≡ ok (long_hash, 12)
parse_coin_identifier-coin_identifier_example =
    parse_coin_identifier-coin_identifier as_it_is long_hash 12 long_hash clean refl refl
      (omega arith)
