-- ===== src/Examples/Ledger.antt =====
-- Examples of balances and coins over a parsed block of two transactions.
use rosetta_thought.Prelude.{
  ℕ, ◌+◌, ◌-◌, ◌*◌, ◌≡◌, refl, none, some, List, [], ◌∷◌, ◌==◌, if◌then◌else◌,
}
use rosetta_thought.Prelude.Int.{ℤ, pos, ◌+ℤ◌, ◌-ℤ◌, ◌*ℤ◌, int64}
use rosetta_thought.Outcome.{ok}
use rosetta_thought.Map.{Map, lookup, insert, delete}
use rosetta_thought.Text.{Text, codes, text_eq}
use rosetta_thought.Text.Decimal.{format_int}
use rosetta_thought.Sdk
use rosetta_thought.Sdk.{AccountCoin, Operation, Metadata}
use rosetta_thought.Thought.Coin.{coin_identifier}
use rosetta_thought.Thought.Created.{created_coin, add_coin, add_coins}
use rosetta_thought.Thought.BlockData.{parse_block_data, parent_block_identifier}
use rosetta_thought.Thought.Operations.{
  parse_inputs, parse_outputs, parse_input_transaction_operation, coinbase_tx_operation,
  parse_output_transaction_operation, parse_amount, output_account, parse_output_account,
  output_coin_change, is_coinbase_input, parse_tx_operations,
}
use rosetta_thought.Thought.Transactions.{
  parse_transaction, parse_transactions, parse_block, skip_transaction_operations,
}
use rosetta_thought.Thought.Transactions.Spends.{Replays, parse_block-Replays}
use rosetta_thought.Thought.Ledger.{worth, block_change, block_unspent, AreSoundAll}
use rosetta_thought.Thought.Ledger.Reconciles.{parse_block_reconciles}
use rosetta_thought.Thought.Types.{Block}
use rosetta_thought.Thought.Transactions.Creates.{Known}
use rosetta_thought.Indexer.WaitTable.{init}
use rosetta_thought.Indexer.Find.{find_coins}
use rosetta_thought.Indexer.Fetch.{block, parse_found, checked}
use rosetta_thought.Indexer.Fetch.Returned.{IsGot, IsMadeOf, block_returns}
use rosetta_thought.Examples.Goroutines.{fetching, all_stored, nothing_stored, got_raw, found_later}
use rosetta_thought.Examples.{lib, client, two_txs, earlier_coins}
use rosetta_thought.Examples.Blocks.{created, second_ops, described}

abbrev pub coinbase_op : Operation
coinbase_op = record {
  operation_identifier = record { index = pos 0; network_index = some (pos 0) };
  type = codes "COINBASE";
  status = some (codes "SUCCESS");
  account = none;
  amount = none;
  coin_change = none;
  metadata = Metadata.empty;
}

abbrev pub parsed_tx : Text → Operation → Operation → Sdk.Transaction
parsed_tx hash op other = record {
  transaction_identifier = record { hash = hash };
  operations = op ∷ other ∷ [];
  metadata = Metadata.empty;
}

abbrev pub both : Sdk.Block
both = record described {
  transactions =
      parsed_tx (codes "a") coinbase_op (created 1 0 (codes "a:0") (codes "50"))
      ∷ record {
        transaction_identifier = record { hash = codes "b" };
        operations = second_ops;
        metadata = Metadata.empty;
      }
      ∷ [];
}

both_parse : parse_block lib client (some two_txs) earlier_coins ≡ ok both
unfolding parse_block parse_transactions parse_transaction skip_transaction_operations
    parse_block_data parent_block_identifier int64 ◌-ℤ◌ ◌*ℤ◌ ◌+ℤ◌ parse_tx_operations parse_inputs
    parse_outputs parse_input_transaction_operation coinbase_tx_operation
    parse_output_transaction_operation parse_amount output_account parse_output_account
    output_coin_change is_coinbase_input coin_identifier format_int text_eq lookup insert add_coins
    add_coin created_coin
both_parse = refl

parse_block-Replays_example : Replays lib client earlier_coins both.transactions
parse_block-Replays_example = parse_block-Replays lib client two_txs earlier_coins both both_parse

-- A decimal with any number of minus signs before it.
abbrev read_digits : ℕ → Text → ℕ
read_digits n [] = n
read_digits n (c ∷ t) = read_digits (n * 10 + (c - 48)) t

abbrev read : Text → ℤ
read [] = pos 0
read (c ∷ t) = let rest = read t in if c == 45 then pos 0 -ℤ rest else pos (read_digits (c - 48) t)

read-negates : (a n : Text) → lib.negate_value a ≡ some n → read n ≡ pos 0 -ℤ read a
read-negates a n h = let e : b'-' ∷ a ≡ n = cc in rw (← e) refl

both_sound : AreSoundAll read earlier_coins earlier_coins both.transactions
unfolding lookup insert delete text_eq add_coins add_coin created_coin
both_sound = ((λ account. refl, (refl, tt)), ((λ h. cc, (λ h. cc, (refl, (refl, tt)))), tt))

-- The account "3x" has two coins worth 52 in the end.
parse_block_reconciles_example :
    worth read (codes "3x") (block_unspent both.transactions earlier_coins)
    ≡ block_change read (codes "3x") both.transactions +ℤ worth read (codes "3x") earlier_coins
unfolding lookup
parse_block_reconciles_example =
    parse_block_reconciles lib client read read-negates (codes "3x") two_txs earlier_coins
      earlier_coins earlier_coins both both_parse (refl, tt) (λ k c h. h) (λ k c h. h) both_sound

both_returned :
    (block lib client (λ b. none) (fetching ∷ []) (all_stored ∷ []) nothing_stored init).0 ≡ ok both
unfolding block parse_found checked
both_returned = rw (got_raw, block) (rw found_later (rw both_parse refl))

block_returns_example :
    (raw : Block) × (names : List Text) × (coins : Map AccountCoin) × IsGot 0
      (fetching ∷ [])
      (some raw, names)
    × ((find_coins (all_stored ∷ []) nothing_stored (some raw) names init).0 ≡ ok coins)
    × Known coins names
    × IsMadeOf lib client (λ b. none) raw coins both
block_returns_example =
    block_returns lib client (λ b. none) (fetching ∷ []) (all_stored ∷ []) nothing_stored init both
      both_returned
