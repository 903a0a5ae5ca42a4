-- ===== src/Thought/Ledger/Reconciles.antt =====
-- Over a parsed block (thought/client.go), balances and coins change alike.
use rosetta_thought.Prelude.{◌≡◌, sym, ap, ◌∙◌, some, List, [], ◌∷◌}
use rosetta_thought.Prelude.Int.{ℤ, pos, ◌+ℤ◌, ◌-ℤ◌}
use rosetta_thought.Outcome.{ok}
use rosetta_thought.Map.{Map}
use rosetta_thought.Text.{Text}
use rosetta_thought.Sdk
use rosetta_thought.Sdk.{AccountCoin}
use rosetta_thought.Thought.Types.{Block, Client, Library}
use rosetta_thought.Thought.Created.{add_coins}
use rosetta_thought.Thought.Transactions.{parse_block}
use rosetta_thought.Thought.Transactions.Spends.{Replays, parse_block-Replays}
use rosetta_thought.Thought.Ledger.{
  balance_change, block_change, worth, unspent_after, block_unspent, AreSoundAll,
}
use rosetta_thought.Thought.Ledger.Within.{IsWithin, add_coins-IsWithin}
use rosetta_thought.Thought.Ledger.Worth.{IsUnique}
use rosetta_thought.Thought.Ledger.Agrees.{ops-Agreed, zero_left, swapped}

module _ (lib : Library) (client : Client) (value : Text → ℤ)
    (negates : (a n : Text) → lib.negate_value a ≡ some n → value n ≡ pos 0 -ℤ value a)
    (account : Text) where
  transactions_reconcile :
      (coins known unspent : Map AccountCoin) (txs : List Sdk.Transaction)
      → IsUnique unspent
      → IsWithin unspent known
      → IsWithin coins known
      → Replays lib client coins txs
      → AreSoundAll value known unspent txs
      → worth value account (block_unspent txs unspent)
        ≡ block_change value account txs +ℤ worth value account unspent
  transactions_reconcile coins known unspent [] unique within still spends sound =
      sym (zero_left (worth value account unspent))
  transactions_reconcile coins known unspent (tx ∷ txs) unique within still (first, rest)
        (sound, sounds) =
      let a =
        ops-Agreed lib client value negates account coins known unspent tx.operations unique within
          still first sound in
      let b =
        transactions_reconcile (add_coins tx.operations coins) (add_coins tx.operations known)
          (unspent_after tx.operations unspent) txs a.unique a.all_known
          (add_coins-IsWithin tx.operations coins known still) rest sounds in
      b
      ∙ (ap (λ w. block_change value account txs +ℤ w) a.changed
          ∙ swapped (block_change value account txs) (balance_change value account tx.operations)
              (worth value account unspent))

  -- The operations of a parsed block change the balance of each account by as much as the worth of its
  -- unspent coins changes: if the decimal that is negated reads as the negation, no identifier stands
  -- twice among the unspent coins, they and the coins given to ParseBlock are among the known ones, and
  -- the block is sound: what it creates is not known before, what it spends is unspent, and an output
  -- that makes no coin is of amount zero.
  pub parse_block_reconciles :
      (block : Block) (coins known unspent : Map AccountCoin) (parsed : Sdk.Block)
      → parse_block lib client (some block) coins ≡ ok parsed
      → IsUnique unspent
      → IsWithin unspent known
      → IsWithin coins known
      → AreSoundAll value known unspent parsed.transactions
      → worth value account (block_unspent parsed.transactions unspent)
        ≡ block_change value account parsed.transactions +ℤ worth value account unspent
  parse_block_reconciles block coins known unspent parsed h unique within still sound =
      transactions_reconcile coins known unspent parsed.transactions unique within still
        (parse_block-Replays lib client block coins parsed h) sound
