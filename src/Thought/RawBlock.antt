-- ===== src/Thought/RawBlock.antt =====
-- `GetRawBlock` of thought/client.go: the coins that a block spends and does not create itself.
use rosetta_thought.Prelude.{
  ℕ, suc, Bool, false, ◌||◌, Option, none, some, List, [], ◌∷◌, ◌++◌, if◌then◌else◌,
}
use rosetta_thought.Text.{Text, text_eq}
use rosetta_thought.Thought.Types.{Input, Transaction, Block}
use rosetta_thought.Thought.Coin.{coin_identifier}
use rosetta_thought.Thought.Operations.{input_tx_hash}
use rosetta_thought.Outcome.{Outcome, ok, ◌>>=◌, deref}
use rosetta_thought.Sdk.{Failure}
use rosetta_thought.Prelude.Int.{ℤ}

-- `utils.ContainsString` of rosetta-sdk-go.
unfoldable pub contains_string : List Text → Text → Bool
contains_string [] s = false
contains_string (t ∷ ts) s = text_eq t s || contains_string ts s

abbrev coin_of : List Text → Option (Text × ℤ) → List Text
coin_of block_tx_hashes none = []
coin_of block_tx_hashes (some (tx_hash, vout)) =
    if contains_string block_tx_hashes tx_hash then [] else coin_identifier tx_hash vout ∷ []

-- The loop over the inputs of one transaction, from the one at `input_index`.
unfoldable pub input_coins : ℕ → List Text → ℕ → List Input → List Text
input_coins tx_index block_tx_hashes input_index [] = []
input_coins tx_index block_tx_hashes input_index (input ∷ inputs) =
    coin_of block_tx_hashes (input_tx_hash input tx_index input_index)
    ++ input_coins tx_index block_tx_hashes (suc input_index) inputs

-- The loop over the transactions, from the one at `tx_index`.
unfoldable pub block_coins : ℕ → List Text → List Transaction → List Text
block_coins tx_index block_tx_hashes [] = []
block_coins tx_index block_tx_hashes (tx ∷ txs) =
    let hashes = block_tx_hashes ++ tx.hash ∷ [] in
    input_coins tx_index hashes 0 tx.inputs ++ block_coins (suc tx_index) hashes txs

-- `get_block` is what the `getblock` request came to; a JSON `null` result is a nil block.
unfoldable pub get_raw_block : Outcome Failure (Option Block) → Outcome Failure (Block × List Text)
get_raw_block get_block = do
  raw ← get_block
  block ← deref raw
  ok (block, block_coins 0 [] block.txs)
