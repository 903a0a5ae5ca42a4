-- ===== src/Thought/Coin.antt =====
-- Coin identifiers, "<transaction hash>:<output index>": `CoinIdentifier` and `TransactionHash` of
-- thought/types.go, `ParseCoinIdentifier` of thought/utils.go.
use rosetta_thought.Prelude.{
  ℕ, ◌<◌, ◌≡◌, List, [], ◌∷◌, ◌++◌, ◌==◌, if◌then◌else◌, length, Option, some, inl, inr, sym, ap,
  ◌∙◌, ==_iff,
}
use rosetta_thought.Prelude.Int.{ℤ, pos}
use rosetta_thought.Outcome.{
  Outcome, ok, err, panic, ◌>>=◌, or_err, >>=-eq-ok, or_err-eq-ok, ok-same, if-eq-ok,
}
use rosetta_thought.Text.{Text}
use rosetta_thought.Text.Split.{colon, split, split-append, split-NoColon, NoColon}
use rosetta_thought.Text.Decimal.{
  format_int, format_uint, parse_uint32, parse_uint32-format_uint, format_uint-NoColon,
  parse_uint32_bound,
}
use rosetta_thought.Sdk.{Failure, plain, foreign}
use rosetta_thought.Thought.Types.{transaction_hash_length}

unfoldable pub coin_identifier : Text → ℤ → Text
unfolding format_int
coin_identifier hash vout = hash ++ colon ∷ format_int vout

abbrev first : List Text → Outcome Failure Text
first [] = panic
first (w ∷ ws) = ok w

-- `vals[0]`; a split always has a first word.
unfoldable pub transaction_hash : Text → Outcome Failure Text
transaction_hash identifier = first (split identifier)

abbrev second : List Text → Outcome Failure Text
second [] = panic
second (w ∷ []) = panic
second (w ∷ v ∷ ws) = ok v

-- `chainhash.NewHashFromStr` is the argument `new_hash`.
module _ {Hash : Type 0} (new_hash : Text → Option Hash) where
  unfoldable pub parse_coin_identifier : Text → Outcome Failure (Hash × ℕ)
  parse_coin_identifier identifier = do
    let utxo_spent = split identifier
    outpoint_hash ← first utxo_spent
    if length outpoint_hash == transaction_hash_length
        then (do
          hash ← or_err (foreign 0) (new_hash outpoint_hash)
          word ← second utxo_spent
          index ← or_err (foreign 1) (parse_uint32 word)
          ok (hash, index))
        else err plain

-- The transaction hash of a coin identifier is the hash that it was made of, if that has no colon.
transaction_hash-coin_identifier :
    (hash : Text) (vout : ℤ) → NoColon hash → transaction_hash (coin_identifier hash vout) ≡ ok hash
unfolding transaction_hash coin_identifier
transaction_hash-coin_identifier hash vout h = rw (split-append hash (format_int vout) h)

module _ {Hash : Type 0} (new_hash : Text → Option Hash) where
  -- An identifier made of a 64-byte hash with no colon that `NewHashFromStr` accepts and of an index
  -- that fits a uint32 is parsed back to the two.
  pub parse_coin_identifier-coin_identifier :
      (hash : Text) (n : ℕ) (h : Hash)
      → NoColon hash
      → length hash ≡ 64
      → new_hash hash ≡ some h
      → n < 4294967296
      → parse_coin_identifier new_hash (coin_identifier hash (pos n)) ≡ ok (h, n)
  unfolding parse_coin_identifier coin_identifier
  parse_coin_identifier-coin_identifier hash n h clean len known lt =
      rw (split-append hash (format_uint n) clean) (
        rw (split-NoColon (format_uint n) (format_uint-NoColon n))
          (rw (known, parse_uint32-format_uint n lt) (rw len)))

  -- A text of 64 bytes with no colon that is a hash makes the function panic: it indexes the second
  -- word of a split that has one.
  parse_coin_identifier_panics :
      (hash : Text) (h : Hash)
      → NoColon hash
      → length hash ≡ 64
      → new_hash hash ≡ some h
      → parse_coin_identifier new_hash hash ≡ panic
  unfolding parse_coin_identifier
  parse_coin_identifier_panics hash h clean len known =
      rw (split-NoColon hash clean) (rw (known, len))

module _ {Hash : Type 0} (new_hash : Text → Option Hash) where
  -- Whatever text ParseCoinIdentifier accepts, the index that it returns fits a uint32 and the hash is
  -- that of the 64 bytes up to the first colon.
  pub parse_coin_identifier_bound :
      (identifier : Text) (hash : Hash) (index : ℕ)
      → parse_coin_identifier new_hash identifier ≡ ok (hash, index)
      → (index < 4294967296)
        × (text : Text) × (transaction_hash identifier ≡ ok text)
        × (length text ≡ 64)
        × (new_hash text ≡ some hash)
  unfolding parse_coin_identifier transaction_hash
  parse_coin_identifier_bound identifier hash index h =
      let (text, is_first, h1) = >>=-eq-ok (first (split identifier)) _ h in
      elim (if-eq-ok (length text == transaction_hash_length) _ _ h1) [
        | inr (short, h2) ↦ absurd (cc)
        | inl (long, h2) ↦
            let (parsed, known, h3) = >>=-eq-ok (or_err (foreign 0) (new_hash text)) _ h2 in
            let (word, is_second, h4) = >>=-eq-ok (second (split identifier)) _ h3 in
            let (n, read, h5) = >>=-eq-ok (or_err (foreign 1) (parse_uint32 word)) _ h4 in
            let same = ok-same h5 in
            (
              rw (sym (ap (λ x. x.1) same))
                  (parse_uint32_bound word n (or_err-eq-ok (foreign 1) (parse_uint32 word) n read)),
              text,
              is_first,
              (==_iff (length text) transaction_hash_length).0 long,
              or_err-eq-ok (foreign 0) (new_hash text) parsed known ∙ ap (λ x. some x.0) same,
            )
      ]
