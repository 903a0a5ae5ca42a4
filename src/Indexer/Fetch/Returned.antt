-- ===== src/Indexer/Fetch/Returned.antt =====
-- What a block that `Block` of indexer/indexer.go returns was made of.
use rosetta_thought.Prelude.{
  ℕ, suc, ◌+◌, ◌≤◌, ◌≡◌, refl, ap, ◌∙◌, true, false, Option, none, some, List, [], ◌∷◌, ◌++◌, arith,
  length, ltb, Bool-cases, Option-cases, inl, inr,
}
use rosetta_thought.Map.{Map}
use rosetta_thought.Outcome.{Outcome, ok, err, panic, >>=-eq-ok, ok-same}
use rosetta_thought.Text.{Text}
use rosetta_thought.Sdk
use rosetta_thought.Sdk.{Failure, AccountCoin}
use rosetta_thought.Thought.Types.{Block, Client, Library}
use rosetta_thought.Thought.BlockData.{parse_block_data}
use rosetta_thought.Thought.Transactions.{parse_block, parse_transactions}
use rosetta_thought.Thought.Transactions.Creates.{Known}
use rosetta_thought.Thought.Transactions.Spends.{Replays, parse_block-Replays}
use rosetta_thought.Indexer.Fetch.{Attempt, retry_limit, fetch_raw, checked, parse_found, block}
use rosetta_thought.Indexer.WaitTable.{State}
use rosetta_thought.Indexer.Find.{Environment, find_coins}
use rosetta_thought.Indexer.Find.Complete.{find_coins-Known}

-- One of the attempts, with not too many before it, got the raw block.
abbrev pub IsGot : ℕ → List Attempt → Option Block × List Text → Type 0
IsGot retries attempts (none, names) = Unit
IsGot retries attempts (some raw, names) =
    (before : List Attempt) × (attempt : Attempt) × (after : List Attempt) × (attempts
      ≡ before ++ attempt ∷ after)
    × (attempt.raw ≡ ok (raw, names))
    × (retries + length before ≤ retry_limit)

IsGot-later :
    (retries : ℕ) (a : Attempt) (attempts : List Attempt) (got : Option Block × List Text)
    → IsGot (suc retries) attempts got
    → IsGot retries (a ∷ attempts) got
IsGot-later retries a attempts (none, names) h = tt
IsGot-later retries a attempts (some raw, names) (before, attempt, after, e, is, few) =
    (a ∷ before, attempt, after, ap (λ x. a ∷ x) e, is, omega arith)

fetch_raw-IsGot :
    (retries : ℕ) (attempts : List Attempt) (got : Option Block × List Text)
    → retries ≤ retry_limit
    → fetch_raw retries attempts ≡ ok got
    → IsGot retries attempts got
unfolding fetch_raw
fetch_raw-IsGot retries [] got few h = rw (← ok-same h) tt
fetch_raw-IsGot retries (a ∷ attempts) got few h =
    go (fetch_raw-IsGot (suc retries) attempts got) a.raw refl h
  where
    go :
        (suc retries ≤ retry_limit
          → fetch_raw (suc retries) attempts ≡ ok got
          → IsGot (suc retries) attempts got)
        → (o : Outcome Failure (Block × List Text)) → a.raw ≡ o
        → (elim o [
          | ok (block, coins) ↦ ok (some block, coins)
          | panic ↦ panic
          | err e ↦ elim (ltb retry_limit (suc retries)) [
            | true ↦ err e
            | false ↦ elim a.sleep [ some f ↦ err f | none ↦ fetch_raw (suc retries) attempts ]
          ]
        ])
          ≡ ok got
        → IsGot retries (a ∷ attempts) got
    go rest (ok (block, coins)) is h = rw (← ok-same h) ([], a, attempts, refl, is, omega arith)
    go rest panic is h = absurd (cc)
    go rest (err e) is h = elim (Bool-cases (ltb retry_limit (suc retries))) [
      | inl last ↦ absurd (let g = rw last at h in cc)
      | inr more ↦ elim (Option-cases a.sleep) [
        | inr (f, cut) ↦ absurd (let g = rw (more, cut) at h in cc)
        | inl slept ↦
            IsGot-later retries a attempts got (rest (ground (arith, more)) (rw (more, slept) at h))
      ]
    ]

module _ (lib : Library) (client : Client) (assert_block : Sdk.Block → Option Failure) where
  parse_block_header :
      (raw : Block) (coins : Map AccountCoin) (parsed : Sdk.Block)
      → parse_block lib client (some raw) coins ≡ ok parsed
      → (parsed.block_identifier ≡ record { index = raw.height; hash = raw.hash })
  unfolding parse_block parse_block_data
  parse_block_header raw coins parsed h =
      let (rblock, described, h₁) = >>=-eq-ok (parse_block_data lib (some raw)) _ h in
      let (txs, made, h₂) = >>=-eq-ok (parse_transactions lib client raw 0 coins raw.txs) _ h₁ in
      ground arith

  checked-eq-ok :
      (b parsed : Sdk.Block)
      → checked lib client assert_block b ≡ ok parsed
      → (b ≡ parsed) × (assert_block parsed ≡ none)
  unfolding checked
  checked-eq-ok b parsed h = elim (Option-cases (assert_block b)) [
    | inl good ↦
        let same : b ≡ parsed = ok-same (rw (good, checked) at h) in (same, rw (← same) good)
    | inr (e, bad) ↦ absurd (let g = rw (bad, checked) at h in cc)
  ]

  -- What the parsed block has to do with the raw one and the coins.
  abbrev pub IsMadeOf : Block → Map AccountCoin → Sdk.Block → Type 0
  IsMadeOf raw coins parsed =
      (parsed.block_identifier ≡ record { index = raw.height; hash = raw.hash })
      × Replays lib client coins parsed.transactions
      × (assert_block parsed ≡ none)

  parse_found-eq-ok :
      (raw : Option Block) (found : Outcome Failure (Map AccountCoin)) (parsed : Sdk.Block)
      → parse_found lib client assert_block raw found ≡ ok parsed
      → (b : Block) × (coins : Map AccountCoin) × (raw ≡ some b)
        × (found ≡ ok coins)
        × IsMadeOf b coins parsed
  unfolding parse_found parse_block
  parse_found-eq-ok none found parsed h = let (coins, is, h₁) = >>=-eq-ok found _ h in absurd (cc)
  parse_found-eq-ok (some raw) found parsed h =
      let (coins, is, h₁) = >>=-eq-ok found _ h in
      let (b, made, h₂) = >>=-eq-ok (parse_block lib client (some raw) coins) _ h₁ in
      let (same, good) = checked-eq-ok b parsed h₂ in
      let parses : parse_block lib client (some raw) coins ≡ ok parsed = made ∙ ap ok same in
      (
        raw,
        coins,
        refl,
        is,
        (
          parse_block_header raw coins parsed parses,
          parse_block-Replays lib client raw coins parsed parses,
          good,
        ),
      )

  -- A block that Block returns was fetched by one of its first six attempts and passed the asserter;
  -- it has the height and the hash of the raw block, and findCoins found every coin that GetRawBlock
  -- named for it. An operation of it that spends a coin spends one of those or one that an earlier
  -- transaction of the block creates, from the account that the coin is of and by its amount.
  pub block_returns :
      (attempts : List Attempt) (later : List Environment) (env : Environment) (s : State)
      (parsed : Sdk.Block)
      → (block lib client assert_block attempts later env s).0 ≡ ok parsed
      → (raw : Block) × (names : List Text) × (coins : Map AccountCoin) × IsGot 0 attempts
          (some raw, names)
        × ((find_coins later env (some raw) names s).0 ≡ ok coins)
        × Known coins names
        × IsMadeOf raw coins parsed
  unfolding block
  block_returns attempts later env s parsed h = go (fetch_raw 0 attempts) refl
    where
      go :
          (o : Outcome Failure (Option Block × List Text))
          → fetch_raw 0 attempts ≡ o
          → (raw : Block) × (names : List Text) × (coins : Map AccountCoin) × IsGot 0 attempts
              (some raw, names)
            × ((find_coins later env (some raw) names s).0 ≡ ok coins)
            × Known coins names
            × IsMadeOf raw coins parsed
      go (err e) is = absurd (let g = rw (is, block) at h in cc)
      go panic is = absurd (let g = rw (is, block) at h in cc)
      go (ok (raw, names)) is =
          let (b, coins, same, found, made) =
            parse_found-eq-ok raw (find_coins later env raw names s).0 parsed
              (rw (is, block) at h) in
          let f : (find_coins later env (some b) names s).0 ≡ ok coins = rw same at found in
          (
            b,
            names,
            coins,
            rw same at (fetch_raw-IsGot 0 attempts (raw, names) (omega arith) is),
            f,
            find_coins-Known later env (some b) names s coins f,
            made,
          )
