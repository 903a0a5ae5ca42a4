-- ===== src/Thought/Rpc/Blame.antt =====
-- Which answer of thoughtd makes a block not found.
use rosetta_thought.Prelude.{
  ℕ, ◌≡◌, ◌≢◌, refl, Option, none, some, List, [], ◌∷◌, if◌then◌else◌, Bool-cases, Option-cases,
  ◌==◌, inl, inr, ==_iff, arith,
}
use rosetta_thought.Prelude.Int.{ℤ, eqb_ℤ_iff}
use rosetta_thought.Outcome.{Outcome, ok, err, panic, ◌>>=◌, >>=-ne-err, >>=-eq-err, deref}
use rosetta_thought.Text.{Text}
use rosetta_thought.Sdk.{Failure, PartialBlockIdentifier}
use rosetta_thought.Thought.Types.{Block}
use rosetta_thought.Thought.RawBlock.{get_raw_block, block_coins}
use rosetta_thought.Thought.Rpc.{
  Wire, Request, Response, ResponseError, RequestMethod, text_param, int_param, block_verbosity,
  block_not_found_err_code, response_err, block_response_err, send, post_request, read_response,
  get_block_hash, get_block, fetch_raw_block, get_blockchain_info, get_hash_from_index,
}

abbrev NotFound : {A : Type 0} → Outcome Failure A → Type 0
NotFound o = o ≡ err Failure.block_not_found

-- An answer 200 that decodes to a response whose `Err()` is "block not found".
abbrev Answered :
    {A : Type 0}
    → Wire
    → (Text → Option (Response A))
    → (Option ResponseError → Option Failure)
    → Request
    → Type 0
Answered wire decode err_of r =
    (body : Text) × (response : Response _) × (wire.exchange r ≡ ok (200, body))
    × (decode body ≡ some response)
    × (err_of response.error ≡ some Failure.block_not_found)

module _ {A : Type 0} (decode : Text → Option (Response A))
    (err_of : Option ResponseError → Option Failure) where
  read-NotFound :
      (body : Text)
      → NotFound (read_response err_of (decode body))
      → (response : Response A) × (decode body ≡ some response)
        × (err_of response.error ≡ some Failure.block_not_found)
  read-NotFound body h = elim (Option-cases (decode body)) [
    | inl missing ↦ absurd (ground (arith, missing))
    | inr (response, found) ↦ elim (Option-cases (err_of response.error)) [
      | inl fine ↦ absurd (ground (arith, found, fine))
      | inr (e, bad) ↦ (response, found, ground (arith, found, bad))
    ]
  ]

  receive-NotFound :
      (got : Outcome Failure (ℕ × Text))
      → got ≢ err Failure.block_not_found
      → NotFound (
          got >>= λ (status, body).
          if status == 200 then read_response err_of (decode body) else err Failure.plain)
      → (body : Text) × (response : Response A) × (got ≡ ok (200, body))
        × (decode body ≡ some response)
        × (err_of response.error ≡ some Failure.block_not_found)
  receive-NotFound (ok (status, body)) ne h = elim (Bool-cases (status == 200)) [
    | inl is_200 ↦
        let (response, found, bad) = read-NotFound body (ground (arith, is_200)) in
        (body, response, ground (arith, is_200, ==_iff status 200), found, bad)
    | inr other ↦ absurd (ground (arith, other))
  ]
  receive-NotFound (err e) ne h = absurd (ne (cc))
  receive-NotFound panic ne h = absurd (cc)

  send-NotFound :
      (wire : Wire) (r : Request)
      → wire.exchange r ≢ err Failure.block_not_found
      → NotFound (send wire decode err_of r)
      → Answered wire decode err_of r
  unfolding send
  send-NotFound wire r ne h = receive-NotFound (wire.exchange r) ne h

plain_answer : (e : Option ResponseError) → response_err e ≢ some Failure.block_not_found
unfolding response_err
plain_answer none = λ h. cc
plain_answer (some e) = λ h. cc

block_answer :
    (e : Option ResponseError)
    → block_response_err e ≡ some Failure.block_not_found
    → (x : ResponseError) × (e ≡ some x) × (x.code ≡ block_not_found_err_code)
unfolding block_response_err
block_answer none h = absurd (cc)
block_answer (some x) h = (x, refl, ground (arith, eqb_ℤ_iff x.code block_not_found_err_code))

module _ (wire : Wire) (quiet : (r : Request) → wire.exchange r ≢ err Failure.block_not_found) where
  send-quiet :
      {A : Type 0} (decode : Text → Option (Response A)) (r : Request)
      → send wire decode response_err r ≢ err Failure.block_not_found
  send-quiet decode r h =
      let (body, response, got, found, bad) =
        send-NotFound decode response_err wire r (quiet r) h in
      plain_answer response.error bad

  deref-quiet : {A : Type 0} (o : Option A) → deref o ≢ err Failure.block_not_found
  deref-quiet none = λ h. cc
  deref-quiet (some a) = λ h. cc

  best-quiet : get_block_hash wire none ≢ err Failure.block_not_found
  unfolding get_block_hash get_blockchain_info
  best-quiet =
      >>=-ne-err (get_blockchain_info wire) _ Failure.block_not_found (send-quiet _ _) (λ result _.
        >>=-ne-err (deref result) _ Failure.block_not_found (deref-quiet result) (λ info _ h. cc))

  hash_by-quiet :
      (index : Option ℤ) (hash : Option Text)
      → get_block_hash wire (some (record { index = index; hash = hash }))
        ≢ err Failure.block_not_found
  unfolding get_block_hash get_hash_from_index
  hash_by-quiet none none = best-quiet
  hash_by-quiet none (some hash) = λ h. cc
  hash_by-quiet (some index) none = send-quiet _ _
  hash_by-quiet (some index) (some hash) = λ h. cc

  hash-quiet :
      (identifier : Option PartialBlockIdentifier)
      → get_block_hash wire identifier ≢ err Failure.block_not_found
  hash-quiet none = best-quiet
  hash-quiet (some identifier) = hash_by-quiet identifier.index identifier.hash

  raw-quiet :
      (raw : Option Block)
      → ◌>>=◌ {B = Block × List Text} (deref raw) (λ block. ok (block, block_coins 0 [] block.txs))
        ≢ err Failure.block_not_found
  raw-quiet none = λ h. cc
  raw-quiet (some block) = λ h. cc

  -- Where no HTTP exchange itself fails with "block not found", fetching a raw block fails that way
  -- only on thoughtd's word: the request `getblock` for the block's hash was answered by status 200
  -- and a response with the error code -5.
  pub fetch_raw_block-blame :
      (identifier : Option PartialBlockIdentifier)
      → fetch_raw_block wire identifier ≡ err Failure.block_not_found
      → (hash : Text) × (body : Text) × (response : Response (Option Block)) × (e : ResponseError)
        × (get_block_hash wire identifier ≡ ok hash)
        × (wire.exchange (
              post_request RequestMethod.getblock
                (text_param hash ∷ int_param block_verbosity ∷ []))
            ≡ ok (200, body))
        × (wire.decode_block body ≡ some response)
        × (response.error ≡ some e)
        × (e.code ≡ block_not_found_err_code)
  unfolding fetch_raw_block get_raw_block get_block
  fetch_raw_block-blame identifier h = elim (>>=-eq-err (get_block wire identifier) _ h) [
    | inl failed ↦ elim (>>=-eq-err (get_block_hash wire identifier) _ failed) [
      | inl no_hash ↦ absurd (hash-quiet identifier no_hash)
      | inr (hash, known, asked) ↦
          let (body, response, got, found, said) =
            send-NotFound wire.decode_block block_response_err wire _ (quiet _) asked in
          let (e, is, code) = block_answer response.error said in
          (hash, body, response, e, known, got, found, is, code)
    ]
    | inr (raw, got, rest) ↦ absurd (raw-quiet raw rest)
  ]
