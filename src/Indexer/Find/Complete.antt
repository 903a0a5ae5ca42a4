-- ===== src/Indexer/Find/Complete.antt =====
-- The coins in the map that `findCoins` returns.
use rosetta_thought.Prelude.{
  ◌≡◌, refl, ◌≢◌, Bool, true, false, Option, none, some, List, [], ◌∷◌, ◌++◌, if◌then◌else◌, ◌⊎◌,
  inl, inr, Bool-cases,
}
use rosetta_thought.Prelude.Int.{ℤ}
use rosetta_thought.Map.{Map, lookup, insert, lookup-insert, lookup-insert_self}
use rosetta_thought.Outcome.{Outcome, ok, err, panic}
use rosetta_thought.Text.{Text, text_eq}
use rosetta_thought.Sdk.{
  Failure, missing_transaction, context_done, AccountCoin, Coin, AccountIdentifier,
}
use rosetta_thought.Thought.Types.{Block}
use rosetta_thought.Thought.Transactions.Creates.{Known, Known-left, Known-right}
use rosetta_thought.Indexer.WaitTable.{State}
use rosetta_thought.Indexer.Find.{
  Environment, find_coin, check_header_match, look_up, await_all, merge, merge_result, height_of,
  after_wait, after_look_up, find_coins_once, find_coins,
}

-- Every coin of the first map is in the second.
abbrev Within : Map AccountCoin → Map AccountCoin → Type 0
Within m n = (k : Text) → lookup k m ≢ none → lookup k n ≢ none

Within-insert : (k : Text) (v : AccountCoin) (m : Map AccountCoin) → Within m (insert k v m)
Within-insert k v m j h = rw lookup-insert (go (text_eq k j))
  where
    go : (b : Bool) → (if b then some v else lookup j m) ≢ none
    go true = λ e. cc
    go false = h

Known-Within : (m n : Map AccountCoin) (xs : List Text) → Within m n → Known m xs → Known n xs
Known-Within m n [] w h = tt
Known-Within m n (x ∷ xs) w h = (w x h.0, Known-Within m n xs w h.1)

merge-Within : (found m : Map AccountCoin) → Within m (merge found m)
unfolding merge
merge-Within [] m k h = h
merge-Within ((j, v) ∷ found) m k h = merge-Within found (insert j v m) k (Within-insert j v m k h)

lookup-other :
    (j k : Text) (v : AccountCoin) (m : Map AccountCoin)
    → lookup k ((j, v) ∷ m) ≢ none
    → text_eq j k ≡ false
    → lookup k m ≢ none
unfolding lookup
lookup-other j k v m h e = rw e at h

merge-has : (found m : Map AccountCoin) → Within found (merge found m)
unfolding merge lookup
merge-has [] m k h = absurd (h refl)
merge-has ((j, v) ∷ found) m k h = elim (Bool-cases (text_eq j k)) [
  | inl e ↦ merge-Within found (insert j v m) k (rw (lookup-insert, e) (λ q. cc))
  | inr e ↦ merge-has found (insert j v m) k (lookup-other j k v found h e)
]

-- One round of `look_up`: the coin was put in the map, or is left for later.
abbrev Round :
    Environment
    → ℤ
    → Text
    → List Text
    → Map AccountCoin
    → List Text
    → Map AccountCoin × List Text
    → Type 0
Round env height coin coins m rem result =
    (t : State) × (m₁ : Map AccountCoin) × (rem₁ : List Text) × ((look_up env height coins m₁ rem₁
        t).0
      ≡ ok result)
    × (((c : AccountCoin) × (m₁ ≡ insert coin c m) × (rem₁ ≡ rem))
        ⊎ ((m₁ ≡ m) × (rem₁ ≡ rem ++ coin ∷ [])))

look_up-Round :
    (env : Environment) (height : ℤ) (coin : Text) (coins : List Text) (m : Map AccountCoin)
    (rem : List Text) (s : State) (result : Map AccountCoin × List Text)
    → (look_up env height (coin ∷ coins) m rem s).0 ≡ ok result
    → Round env height coin coins m rem result
unfolding look_up
look_up-Round env height coin coins m rem s result e =
    go (find_coin env.same_head height coin (env.passes coin) s).0 refl
  where
    t : State
    t = (find_coin env.same_head height coin (env.passes coin) s).1

    go :
        (r : Outcome Failure (Coin × Option AccountIdentifier))
        → (find_coin env.same_head height coin (env.passes coin) s).0 ≡ r
        → Round env height coin coins m rem result
    go (ok (c, owner)) q =
        (t, _, _, (rw (q, look_up) at e), inl (record { account = owner; coin = c }, refl, refl))
    go (err missing_transaction) q = (t, _, _, (rw (q, look_up) at e), inr (refl, refl))
    go (err x) q = cc (rw (q, look_up) at e)
    go panic q = cc (rw (q, look_up) at e)

look_up-nil :
    (env : Environment) (height : ℤ) (m : Map AccountCoin) (rem : List Text) (s : State)
    {m' : Map AccountCoin} {rem' : List Text}
    → (look_up env height [] m rem s).0 ≡ ok (m', rem')
    → (m ≡ m') × (rem ≡ rem')
unfolding look_up
look_up-nil env height m rem s e = (cc, cc)

-- For any map that has what `look_up` found and what it left: it has all that was asked for.
look_up_complete :
    (env : Environment) (height : ℤ) (final : Map AccountCoin) (coins : List Text)
    (m : Map AccountCoin) (rem : List Text) (s : State) {m' : Map AccountCoin} {rem' : List Text}
    → (look_up env height coins m rem s).0 ≡ ok (m', rem')
    → Within m' final
    → Known final rem'
    → Known final coins × Within m final × Known final rem
look_up_complete env height final [] m rem s {m'} {rem'} e w h =
    let (p, q) = look_up-nil env height m rem s e in (tt, rw p w, rw q h)
look_up_complete env height final (coin ∷ coins) m rem s {m'} {rem'} e w h =
    let (t, m₁, rem₁, next, what) = look_up-Round env height coin coins m rem s (m', rem') e in
    let (a, b, c) = look_up_complete env height final coins m₁ rem₁ t next w h in
    elim what [
      | inl (v, p, q) ↦
          let b' : Within (insert coin v m) final = rw p at b in
          (
            (b' coin (rw lookup-insert_self (λ z. cc)), a),
            λ k z. b' k (Within-insert coin v m k z),
            rw q at c,
          )
      | inr (p, q) ↦
          let c' : Known final (rem ++ coin ∷ []) = rw q at c in
          (
            ((Known-right final rem (coin ∷ []) c').0, a),
            rw p at b,
            Known-left final rem (coin ∷ []) c',
          )
    ]

abbrev IsKnowing : (again : List Text → State → Outcome Failure (Map AccountCoin) × State) → Type 0
IsKnowing again =
    (rem : List Text) (s : State) (m : Map AccountCoin) → (again rem s).0 ≡ ok m → Known m rem

merge_result-eq-ok :
    (coin_map m : Map AccountCoin) (p : Outcome Failure (Map AccountCoin) × State)
    → (merge_result coin_map p).0 ≡ ok m
    → (f : Map AccountCoin) × (p.0 ≡ ok f) × (merge f coin_map ≡ m)
merge_result-eq-ok coin_map m (ok f, s) e = (f, refl, cc)
merge_result-eq-ok coin_map m (err x, s) e = cc
merge_result-eq-ok coin_map m (panic, s) e = cc

after_wait-Known :
    (again : List Text → State → Outcome Failure (Map AccountCoin) × State)
    (coin_map : Map AccountCoin) (rem : List Text) (p : Outcome Failure Bool × State)
    (m : Map AccountCoin)
    → IsKnowing again
    → (after_wait again coin_map rem p).0 ≡ ok m
    → Within coin_map m × Known m rem
unfolding after_wait
after_wait-Known again coin_map rem (ok true, s) m known e = cc
after_wait-Known again coin_map rem (ok false, s) m known e =
    let (f, got, same) = merge_result-eq-ok coin_map m (again rem s) e in
    rw (← same) (
      merge-Within f coin_map,
      Known-Within f (merge f coin_map) rem (merge-has f coin_map) (known rem s f got),
    )
after_wait-Known again coin_map rem (err x, s) m known e = cc
after_wait-Known again coin_map rem (panic, s) m known e = cc

after_look_up-Known :
    (again : List Text → State → Outcome Failure (Map AccountCoin) × State) (env : Environment)
    (p : Outcome Failure (Map AccountCoin × List Text) × State) (m : Map AccountCoin)
    → IsKnowing again
    → (after_look_up again env p).0 ≡ ok m
    → (coin_map : Map AccountCoin) × (rem : List Text) × (p.0 ≡ ok (coin_map, rem))
      × Within coin_map m
      × Known m rem
unfolding after_look_up
after_look_up-Known again env (ok (coin_map, []), s) m known e =
    let same : coin_map ≡ m = cc in (coin_map, [], refl, rw same (λ k h. h), tt)
after_look_up-Known again env (ok (coin_map, c ∷ cs), s) m known e =
    let (within, left) =
      after_wait-Known again coin_map (c ∷ cs) (await_all env (c ∷ cs) false s) m known e in
    (coin_map, c ∷ cs, refl, within, left)
after_look_up-Known again env (err x, s) m known e = cc
after_look_up-Known again env (panic, s) m known e = cc

find_coins_once-Known :
    (again : List Text → State → Outcome Failure (Map AccountCoin) × State) (env : Environment)
    (raw : Option Block) (coins : List Text) (s : State) (m : Map AccountCoin)
    → IsKnowing again
    → (find_coins_once again env raw coins s).0 ≡ ok m
    → Known m coins
unfolding find_coins_once
find_coins_once-Known again env raw coins s m known e =
    go (check_header_match env.head_block raw) refl
  where
    go :
        (r : Outcome Failure (Unit {0})) → check_header_match env.head_block raw ≡ r → Known m coins
    go (ok x) q =
        let (coin_map, rem, got, within, left) =
          after_look_up-Known again env (look_up env (height_of raw) coins [] [] s) m known
            (rw (q, find_coins_once) at e) in
        (look_up_complete env (height_of raw) m coins [] [] s got within left).0
    go (err x) q = cc (rw (q, find_coins_once) at e)
    go panic q = cc (rw (q, find_coins_once) at e)

-- When `find_coins` returns a map, it has every coin that was asked for, however often it had to
-- wait and whatever the other goroutines did.
pub find_coins-Known :
    (later : List Environment) (env : Environment) (raw : Option Block) (coins : List Text)
    (s : State) (m : Map AccountCoin)
    → (find_coins later env raw coins s).0 ≡ ok m
    → Known m coins
unfolding find_coins
find_coins-Known [] env raw coins s m e =
    find_coins_once-Known (λ remaining t. (err context_done, t)) env raw coins s m (λ rem t n q. cc)
      e
find_coins-Known (next ∷ later) env raw coins s m e =
    find_coins_once-Known (find_coins later next raw) env raw coins s m
      (λ rem t n q. find_coins-Known later next raw rem t n q) e
