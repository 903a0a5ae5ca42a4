-- ===== src/Thought/Ledger/Worth.antt =====
-- What a map of unspent coins is worth, when a coin comes in or goes out.
use rosetta_thought.Prelude.{◌≡◌, refl, ap, ◌∙◌, none, some, [], ◌∷◌, arith, Bool-cases, inl, inr}
use rosetta_thought.Prelude.Int.{ℤ, ◌+ℤ◌, +ℤ_left_comm}
use rosetta_thought.Map.{Map, lookup, insert, delete, lookup-insert, lookup-delete}
use rosetta_thought.Text.{Text, text_eq, text_eq_iff}
use rosetta_thought.Sdk.{AccountCoin}
use rosetta_thought.Thought.Ledger.{share, worth}

-- No identifier stands twice in the map.
abbrev pub IsUnique : Map AccountCoin → Type 0
IsUnique [] = Unit
IsUnique ((k, coin) ∷ coins) = (lookup k coins ≡ none) × IsUnique coins

pub insert-IsUnique :
    (k : Text) (c : AccountCoin) (m : Map AccountCoin) → IsUnique m → IsUnique (insert k c m)
unfolding insert lookup
insert-IsUnique k c [] unique = (refl, tt)
insert-IsUnique k c ((j, d) ∷ m) (new, unique) = elim (Bool-cases (text_eq j k)) [
  | inl same ↦ rw same ((let e = (text_eq_iff j k).0 same in rw e at new), unique)
  | inr differ ↦ rw differ (
    (let e = lookup-insert k j c m in
        ground (arith, e, new, differ, text_eq_iff j k, text_eq_iff k j)),
    insert-IsUnique k c m unique,
  )
]

pub delete-IsUnique : (k : Text) (m : Map AccountCoin) → IsUnique m → IsUnique (delete k m)
unfolding delete
delete-IsUnique k [] unique = tt
delete-IsUnique k ((j, d) ∷ m) (new, unique) = elim (Bool-cases (text_eq j k)) [
  | inl same ↦ rw same (delete-IsUnique k m unique)
  | inr differ ↦
      rw differ
        ((let e = lookup-delete k j m in ground (arith, e, new)), delete-IsUnique k m unique)
]

module _ (value : Text → ℤ) (account : Text) where
  pub insert-worth :
      (k : Text) (c : AccountCoin) (m : Map AccountCoin)
      → lookup k m ≡ none
      → worth value account (insert k c m)
        ≡ share value account c.account c.coin.amount +ℤ worth value account m
  unfolding insert lookup
  insert-worth k c [] new = refl
  insert-worth k c ((j, d) ∷ m) new = elim (Bool-cases (text_eq j k)) [
    | inl same ↦ absurd (ground (arith, new, same))
    | inr differ ↦
        let e = insert-worth k c m (ground (arith, new, differ)) in
        rw differ (
          ap (λ x. share value account d.account d.coin.amount +ℤ x) e
          ∙ +ℤ_left_comm (share value account d.account d.coin.amount)
              (share value account c.account c.coin.amount) (worth value account m))
  ]

  delete-absent : (k : Text) (m : Map AccountCoin) → lookup k m ≡ none → delete k m ≡ m
  unfolding delete lookup
  delete-absent k [] new = refl
  delete-absent k ((j, d) ∷ m) new = elim (Bool-cases (text_eq j k)) [
    | inl same ↦ absurd (ground (arith, new, same))
    | inr differ ↦
        rw differ (ap (λ x. (j, d) ∷ x) (delete-absent k m (ground (arith, new, differ))))
  ]

  pub delete-worth :
      (k : Text) (c : AccountCoin) (m : Map AccountCoin)
      → IsUnique m
      → lookup k m ≡ some c
      → share value account c.account c.coin.amount +ℤ worth value account (delete k m)
        ≡ worth value account m
  unfolding delete lookup
  delete-worth k c [] unique found = absurd (cc)
  delete-worth k c ((j, d) ∷ m) (new, unique) found = elim (Bool-cases (text_eq j k)) [
    | inl same ↦
        let is : d ≡ c = ground (arith, found, same) in
        let gone = delete-absent k m (let e = (text_eq_iff j k).0 same in rw e at new) in
        rw same (
          rw (is)
            (ap (λ x. share value account c.account c.coin.amount +ℤ worth value account x) gone))
    | inr differ ↦
        let e = delete-worth k c m unique (ground (arith, found, differ)) in
        rw differ (
          +ℤ_left_comm (share value account c.account c.coin.amount)
            (share value account d.account d.coin.amount) (worth value account (delete k m))
          ∙ ap (λ x. share value account d.account d.coin.amount +ℤ x) e)
  ]
