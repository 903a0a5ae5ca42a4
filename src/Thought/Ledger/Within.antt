-- ===== src/Thought/Ledger/Within.antt =====
-- Maps of coins within one another.
use rosetta_thought.Prelude.{
  ◌≡◌, ◌∙◌, Option, none, some, List, [], ◌∷◌, arith, Bool-cases, inl, inr,
}
use rosetta_thought.Map.{Map, lookup, insert, delete, lookup-insert, lookup-delete}
use rosetta_thought.Text.{Text, text_eq, text_eq_iff}
use rosetta_thought.Sdk.{AccountCoin, Operation}
use rosetta_thought.Thought.Created.{created_coin, add_coin, add_coins}

-- Every coin of the first map is in the second.
abbrev pub IsWithin : Map AccountCoin → Map AccountCoin → Type 0
IsWithin a b = (k : Text) (c : AccountCoin) → lookup k a ≡ some c → lookup k b ≡ some c

pub insert-IsWithin :
    (k : Text) (c : AccountCoin) (a b : Map AccountCoin)
    → IsWithin a b
    → IsWithin (insert k c a) (insert k c b)
insert-IsWithin k c a b within j d h =
    ground (arith, lookup-insert k j c a, lookup-insert k j c b, within j d, h)

pub insert_new-IsWithin :
    (k : Text) (c : AccountCoin) (a b : Map AccountCoin)
    → lookup k b ≡ none
    → IsWithin a b
    → IsWithin a (insert k c b)
insert_new-IsWithin k c a b new within j d h = elim (Bool-cases (text_eq k j)) [
  | inl same ↦ absurd (
      let e = (text_eq_iff k j).0 same in
      let f = within j d h in let g : lookup j b ≡ none = rw e at new in cc)
  | inr differ ↦ lookup-insert k j c b ∙ rw differ (within j d h)
]

pub delete-IsWithin : (k : Text) (a b : Map AccountCoin) → IsWithin a b → IsWithin (delete k a) b
delete-IsWithin k a b within j d h = elim (Bool-cases (text_eq k j)) [
  | inl same ↦ absurd (let e = lookup-delete k j a in ground (arith, e, same, h))
  | inr differ ↦ within j d (let e = lookup-delete k j a in ground (arith, e, differ, h))
]

add_coin-IsWithin :
    (op : Operation) (a b : Map AccountCoin)
    → IsWithin a b
    → IsWithin (add_coin op a) (add_coin op b)
unfolding add_coin
add_coin-IsWithin op a b within = go (created_coin op)
  where
    go :
        (o : Option (Text × AccountCoin))
        → IsWithin
            (elim o [ none ↦ a | some (j, c) ↦ insert j c a ])
            (elim o [ none ↦ b | some (j, c) ↦ insert j c b ])
    go none = within
    go (some (j, c)) = insert-IsWithin j c a b within

pub add_coins-IsWithin :
    (ops : List Operation) (a b : Map AccountCoin)
    → IsWithin a b
    → IsWithin (add_coins ops a) (add_coins ops b)
unfolding add_coins
add_coins-IsWithin [] a b within = within
add_coins-IsWithin (op ∷ ops) a b within =
    add_coins-IsWithin ops (add_coin op a) (add_coin op b) (add_coin-IsWithin op a b within)
