-- ===== src/Thought/Ledger/Agrees.antt =====
-- The balances that the operations of a parsed block (thought/client.go) make agree with its coins.
use mathlib.Core.Path.{subst}
use rosetta_thought.Prelude.{
  ◌⊎◌, ◌≡◌, ◌≢◌, refl, sym, ap, ◌∙◌, Option, none, some, List, [], ◌∷◌, Bool-cases, Option-cases,
  inl, inr, All,
}
use rosetta_thought.Prelude.Int.{ℤ, pos, ◌+ℤ◌, ◌-ℤ◌, int_laws, eq_of_parts}
use rosetta_thought.Map.{Map, lookup, delete}
use rosetta_thought.Text.{Text}
use rosetta_thought.Sdk.{AccountCoin, CoinAction, CoinChange, Operation, coin_created, coin_spent}
use rosetta_thought.Thought.Types.{Client, Library}
use rosetta_thought.Thought.Created.{created_coin, add_coin, add_coins}
use rosetta_thought.Thought.Transactions.Spends.{Debits, Spends}
use rosetta_thought.Thought.Ledger.{
  share, is_owner, amount_of, balance_change, worth, change_unspent, unspent_after, IsSound,
  AreSound,
}
use rosetta_thought.Thought.Ledger.Within.{
  IsWithin, insert-IsWithin, insert_new-IsWithin, delete-IsWithin,
}
use rosetta_thought.Thought.Ledger.Worth.{
  IsUnique, insert-IsUnique, delete-IsUnique, insert-worth, delete-worth,
}

pub zero_left : (a : ℤ) → pos 0 +ℤ a ≡ a
zero_left a = eq_of_parts (pos 0 +ℤ a) a (omega int_laws)

moved : (x y z : ℤ) → x +ℤ y ≡ z → y ≡ (pos 0 -ℤ x) +ℤ z
moved x y z h = eq_of_parts y ((pos 0 -ℤ x) +ℤ z) (rw (← h) (omega int_laws))

zero_minus : pos 0 ≡ pos 0 -ℤ pos 0
unfolding ◌-ℤ◌
zero_minus = refl

pub swapped : (x y z : ℤ) → x +ℤ (y +ℤ z) ≡ (y +ℤ x) +ℤ z
swapped x y z = eq_of_parts (x +ℤ (y +ℤ z)) ((y +ℤ x) +ℤ z) (omega int_laws)

action-cases : (x : CoinAction) → (x ≡ coin_created) ⊎ (x ≡ coin_spent)
action-cases coin_created = inl refl
action-cases coin_spent = inr refl

-- `value` reads a decimal, and `negate_value` negates what it reads.
module _ (lib : Library) (client : Client) (value : Text → ℤ)
    (negates : (a n : Text) → lib.negate_value a ≡ some n → value n ≡ pos 0 -ℤ value a) where
  module _ (account : Text) (coins : Map AccountCoin) where
    -- The unspent coins became worth more by the change.
    pub record Agreed (unspent : Map AccountCoin) (change : ℤ) (known' unspent' : Map AccountCoin)
        : Type 0 where
      pub changed : worth value account unspent' ≡ change +ℤ worth value account unspent
      pub unique : IsUnique unspent'
      pub all_known : IsWithin unspent' known'
      pub still_known : IsWithin coins known'

    share-negated :
        (op : Operation) (c : AccountCoin)
        → Debits lib client op c
        → share value account op.account op.amount
          ≡ pos 0 -ℤ share value account c.account c.coin.amount
    share-negated op c d = elim (Bool-cases (is_owner value account c.account)) [
      | inl is ↦
          rw (d.account, d.takes, d.has_amount) (rw is (negates d.amount.value d.negated d.negates))
      | inr not_it ↦ rw (d.account, d.takes, d.has_amount) (rw not_it zero_minus)
    ]

    share-zero :
        (op : Operation)
        → ((a : Text) → amount_of value a op.amount ≡ pos 0)
        → share value account op.account op.amount ≡ pos 0
    share-zero op zero = elim (Bool-cases (is_owner value account op.account)) [
      | inl is ↦ rw is (zero account)
      | inr not_it ↦ rw not_it refl
    ]

    none-Agreed :
        (known unspent : Map AccountCoin) (op : Operation)
        → IsUnique unspent
        → IsWithin unspent known
        → IsWithin coins known
        → op.coin_change ≡ none
        → ((a : Text) → amount_of value a op.amount ≡ pos 0)
        → Agreed unspent (share value account op.account op.amount) (add_coin op known) unspent
    unfolding add_coin created_coin
    none-Agreed known unspent op unique within still e zero = rw e (record {
      changed = sym (
          ap (λ x. x +ℤ worth value account unspent) (share-zero op zero)
          ∙ zero_left (worth value account unspent));
      unique = unique;
      all_known = within;
      still_known = still;
    })

    created-Agreed :
        (known unspent : Map AccountCoin) (op : Operation) (change : CoinChange)
        → IsUnique unspent
        → IsWithin unspent known
        → IsWithin coins known
        → op.coin_change ≡ some change
        → change.coin_action ≡ coin_created
        → lookup change.coin_identifier.identifier known ≡ none
        → Agreed unspent
            (share value account op.account op.amount)
            (add_coin op known)
            (change_unspent op (some change) unspent)
    unfolding add_coin created_coin
    created-Agreed known unspent op change unique within still e created new =
        let k = change.coin_identifier.identifier in
        let absent : lookup k unspent ≡ none = elim (Option-cases (lookup k unspent)) [
          | inl h ↦ h
          | inr (c, h) ↦ absurd (let g = within k c h in cc)
        ] in
        rw (e, created)
          (record {
            changed = insert-worth value account k _ unspent absent;
            unique = insert-IsUnique k _ unspent unique;
            all_known = insert-IsWithin k _ unspent known within;
            still_known = insert_new-IsWithin k _ coins known new still;
          })

    spent-Agreed :
        (known unspent : Map AccountCoin) (op : Operation) (change : CoinChange)
        → IsUnique unspent
        → IsWithin unspent known
        → IsWithin coins known
        → Spends lib client coins op
        → op.coin_change ≡ some change
        → change.coin_action ≡ coin_spent
        → lookup change.coin_identifier.identifier unspent ≢ none
        → Agreed unspent
            (share value account op.account op.amount)
            (add_coin op known)
            (change_unspent op (some change) unspent)
    unfolding add_coin created_coin
    spent-Agreed known unspent op change unique within still spends e spent there =
        let k = change.coin_identifier.identifier in
        let (coin, found, debits) = spends change e spent in
        elim (Option-cases (lookup k unspent)) [
          | inl gone ↦ absurd (there gone)
          | inr (c, h) ↦
              let same : coin ≡ c = (let f = still k coin found in let g = within k c h in cc) in
              rw (e, spent)
                (record {
                  changed =
                      moved (share value account c.account c.coin.amount)
                        (worth value account (delete k unspent)) (worth value account unspent)
                        (delete-worth value account k c unspent unique h)
                      ∙ ap (λ x. x +ℤ worth value account unspent)
                          (sym (share-negated op c (subst (Debits lib client op) same debits)));
                  unique = delete-IsUnique k unspent unique;
                  all_known = delete-IsWithin k unspent known within;
                  still_known = still;
                })
        ]

    op-Agreed :
        (known unspent : Map AccountCoin) (op : Operation)
        → IsUnique unspent
        → IsWithin unspent known
        → IsWithin coins known
        → Spends lib client coins op
        → IsSound value known unspent op op.coin_change
        → Agreed unspent
            (share value account op.account op.amount)
            (add_coin op known)
            (change_unspent op op.coin_change unspent)
    op-Agreed known unspent op unique within still spends = go op.coin_change refl
      where
        go :
            (o : Option CoinChange)
            → op.coin_change ≡ o
            → IsSound value known unspent op o
            → Agreed unspent
                (share value account op.account op.amount)
                (add_coin op known)
                (change_unspent op o unspent)
        go none e sound = none-Agreed known unspent op unique within still e sound
        go (some change) e sound = elim (action-cases change.coin_action) [
          | inl created ↦
              created-Agreed known unspent op change unique within still e created
                (rw created at sound)
          | inr spent ↦
              spent-Agreed known unspent op change unique within still spends e spent
                (rw spent at sound)
        ]

    pub ops-Agreed :
        (known unspent : Map AccountCoin) (ops : List Operation)
        → IsUnique unspent
        → IsWithin unspent known
        → IsWithin coins known
        → All (Spends lib client coins) ops
        → AreSound value known unspent ops
        → Agreed unspent
            (balance_change value account ops)
            (add_coins ops known)
            (unspent_after ops unspent)
    unfolding add_coins
    ops-Agreed known unspent [] unique within still spends sound = record {
      changed = sym (zero_left (worth value account unspent));
      unique = unique;
      all_known = within;
      still_known = still;
    }
    ops-Agreed known unspent (op ∷ ops) unique within still (first, rest) (sound, sounds) =
        let x = share value account op.account op.amount in
        let a = op-Agreed known unspent op unique within still first sound in
        let b =
          ops-Agreed (add_coin op known) (change_unspent op op.coin_change unspent) ops a.unique
            a.all_known a.still_known rest sounds in
        record {
          changed =
              b.changed
              ∙ (ap (λ w. balance_change value account ops +ℤ w) a.changed
                  ∙ swapped (balance_change value account ops) x (worth value account unspent));
          unique = b.unique;
          all_known = b.all_known;
          still_known = b.still_known;
        }
