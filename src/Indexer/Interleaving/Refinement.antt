-- ===== src/Indexer/Interleaving/Refinement.antt =====
-- The wait table as a bag of transactions that are waited for.
use rosetta_thought.Prelude.{
  ℕ, suc, ◌≡◌, refl, sym, ◌∙◌, ap, if◌then◌else◌, Option, none, some, arith, ◌↔◌,
}
use rosetta_thought.Prelude.Int.{pos_part}
use rosetta_thought.Map.{lookup}
use rosetta_thought.Text.{Text, text_eq}
use rosetta_thought.Indexer.WaitTable.{WaitTableEntry}
use rosetta_thought.Indexer.Interleaving.{
  System, Step, load, close, clean, abort, enter, leave, give_up, Reach, next,
}
use rosetta_thought.Indexer.Interleaving.Counting.{count, count-middle}
use rosetta_thought.Indexer.Interleaving.Closing.{Counted}
use rosetta_thought.Indexer.Interleaving.Invariant.{Reach-IsConsistent}

-- How many wait for each transaction.
abbrev pub Waiting : Type 0
Waiting = Text → ℕ

-- What a section makes of the bag: the end of `findCoin` puts one more in, the last section of a wait
-- takes one out, and no other section changes it.
abbrev pub Effect : {a b : System} → Step a b → Waiting → Waiting → Type 0
Effect (enter tx_hash height) old new =
    (k : Text) → new k ≡ (if text_eq tx_hash k then suc (old k) else old k)
Effect (leave w front back val aborted s is present known closed e) old new =
    (k : Text) → old k ≡ (if text_eq w.tx_hash k then suc (new k) else new k)
Effect _ old new = (k : Text) → new k ≡ old k

abbrev pub listeners_of : Option WaitTableEntry → ℕ
listeners_of none = 0
listeners_of (some val) = pos_part val.listeners

-- The bag that a table stands for, read from the numbers of listeners.
abbrev pub bag_of : System → Waiting
bag_of a k = listeners_of (lookup k a.shared.waiter)

Counted-listeners : (o : Option WaitTableEntry) (n : ℕ) → Counted o n → listeners_of o ≡ n
Counted-listeners none n c = sym c
Counted-listeners (some val) n c = ap pos_part c.0

bag_of-count : (a : System) (k : Text) → Reach a → bag_of a k ≡ count k a.waits
bag_of-count a k r =
    Counted-listeners (lookup k a.shared.waiter) (count k a.waits)
      ((Reach-IsConsistent r).counted k)

-- In every interleaving, the numbers of listeners in the wait table are a bag that the end of findCoin
-- raises by one at the transaction that it waits for, that the last section of a wait of findCoins
-- lowers by one there, and that no other section changes, nor findCoins where it gives up a wait.
pub Step-Effect : {a b : System} (r : Reach a) (step : Step a b) → Effect step (bag_of a) (bag_of b)
Step-Effect {a} {b} r step =
    go a b step (λ k. bag_of-count a k r) (λ k. bag_of-count b k (next r step))
  where
    go :
        (x y : System) (st : Step x y)
        → ((k : Text) → bag_of x k ≡ count k x.waits)
        → ((k : Text) → bag_of y k ≡ count k y.waits)
        → Effect st (bag_of x) (bag_of y)
    go x y (load block) p q = λ k. q k ∙ sym (p k)
    go x y (Step.count) p q = λ k. q k ∙ sym (p k)
    go x y (close block s e) p q = λ k. q k ∙ sym (p k)
    go x y (clean block) p q = λ k. q k ∙ sym (p k)
    go x y (abort block s e) p q = λ k. q k ∙ sym (p k)
    go x y (enter tx_hash height) p q = λ k. rw (p k) (q k)
    go x y (leave w front back val aborted s is present known closed e) p q =
        λ k. p k ∙ ap (count k) is ∙ rw (q k) (count-middle k w front back)
    go x y (give_up w front back is) p q = λ k. refl

entry-listeners : (o : Option WaitTableEntry) (n : ℕ) → Counted o n → (o ≡ none) ↔ (n ≡ 0)
entry-listeners none n c = (λ e. c, λ e. refl)
entry-listeners (some val) n c = (λ e. absurd (cc), λ e. absurd (omega (arith, c.1)))

-- In every interleaving, the wait table has an entry for exactly the transactions for which findCoin
-- has entered a wait that findCoins has not taken out, be it that the wait goes on or that findCoins
-- has returned and given it up; the number of listeners is how many such waits there are.
pub table_counts_waits :
    (a : System) (k : Text)
    → Reach a
    → ((lookup k a.shared.waiter ≡ none) ↔ (count k a.waits ≡ 0)) × (bag_of a k ≡ count k a.waits)
table_counts_waits a k r = (
  entry-listeners (lookup k a.shared.waiter) (count k a.waits) ((Reach-IsConsistent r).counted k),
  bag_of-count a k r,
)
