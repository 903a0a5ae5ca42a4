-- ===== src/Services/Construction/Parse/Reads.antt =====
-- The operations that are read from a payment's transaction.
use rosetta_thought.Prelude.{
  ℕ, suc, ◌≡◌, refl, ap, ◌∙◌, false, List, [], ◌∷◌, ◌++◌, arith, length, length-append, map, drop,
  drop-suc, All, append_assoc, append-nil,
}
use rosetta_thought.Outcome.{ok}
use rosetta_thought.Text.{Text}
use rosetta_thought.Text.Decimal.{format_int}
use rosetta_thought.Text.Hex.{decode_string}
use rosetta_thought.Sdk.{Operation}
use rosetta_thought.Thought.Address.{parse_single_address}
use rosetta_thought.Configuration.{Configuration}
use rosetta_thought.Services.Interfaces.{UnsignedTransaction}
use rosetta_thought.Services.Construction.Toolkit.{Toolkit, TxIn, MsgTx, decode_intermediate}
use rosetta_thought.Services.Construction.Payloads.Intended.{
  Spend, Payment, IsSpend, IsPayment, intended_input, intended_output, intended_inputs,
  intended_outputs, spent, paid,
}
use rosetta_thought.Services.Construction.Parse.{
  input_operation, output_operation, unsigned_inputs, output_operations, parse_unsigned_transaction,
  construction_parse,
}
use rosetta_thought.Services.Construction.Payloads.Build.{index-drop}

module _ {Address : Type 0} (kit : Toolkit Address) (config : Configuration) where
  pub input_operation-intended :
      (i n : ℕ) (s : Spend) (input : TxIn)
      → IsSpend kit config s
      → input.previous_out_point ≡ record { hash = s.id; index = s.vout }
      → i ≡ n
      → input_operation kit config n i s.address (format_int s.amount) input
        ≡ intended_input config i s
  unfolding input_operation
  input_operation-intended i n s input is point e =
      rw (is.account, is.coin, point, is.printed, e) refl

  unsigned_inputs-ok :
      (unsigned : UnsignedTransaction) (i : ℕ) (ops : List Operation) (spends : List Spend)
      → i ≡ length ops
      → All (IsSpend kit config) spends
      → drop i unsigned.input_addresses ≡ map (λ s. s.address) spends
      → drop i unsigned.input_amounts ≡ map (λ s. format_int s.amount) spends
      → unsigned_inputs kit config unsigned i ops (map (spent kit) spends)
        ≡ ok (ops ++ intended_inputs config i spends)
  unfolding unsigned_inputs
  unsigned_inputs-ok unsigned i ops [] e is address amount = rw append-nil refl
  unsigned_inputs-ok unsigned i ops (s ∷ spends) e is address amount =
      rw (index-drop unsigned.input_addresses i address) (
        rw (index-drop unsigned.input_amounts i amount) (
          rw (input_operation-intended i (length ops) s (spent kit s) is.0 refl e) (
            unsigned_inputs-ok unsigned (suc i) (ops ++ intended_input config i s ∷ []) spends
              (omega (arith, length-append ops (intended_input config i s ∷ []))) is.1
              (drop-suc i unsigned.input_addresses address)
              (drop-suc i unsigned.input_amounts amount)
            ∙ ap ok (
                append_assoc ops (intended_input config i s ∷ [])
                  (intended_inputs config (suc i) spends)))))

  output_operation-intended :
      (i n m : ℕ) (p : Payment Address) (addr : Address)
      → IsPayment kit config p
      → kit.address_string addr ≡ p.address
      → i ≡ m
      → output_operation kit config m n addr (paid p) ≡ intended_output config i n p
  unfolding output_operation
  output_operation-intended i n m p addr is printed e = rw (is.account, printed, e) refl

  pub output_operations-ok :
      (i n : ℕ) (ops : List Operation) (payments : List (Payment Address))
      → i ≡ length ops
      → All (IsPayment kit config) payments
      → output_operations kit config n ops (map paid payments)
        ≡ ok (ops ++ intended_outputs config i n payments)
  unfolding output_operations parse_single_address
  output_operations-ok i n ops [] e is = rw append-nil refl
  output_operations-ok i n ops (p ∷ payments) e is =
      let (class, addr, back, printed) = is.0.back in
      rw back (
        rw (output_operation-intended i n (length ops) p addr is.0 printed e) (
          output_operations-ok (suc i) (suc n) (ops ++ intended_output config i n p ∷ []) payments
            (omega (arith, length-append ops (intended_output config i n p ∷ []))) is.1
          ∙ ap ok (
              append_assoc ops (intended_output config i n p ∷ [])
                (intended_outputs config (suc i) (suc n) payments))))

  -- The response of an unsigned transaction that decodes to the payment's inputs and outputs.
  pub parse_unsigned-ok :
      (spends : List Spend) (payments : List (Payment Address)) (text : Text)
      (u : UnsignedTransaction) (tx : MsgTx)
      → All (IsSpend kit config) spends
      → All (IsPayment kit config) payments
      → decode_intermediate kit.unmarshal_unsigned (decode_string text) ≡ ok u
      → decode_intermediate kit.deserialize (decode_string u.transaction) ≡ ok tx
      → u.input_amounts ≡ map (λ s. format_int s.amount) spends
      → u.input_addresses ≡ map (λ s. s.address) spends
      → tx.tx_in ≡ map (spent kit) spends
      → tx.tx_out ≡ map paid payments
      → construction_parse kit config false text
        ≡ ok (record {
          operations =
              intended_inputs config 0 spends
              ++ intended_outputs config (length (intended_inputs config 0 spends)) 0 payments;
          account_identifier_signers = [];
        })
  unfolding construction_parse parse_unsigned_transaction
  parse_unsigned-ok spends payments text u tx is are decoded read amounts addresses ins outs =
      rw decoded (
        rw read (
          rw ins (
            rw (unsigned_inputs-ok u 0 [] spends refl is addresses amounts) (
              rw outs (
                rw
                  (output_operations-ok (length (intended_inputs config 0 spends)) 0
                    (intended_inputs config 0 spends) payments refl are)
                  refl)))))
