-- ===== src/Examples/Json.antt =====
-- Codecs of the transactions, the JSON and the metadata of the Construction API.
use rosetta_thought.Prelude.{refl}
use rosetta_thought.Sdk.{Amount, Coin}
use rosetta_thought.Thought.Types.{ScriptPubKey}
use rosetta_thought.Services.Interfaces.{
  UnsignedTransaction, SignedTransaction, ConstructionMetadata, PreprocessOptions,
}
use rosetta_thought.Services.Construction.Toolkit.{TxIn, TxOut, MsgTx}
use rosetta_thought.Examples.Codec.{Codec, nat, pair, via, list, int, text, option}

pub tx_in : Codec TxIn
tx_in =
    via (pair text (pair nat (pair text nat)))
      (λ i.
        (i.previous_out_point.hash, (i.previous_out_point.index, (i.signature_script, i.sequence))))
      (λ x. record {
        previous_out_point = record { hash = x.0; index = x.1.0 };
        signature_script = x.1.1.0;
        sequence = x.1.1.1;
      })
      (λ i. refl)

pub tx_out : Codec TxOut
tx_out =
    via (pair int text) (λ o. (o.value, o.pk_script)) (λ x. record { value = x.0; pk_script = x.1 })
      (λ o. refl)

pub msg_tx : Codec MsgTx
msg_tx =
    via (pair int (pair (list tx_in) (pair (list tx_out) nat)))
      (λ t. (t.version, (t.tx_in, (t.tx_out, t.lock_time))))
      (λ x. record { version = x.0; tx_in = x.1.0; tx_out = x.1.1.0; lock_time = x.1.1.1 })
      (λ t. refl)

pub script_pub_key : Codec ScriptPubKey
script_pub_key =
    via (pair text (pair text (pair int (pair text (list text)))))
      (λ s. (s.asm, (s.hex, (s.required_sigs, (s.type, s.addresses)))))
      (λ x. record {
        asm = x.0;
        hex = x.1.0;
        required_sigs = x.1.1.0;
        type = x.1.1.1.0;
        addresses = x.1.1.1.1;
      })
      (λ s. refl)

pub unsigned_json : Codec UnsignedTransaction
unsigned_json =
    via (pair text (pair (list script_pub_key) (pair (list text) (list text))))
      (λ u. (u.transaction, (u.script_pub_keys, (u.input_amounts, u.input_addresses))))
      (λ x. record {
        transaction = x.0;
        script_pub_keys = x.1.0;
        input_amounts = x.1.1.0;
        input_addresses = x.1.1.1;
      })
      (λ u. refl)

pub signed_json : Codec SignedTransaction
signed_json =
    via (pair text (list text)) (λ s. (s.transaction, s.input_amounts))
      (λ x. record { transaction = x.0; input_amounts = x.1 }) (λ s. refl)

pub amount_json : Codec Amount
amount_json =
    via (pair text (pair text int)) (λ a. (a.value, (a.currency.symbol, a.currency.decimals)))
      (λ x. record { value = x.0; currency = record { symbol = x.1.0; decimals = x.1.1 } })
      (λ a. refl)

pub coin_json : Codec Coin
coin_json =
    via (pair text (option amount_json)) (λ c. (c.coin_identifier.identifier, c.amount))
      (λ x. record { coin_identifier = record { identifier = x.0 }; amount = x.1 }) (λ c. refl)

pub options_json : Codec PreprocessOptions
options_json =
    via (pair (list coin_json) (pair nat (option nat)))
      (λ o. (o.coins, (o.estimated_size, o.fee_multiplier)))
      (λ x. record { coins = x.0; estimated_size = x.1.0; fee_multiplier = x.1.1 }) (λ o. refl)

pub metadata_json : Codec ConstructionMetadata
metadata_json =
    via (list script_pub_key) (λ m. m.script_pub_keys) (λ x. record { script_pub_keys = x })
      (λ m. refl)
