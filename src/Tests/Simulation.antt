-- ===== src/Tests/Simulation.antt =====
-- Simulated card transactions, whose JSON is the ID of the transaction alone.
use mockgatehub.Storage.CardTransactions.{
  create_card_transaction, next_card_transaction_seq_id, store_raw_card_transaction,
}
use mockgatehub.Storage.Cards.{get_card}
use mockgatehub.Storage.Users.{get_user}
use mockgatehub.Prelude.{ℕ, String, ◌≡◌, refl, false, none, some, Option, [], ◌∷◌, List, ◌==◌}
use mockgatehub.Prelude.Int.{pos}
use mockgatehub.Prelude.Result.{ok}
use mockgatehub.Prelude.GoMap.{lookup, insert}
use mockgatehub.Handler.CardTransactions.Simulation.{
  TransactionJson, CardTxScenario, SimulateCardTransactionRequest, SimulateCardTransactionResult,
  Materialised, materialise_card_transaction,
}
use mockgatehub.Handler.CardTransactions.Record.{CreateCardTransactionArgs, new_transaction}
use mockgatehub.Handler.CardTransactions.{simulate_card_transaction, handle_get_card_transaction}
use mockgatehub.Handler.CardTransactions.Simulated.{materialise-IsIdentified, IsIdentified}
use mockgatehub.Handler.CardTransactions.Served.{simulated_is_served}
use mockgatehub.Tests.Data.{handler}

abbrev sha256 : String → List ℕ
sha256 text = 171 ∷ 18 ∷ 52 ∷ 86 ∷ []

abbrev to_lower : String → String
to_lower text = text

abbrev args : CreateCardTransactionArgs
args = record {
  card_id = "card-1";
  card_guid = "";
  amount = "10.00";
  currency = "EUR";
  kind = pos 0;
  merchant_name = none;
  merchant_city = none;
  merchant_country = none;
}

abbrev text_of : Option String → String
text_of none = ""
text_of (some text) = text

abbrev json : TransactionJson String String
json = record {
  text = λ text. text;
  number = λ n. "number";
  unmarshal_fields = λ raw. ok (("transactionId", raw) ∷ []);
  marshal_fields = λ fields. ok (text_of (lookup "transactionId" fields));
  unmarshal = λ raw. ok (new_transaction raw "now" 1 1 args);
  marshal = λ tx. ok tx.transaction_id;
  with_tx_status = λ status raw. some raw;
  is_empty = λ raw. raw == "";
  shown = λ raw. raw;
}

abbrev catalogue : List (CardTxScenario String)
catalogue = record { key = "deposit"; payload = "fixture" } ∷ []

-- an override that claims another ID
abbrev request : SimulateCardTransactionRequest String
request = record {
  user_id = "alice-id";
  card_id = "card-1";
  scenario = "deposit";
  overrides = ("transactionId", "mine") ∷ [];
  event = "";
  notification = none;
}

abbrev made : Materialised String
made = record { tx = new_transaction "tx-7" "now" 1 1 args; raw = "tx-7"; tx_id = "tx-7" }

materialise-IsIdentified_example : IsIdentified json sha256 "tx-7" "now" "card-1" 1 "tx-7"
unfolding materialise_card_transaction lookup insert
materialise-IsIdentified_example =
    (materialise-IsIdentified json sha256 "tx-7" "now" "fixture" request.overrides 1 "card-1" made
      refl).2

abbrev simulated : SimulateCardTransactionResult String
simulated = record {
  scenario = "deposit";
  event = "cards.transaction.authorization";
  transaction_id = "tx-7";
  transaction = "tx-7";
}

simulated_is_served_example :
    (handle_get_card_transaction json "tx-7"
      (simulate_card_transaction json to_lower sha256 catalogue "tx-7" "now" request
        (handler false)).1).0
    ≡ ok (some "tx-7")
unfolding simulate_card_transaction get_user lookup get_card next_card_transaction_seq_id
    create_card_transaction insert store_raw_card_transaction
simulated_is_served_example =
    (simulated_is_served json to_lower sha256 catalogue "tx-7" "now" request (handler false)
      simulated refl refl).1
