-- ===== src/Handler/CardTransactions/Record.antt =====
-- The transaction that `CreateCardTransaction` of internal/handler/cards.go makes.
use mockgatehub.Prelude.{ℕ, String, false, Option, none, some, ◌==◌, if◌then◌else◌}
use mockgatehub.Prelude.Int.{ℤ, pos}
use mockgatehub.Models.{CardTransaction}

pub record CreateCardTransactionArgs : Type 0 where
  pub card_id : String
  pub card_guid : String
  pub amount : String
  pub currency : String
  pub kind : ℤ  -- Type
  pub merchant_name : Option String
  pub merchant_city : Option String
  pub merchant_country : Option String

abbrev pub card_uuid_of : CreateCardTransactionArgs → String
card_uuid_of req = if req.card_id == "" then req.card_guid else req.card_id

abbrev pub new_transaction : String → String → ℕ → ℕ → CreateCardTransactionArgs → CardTransaction
new_transaction tx_id now seq_id numeric req = record {
  id = some (pos seq_id);
  vault_id = none;
  card_id = some (pos numeric);
  transaction_id = tx_id;
  ref_transaction_id = none;
  response_code = none;
  gh_response_code = "00";
  gh_response_description = "Approved";
  transaction_amount = some req.amount;
  transaction_currency = some req.currency;
  billing_amount = some req.amount;
  billing_currency = some req.currency;
  is_trx_amount_converted = false;
  terminal_id = "TERM001";
  card_scheme = pos 2;
  kind = req.kind;
  source = none;
  entry_mode = none;
  authorization_code = none;
  split_into_multiple = none;
  authentication = none;
  authentication_protocol = none;
  wallet = none;
  transaction_date_time = some now;
  process_date_time = some now;
  created_at = now;
  tx_status = some "COMPLETED";
  operation = pos 0;
  mcc = none;
  merchant_street = none;
  merchant_city = req.merchant_city;
  merchant_zip = none;
  merchant_country = req.merchant_country;
  merchant_name = req.merchant_name;
  merchant_id = none;
  transaction_classification = none;
  spend_exchange_rate = none;
  spend_currency = none;
  mastercard_conversion = none;
}
