-- ===== src/Models/CardTransactions.antt =====
-- internal/models/cards.go: the card transaction as it goes over the wire.
use mockgatehub.Prelude.{String, Bool, Option}
use mockgatehub.Prelude.Int.{ℤ}

pub record MastercardConversion : Type 0 where
  pub conv_rate : Option String
  pub ref_con_rate : Option String
  pub ref_conf_rate_diff : Option String

pub record CardTransaction : Type 0 where
  pub id : Option ℤ
  pub vault_id : Option ℤ
  pub card_id : Option ℤ
  pub transaction_id : String
  pub ref_transaction_id : Option String
  pub response_code : Option String
  pub gh_response_code : String
  pub gh_response_description : String
  pub transaction_amount : Option String
  pub transaction_currency : Option String
  pub billing_amount : Option String
  pub billing_currency : Option String
  pub is_trx_amount_converted : Bool
  pub terminal_id : String
  pub card_scheme : ℤ
  pub kind : ℤ  -- Type
  pub source : Option String
  pub entry_mode : Option ℤ
  pub authorization_code : Option String
  pub split_into_multiple : Option Bool
  pub authentication : Option ℤ
  pub authentication_protocol : Option ℤ
  pub wallet : Option ℤ
  pub transaction_date_time : Option String
  pub process_date_time : Option String
  pub created_at : String
  pub tx_status : Option String
  pub operation : ℤ
  pub mcc : Option String
  pub merchant_street : Option String
  pub merchant_city : Option String
  pub merchant_zip : Option String
  pub merchant_country : Option String
  pub merchant_name : Option String
  pub merchant_id : Option String
  pub transaction_classification : Option String
  pub spend_exchange_rate : Option String
  pub spend_currency : Option String
  pub mastercard_conversion : Option MastercardConversion
