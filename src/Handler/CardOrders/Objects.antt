-- ===== src/Handler/CardOrders/Objects.antt =====
-- The request of a first card, and the objects that `CreateManagedCustomer` of
-- internal/handler/cards.go makes for it.
use Prim.Native.Char.{code}
use Prim.Native.String.{◌++◌}
use mockgatehub.Prelude.{
  ℕ, zero, suc, String, false, Option, none, some, List, [], ◌∷◌, nat_beq, ◌==◌, if◌then◌else◌,
}
use mockgatehub.Float64.{Float64}
use mockgatehub.Models.{Time, Customer, Account, Card, CardLimit, CustomerDeliveryAddress}
use mockgatehub.Consts.{
  kyc_state_accepted, default_customer_type, default_account_type, card_relation_primary,
  default_status_active, card_status_active,
}
use mockgatehub.Handler.State.{Payload}

pub record DeliveryArgs : Type 0 where
  pub kind : String  -- Type
  pub country_code : String
  pub line1 : String
  pub line2 : Option String
  pub line3 : Option String
  pub city : String
  pub post_office : Option String
  pub zip_code : String

-- the part of `CreateCustomerAndCardArgs` that the handler reads
pub record CardOrder : Type 0 where
  pub wallet_address : String
  pub product_code : String
  pub currency : String
  pub delivery : Option DeliveryArgs
  pub name_on_card : String

-- what the handler generates, in order, and the present time
pub record FreshIds : Type 0 where
  pub customer_id : String
  pub address_id : String
  pub address_source_id : String
  pub account_id : String
  pub account_number : String
  pub card_id : String
  pub masked_pan : String
  pub expiry_date : String
  pub now : Time

pub record CustomerResponse : Type 0 where
  pub wallet_address : String
  pub customer : Customer

-- the first characters of a UUID
unfoldable pub prefix : ℕ → String → String
prefix zero s = ""
prefix (suc n) String.[] = ""
prefix (suc n) (String.◌∷◌ c s) = String.◌∷◌ c (prefix n s)

-- what follows the last underscore: none where there is none
unfoldable pub after_last_underscore : String → Option String
after_last_underscore String.[] = none
after_last_underscore (String.◌∷◌ c s) = elim (after_last_underscore s) [
  | some rest ↦ some rest
  | none ↦ if nat_beq (code c) b'_' then some s else none
]

unfoldable pub base_currency : String → String
unfolding after_last_underscore
base_currency currency = elim (after_last_underscore currency) [
  | none ↦ currency
  | some rest ↦ rest
]

abbrev pub text_or : String → String → String
text_or text fallback = if text == "" then fallback else text

module _ {F : Type 0} ⦃fl : Float64 F⦄ where
  abbrev limit_of : String → ℕ → CardLimit F
  limit_of kind n = record {
    kind = kind;
    limit = fl.of_nat n;
    currency = "EUR";
    is_disabled = false;
  }

  unfoldable pub default_card_limits : List (CardLimit F)
  default_card_limits =
      limit_of "dailyOverall" 1000
      ∷ limit_of "perTransaction" 500
      ∷ limit_of "monthlyOverall" 5000
      ∷ limit_of "dailyAtm" 300
      ∷ limit_of "dailyEcomm" 800
      ∷ []

abbrev pub new_customer_of : FreshIds → String → Customer
new_customer_of fresh user_id = record {
  id = some fresh.customer_id;
  source_id = user_id;
  kind = default_customer_type;
  customer_code = "CUST-" ++ prefix 8 fresh.customer_id;
  tax_number = "";
  kyc_status = kyc_state_accepted;
  addresses = [];
  accounts = [];
  created_at = fresh.now;
}

abbrev pub address_of : FreshIds → String → DeliveryArgs → CustomerDeliveryAddress
address_of fresh user_id d = record {
  id = fresh.address_id;
  source_id = fresh.address_source_id;
  customer_id = fresh.customer_id;
  customer_source_id = user_id;
  kind = d.kind;
  line1 = d.line1;
  line2 = d.line2;
  line3 = d.line3;
  city = d.city;
  post_office = d.post_office;
  zip_code = d.zip_code;
  country_code = d.country_code;
  status = default_status_active;
}

abbrev pub new_account_of : FreshIds → String → String → String → Account
new_account_of fresh user_id product_code currency = record {
  id = some fresh.account_id;
  source_id = fresh.account_id;
  customer_id = some fresh.customer_id;
  customer_source_id = user_id;
  product_code = product_code;
  currency = currency;
  account_number = "GB29NWBK" ++ prefix 12 fresh.account_number;
  kind = default_account_type;
  status = default_status_active;
  status_reason_code = "";
  cards = [];
  created_at = fresh.now;
}

abbrev pub new_card_of : FreshIds → String → String → String → Card
new_card_of fresh user_id product_code name_on_card = record {
  id = fresh.card_id;
  source_id = fresh.card_id;
  account_id = fresh.account_id;
  account_source_id = fresh.account_id;
  customer_id = fresh.customer_id;
  customer_source_id = user_id;
  name_on_card = name_on_card;
  product_code = product_code;
  pan_token = "pan_" ++ fresh.card_id;
  masked_pan = fresh.masked_pan;
  status = card_status_active;
  status_reason_code = none;
  lock_level = none;
  expiry_date = fresh.expiry_date;
  relation_type = card_relation_primary;
  membership_fee_effective_date = none;
  is_first_time_lock = false;
  plastic_created = false;
  order_plastic_on_sync = false;
  created_at = fresh.now;
}

abbrev pub created_payload : FreshIds → String → Card → Payload
created_payload fresh user_id card =
    ("cardId", some fresh.card_id)
    ∷ ("cardSourceId", some fresh.card_id)
    ∷ ("nameOnCard", some card.name_on_card)
    ∷ ("productCode", some card.product_code)
    ∷ ("maskedPan", some card.masked_pan)
    ∷ ("accountId", some fresh.account_id)
    ∷ ("accountSourceId", some fresh.account_id)
    ∷ ("lockLevel", none)
    ∷ ("customerId", some fresh.customer_id)
    ∷ ("customerSourceId", some user_id)
    ∷ []
