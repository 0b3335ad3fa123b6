-- ===== src/Models/Cards.antt =====
-- internal/models/cards.go: card customers, accounts, cards, limits, addresses, 3DS challenges.
use mockgatehub.Prelude.{String, Bool, List, Option}
use mockgatehub.Models.Accounts.{Time}

pub record Card : Type 0 where
  pub id : String
  pub source_id : String
  pub account_id : String
  pub account_source_id : String
  pub customer_id : String
  pub customer_source_id : String
  pub name_on_card : String
  pub product_code : String
  pub pan_token : String
  pub masked_pan : String
  pub status : String
  pub status_reason_code : Option String
  pub lock_level : Option String
  pub expiry_date : String
  pub relation_type : String
  pub membership_fee_effective_date : Option String
  pub is_first_time_lock : Bool
  pub plastic_created : Bool
  pub order_plastic_on_sync : Bool
  pub created_at : Time

pub record Account : Type 0 where
  pub id : Option String
  pub source_id : String
  pub customer_id : Option String
  pub customer_source_id : String
  pub product_code : String
  pub currency : String
  pub account_number : String
  pub kind : String  -- Type
  pub status : String
  pub status_reason_code : String
  pub cards : List Card
  pub created_at : Time

pub record CustomerDeliveryAddress : Type 0 where
  pub id : String
  pub source_id : String
  pub customer_id : String
  pub customer_source_id : String
  pub kind : String  -- Type
  pub line1 : String
  pub line2 : Option String
  pub line3 : Option String
  pub city : String
  pub post_office : Option String
  pub zip_code : String
  pub country_code : String
  pub status : String

pub record Customer : Type 0 where
  pub id : Option String
  pub source_id : String
  pub kind : String  -- Type
  pub customer_code : String  -- Code
  pub tax_number : String
  pub kyc_status : String
  pub addresses : List CustomerDeliveryAddress
  pub accounts : List Account
  pub created_at : Time

pub record CardLimit (F : Type 0) : Type 0 where
  pub kind : String  -- Type
  pub limit : F
  pub currency : String
  pub is_disabled : Bool

pub record ThreeDsChallenge : Type 0 where
  pub transaction_id : String
  pub card_id : String
  pub user_id : String
  pub merchant_name : String
  pub purchase_amount : String
  pub purchase_currency : String
  pub purchase_date : String
  pub timeout : Time
  pub status : String
  pub created_at : Time
