-- ===== src/Models/Accounts.antt =====
-- internal/models/models.go: users, wallets, organizations and transactions.
use mockgatehub.Prelude.{ℕ, String, Bool, List}
use mockgatehub.Prelude.Int.{ℤ}

-- `time.Time`
abbrev pub Time : Type 0
Time = ℕ

pub record User : Type 0 where
  pub id : String
  pub email : String
  pub activated : Bool
  pub managed : Bool
  pub role : String
  pub features : List String
  pub kyc_state : String
  pub risk_level : String
  pub is_profile_creation_disabled : Bool
  pub created_at : Time
  pub first_name : String
  pub middle_name : String
  pub last_name : String
  pub gender : String
  pub birth_year : ℤ
  pub birth_month : ℤ
  pub birth_day : ℤ
  pub birth_city : String
  pub birth_country_code : String
  pub citizenship : String
  pub address_street1 : String
  pub address_street2 : String
  pub address_city : String
  pub address_postal_code : String
  pub address_subdivision : String
  pub address_country_code : String
  pub tax_residency : String
  pub expected_volume : String

pub record Wallet : Type 0 where
  pub address : String
  pub user_id : String
  pub name : String
  pub kind : ℤ  -- Type
  pub network : ℤ
  pub created_at : Time

pub record Organization : Type 0 where
  pub id : String
  pub api_base_url : String
  pub two_fa_type : String
  pub created_at : Time
  pub updated_at : Time

pub record Transaction : Type 0 where
  pub id : String
  pub user_id : String
  pub uid : String
  pub amount : String
  pub total_amount : String
  pub fee : String
  pub currency : String
  pub vault_uuid : String
  pub sending_address : String
  pub receiving_address : String
  pub kind : ℤ  -- Type
  pub deposit_type : String
  pub status : ℕ
  pub created_at : Time
  pub account_iban : String
  pub account_legal_name : String
  pub message : String
