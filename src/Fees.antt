-- ===== src/Fees.antt =====
-- internal/handler/fees.go: `FeeConfig`, the fee of an amount, and the rules of the admin requests.
pub mod Laws
use mockgatehub.Prelude.{
  String, Bool, true, false, Option, none, some, [], ◌||◌, ◌==◌, if◌then◌else◌,
}
use mockgatehub.Prelude.GoMap.{GoMap, lookup, insert, erase}
use mockgatehub.Float64.{Float64}

pub record UserFeeOverride (F : Type 0) : Type 0 where
  pub deposit_percent : Option F
  pub withdrawal_percent : Option F

pub record FeeConfig (F : Type 0) : Type 0 where
  pub deposit_fee_percent : F
  pub withdrawal_fee_percent : F
  pub user_overrides : GoMap (UserFeeOverride F)

-- a percentage, and whether it is the user's own
abbrev pub effective : {F : Type 0} → Option F → F → F × Bool
effective none global = (global, false)
effective (some pct) global = (pct, true)

-- Nil leaves the present override.
abbrev pub or_keep : {F : Type 0} → Option F → Option F → Option F
or_keep none present = present
or_keep (some pct) present = some pct

module _ {F : Type 0} where
  -- `fc.userOverrides[userID]`, the zero value where it is missing
  abbrev pub override_of : Option (UserFeeOverride F) → UserFeeOverride F
  override_of none = record { deposit_percent = none; withdrawal_percent = none }
  override_of (some o) = o

  unfoldable pub get_deposit_fee_for_user : String → FeeConfig F → F × Bool
  get_deposit_fee_for_user user_id fc =
      effective (override_of (lookup user_id fc.user_overrides)).deposit_percent
        fc.deposit_fee_percent

  unfoldable pub get_withdrawal_fee_for_user : String → FeeConfig F → F × Bool
  get_withdrawal_fee_for_user user_id fc =
      effective (override_of (lookup user_id fc.user_overrides)).withdrawal_percent
        fc.withdrawal_fee_percent

  unfoldable pub set_deposit_fee_percent : F → FeeConfig F → FeeConfig F
  set_deposit_fee_percent pct fc = record fc { deposit_fee_percent = pct }

  unfoldable pub set_withdrawal_fee_percent : F → FeeConfig F → FeeConfig F
  set_withdrawal_fee_percent pct fc = record fc { withdrawal_fee_percent = pct }

  unfoldable pub set_user_fees : String → Option F → Option F → FeeConfig F → FeeConfig F
  set_user_fees user_id deposit_pct withdrawal_pct fc =
      let o = override_of (lookup user_id fc.user_overrides) in
      let o' : UserFeeOverride F = record {
        deposit_percent = or_keep deposit_pct o.deposit_percent;
        withdrawal_percent = or_keep withdrawal_pct o.withdrawal_percent;
      } in
      record fc { user_overrides = insert user_id o' fc.user_overrides }

  unfoldable pub clear_user_fees : String → FeeConfig F → FeeConfig F
  clear_user_fees user_id fc = record fc { user_overrides = erase user_id fc.user_overrides }

module _ {F : Type 0} ⦃fl : Float64 F⦄ where
  -- `NewFeeConfig`
  unfoldable pub new_fee_config : FeeConfig F
  new_fee_config = record {
    deposit_fee_percent = fl.zero;
    withdrawal_fee_percent = fl.zero;
    user_overrides = [];
  }

  -- amount * (percent / 100), rounded to two decimals
  unfoldable pub calculate_fee : F → F → F
  calculate_fee amount percent =
      fl.div (fl.round (fl.mul (fl.div (fl.mul amount percent) fl.hundred) fl.hundred)) fl.hundred

  -- `pct < 0 || pct > 100`
  unfoldable pub out_of_range : F → Bool
  out_of_range pct = fl.lt pct fl.zero || fl.lt fl.hundred pct
