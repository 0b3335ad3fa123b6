-- ===== src/Handler/Fees.antt =====
-- The admin endpoints of fees.go. They use nothing of the handler but its `FeeConfig`.
pub mod Range
use mockgatehub.Prelude.{
  String, List, [], ◌∷◌, Bool, false, Option, none, some, ◌&&◌, ◌==◌, is_some, not, if◌then◌else◌,
}
use mockgatehub.Prelude.Result.{Exec, ◌>>=◌, ◌>>◌, raise_if, lift, of_option, gets, modify}
use mockgatehub.Float64.{Float64}
use mockgatehub.Fees.{
  FeeConfig, get_deposit_fee_for_user, get_withdrawal_fee_for_user, set_deposit_fee_percent,
  set_withdrawal_fee_percent, set_user_fees, clear_user_fees, out_of_range,
}
use mockgatehub.Handler.State.{ApiError, bad_request}

pub record FeeResponse (F : Type 0) : Type 0 where
  pub deposit_fee_percentage : F
  pub withdrawal_fee_percentage : F

pub record FeeUpdateRequest (F : Type 0) : Type 0 where
  pub deposit_fee_percentage : Option F
  pub withdrawal_fee_percentage : Option F

pub record UserFeeResponse (F : Type 0) : Type 0 where
  pub user_id : String
  pub deposit_fee_percentage : F
  pub withdrawal_fee_percentage : F
  pub deposit_fee_source : String
  pub withdrawal_fee_source : String

unfoldable pub fee_source : Bool → String
fee_source user_override = if user_override then "user" else "global"

abbrev pub FeeAction : Type 0 → Type 0 → Type 0
FeeAction F A = Exec (FeeConfig F) ApiError A

module _ {F : Type 0} where
  unfoldable pub get_fees : FeeAction F (FeeResponse F)
  get_fees = gets (λ fc. record {
    deposit_fee_percentage = fc.deposit_fee_percent;
    withdrawal_fee_percentage = fc.withdrawal_fee_percent;
  })

  unfoldable pub get_user_fees : String → FeeAction F (UserFeeResponse F)
  unfolding get_deposit_fee_for_user get_withdrawal_fee_for_user fee_source
  get_user_fees user_id = do
    raise_if (user_id == "") (bad_request "user_id is required")
    gets (λ fc.
        let (deposit_pct, deposit_override) = get_deposit_fee_for_user user_id fc in
        let (withdrawal_pct, withdrawal_override) = get_withdrawal_fee_for_user user_id fc in
        record {
          user_id = user_id;
          deposit_fee_percentage = deposit_pct;
          withdrawal_fee_percentage = withdrawal_pct;
          deposit_fee_source = fee_source deposit_override;
          withdrawal_fee_source = fee_source withdrawal_override;
        })

abbrev pub deposit_range : ApiError
deposit_range = bad_request "deposit_fee_percentage must be between 0 and 100"

abbrev pub withdrawal_range : ApiError
withdrawal_range = bad_request "withdrawal_fee_percentage must be between 0 and 100"

module _ {F : Type 0} ⦃fl : Float64 F⦄ where
  abbrev pub given_out_of_range : Option F → Bool
  given_out_of_range none = false
  given_out_of_range (some pct) = out_of_range pct

  -- The percentages are numbers in the request; a missing one is 0.
  unfoldable pub set_fees : Option (FeeResponse F) → FeeAction F (FeeResponse F)
  unfolding get_fees out_of_range set_deposit_fee_percent set_withdrawal_fee_percent
  set_fees body = do
    req ← lift (of_option body (bad_request "invalid request body"))
    raise_if (out_of_range req.deposit_fee_percentage) deposit_range
    raise_if (out_of_range req.withdrawal_fee_percentage) withdrawal_range
    modify (set_deposit_fee_percent req.deposit_fee_percentage)
    modify (set_withdrawal_fee_percent req.withdrawal_fee_percentage)
    get_fees

  unfoldable pub set_user_fee_overrides :
      String → Option (FeeUpdateRequest F) → FeeAction F (UserFeeResponse F)
  unfolding get_user_fees out_of_range set_user_fees
  set_user_fee_overrides user_id body = do
    raise_if (user_id == "") (bad_request "user_id is required")
    req ← lift (of_option body (bad_request "invalid request body"))
    raise_if
        (not (is_some req.deposit_fee_percentage) && not (is_some req.withdrawal_fee_percentage))
        (bad_request "at least one fee percentage must be provided")
    raise_if (given_out_of_range req.deposit_fee_percentage) deposit_range
    raise_if (given_out_of_range req.withdrawal_fee_percentage) withdrawal_range
    modify (set_user_fees user_id req.deposit_fee_percentage req.withdrawal_fee_percentage)
    get_user_fees user_id

module _ {F : Type 0} where
  unfoldable pub clear_user_fee_overrides : String → FeeAction F (UserFeeResponse F)
  unfolding get_user_fees clear_user_fees
  clear_user_fee_overrides user_id = do
    raise_if (user_id == "") (bad_request "user_id is required")
    modify (clear_user_fees user_id)
    get_user_fees user_id

-- A request of the admin API; the bodies are what the JSON decoder makes of them.
pub data FeeRequest (F : Type 0) : Type 0 where
  set_global : Option (FeeResponse F) → FeeRequest F
  set_user : String → Option (FeeUpdateRequest F) → FeeRequest F
  clear_user : String → FeeRequest F

module _ {F : Type 0} ⦃fl : Float64 F⦄ where
  -- what the handler of a request leaves
  unfoldable pub apply_request : FeeRequest F → FeeConfig F → FeeConfig F
  apply_request (set_global body) fc = (set_fees body fc).1
  apply_request (set_user user body) fc = (set_user_fee_overrides user body fc).1
  apply_request (clear_user user) fc = (clear_user_fee_overrides user fc).1

  unfoldable pub apply_requests : List (FeeRequest F) → FeeConfig F → FeeConfig F
  apply_requests [] fc = fc
  apply_requests (r ∷ rs) fc = apply_requests rs (apply_request r fc)
