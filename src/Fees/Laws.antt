-- ===== src/Fees/Laws.antt =====
-- Laws of `FeeConfig` and of `CalculateFee`.
use mockgatehub.Prelude.{
  String, ◌≡◌, true, false, Option, none, some, ◌==◌, arith, eq_iff, if◌then◌else◌,
}
use mockgatehub.Prelude.GoMap.{lookup-insert, lookup-erase}
use mockgatehub.Float64.{Float64, NonNeg}
use mockgatehub.Fees.{
  FeeConfig, get_deposit_fee_for_user, get_withdrawal_fee_for_user, set_user_fees, clear_user_fees,
  calculate_fee,
}

module _ {F : Type 0} (fc : FeeConfig F) (user other : String) where
  -- A percentage that `SetUserFees` is given overrides the user's; one that is nil, and every other user's, stays.
  pub fee_for_user_after_set :
      (d w : Option F)
      → let fc' = set_user_fees user d w fc in
        (get_deposit_fee_for_user other fc' ≡ (
          if user == other
          then elim d [ none ↦ get_deposit_fee_for_user other fc | some pct ↦ (pct, true) ]
          else get_deposit_fee_for_user other fc))
        × (get_withdrawal_fee_for_user other fc' ≡ (
            if user == other
            then elim w [ none ↦ get_withdrawal_fee_for_user other fc | some pct ↦ (pct, true) ]
            else get_withdrawal_fee_for_user other fc))
  unfolding set_user_fees get_deposit_fee_for_user get_withdrawal_fee_for_user
  fee_for_user_after_set d w = simp lookup-insert (ground (arith, eq_iff user other))

  -- After `ClearUserFees` the user has the global percentages, and every other user's stay.
  pub fee_for_user_after_clear :
      let fc' = clear_user_fees user fc in
      (get_deposit_fee_for_user other fc' ≡ (
        if user == other
        then (fc.deposit_fee_percent, false)
        else get_deposit_fee_for_user other fc))
      × (get_withdrawal_fee_for_user other fc' ≡ (
          if user == other
          then (fc.withdrawal_fee_percent, false)
          else get_withdrawal_fee_for_user other fc))
  unfolding clear_user_fees get_deposit_fee_for_user get_withdrawal_fee_for_user
  fee_for_user_after_clear = simp lookup-erase (ground (arith, eq_iff user other))

module _ {F : Type 0} ⦃fl : Float64 F⦄ where
  -- The fee on an amount that is not negative, at a percentage that is not negative, is not negative.
  pub calculate_fee_nonneg :
      (amount percent : F) → NonNeg amount → NonNeg percent → NonNeg (calculate_fee amount percent)
  unfolding calculate_fee
  calculate_fee_nonneg amount percent h k =
      fl.lt-div_hundred _
        (fl.lt-round _ (fl.lt-mul _ _ (fl.lt-div_hundred _ (fl.lt-mul _ _ h k)) fl.lt-hundred))
