-- ===== src/Handler/Fees/Range.antt =====
-- The percentages stay between 0 and 100 under the requests of fees.go.
use mockgatehub.Prelude.{
  String, ◌≡◌, false, Option, none, some, ◌==◌, arith, is_some, Bool-cases, inl, inr, List, [], ◌∷◌,
  ◌⊎◌, not, ◌&&◌, ◌||◌,
}
use mockgatehub.Prelude.GoMap.{lookup}
use mockgatehub.Float64.{Float64}
use mockgatehub.Fees.{
  FeeConfig, new_fee_config, get_deposit_fee_for_user, get_withdrawal_fee_for_user, out_of_range,
  set_user_fees, clear_user_fees, set_withdrawal_fee_percent, set_deposit_fee_percent,
}
use mockgatehub.Fees.Laws.{fee_for_user_after_set, fee_for_user_after_clear}
use mockgatehub.Handler.Fees.{
  FeeResponse, FeeUpdateRequest, given_out_of_range, set_fees, set_user_fee_overrides,
  clear_user_fee_overrides, FeeRequest, set_global, set_user, clear_user, apply_request,
  apply_requests,
}

-- A request for one user's percentages changes nothing, or sets percentages that are in range.
set_user_fee_overrides_effect :
    {F : Type 0} ⦃fl : Float64 F⦄ (user : String) (body : Option (FeeUpdateRequest F))
    (fc : FeeConfig F)
    → ((set_user_fee_overrides user body fc).1 ≡ fc)
      ⊎ ((d : Option F) × (w : Option F) × (given_out_of_range d ≡ false)
          × (given_out_of_range w ≡ false)
          × ((set_user_fee_overrides user body fc).1 ≡ set_user_fees user d w fc))
unfolding set_user_fee_overrides
set_user_fee_overrides_effect user none fc = inl (ground arith)
set_user_fee_overrides_effect user (some req) fc =
    elim (Bool-cases (given_out_of_range req.deposit_fee_percentage)) [
      | inl bad ↦ inl (ground arith)
      | inr fine ↦ elim (Bool-cases (given_out_of_range req.withdrawal_fee_percentage)) [
        | inl bad ↦ inl (ground arith)
        | inr fine' ↦
            elim (Bool-cases (
              user == ""
              || not (is_some req.deposit_fee_percentage)
                && not (is_some req.withdrawal_fee_percentage))) [
                  | inl refused ↦ inl (ground arith)
                  | inr accepted ↦ inr (
                    req.deposit_fee_percentage,
                    req.withdrawal_fee_percentage,
                    fine,
                    fine',
                    ground arith,
                  )
                ]
      ]
    ]

module _ {F : Type 0} ⦃fl : Float64 F⦄ where
  -- Every percentage that a user may be charged is between 0 and 100.
  pub record IsInRange (fc : FeeConfig F) : Type 0 where
    pub deposit_global : out_of_range fc.deposit_fee_percent ≡ false
    pub withdrawal_global : out_of_range fc.withdrawal_fee_percent ≡ false
    pub deposit : (user : String) → out_of_range (get_deposit_fee_for_user user fc).0 ≡ false
    pub withdrawal : (user : String) → out_of_range (get_withdrawal_fee_for_user user fc).0 ≡ false

  pub new_fee_config-IsInRange : IsInRange new_fee_config
  unfolding new_fee_config out_of_range get_deposit_fee_for_user get_withdrawal_fee_for_user lookup
  new_fee_config-IsInRange =
      let zero_in_range : out_of_range fl.zero ≡ false =
        ground (arith, fl.lt-zero, fl.lt-hundred) in
      record {
        deposit_global = zero_in_range;
        withdrawal_global = zero_in_range;
        deposit = λ user. zero_in_range;
        withdrawal = λ user. zero_in_range;
      }

  set_user_fees-IsInRange :
      (user : String) (d w : Option F) (fc : FeeConfig F)
      → given_out_of_range d ≡ false
      → given_out_of_range w ≡ false
      → IsInRange fc
      → IsInRange (set_user_fees user d w fc)
  set_user_fees-IsInRange user d w fc hd hw h = record {
    deposit_global = unfold set_user_fees in h.deposit_global;
    withdrawal_global = unfold set_user_fees in h.withdrawal_global;
    deposit =
        λ other. ground (arith, (fee_for_user_after_set fc user other d w).0, h.deposit other);
    withdrawal =
        λ other. ground (arith, (fee_for_user_after_set fc user other d w).1, h.withdrawal other);
  }

  clear_user_fees-IsInRange :
      (user : String) (fc : FeeConfig F) → IsInRange fc → IsInRange (clear_user_fees user fc)
  clear_user_fees-IsInRange user fc h = record {
    deposit_global = unfold clear_user_fees in h.deposit_global;
    withdrawal_global = unfold clear_user_fees in h.withdrawal_global;
    deposit = λ other.
        ground
          (arith, (fee_for_user_after_clear fc user other).0, h.deposit other, h.deposit_global);
    withdrawal = λ other. ground (
      arith,
      (fee_for_user_after_clear fc user other).1,
      h.withdrawal other,
      h.withdrawal_global,
    );
  }

  set_globals-IsInRange :
      (d w : F) (fc : FeeConfig F)
      → out_of_range d ≡ false
      → out_of_range w ≡ false
      → IsInRange fc
      → IsInRange (set_withdrawal_fee_percent w (set_deposit_fee_percent d fc))
  unfolding set_withdrawal_fee_percent set_deposit_fee_percent get_deposit_fee_for_user
      get_withdrawal_fee_for_user
  set_globals-IsInRange d w fc hd hw h = record {
    deposit_global = hd;
    withdrawal_global = hw;
    deposit = λ user. ground (arith, h.deposit user);
    withdrawal = λ user. ground (arith, h.withdrawal user);
  }

  set_fees-IsInRange :
      (body : Option (FeeResponse F)) (fc : FeeConfig F)
      → IsInRange fc
      → IsInRange (set_fees body fc).1
  unfolding set_fees
  set_fees-IsInRange none fc h = h
  set_fees-IsInRange (some req) fc h = elim (Bool-cases (out_of_range req.deposit_fee_percentage)) [
    | inl bad ↦ rw bad h
    | inr fine ↦ elim (Bool-cases (out_of_range req.withdrawal_fee_percentage)) [
      | inl bad ↦ rw (fine, bad) h
      | inr fine' ↦
          rw (fine, fine')
            (set_globals-IsInRange req.deposit_fee_percentage req.withdrawal_fee_percentage fc fine
              fine' h)
    ]
  ]

  set_user_fee_overrides-IsInRange :
      (user : String) (body : Option (FeeUpdateRequest F)) (fc : FeeConfig F)
      → IsInRange fc
      → IsInRange (set_user_fee_overrides user body fc).1
  unfolding set_user_fee_overrides
  set_user_fee_overrides-IsInRange user body fc h =
      elim (set_user_fee_overrides_effect user body fc) [
        | inl same ↦ rw same h
        | inr (d, w, hd, hw, e) ↦ rw e (set_user_fees-IsInRange user d w fc hd hw h)
      ]

  clear_user_fee_overrides-IsInRange :
      (user : String) (fc : FeeConfig F)
      → IsInRange fc
      → IsInRange (clear_user_fee_overrides user fc).1
  unfolding clear_user_fee_overrides
  clear_user_fee_overrides-IsInRange user fc h = elim (Bool-cases (user == "")) [
    | inl empty ↦ rw empty h
    | inr named ↦ rw named (clear_user_fees-IsInRange user fc h)
  ]

  apply_request-IsInRange :
      (r : FeeRequest F) (fc : FeeConfig F) → IsInRange fc → IsInRange (apply_request r fc)
  unfolding apply_request
  apply_request-IsInRange (set_global body) fc h = set_fees-IsInRange body fc h
  apply_request-IsInRange (set_user user body) fc h =
      set_user_fee_overrides-IsInRange user body fc h
  apply_request-IsInRange (clear_user user) fc h = clear_user_fee_overrides-IsInRange user fc h

  -- From a new configuration, whatever the admin requests, accepted or refused, every percentage that
  -- a user may be charged is between 0 and 100.
  pub apply_requests-IsInRange :
      (rs : List (FeeRequest F)) (fc : FeeConfig F)
      → IsInRange fc
      → IsInRange (apply_requests rs fc)
  unfolding apply_requests
  apply_requests-IsInRange [] fc h = h
  apply_requests-IsInRange (r ∷ rs) fc h =
      apply_requests-IsInRange rs (apply_request r fc) (apply_request-IsInRange r fc h)
