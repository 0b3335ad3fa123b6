-- ===== src/Handler/Kyc/Outcomes.antt =====
-- What the KYC handlers answer, store and send.
use Prim.Native.String.{◌++◌}
use mockgatehub.Prelude.{
  ℕ, String, ◌≡◌, ◌≢◌, ◌↔◌, ◌⊎◌, inl, inr, refl, ap, true, false, some, [], ◌∷◌, arith, eq_iff,
  ne→==, ◌==◌, ◌&&◌, Bool-cases, ==→eq, if◌then◌else◌, ◌∙◌,
}
use mockgatehub.Prelude.Result.{ok, err, Result-cases, ◌>>◌, on_result}
use mockgatehub.Prelude.Heap.{Ptr}
use mockgatehub.Models.{User}
use mockgatehub.Consts.{
  kyc_state_accepted, kyc_state_rejected, kyc_state_action_required, kyc_state_resubmission,
  risk_level_low, event_kyc_accepted,
}
use mockgatehub.Handler.State.{Handler, ApiError, bad_request, send_async}
use mockgatehub.Handler.Forms.{Form, form_value, with_birth_date_keeps}
use mockgatehub.Handler.TwoFactor.{CallbackClient}
use mockgatehub.Handler.Kyc.{
  notify_outcome, outcome_of, filled_in, submit_outcome, sumsub_verification_status_state,
  start_kyc, start_response, kyc_iframe_submit, apply_kyc_outcome, with_form, form_user,
  two_factor_check, save, should_skip_accepted_webhook, is_known_kyc_state,
}
use mockgatehub.Handler.Kyc.Writes.{
  save_then, IsStored, with_user, fetch_lem, save_lem, with_user-IsStored, with_user-with_user,
}

-- The provider reports a user as verified, status 1 and state 1, exactly where the user's KYC state
-- is accepted: no other state, known or not, is reported so.
pub verified_iff_accepted :
    (u : User) → (sumsub_verification_status_state u ≡ (1, 1)) ↔ (u.kyc_state ≡ "accepted")
unfolding sumsub_verification_status_state
verified_iff_accepted u = ground (arith, eq_iff u.kyc_state kyc_state_accepted)

module _ {F Raw : Type 0} where
  -- Starting KYC for a stored user succeeds with the onboarding URL. It changes nothing where the
  -- user is accepted; otherwise it sets the state to action_required and the risk level to low, and
  -- changes nothing else: no webhook is sent.
  pub start_kyc_lem :
      (id gateway_id : String) (p : Ptr) (u : User) (h : Handler F Raw)
      → id ≢ ""
      → gateway_id ≢ ""
      → IsStored id p u h
      → start_kyc id gateway_id h ≡ (
        ok (start_response id gateway_id),
        if u.kyc_state == "accepted"
            then h
            else with_user p (record u { kyc_state = "action_required"; risk_level = "low" }) h,
      )
  unfolding start_kyc
  start_kyc_lem id gateway_id p u h named routed stored =
      let u' : User = record u {
        kyc_state = kyc_state_action_required;
        risk_level = risk_level_low;
      } in
      elim (Bool-cases (u.kyc_state == kyc_state_accepted)) [
        | inl accepted ↦
            rw
              (
                start_kyc,
                ne→== id "" named,
                ne→== gateway_id "" routed,
                fetch_lem "User not found" id p u h stored,
                accepted,
              )
              refl
        | inr open_state ↦
            let reset : start_kyc id gateway_id h
                ≡ (ok (start_response id gateway_id), (save "" p u' h).1) =
              rw
                (
                  start_kyc,
                  ne→== id "" named,
                  ne→== gateway_id "" routed,
                  fetch_lem "User not found" id p u h stored,
                  open_state,
                )
                refl in
            reset
            ∙ ap (λ r. (ok (start_response id gateway_id), r.1))
                (save_lem "" id p u u' h stored stored.own)
            ∙ rw open_state refl
      ]

-- the event and the message of an outcome
known_outcome :
    (quote : String → String) (u : User) (outcome : String)
    → is_known_kyc_state outcome ≡ true
    → (message : String) × ((apply_kyc_outcome quote u outcome
          ≡ ok (record u { kyc_state = outcome }, ("id.verification." ++ outcome, message)))
        × ((("id.verification." ++ outcome) == event_kyc_accepted)
            ≡ (outcome == kyc_state_accepted)))
unfolding apply_kyc_outcome is_known_kyc_state
known_outcome quote u outcome known = elim (Bool-cases (outcome == kyc_state_accepted)) [
  | inl is ↦ (
    "KYC verification completed successfully",
    rw (apply_kyc_outcome, ==→eq outcome _ is) (refl, refl),
  )
  | inr not_a ↦ elim (Bool-cases (outcome == kyc_state_rejected)) [
    | inl is ↦
        ("KYC verification rejected", rw (apply_kyc_outcome, ==→eq outcome _ is) (refl, refl))
    | inr not_r ↦ elim (Bool-cases (outcome == kyc_state_action_required)) [
      | inl is ↦ (
        "KYC verification requires additional action",
        rw (apply_kyc_outcome, ==→eq outcome _ is) (refl, refl),
      )
      | inr not_q ↦ elim (Bool-cases (outcome == kyc_state_resubmission)) [
        | inl is ↦ (
          "KYC documents must be resubmitted",
          rw (apply_kyc_outcome, ==→eq outcome _ is) (refl, refl),
        )
        | inr not_s ↦ absurd (ground arith)
      ]
    ]
  ]
]

unknown_outcome :
    (quote : String → String) (u : User) (outcome : String)
    → is_known_kyc_state outcome ≡ false
    → (e : String) × (apply_kyc_outcome quote u outcome ≡ err e)
unfolding apply_kyc_outcome is_known_kyc_state
unknown_outcome quote u outcome unknown = (
  "unknown kyc_outcome "
      ++ quote outcome
      ++ ": expected accepted, rejected, action_required or resubmission",
  ground arith,
)

module _ {F Raw : Type 0} where
  two_factor_check_keeps :
      (client : CallbackClient) (show : ℕ → String) (id : String) (form : Form) (h : Handler F Raw)
      → (two_factor_check client show id form h).1 ≡ h
  two_factor_check_keeps client show id form h = ground arith

  -- the webhook of an outcome, which an accepted resubmission does without
  abbrev pub announce : String → String → String → String → Handler F Raw → Handler F Raw
  announce id previous outcome message h =
      if outcome == "accepted" && previous == "resubmission"
      then h
      else send_async ("id.verification." ++ outcome) id (("message", some message) ∷ []) h

  submit_outcome_known :
      (quote : String → String) (id : String) (p : Ptr) (previous outcome : String) (v u : User)
      (h : Handler F Raw)
      → IsStored id p v h
      → u.id ≡ id
      → is_known_kyc_state outcome ≡ true
      → (message : String) × (submit_outcome quote id p previous outcome u h ≡ (
        ok (record { status = outcome; message = message }),
        announce id previous outcome message (with_user p (record u { kyc_state = outcome }) h),
      ))
  unfolding submit_outcome should_skip_accepted_webhook
  submit_outcome_known quote id p previous outcome v u h stored own known =
      let (message, (applied, accepted)) = known_outcome quote u outcome known in
      let event = "id.verification." ++ outcome in
      let u' : User = record u { kyc_state = outcome } in
      let written = with_user-IsStored id p v u h stored own in
      let saved = save_lem "Failed to update user" id p u u' (with_user p u h) written own in
      let up_to : submit_outcome quote id p previous outcome u h
          ≡ (save "Failed to update user" p u' >> notify_outcome id previous outcome event message)
              (with_user p u h) =
        rw (submit_outcome, applied) refl in
      let noted =
        save_then "Failed to update user" id p u u' (with_user p u h)
          (notify_outcome id previous outcome event message) written own in
      (message, up_to ∙ noted ∙ rw (with_user-with_user p u u' h, accepted) refl)

  module _ (client : CallbackClient) (show : ℕ → String) (quote : String → String) where
    with_form-IsStored :
        (form : Form) (id : String) (p : Ptr) (u : User) (h : Handler F Raw)
        → IsStored id p u h
        → IsStored id p (with_form form u) (with_user p (with_form form u) h)
    with_form-IsStored form id p u h stored =
        with_user-IsStored id p u (with_form form u) h stored
          ((with_birth_date_keeps (form_value "dob" form) _).0 ∙ stored.own)

    -- The form's fields are stored, and what comes next depends on the code.
    submit_form :
        (form : Form) (id : String) (p : Ptr) (u : User) (h : Handler F Raw)
        → form_user form h ≡ id
        → id ≢ ""
        → IsStored id p u h
        → let h1 = with_user p (with_form form u) h in
          kyc_iframe_submit client show quote (ok form) h
          ≡ on_result
              (two_factor_check client show id form h1).0
              (λ _. submit_outcome quote id p u.kyc_state (outcome_of form) (filled_in form u))
              h1
    unfolding kyc_iframe_submit
    submit_form form id p u h is named stored =
        let h1 = with_user p (with_form form u) h in
        let reached : kyc_iframe_submit client show quote (ok form) h
            ≡ on_result (two_factor_check client show id form h1).0
                (λ _. submit_outcome quote id p u.kyc_state (outcome_of form) (filled_in form u))
                (two_factor_check client show id form h1).1 =
          rw (kyc_iframe_submit, is, ne→== id "" named, fetch_lem "User not found" id p u h stored)
            refl in
        rw (two_factor_check_keeps client show id form h1) at reached

    -- A form for a stored user with no code to verify, or one that verifies, and a known outcome is
    -- answered with the outcome. The stored user has the fields of the form and the outcome as its
    -- KYC state, nothing else is stored, and the webhook of the outcome is sent, except that a user
    -- who was asked to resubmit and is accepted gets none.
    pub kyc_submit_lem :
        (form : Form) (id : String) (p : Ptr) (u : User) (h : Handler F Raw)
        → form_user form h ≡ id
        → id ≢ ""
        → IsStored id p u h
        → (two_factor_check client show id form (with_user p (with_form form u) h)).0 ≡ ok tt
        → is_known_kyc_state (outcome_of form) ≡ true
        → (message : String) × (kyc_iframe_submit client show quote (ok form) h ≡ (
          ok (record { status = outcome_of form; message = message }),
          announce id u.kyc_state
              (outcome_of form)
              message
              (with_user p (record (filled_in form u) { kyc_state = outcome_of form }) h),
        ))
    unfolding kyc_iframe_submit
    kyc_submit_lem form id p u h is named stored verified known =
        let h1 = with_user p (with_form form u) h in
        let there = with_form-IsStored form id p u h stored in
        let (message, done) =
          submit_outcome_known quote id p u.kyc_state (outcome_of form) (with_form form u)
            (filled_in form u) h1 there there.own known in
        let judged : User = record (filled_in form u) { kyc_state = outcome_of form } in
        (
          message,
          rw verified at (submit_form form id p u h is named stored)
              ∙ done
              ∙ rw (with_user-with_user p (with_form form u) judged h) refl,
        )

    -- A form of a stored user with an unknown outcome, or with a code that does not verify, is refused,
    -- and the fields of the form are in the stored user all the same.
    pub kyc_submit_refused_writes :
        (form : Form) (id : String) (p : Ptr) (u : User) (h : Handler F Raw)
        → form_user form h ≡ id
        → id ≢ ""
        → IsStored id p u h
        → (is_known_kyc_state (outcome_of form) ≡ false)
          ⊎ ((e : ApiError) × ((two_factor_check client show id form
                  (with_user p (with_form form u) h)).0
                ≡ err e))
        → let (r, h') = kyc_iframe_submit client show quote (ok form) h in
          ((e : ApiError) × (r ≡ err e))
          × ((h' ≡ with_user p (with_form form u) h) ⊎ (h' ≡ with_user p (filled_in form u) h))
    unfolding kyc_iframe_submit apply_kyc_outcome is_known_kyc_state
    kyc_submit_refused_writes form id p u h is named stored failing =
        let h1 = with_user p (with_form form u) h in
        let reached = submit_form form id p u h is named stored in
        elim (Result-cases (two_factor_check client show id form h1).0) [
          | inl (e, refused) ↦ (
            (e, ap (λ r. r.0) (rw refused at reached)),
            inl (ap (λ r. r.1) (rw refused at reached)),
          )
          | inr (_, verified) ↦ elim failing [
            | inr (e, refused) ↦ absurd (ground arith)
            | inl unknown ↦
                let (e, refused) =
                  unknown_outcome quote (filled_in form u) (outcome_of form) unknown in
                let stopped : submit_outcome quote id p u.kyc_state (outcome_of form)
                      (filled_in form u) h1
                    ≡ (err (bad_request e), with_user p (filled_in form u) h1) =
                  rw (submit_outcome, refused) refl in
                let ended = rw verified at reached ∙ stopped in
                (
                  (bad_request e, ap (λ r. r.0) ended),
                  inr (
                      ap (λ r. r.1) ended
                      ∙ with_user-with_user p (with_form form u) (filled_in form u) h),
                )
          ]
        ]
