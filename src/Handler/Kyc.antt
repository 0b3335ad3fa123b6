-- ===== src/Handler/Kyc.antt =====
-- internal/handler/identity.go: a user's verification (KYC). The user that a handler has fetched is the
-- stored object itself, so each write through the pointer is in the store at once, also where the
-- handler answers with an error later.
pub mod Writes
pub mod Requests
pub mod Traces
pub mod Outcomes
use Prim.Native.String.{◌++◌}
use mockgatehub.Prelude.{
  ℕ, String, Bool, true, false, Option, none, some, List, [], ◌∷◌, ◌==◌, ◌||◌, ◌&&◌, not,
  if◌then◌else◌,
}
use mockgatehub.Prelude.Result.{
  Result, ok, err, of_option, map_err, Exec, ◌>>=◌, ◌>>◌, raise_if, raise, lift, gets, modify, pure,
  ignore_err,
}
use mockgatehub.Prelude.GoMap.{lookup}
use mockgatehub.Prelude.Heap.{Ptr}
use mockgatehub.Models.{User}
use mockgatehub.Consts.{
  kyc_state_accepted, kyc_state_rejected, kyc_state_action_required, kyc_state_resubmission,
  risk_level_low, event_kyc_accepted, event_kyc_rejected, event_kyc_action_required,
  event_kyc_resubmission,
}
use mockgatehub.Storage.Users.{get_user, update_user, read_user, write_user}
use mockgatehub.Handler.State.{
  Handler, Action, ApiError, bad_request, not_found, internal_err, call_or, call, send_async,
}
use mockgatehub.Handler.Forms.{Form, form_value, with_birth_date}
use mockgatehub.Handler.TwoFactor.{CallbackClient, verify_2fa}

-- the status and the state that the provider reports
unfoldable pub sumsub_verification_status_state : User → ℕ × ℕ
sumsub_verification_status_state user =
    if user.kyc_state == kyc_state_accepted
    then (1, 1)
    else if user.kyc_state == kyc_state_rejected
    then (2, 0)
    else if user.kyc_state == kyc_state_resubmission
    then (10, 0)
    else (0, 0)

-- The response repeats the fields of the user; its one verification has this status and state.
pub record GetUserResponse : Type 0 where
  pub user : User
  pub verification : ℕ × ℕ

pub record StartKycResponse : Type 0 where
  pub iframe_url : String
  pub token : String

pub record UpdateKycStateRequest : Type 0 where
  pub state : String
  pub risk_level : String

pub record KycSubmitResponse : Type 0 where
  pub status : String
  pub message : String

unfoldable pub is_known_kyc_state : String → Bool
is_known_kyc_state state =
    state == kyc_state_accepted
    || state == kyc_state_rejected
    || state == kyc_state_action_required
    || state == kyc_state_resubmission

-- the event of an update, "" for none
unfoldable pub kyc_event : String → String
kyc_event state =
    if state == kyc_state_accepted
    then event_kyc_accepted
    else if state == kyc_state_rejected
    then event_kyc_rejected
    else if state == kyc_state_action_required
    then event_kyc_action_required
    else ""

-- The user with the outcome's state, the event and the message. `quote` is the format `%q`.
unfoldable pub apply_kyc_outcome :
    (String → String) → User → String → Result String (User × (String × String))
apply_kyc_outcome quote user outcome =
    if outcome == kyc_state_accepted
    then ok (
      record user { kyc_state = kyc_state_accepted },
      (event_kyc_accepted, "KYC verification completed successfully"),
    )
    else if outcome == kyc_state_rejected
    then ok (
      record user { kyc_state = kyc_state_rejected },
      (event_kyc_rejected, "KYC verification rejected"),
    )
    else if outcome == kyc_state_action_required
    then ok (
      record user { kyc_state = kyc_state_action_required },
      (event_kyc_action_required, "KYC verification requires additional action"),
    )
    else if outcome == kyc_state_resubmission
    then ok (
      record user { kyc_state = kyc_state_resubmission },
      (event_kyc_resubmission, "KYC documents must be resubmitted"),
    )
    else err (
        "unknown kyc_outcome "
        ++ quote outcome
        ++ ": expected accepted, rejected, action_required or resubmission")

unfoldable pub should_skip_accepted_webhook : String → String → Bool
should_skip_accepted_webhook previous event =
    event == event_kyc_accepted && previous == kyc_state_resubmission

abbrev pub start_response : String → String → StartKycResponse
start_response user_id gateway_id =
    let token = "kyc-token-" ++ user_id ++ "-" ++ gateway_id in
    record {
      iframe_url = "/iframe/onboarding?token=" ++ token ++ "&user_id=" ++ user_id;
      token = token;
    }

-- the fields that the form sets whatever it says
abbrev pub named_in : Form → User → User
named_in form u = record u {
  first_name = form_value "first_name" form;
  last_name = form_value "last_name" form;
  address_street1 = form_value "address" form;
  address_city = form_value "city" form;
  address_country_code = form_value "country" form;
}

abbrev pub with_form : Form → User → User
with_form form u = with_birth_date (form_value "dob" form) (named_in form u)

abbrev pub or_default : String → String → String
or_default fallback text = if text == "" then fallback else text

-- accepted where the form names no outcome
abbrev pub outcome_of : Form → String
outcome_of form = or_default kyc_state_accepted (form_value "kyc_outcome" form)

-- the user that a form leaves, up to the outcome
abbrev pub filled_in : Form → User → User
filled_in form u = record (with_form form u) {
  risk_level = or_default risk_level_low (form_value "risk_level" form);
}

module _ {F Raw : Type 0} where
  -- `h.store.GetUser` and the fields behind the pointer
  abbrev pub fetch : String → String → Action F Raw (Ptr × User)
  fetch missing user_id = do
    user ← call_or (λ _. not_found missing) (get_user user_id)
    fields ← call_or internal_err (read_user user)
    pure (user, fields)

  -- the fields written through the pointer, then `h.store.UpdateUser`
  abbrev pub save : String → Ptr → User → Action F Raw (Unit {0})
  save failed user fields = do
    call_or internal_err (write_user user fields)
    call_or (λ _. internal_err failed) (update_user user)

  unfoldable pub handle_get_user : String → Action F Raw GetUserResponse
  unfolding sumsub_verification_status_state
  handle_get_user user_id = do
    raise_if (user_id == "") (bad_request "User ID is required")
    found ← fetch "User not found" user_id
    pure (record { user = found.1; verification = sumsub_verification_status_state found.1 })

  unfoldable pub start_kyc : String → String → Action F Raw StartKycResponse
  start_kyc user_id gateway_id = do
    raise_if (user_id == "" || gateway_id == "") (bad_request "User ID and Gateway ID are required")
    found ← fetch "User not found" user_id
    if found.1.kyc_state == kyc_state_accepted
        then pure tt
        else ignore_err (
            save "" found.0 (record (found.1) {
              kyc_state = kyc_state_action_required;
              risk_level = risk_level_low;
            }))
    pure (start_response user_id gateway_id)

  unfoldable pub update_kyc_state :
      String → String → Option UpdateKycStateRequest → Action F Raw User
  unfolding kyc_event
  update_kyc_state user_id gateway_id body = do
    raise_if (user_id == "" || gateway_id == "") (bad_request "User ID and Gateway ID are required")
    req ← lift (of_option body (bad_request "Invalid request body"))
    found ← fetch "User not found" user_id
    let fields = record (found.1) { kyc_state = req.state; risk_level = req.risk_level }
    save "Failed to update user" found.0 fields
    let event = kyc_event req.state
    if event == ""
        then pure tt
        else modify (
            send_async event user_id
              (("state", some req.state) ∷ ("risk_level", some req.risk_level) ∷ []))
    pure fields

  -- The body is the new risk level; its reason is only logged.
  unfoldable pub override_risk_level : String → String → Option String → Action F Raw User
  override_risk_level user_id gateway_id body = do
    raise_if (user_id == "" || gateway_id == "") (bad_request "User ID and Gateway ID are required")
    risk_level ← lift (of_option body (bad_request "Invalid request body"))
    found ← fetch "User not found" user_id
    let fields = record (found.1) { risk_level = risk_level }
    save "Failed to update user" found.0 fields
    pure fields

  -- The body is a state and a risk level, "" where the field is left out.
  unfoldable pub set_user_kyc_state_quiet :
      (String → String) → String → Option UpdateKycStateRequest → Action F Raw UpdateKycStateRequest
  unfolding is_known_kyc_state
  set_user_kyc_state_quiet quote user_id body = do
    raise_if (user_id == "") (bad_request "user ID is required")
    req ← lift (of_option body (bad_request "invalid request body"))
    raise_if (req.state == "") (bad_request "kyc_state is required")
    raise_if (not (is_known_kyc_state req.state)) (
        bad_request (
          "unknown kyc_state "
          ++ quote req.state
          ++ ": expected accepted, rejected, action_required or resubmission"))
    found ← fetch "user not found" user_id
    let fields = record (found.1) {
      kyc_state = req.state;
      risk_level = or_default (found.1.risk_level) req.risk_level;
    }
    save "failed to update user" found.0 fields
    pure (record { state = fields.kyc_state; risk_level = fields.risk_level })

  -- the user of a form: its field, or else the user of its token
  abbrev pub form_user : Form → Handler F Raw → String
  form_user form h =
      if form_value "user_id" form == ""
      then elim (lookup (form_value "token" form) h.tokens) [ none ↦ "" | some id ↦ id ]
      else form_value "user_id" form

  abbrev pub two_factor_check :
      CallbackClient → (ℕ → String) → String → Form → Action F Raw (Unit {0})
  two_factor_check client show user_id form h =
      if form_value "trigger_2fa" form == "on"
      then (map_err bad_request (verify_2fa client show user_id (form_value "totp_code" form) h), h)
      else (ok tt, h)

  -- the webhook, unless it is to be skipped, and the response
  abbrev pub notify_outcome :
      String → String → String → String → String → Action F Raw KycSubmitResponse
  notify_outcome user_id previous state event message h = (
    ok (record { status = state; message = message }),
    if should_skip_accepted_webhook previous event
        then h
        else send_async event user_id (("message", some message) ∷ []) h,
  )

  -- from the risk level on, for the user behind `p`, who had the state `previous`
  unfoldable pub submit_outcome :
      (String → String) → String → Ptr → String → String → User → Action F Raw KycSubmitResponse
  unfolding apply_kyc_outcome
  submit_outcome quote user_id p previous outcome ranked = do
    call_or internal_err (write_user p ranked)
    applied ← lift (map_err bad_request (apply_kyc_outcome quote ranked outcome))
    let (judged, (event, message)) = applied
    save "Failed to update user" p judged
    notify_outcome user_id previous judged.kyc_state event message

  -- `parsed` is an error where the form does not parse.
  unfoldable pub kyc_iframe_submit :
      CallbackClient
      → (ℕ → String)
      → (String → String)
      → Result String Form
      → Action F Raw KycSubmitResponse
  unfolding submit_outcome
  kyc_iframe_submit client show quote parsed = do
    form ← lift (map_err (λ e. bad_request ("Invalid form data: " ++ e)) parsed)
    user_id ← gets (form_user form)
    raise_if (user_id == "")
        (bad_request "User ID is required (not found in form or token mapping)")
    found ← fetch "User not found" user_id
    call_or internal_err (write_user found.0 (with_form form (found.1)))
    two_factor_check client show user_id form
    submit_outcome quote user_id found.0 found.1.kyc_state (outcome_of form)
        (filled_in form (found.1))
