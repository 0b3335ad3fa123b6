-- ===== src/Handler/Kyc/Requests.antt =====
-- The requests of the KYC API, and the one user that each of them may write.
use Prim.Native.String.{◌++◌}
use mockgatehub.Prelude.{
  ==→ne, ℕ, String, ◌≡◌, ◌≢◌, ◌⊎◌, inl, inr, refl, ap, true, Option, none, some, [], ◌∷◌, arith,
  ◌==◌, ◌||◌, Bool-cases, Option-cases, if◌then◌else◌, ◌∙◌,
}
use mockgatehub.Prelude.Result.{Result, ok, err, Result-cases, ◌>>◌, pure, modify}
use mockgatehub.Prelude.GoMap.{lookup}
use mockgatehub.Prelude.Heap.{Ptr, deref}
use mockgatehub.Models.{User}
use mockgatehub.Consts.{kyc_state_accepted, kyc_state_action_required, risk_level_low}
use mockgatehub.Storage.{MemoryStorage}
use mockgatehub.Storage.Users.{get_user}
use mockgatehub.Handler.State.{Handler, Action, not_found, send_async}
use mockgatehub.Handler.Forms.{Form, form_value, with_birth_date_keeps}
use mockgatehub.Handler.TwoFactor.{CallbackClient}
use mockgatehub.Handler.Kyc.Outcomes.{kyc_submit_lem, kyc_submit_refused_writes, announce}
use mockgatehub.Handler.Kyc.{
  form_user, with_form, filled_in, outcome_of, two_factor_check, named_in, start_kyc,
  update_kyc_state, override_risk_level, set_user_kyc_state_quiet, kyc_iframe_submit, fetch, save,
  UpdateKycStateRequest, is_known_kyc_state, kyc_event, or_default,
}
use mockgatehub.Handler.Kyc.Writes.{
  keeps_store-send_async, save_then, IsStored, put_user, with_user, fetch_lem, save_lem,
}

pub data KycRequest : Type 0 where
  start : String → String → KycRequest
  update : String → String → Option UpdateKycStateRequest → KycRequest
  override : String → String → Option String → KycRequest
  set_quiet : String → Option UpdateKycStateRequest → KycRequest
  submit : Result String Form → KycRequest

-- the state that an update asks for, which the code does not check
abbrev pub Asks : KycRequest → String → Type 0
Asks (update _ _ (some req)) state = req.state ≡ state
Asks _ state = ⊥

module _ {F Raw : Type 0} where
  -- Every user ID leads to an object that has the ID.
  pub record IsLinked (s : MemoryStorage F Raw) : Type 0 where
    pub at :
        (id : String) (p : Ptr)
        → lookup id s.users ≡ some p
        → (u : User) × (deref p s.user_heap ≡ some u) × (u.id ≡ id)

  -- The store is as it was, or one stored object has other fields, not the ID or the email.
  pub data Writes (r : KycRequest) (s s' : MemoryStorage F Raw) : Type 0 where
    kept : s' ≡ s → Writes r s s'
    wrote :
        (p : Ptr) (u u' : User)
        → deref p s.user_heap ≡ some u
        → u'.id ≡ u.id
        → u'.email ≡ u.email
        → (u'.kyc_state ≡ u.kyc_state)
          ⊎ (is_known_kyc_state u'.kyc_state ≡ true)
          ⊎ Asks r u'.kyc_state
        → s' ≡ put_user p u' s
        → Writes r s s'

  fetch_cases :
      (missing id : String) (h : Handler F Raw)
      → IsLinked h.store
      → (fetch missing id h ≡ (err (not_found missing), h))
        ⊎ ((p : Ptr) × (u : User) × IsStored id p u h)
  unfolding get_user
  fetch_cases missing id h linked = elim (Option-cases (lookup id h.store.users)) [
    | inl gone ↦ inl (rw (get_user, gone) refl)
    | inr (p, found) ↦
        let (u, there, own) = linked.at id p found in
        inr (p, u, record { found = found; there = there; own = own })
  ]

  start-Writes :
      (id gateway_id : String) (h : Handler F Raw)
      → IsLinked h.store
      → Writes (start id gateway_id) h.store (start_kyc id gateway_id h).1.store
  unfolding start_kyc is_known_kyc_state
  start-Writes id gateway_id h linked = elim (Bool-cases (id == "" || gateway_id == "")) [
    | inl unnamed ↦ kept (rw (start_kyc, unnamed) refl)
    | inr named ↦ elim (fetch_cases "User not found" id h linked) [
      | inl gone ↦ kept (rw (start_kyc, named, gone) refl)
      | inr (p, u, stored) ↦
          let found = fetch_lem "User not found" id p u h stored in
          let u' : User = record u {
            kyc_state = kyc_state_action_required;
            risk_level = risk_level_low;
          } in
          elim (Bool-cases (u.kyc_state == kyc_state_accepted)) [
            | inl accepted ↦ kept (rw (start_kyc, named, found, accepted) refl)
            | inr open_state ↦
                let reset : (start_kyc id gateway_id h).1 ≡ (save "" p u' h).1 =
                  rw (start_kyc, named, found, open_state) refl in
                wrote p u u' stored.there refl refl (inr (inl refl)) (
                  ap (λ x. x.store)
                    (reset ∙ ap (λ r. r.1) (save_lem "" id p u u' h stored stored.own)))
          ]
    ]
  ]

  -- the event of an update, where there is one
  abbrev announce_update : String → UpdateKycStateRequest → User → Action F Raw User
  announce_update id req fields = do
    if kyc_event req.state == ""
        then pure tt
        else modify (
            send_async (kyc_event req.state) id
              (("state", some req.state) ∷ ("risk_level", some req.risk_level) ∷ []))
    pure fields

  store-announce_update :
      (id : String) (req : UpdateKycStateRequest) (u : User) (h : Handler F Raw)
      → (announce_update id req u h).1.store ≡ h.store
  store-announce_update id req u h = elim (Bool-cases (kyc_event req.state == "")) [
    | inl silent ↦ rw silent refl
    | inr loud ↦ rw loud (keeps_store-send_async _ _ _ _)
  ]

  update-Writes :
      (id gateway_id : String) (body : Option UpdateKycStateRequest) (h : Handler F Raw)
      → IsLinked h.store
      → Writes (update id gateway_id body) h.store (update_kyc_state id gateway_id body h).1.store
  unfolding update_kyc_state
  update-Writes id gateway_id none h linked = kept (ground arith)
  update-Writes id gateway_id (some req) h linked =
      elim (Bool-cases (id == "" || gateway_id == "")) [
        | inl unnamed ↦ kept (rw (update_kyc_state, unnamed) refl)
        | inr named ↦ elim (fetch_cases "User not found" id h linked) [
          | inl gone ↦ kept (rw (update_kyc_state, named, gone) refl)
          | inr (p, u, stored) ↦
              let found = fetch_lem "User not found" id p u h stored in
              let u' : User = record u { kyc_state = req.state; risk_level = req.risk_level } in
              let up_to : update_kyc_state id gateway_id (some req) h
                  ≡ (save "Failed to update user" p u' >> announce_update id req u') h =
                rw (update_kyc_state, named, found) refl in
              let saved =
                save_then "Failed to update user" id p u u' h (announce_update id req u') stored
                  stored.own in
              wrote p u u' stored.there refl refl (inr (inr refl))
                (ap (λ r. r.1.store) (up_to ∙ saved) ∙ store-announce_update id req u' _)
        ]
      ]

  override-Writes :
      (id gateway_id : String) (body : Option String) (h : Handler F Raw)
      → IsLinked h.store
      → Writes
          (override id gateway_id body)
          h.store
          (override_risk_level id gateway_id body h).1.store
  unfolding override_risk_level
  override-Writes id gateway_id body h linked = elim (Bool-cases (id == "" || gateway_id == "")) [
    | inl unnamed ↦ kept (rw (override_risk_level, unnamed) refl)
    | inr named ↦ elim (Option-cases body) [
      | inl bad ↦ kept (rw (override_risk_level, named, bad) refl)
      | inr (risk_level, read) ↦ elim (fetch_cases "User not found" id h linked) [
        | inl gone ↦ kept (rw (override_risk_level, named, read, gone) refl)
        | inr (p, u, stored) ↦
            let found = fetch_lem "User not found" id p u h stored in
            let u' : User = record u { risk_level = risk_level } in
            let up_to : override_risk_level id gateway_id body h
                ≡ (save "Failed to update user" p u' >> pure u') h =
              rw (override_risk_level, named, read, found) refl in
            let saved = save_then "Failed to update user" id p u u' h (pure u') stored stored.own in
            wrote p u u' stored.there refl refl (inl refl) (ap (λ r. r.1.store) (up_to ∙ saved))
      ]
    ]
  ]

  set_quiet-Writes :
      (quote : String → String) (id : String) (body : Option UpdateKycStateRequest)
      (h : Handler F Raw)
      → IsLinked h.store
      → Writes (set_quiet id body) h.store (set_user_kyc_state_quiet quote id body h).1.store
  unfolding set_user_kyc_state_quiet
  set_quiet-Writes quote id body h linked = elim (Bool-cases (id == "")) [
    | inl unnamed ↦ kept (rw (set_user_kyc_state_quiet, unnamed) refl)
    | inr named ↦ elim (Option-cases body) [
      | inl bad ↦ kept (rw (set_user_kyc_state_quiet, named, bad) refl)
      | inr (req, read) ↦ elim (Bool-cases (req.state == "")) [
        | inl empty ↦ kept (rw (set_user_kyc_state_quiet, named, read, empty) refl)
        | inr given ↦ elim (Bool-cases (is_known_kyc_state req.state)) [
          | inr unknown ↦ kept (rw (set_user_kyc_state_quiet, named, read, given, unknown) refl)
          | inl known ↦ elim (fetch_cases "user not found" id h linked) [
            | inl gone ↦ kept (rw (set_user_kyc_state_quiet, named, read, given, known, gone) refl)
            | inr (p, u, stored) ↦
                let found = fetch_lem "user not found" id p u h stored in
                let u' : User = record u {
                  kyc_state = req.state;
                  risk_level = or_default u.risk_level req.risk_level;
                } in
                let answer : UpdateKycStateRequest = record {
                  state = u'.kyc_state;
                  risk_level = u'.risk_level;
                } in
                let up_to : set_user_kyc_state_quiet quote id body h
                    ≡ (save "failed to update user" p u' >> pure answer) h =
                  rw (set_user_kyc_state_quiet, named, read, given, known, found) refl in
                let saved =
                  save_then "failed to update user" id p u u' h (pure answer) stored stored.own in
                wrote p u u' stored.there refl refl (inr (inl known))
                  (ap (λ r. r.1.store) (up_to ∙ saved))
          ]
        ]
      ]
    ]
  ]

  store-announce :
      (id previous outcome message : String) (h : Handler F Raw)
      → (announce id previous outcome message h).store ≡ h.store
  store-announce id previous outcome message h =
      let sent =
        keeps_store-send_async ("id.verification." ++ outcome) id (("message", some message) ∷ [])
          h in
      ground arith

  module _ (client : CallbackClient) (show : ℕ → String) (quote : String → String) where
    submit_stored-Writes :
        (form : Form) (p : Ptr) (u : User) (h : Handler F Raw)
        → form_user form h ≢ ""
        → IsStored (form_user form h) p u h
        → Writes
            (submit (ok form))
            h.store
            (kyc_iframe_submit client show quote (ok form) h).1.store
    submit_stored-Writes form p u h named stored =
        let id = form_user form h in
        let (same_id, same_email, same_state) =
          with_birth_date_keeps (form_value "dob" form) (named_in form u) in
        let two_factor =
          (two_factor_check client show id form (with_user p (with_form form u) h)).0 in
        let refused = kyc_submit_refused_writes client show quote form id p u h refl named stored in
        let left : (h' : Handler F Raw)
            → (h' ≡ with_user p (with_form form u) h) ⊎ (h' ≡ with_user p (filled_in form u) h)
            → Writes (submit (ok form)) h.store h'.store =
          λ h' how. elim how [
            | inl e ↦
                wrote p u (with_form form u) stored.there same_id same_email (inl same_state)
                  (ap (λ x. x.store) e)
            | inr e ↦
                wrote p u (filled_in form u) stored.there same_id same_email (inl same_state)
                  (ap (λ x. x.store) e)
          ] in
        elim (Result-cases two_factor) [
          | inl (e, failed) ↦ left _ ((refused (inr (e, failed))).1)
          | inr (_, verified) ↦ elim (Bool-cases (is_known_kyc_state (outcome_of form))) [
            | inr unknown ↦ left _ ((refused (inl unknown)).1)
            | inl known ↦
                let (message, done) =
                  kyc_submit_lem client show quote form id p u h refl named stored verified known in
                wrote p u (record (filled_in form u) { kyc_state = outcome_of form }) stored.there
                  same_id same_email (inr (inl known))
                  (ap (λ r. r.1.store) done
                    ∙ store-announce id u.kyc_state (outcome_of form) message _)
          ]
        ]

    submit-Writes :
        (parsed : Result String Form) (h : Handler F Raw)
        → IsLinked h.store
        → Writes (submit parsed) h.store (kyc_iframe_submit client show quote parsed h).1.store
    unfolding kyc_iframe_submit
    submit-Writes (err e) h linked = kept refl
    submit-Writes (ok form) h linked = elim (Bool-cases (form_user form h == "")) [
      | inl unnamed ↦ kept (rw (kyc_iframe_submit, unnamed) refl)
      | inr named ↦ elim (fetch_cases "User not found" (form_user form h) h linked) [
        | inl gone ↦ kept (rw (kyc_iframe_submit, named, gone) refl)
        | inr (p, u, stored) ↦ submit_stored-Writes form p u h (==→ne _ _ named) stored
      ]
    ]

    unfoldable pub apply_kyc_request : KycRequest → Handler F Raw → Handler F Raw
    unfolding kyc_iframe_submit start_kyc update_kyc_state override_risk_level
        set_user_kyc_state_quiet
    apply_kyc_request (start id gateway_id) h = (start_kyc id gateway_id h).1
    apply_kyc_request (update id gateway_id body) h = (update_kyc_state id gateway_id body h).1
    apply_kyc_request (override id gateway_id body) h = (override_risk_level id gateway_id body h).1
    apply_kyc_request (set_quiet id body) h = (set_user_kyc_state_quiet quote id body h).1
    apply_kyc_request (submit parsed) h = (kyc_iframe_submit client show quote parsed h).1

    pub request-Writes :
        (r : KycRequest) (h : Handler F Raw)
        → IsLinked h.store
        → Writes r h.store (apply_kyc_request r h).store
    unfolding apply_kyc_request
    request-Writes (start id gateway_id) h linked = start-Writes id gateway_id h linked
    request-Writes (update id gateway_id body) h linked = update-Writes id gateway_id body h linked
    request-Writes (override id gateway_id body) h linked =
        override-Writes id gateway_id body h linked
    request-Writes (set_quiet id body) h linked = set_quiet-Writes quote id body h linked
    request-Writes (submit parsed) h linked = submit-Writes parsed h linked
