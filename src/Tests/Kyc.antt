-- ===== src/Tests/Kyc.antt =====
-- The verification of users.
use mockgatehub.Prelude.{
  ℕ, String, ◌≡◌, ◌⊎◌, inl, inr, refl, true, false, Bool-cases, ==→eq, none, some, List, [], ◌∷◌,
  arith, All, eq_iff, ◌==◌,
}
use mockgatehub.Prelude.Result.{ok, err}
use mockgatehub.Prelude.GoMap.{lookup}
use mockgatehub.Handler.{ApiError}
use mockgatehub.Handler.Forms.{Form}
use mockgatehub.Handler.TwoFactor.{CallbackClient}
use mockgatehub.Handler.Kyc.{is_known_kyc_state, kyc_iframe_submit, with_form, filled_in}
use mockgatehub.Handler.Kyc.Writes.{IsStored, with_user}
use mockgatehub.Handler.Kyc.Outcomes.{kyc_submit_lem, kyc_submit_refused_writes, announce}
use mockgatehub.Handler.Kyc.Requests.{
  KycRequest, start, update, override, set_quiet, submit, IsLinked,
}
use mockgatehub.Handler.Kyc.Traces.{
  IsSameButUsers, HasKycState, apply_kyc_requests, kyc_requests_keep_store,
  kyc_requests-HasKycState,
}
use mockgatehub.Tests.Data.{alice, store, handler}

-- an integrator that accepts every code
abbrev client : CallbackClient
client = record {
  verify_body = λ totp_code. totp_code;
  sign = λ body. body;
  url_error = λ url. none;
  post = λ url signature body. ok (record { status_code = 200; success = ok true });
}

abbrev show : ℕ → String
show n = "200"

abbrev quote : String → String
quote text = text

abbrev form : String → Form
form outcome =
    ("user_id", "alice-id")
    ∷ ("first_name", "Alice")
    ∷ ("dob", "1990-02-13")
    ∷ ("kyc_outcome", outcome)
    ∷ []

alice-IsStored : IsStored "alice-id" 0 alice (handler false)
unfolding lookup
alice-IsStored = record { found = refl; there = refl; own = refl }

store-IsLinked : IsLinked store
unfolding lookup
store-IsLinked = record {
  at = λ id p found. elim (Bool-cases ("alice-id" == id)) [
    | inl hit ↦ (alice, ground arith, ==→eq "alice-id" id hit)
    | inr miss ↦ absurd (ground arith)
  ];
}

kyc_submit_lem_example :
    (message : String) × (kyc_iframe_submit client show quote (ok (form "rejected")) (handler false)
      ≡ (
        ok (record { status = "rejected"; message = message }),
        announce "alice-id" "" "rejected" message (
            with_user 0
              (record (filled_in (form "rejected") alice) { kyc_state = "rejected" })
              (handler false)),
      ))
unfolding lookup is_known_kyc_state
kyc_submit_lem_example =
    kyc_submit_lem client show quote (form "rejected") "alice-id" 0 alice (handler false) refl
      (λ e. ground (arith, eq_iff "alice-id" "")) alice-IsStored refl refl

kyc_submit_refused_writes_example :
    let (r, h') = kyc_iframe_submit client show quote (ok (form "maybe")) (handler false) in
    ((e : ApiError) × (r ≡ err e))
    × ((h' ≡ with_user 0 (with_form (form "maybe") alice) (handler false))
        ⊎ (h' ≡ with_user 0 (filled_in (form "maybe") alice) (handler false)))
unfolding lookup is_known_kyc_state
kyc_submit_refused_writes_example =
    kyc_submit_refused_writes client show quote (form "maybe") "alice-id" 0 alice (handler false)
      refl (λ e. ground (arith, eq_iff "alice-id" "")) alice-IsStored (inl refl)

abbrev requests : List KycRequest
requests =
    start "alice-id" "gateway-1"
    ∷ update "alice-id" "gateway-1" (some (record { state = "rejected"; risk_level = "high" }))
    ∷ override "bob-id" "gateway-1" (some "low")
    ∷ set_quiet "alice-id" (some (record { state = "resubmission"; risk_level = "" }))
    ∷ submit (ok (form "accepted"))
    ∷ []

kyc_requests_keep_store_example :
    let s' = (apply_kyc_requests client show quote requests (handler false)).store in
    IsSameButUsers store s' × IsLinked s'
kyc_requests_keep_store_example =
    kyc_requests_keep_store client show quote requests (handler false) store-IsLinked

kyc_requests-HasKycState_example :
    All HasKycState
      ((apply_kyc_requests client show quote requests (handler false)).store.user_heap)
unfolding is_known_kyc_state
kyc_requests-HasKycState_example =
    kyc_requests-HasKycState client show quote requests (handler false) store-IsLinked
      (
        (λ state asks. absurd asks),
        (
          (λ state asks. inr (rw (← asks) refl)),
          (
            (λ state asks. absurd asks),
            ((λ state asks. absurd asks), ((λ state asks. absurd asks), tt)),
          ),
        ),
      )
      (inl refl, tt)
