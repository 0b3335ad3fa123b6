-- ===== src/Handler/Organizations/Configured.antt =====
-- The callback URL that a configuration gives.
use Prim.Native.Char.{code}
use mockgatehub.Prelude.{
  String, Option, ◌≡◌, ◌⊎◌, refl, ap, ◌∙◌, sym, subst, true, false, some, inl, inr, arith, ◌==◌,
  ◌&&◌, not, ==→eq, Bool-cases, Option-cases, nat_beq,
}
use mockgatehub.Prelude.GoMap.{lookup, insert, lookup-insert_self, contains}
use mockgatehub.Prelude.Result.{ok, err}
use mockgatehub.Models.{Organization, Time}
use mockgatehub.Storage.Organizations.{get_organization, update_organization}
use mockgatehub.Handler.State.{Handler, ApiError, bad_request, Payload, send_async}
use mockgatehub.Handler.Kyc.Writes.{keeps_store-send_async}
use mockgatehub.Handler.TwoFactor.{trim_right_slashes, resolve_org_base_url}
use mockgatehub.Handler.Organizations.{
  Url, UpdateOrganizationConfigurationRequest, update_organization_configuration,
  checked_configuration, enqueue_2fa_callback_test_job,
}

-- Trimming twice is trimming once.
trim_again : (s : String) → trim_right_slashes (trim_right_slashes s) ≡ trim_right_slashes s
unfolding trim_right_slashes
trim_again String.[] = refl
trim_again (String.◌∷◌ c s) =
    elim (Bool-cases (nat_beq (code c) b'/' && trim_right_slashes s == "")) [
      | inl gone ↦ rw gone refl
      | inr kept ↦ rw (kept, trim_again s, kept) refl
    ]

module _ {F Raw : Type 0} where
  keeps_settings-send_async :
      (event user : String) (payload : Payload) (h : Handler F Raw)
      → (send_async event user payload h).settings ≡ h.settings
  unfolding send_async
  keeps_settings-send_async event user payload h = ground arith

  checked_configuration-keeps :
      (parse_url : String → Option Url) (req : UpdateOrganizationConfigurationRequest)
      (h : Handler F Raw)
      → ((e : ApiError) × ((checked_configuration parse_url (some req) h).0 ≡ err e))
        ⊎ (((req.two_fa_type ≡ "sms") ⊎ (req.two_fa_type ≡ "totp"))
            × (checked_configuration parse_url (some req) h ≡ (ok req, h)))
  unfolding checked_configuration
  checked_configuration-keeps parse_url req h = elim (Option-cases (parse_url req.api_base_url)) [
    | inl bad ↦ inl (bad_request "invalid API base URL", rw (checked_configuration, bad) refl)
    | inr (url, parsed) ↦ elim (Bool-cases (url.host == "")) [
      | inl nowhere ↦
          inl (bad_request "invalid API base URL", rw (checked_configuration, parsed, nowhere) refl)
      | inr somewhere ↦
          elim (Bool-cases (not (url.scheme == "https") && not (url.scheme == "http"))) [
            | inl other ↦ inl (
              bad_request "API base URL must use HTTPS",
              rw (checked_configuration, parsed, somewhere, other) refl,
            )
            | inr http ↦
                elim (Bool-cases
                  (not (req.two_fa_type == "sms") && not (req.two_fa_type == "totp"))) [
                    | inl unknown ↦ inl (
                      bad_request "2FA type must be 'sms' or 'totp'",
                      rw (checked_configuration, parsed, somewhere, http, unknown) refl,
                    )
                    | inr known ↦ inr (
                      one_of known,
                      rw (checked_configuration, parsed, somewhere, http, known) refl,
                    )
                  ]
          ]
    ]
  ]
    where
      one_of :
          (not (req.two_fa_type == "sms") && not (req.two_fa_type == "totp")) ≡ false
          → (req.two_fa_type ≡ "sms") ⊎ (req.two_fa_type ≡ "totp")
      one_of known = elim (Bool-cases (req.two_fa_type == "sms")) [
        | inl sms ↦ inl (==→eq req.two_fa_type "sms" sms)
        | inr other ↦ inr (==→eq req.two_fa_type "totp" (ground arith))
      ]

  -- The callback URL of a state whose default organization has it.
  resolve_lem :
      (org_id : String) (org : Organization) (h h' : Handler F Raw)
      → h'.settings ≡ h.settings
      → h'.store ≡ h.store
      → h.settings.default_organization_id ≡ org_id
      → (org_id == "") ≡ false
      → lookup org_id h.store.organizations ≡ some org
      → resolve_org_base_url h' ≡ trim_right_slashes org.api_base_url
  unfolding resolve_org_base_url
  resolve_lem org_id org h h' same_settings same_store default given found =
      rw (resolve_org_base_url, same_settings, same_store, default, given, found) refl

  -- A configuration of the default organization that succeeded has the type of code sms or totp, and its
  -- URL without the slashes at the end is the one to which codes are sent for verification from then on.
  -- The store has the organization under its ID.
  pub configured_url_is_used :
      (parse_url : String → Option Url) (now : Time) (org_id : String)
      (req : UpdateOrganizationConfigurationRequest) (h : Handler F Raw) (old answer : Organization)
      → h.settings.default_organization_id ≡ org_id
      → lookup org_id h.store.organizations ≡ some old
      → old.id ≡ org_id
      → (update_organization_configuration parse_url now org_id (some req) h).0 ≡ ok answer
      → ((req.two_fa_type ≡ "sms") ⊎ (req.two_fa_type ≡ "totp"))
        × (resolve_org_base_url
              (update_organization_configuration parse_url now org_id (some req) h).1
            ≡ trim_right_slashes req.api_base_url)
  unfolding update_organization_configuration get_organization update_organization
      enqueue_2fa_callback_test_job
  configured_url_is_used parse_url now org_id req h old answer default found own fine =
      let refused : (e : ApiError)
          → (update_organization_configuration parse_url now org_id (some req) h).0 ≡ err e
          → ⊥ =
        λ e bad. ground arith in
      elim (Bool-cases (org_id == "")) [
        | inl empty ↦ absurd (
            refused (bad_request "organization ID is required")
              (rw (update_organization_configuration, empty) refl))
        | inr given ↦ elim (checked_configuration-keeps parse_url req h) [
          | inl (e, bad) ↦
              absurd (refused e (rw (update_organization_configuration, given, bad) refl))
          | inr (known, on) ↦
              let kept : Organization = record old {
                api_base_url = trim_right_slashes req.api_base_url;
                two_fa_type = req.two_fa_type;
                updated_at = now;
              } in
              let h1 : Handler F Raw = record h {
                store = record (h.store) {
                  organizations = insert old.id kept h.store.organizations;
                };
              } in
              let found' =
                subst (λ id. lookup id h.store.organizations ≡ some old) (sym own) found in
              let there : contains old.id h.store.organizations ≡ true = rw found' refl in
              let ran : update_organization_configuration parse_url now org_id (some req) h
                  ≡ (ok kept, enqueue_2fa_callback_test_job org_id h1) =
                rw
                  (
                    update_organization_configuration, given, on, get_organization, found,
                    update_organization, there,
                  )
                  refl in
              let written : lookup org_id h1.store.organizations ≡ some kept =
                subst (λ id. lookup id (insert old.id kept h.store.organizations) ≡ some kept) own
                  (lookup-insert_self old.id kept h.store.organizations) in
              (
                known,
                ap (λ x. resolve_org_base_url (x.1)) ran
                    ∙ resolve_lem org_id kept h1 (enqueue_2fa_callback_test_job org_id h1)
                        (keeps_settings-send_async _ _ _ _) (keeps_store-send_async _ _ _ _) default
                        given written
                    ∙ trim_again req.api_base_url,
              )
        ]
      ]
