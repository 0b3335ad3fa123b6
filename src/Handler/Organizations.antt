-- ===== src/Handler/Organizations.antt =====
-- `UpdateOrganizationConfiguration` and the job that tests the new callback, internal/handler/auth.go.
-- `url.Parse` is an argument. The delay of the job is left out.
pub mod Configured
use mockgatehub.Prelude.{String, Option, none, some, [], ◌∷◌, ◌==◌, ◌&&◌, ◌||◌, not, if◌then◌else◌}
use mockgatehub.Prelude.Result.{of_option, ◌>>=◌, ◌>>◌, raise_if, lift, modify, pure}
use mockgatehub.Models.{Organization, Time}
use mockgatehub.Consts.{test_user1_id}
use mockgatehub.Storage.Organizations.{get_organization, update_organization}
use mockgatehub.Handler.State.{
  Handler, Action, bad_request, not_found, internal_err, call_or, send_async,
}
use mockgatehub.Handler.TwoFactor.{trim_right_slashes}

-- what is read of a parsed URL
pub record Url : Type 0 where
  pub scheme : String
  pub host : String

pub record UpdateOrganizationConfigurationRequest : Type 0 where
  pub api_base_url : String
  pub two_fa_type : String

module _ {F Raw : Type 0} where
  -- The manager is there.
  unfoldable pub enqueue_2fa_callback_test_job : String → Handler F Raw → Handler F Raw
  enqueue_2fa_callback_test_job org_id =
      send_async "internal.2fa_callback_test" test_user1_id
        (("organization_id", some org_id) ∷ ("test_user_id", some test_user1_id) ∷ [])

  -- the checks of the URL and of the type
  unfoldable pub checked_configuration :
      (String → Option Url)
      → Option UpdateOrganizationConfigurationRequest
      → Action F Raw UpdateOrganizationConfigurationRequest
  checked_configuration parse_url body = do
    req ← lift (of_option body (bad_request "invalid request body"))
    parsed ← lift (of_option (parse_url req.api_base_url) (bad_request "invalid API base URL"))
    raise_if (parsed.host == "") (bad_request "invalid API base URL")
    raise_if (not (parsed.scheme == "https") && not (parsed.scheme == "http"))
        (bad_request "API base URL must use HTTPS")
    raise_if (not (req.two_fa_type == "sms") && not (req.two_fa_type == "totp"))
        (bad_request "2FA type must be 'sms' or 'totp'")
    pure req

  -- The organization is answered, with its times as text.
  unfoldable pub update_organization_configuration :
      (String → Option Url)
      → Time
      → String
      → Option UpdateOrganizationConfigurationRequest
      → Action F Raw Organization
  unfolding checked_configuration enqueue_2fa_callback_test_job trim_right_slashes
  update_organization_configuration parse_url now org_id body = do
    raise_if (org_id == "") (bad_request "organization ID is required")
    req ← checked_configuration parse_url body
    org ← call_or (λ _. not_found "organization not found") (get_organization org_id)
    kept ←
        call_or (λ _. internal_err "failed to update organization")
          (update_organization now (record org {
            api_base_url = trim_right_slashes req.api_base_url;
            two_fa_type = req.two_fa_type;
          }))
    modify (enqueue_2fa_callback_test_job org_id)
    pure kept
