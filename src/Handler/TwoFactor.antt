-- ===== src/Handler/TwoFactor.antt =====
-- `verify2FA`, `call2FAVerify` (identity.go) and `ResolveOrgBaseURL` (internal/webhook/manager.go): the
-- integrator is asked to verify a code. The HTTP client and the encodings are not the program's own
-- code, so they are an argument.
use Prim.Native.Char.{code}
use Prim.Native.String.{◌++◌}
use mockgatehub.Prelude.{
  ℕ, String, Bool, Option, none, some, ltb, leb, nat_beq, ◌==◌, ◌&&◌, ◌||◌, if◌then◌else◌,
}
use mockgatehub.Prelude.Result.{Result, ok, err, map_err}
use mockgatehub.Prelude.GoMap.{lookup}
use mockgatehub.Models.{Organization}
use mockgatehub.Handler.State.{Handler}

-- `strings.TrimRight(s, "/")`
unfoldable pub trim_right_slashes : String → String
trim_right_slashes String.[] = String.[]
trim_right_slashes (String.◌∷◌ c s) =
    let rest = trim_right_slashes s in
    if nat_beq (code c) b'/' && rest == "" then "" else String.◌∷◌ c rest

abbrev trimmed_base_url : Option Organization → String
trimmed_base_url none = ""
trimmed_base_url (some org) = trim_right_slashes org.api_base_url

-- An answer: `success` is the field of its JSON body, an error where it does not decode.
pub record CallbackReply : Type 0 where
  pub status_code : ℕ
  pub success : Result String Bool

-- `verify_body` is the JSON text of the action VERIFY with a code, `sign` the signature of a body under
-- the webhook secret, `url_error` what `http.NewRequest` refuses in a URL, and `post` what `Do`
-- answers to the URL, the signature and the body.
pub record CallbackClient : Type 0 where
  pub verify_body : String → String
  pub sign : String → String
  pub url_error : String → Option String
  pub post : String → String → String → Result String CallbackReply

abbrev reply_of : Result String CallbackReply → (ℕ → String) → Result String Bool
reply_of (err e) show = err ("callback request failed: " ++ e)
reply_of (ok reply) show =
    if ltb reply.status_code 200 || leb 300 reply.status_code
    then err ("callback returned status " ++ show reply.status_code)
    else map_err (λ e. "failed to decode callback response: " ++ e) reply.success

unfoldable pub call_2fa_verify :
    CallbackClient → (ℕ → String) → String → String → Result String Bool
call_2fa_verify client show endpoint totp_code = elim (client.url_error endpoint) [
  | some e ↦ err ("failed to build callback request: " ++ e)
  | none ↦
      let body = client.verify_body totp_code in
      reply_of (client.post endpoint (client.sign body) body) show
]

abbrev pub two_factor_endpoint : String → String → String
two_factor_endpoint base_url user_id = base_url ++ "/v1/users/managed/" ++ user_id ++ "/2fa"

abbrev accept_reply : Result String Bool → Result String (Unit {0})
accept_reply (err e) = err ("2FA verification failed: " ++ e)
accept_reply (ok success) = if success then ok tt else err "2FA verification rejected"

module _ {F Raw : Type 0} where
  unfoldable pub resolve_org_base_url : Handler F Raw → String
  unfolding trim_right_slashes
  resolve_org_base_url h =
      if h.settings.default_organization_id == ""
      then ""
      else trimmed_base_url (lookup h.settings.default_organization_id h.store.organizations)

  -- `show` prints a status code.
  unfoldable pub verify_2fa :
      CallbackClient → (ℕ → String) → String → String → Handler F Raw → Result String (Unit {0})
  unfolding resolve_org_base_url call_2fa_verify
  verify_2fa client show user_id totp_code h =
      let callback_url = resolve_org_base_url h in
      let endpoint = two_factor_endpoint (trim_right_slashes callback_url) user_id in
      if callback_url == ""
      then err "2FA verification requested but no organization callback URL configured"
      else accept_reply (call_2fa_verify client show endpoint totp_code)
