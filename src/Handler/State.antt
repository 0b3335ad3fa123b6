-- ===== src/Handler/State.antt =====
-- The state of `Handler` (handler.go) and the shape of its methods. A handler that answers with an
-- error has the status and the message; its success carries the value that is encoded. Decoding a
-- request and encoding a response are `encoding/json`'s: a body that does not decode is `none`.
use Prim.Native.String.{len}
use mockgatehub.Prelude.{
  ℕ, String, Bool, Option, none, some, List, [], ◌∷◌, ◌++◌, ltb, not, ◌&&◌, ◌||◌, ◌==◌,
  if◌then◌else◌,
}
use text.Mathlib.Text.{starts_with}
use mockgatehub.Prelude.Result.{map_err, Exec}
use mockgatehub.Prelude.GoMap.{GoMap, lookup}
use mockgatehub.Models.{Organization}
use mockgatehub.Storage.{MemoryStorage, Method, GoError}
use mockgatehub.Fees.{FeeConfig}

-- apierror.go
pub record ApiError : Type 0 where
  pub status : ℕ
  pub msg : String

abbrev pub bad_request : String → ApiError
bad_request msg = record { status = 400; msg = msg }

abbrev pub forbidden : String → ApiError
forbidden msg = record { status = 403; msg = msg }

abbrev pub not_found : String → ApiError
not_found msg = record { status = 404; msg = msg }

abbrev pub conflict : String → ApiError
conflict msg = record { status = 409; msg = msg }

abbrev pub internal_err : String → ApiError
internal_err msg = record { status = 500; msg = msg }

-- A webhook's data: nil values are `none`.
abbrev pub Payload : Type 0
Payload = GoMap (Option String)

-- One job handed to the webhook queue by `SendAsync`.
pub record WebhookCall : Type 0 where
  pub event_type : String
  pub user_id : String
  pub payload : Payload

-- The parts of `config.Config` and `webhook.Manager` that the handlers read.
pub record Settings : Type 0 where
  pub async_withdrawals : Bool
  pub webhook_url : String
  pub default_organization_id : String
  pub has_queue : Bool

-- `tokens` is `tokenToUser`, from bearer tokens to user IDs; `outbox` holds the jobs that the webhook
-- manager has been given, in order.
pub record Handler (F Raw : Type 0) : Type 0 where
  pub settings : Settings
  pub store : MemoryStorage F Raw
  pub tokens : GoMap String
  pub fee_config : FeeConfig F
  pub outbox : List WebhookCall

abbrev pub Action : Type 0 → Type 0 → Type 0 → Type 0
Action F Raw A = Exec (Handler F Raw) ApiError A

module _ {F Raw A : Type 0} where
  -- `h.store.Method(...)`
  abbrev pub call : Method F Raw A → Exec (Handler F Raw) GoError A
  call m h = let (r, s) = m h.store in (r, record h { store = s })

  -- `h.store.Method(...)` whose error is answered by `f`
  abbrev pub call_or : (GoError → ApiError) → Method F Raw A → Action F Raw A
  call_or f m h = let (r, s) = m h.store in (map_err f r, record h { store = s })

abbrev org_base_url : Option Organization → String
org_base_url none = ""
org_base_url (some org) = org.api_base_url

abbrev is_internal : String → Bool
is_internal event_type = ltb 9 (len event_type) && starts_with event_type "internal."

module _ {F Raw : Type 0} where
  -- `resolveCallbackURL`: the organization's URL, or else the global one
  unfoldable pub resolve_callback_url : Handler F Raw → String
  resolve_callback_url h =
      let org_url =
        if h.settings.default_organization_id == ""
        then ""
        else org_base_url (lookup h.settings.default_organization_id h.store.organizations) in
      if org_url == "" then h.settings.webhook_url else org_url

  -- `HasURL`
  unfoldable pub has_url : Handler F Raw → Bool
  unfolding resolve_callback_url
  has_url h = not (resolve_callback_url h == "")

  -- `SendAsync`, up to `Enqueue`
  unfoldable pub send_async : String → String → Payload → Handler F Raw → Handler F Raw
  unfolding has_url
  send_async event_type user_id payload h =
      let job : WebhookCall = record {
        event_type = event_type;
        user_id = user_id;
        payload = payload;
      } in
      if (is_internal event_type || has_url h) && h.settings.has_queue
      then record h { outbox = h.outbox ++ job ∷ [] }
      else h
