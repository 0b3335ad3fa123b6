-- ===== src/Auth/Middleware.antt =====
-- internal/auth/middleware.go.
pub mod Accepts
use Prim.Native.Char.{Char, code}
use Prim.Native.String.{◌++◌}
use mockgatehub.Prelude.{
  String, Bool, true, false, Option, none, some, List, [], ◌∷◌, nat_beq, ◌==◌, ◌&&◌, ◌||◌, not,
  if◌then◌else◌,
}
use mockgatehub.Prelude.GoMap.{GoMap, lookup, contains}
use mockgatehub.Auth.Signature.{Request, header, with_query, generate_signature}

-- what the middleware does with a request
pub data Verdict : Type 0 where
  served : Verdict
  unauthorized : Verdict  -- 401
  unreadable : Verdict  -- 400

abbrev pub public_endpoints : List String
public_endpoints =
    "/health" ∷ "/" ∷ "/iframe/onboarding" ∷ "/iframe/submit" ∷ "/transaction/complete"
    ∷ "/api/user-currencies" ∷ "/cards/v1/token/card-data/data" ∷ "/cards/v1/token/pin/data"
    ∷ "/cards/v1/token/pin/public-key" ∷ []

abbrev pub public_endpoint_patterns : List String
public_endpoint_patterns = []

unfoldable pub is_listed : String → List String → Bool
is_listed path [] = false
is_listed path (p ∷ ps) = p == path || is_listed path ps

abbrev pub is_slash : Char → Bool
is_slash c = nat_beq (code c) b'/'

-- `strings.Trim(s, "/")`
unfoldable pub trim_left_slashes : String → String
trim_left_slashes String.[] = String.[]
trim_left_slashes (String.◌∷◌ c s) =
    let rest = trim_left_slashes s in if is_slash c then rest else String.◌∷◌ c s

unfoldable pub trim_right_slashes : String → String
trim_right_slashes String.[] = String.[]
trim_right_slashes (String.◌∷◌ c s) =
    let rest = trim_right_slashes s in if is_slash c && rest == "" then "" else String.◌∷◌ c rest

-- the first part with one more character in front
abbrev extend : Char → List String → List String
extend c [] = []
extend c (part ∷ parts) = String.◌∷◌ c part ∷ parts

-- `strings.Split(s, "/")`
unfoldable pub split_slashes : String → List String
split_slashes String.[] = "" ∷ []
split_slashes (String.◌∷◌ c s) =
    let parts = split_slashes s in if is_slash c then "" ∷ parts else extend c parts

unfoldable pub parts_match : List String → List String → Bool
parts_match [] [] = true
parts_match [] (part ∷ parts) = false
parts_match (pattern_part ∷ pattern_parts) [] = false
parts_match (pattern_part ∷ pattern_parts) (part ∷ parts) =
    let rest = parts_match pattern_parts parts in
    (pattern_part == "*" || pattern_part == part) && rest

unfoldable pub match_pattern : String → String → Bool
unfolding trim_left_slashes trim_right_slashes split_slashes parts_match
match_pattern pattern_text path =
    parts_match (split_slashes (trim_right_slashes (trim_left_slashes pattern_text)))
      (split_slashes (trim_right_slashes (trim_left_slashes path)))

unfoldable pub matches_any : List String → String → Bool
unfolding match_pattern
matches_any [] path = false
matches_any (p ∷ ps) path = match_pattern p path || matches_any ps path

-- `matchesPublicPattern`
abbrev pub matches_public_pattern : String → Bool
matches_public_pattern path = matches_any public_endpoint_patterns path

unfoldable pub reconstruct_url : Request → String
reconstruct_url r =
    let forwarded = header "x-forwarded-proto" r in
    let scheme = if forwarded == "" then (if r.has_tls then "https" else "http") else forwarded in
    let forwarded_host = header "x-forwarded-host" r in
    let host = if forwarded_host == "" then r.host else forwarded_host in
    with_query (scheme ++ "://" ++ host ++ r.path) r.raw_query

module _ (hmac : String → String → String) where
  unfoldable pub middleware : GoMap String → Request → Verdict
  unfolding is_listed matches_any reconstruct_url
  middleware valid_credentials r =
      let app_id = header "x-gatehub-app-id" r in
      let timestamp = header "x-gatehub-timestamp" r in
      let signature = header "x-gatehub-signature" r in
      if is_listed r.path public_endpoints || matches_public_pattern r.path
      then served
      else if app_id == "" || timestamp == "" || signature == ""
      then unauthorized
      else elim (lookup app_id valid_credentials) [
        | none ↦ unauthorized
        | some secret ↦ elim r.body [
          | none ↦ unreadable
          | some body ↦
              let expected =
                generate_signature hmac timestamp r.method (reconstruct_url r) body secret in
              if signature == expected then served else unauthorized
        ]
      ]
