-- ===== src/Auth/Signature.antt =====
-- internal/auth/signature.go. `hmac secret message` stands for the hexadecimal text of HMAC-SHA256 by
-- `crypto/hmac` under the bytes of the secret; only that it is a function is used.
pub mod Bars
use Prim.Native.Char.{Char, code}
use Prim.Native.String.{◌++◌}
use mockgatehub.Prelude.{
  String, Bool, Option, none, some, List, [], ◌∷◌, nat_beq, ◌==◌, ◌&&◌, if◌then◌else◌,
}
use mockgatehub.Prelude.GoMap.{GoMap, lookup, insert}

-- What the signatures and the middleware read of an `http.Request`: `scheme` and `url_host` are those
-- of its URL, and `body` is none where it cannot be read. Header names are lower-case here.
pub record Request : Type 0 where
  pub method : String
  pub scheme : String
  pub url_host : String
  pub path : String
  pub raw_query : String
  pub host : String
  pub has_tls : Bool
  pub headers : GoMap String
  pub body : Option String

abbrev pub header_of : Option String → String
header_of none = ""
header_of (some value) = value

-- `r.Header.Get`: "" where the header is missing
abbrev pub header : String → Request → String
header name r = header_of (lookup name r.headers)

abbrev pub is_bar : Char → Bool
is_bar c = nat_beq (code c) b'|'

-- `strings.Trim(s, "|")`, from the left and from the right
unfoldable pub trim_left_bars : String → String
trim_left_bars String.[] = String.[]
trim_left_bars (String.◌∷◌ c s) =
    let rest = trim_left_bars s in if is_bar c then rest else String.◌∷◌ c s

unfoldable pub trim_right_bars : String → String
trim_right_bars String.[] = String.[]
trim_right_bars (String.◌∷◌ c s) =
    let rest = trim_right_bars s in if is_bar c && rest == "" then "" else String.◌∷◌ c rest

abbrev pub signed_message : String → String → String → String → String
signed_message timestamp method url body =
    trim_right_bars (trim_left_bars (timestamp ++ "|" ++ method ++ "|" ++ url ++ "|" ++ body))

abbrev pub with_query : String → String → String
with_query url query = if query == "" then url else url ++ "?" ++ query

unfoldable pub build_outgoing_url : Request → String
build_outgoing_url r =
    let scheme = if r.scheme == "" then "http" else r.scheme in
    let host = if r.url_host == "" then r.host else r.url_host in
    with_query (scheme ++ "://" ++ host ++ r.path) r.raw_query

module _ (hmac : String → String → String) where
  unfoldable pub generate_signature : String → String → String → String → String → String
  unfolding trim_left_bars trim_right_bars
  generate_signature timestamp method url body secret =
      hmac secret (signed_message timestamp method url body)

  -- `timestamp` is the present time as text.
  unfoldable pub sign_request : String → String → String → Request → Request
  unfolding generate_signature build_outgoing_url
  sign_request timestamp secret body r =
      let signature = generate_signature timestamp r.method (build_outgoing_url r) body secret in
      record r {
        headers = insert "x-gatehub-app-id" "mockgatehub" (
            insert "x-gatehub-signature" signature
              (insert "x-gatehub-timestamp" timestamp r.headers));
      }
