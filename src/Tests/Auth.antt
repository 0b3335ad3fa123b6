-- ===== src/Tests/Auth.antt =====
-- Signed requests; as `hmac` the secret and the message one after the other.
use Prim.Native.String.{◌++◌}
use mockgatehub.Prelude.{String, ◌≡◌, ◌≢◌, refl, false, some, [], ◌∷◌, arith, eq_iff, ==→ne}
use mockgatehub.Prelude.GoMap.{GoMap, lookup}
use mockgatehub.Auth.Signature.{Request, generate_signature, sign_request, build_outgoing_url}
use mockgatehub.Auth.Signature.Bars.{generate_signature-bar}
use mockgatehub.Auth.Middleware.{middleware, served, public_endpoints, is_listed, reconstruct_url}
use mockgatehub.Auth.Middleware.Accepts.{IsSigned, served-IsSigned, signed_request_is_served}

abbrev toy_hmac : String → String → String
toy_hmac secret message = secret ++ message

abbrev request : Request
request = record {
  method = "POST";
  scheme = "http";
  url_host = "localhost";
  path = "/core/v1/transactions";
  raw_query = "";
  host = "localhost";
  has_tls = false;
  headers = [];
  body = some "{}";
}

abbrev credentials : GoMap String
credentials = ("mockgatehub", "secret") ∷ []

generate_signature-bar_example :
    generate_signature toy_hmac "1" "GET" "/" ("{}" ++ "|") "secret"
    ≡ generate_signature toy_hmac "1" "GET" "/" "{}" "secret"
generate_signature-bar_example = generate_signature-bar toy_hmac "1" "GET" "/" "{}" "secret"

known : lookup "mockgatehub" credentials ≡ some "secret"
unfolding lookup
known = refl

same_url : build_outgoing_url request ≡ reconstruct_url request
unfolding build_outgoing_url reconstruct_url lookup
same_url = refl

signature_given :
    generate_signature toy_hmac "1700000000000" "POST" (build_outgoing_url request) "{}" "secret"
    ≢ ""
unfolding generate_signature build_outgoing_url
signature_given = ==→ne _ _ refl

signed_request_is_served_example :
    middleware toy_hmac credentials (sign_request toy_hmac "1700000000000" "secret" "{}" request)
    ≡ served
signed_request_is_served_example =
    signed_request_is_served toy_hmac credentials "1700000000000" "secret" "{}" request known refl
      (λ e. ground (arith, eq_iff "1700000000000" "")) same_url signature_given

private : is_listed request.path public_endpoints ≡ false
unfolding is_listed
private = refl

served-IsSigned_example :
    IsSigned toy_hmac credentials (sign_request toy_hmac "1700000000000" "secret" "{}" request)
unfolding sign_request
served-IsSigned_example =
    served-IsSigned toy_hmac credentials
      (sign_request toy_hmac "1700000000000" "secret" "{}" request) private
      (signed_request_is_served toy_hmac credentials "1700000000000" "secret" "{}" request known
        refl (λ e. ground (arith, eq_iff "1700000000000" "")) same_url signature_given)
