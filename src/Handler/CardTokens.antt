-- ===== src/Handler/CardTokens.antt =====
-- The tokens of internal/handler/card_token.go that a browser exchanges for a card's sensitive data.
pub mod Split
pub mod RoundTrip
use Prim.Native.Char.{code}
use Prim.Native.String.{◌++◌}
use mockgatehub.Prelude.{
  ℕ, String, Option, none, some, List, [], ◌∷◌, nat_beq, ◌==◌, not, if◌then◌else◌,
}
use mockgatehub.Prelude.Int.{ℤ, pos, ◌-ℤ◌, ltb_ℤ}
use mockgatehub.Prelude.Result.{Result, ok, err}
use mockgatehub.Handler.CardTokens.Split.{split_dots}

-- `issued_at` and `expires_at` are Unix times in seconds.
pub record CardTokenClaims : Type 0 where
  pub token_type : String
  pub card_id : String
  pub public_key : String
  pub issued_at : ℤ
  pub expires_at : ℤ

-- What is used of Go's cryptography, base64 and JSON. B are byte strings, K the public RSA keys and S
-- the private ones; `parse_pkix` answers none for a key that is not RSA. `service_key` is the pair
-- that is generated once, on first use.
pub record CardCrypto (B K S : Type 0) : Type 0 where
  pub header : Result String B  -- the JSON of {"alg": "HS256", "typ": "JWT"}
  pub marshal_claims : CardTokenClaims → Result String B
  pub unmarshal_claims : B → Result String CardTokenClaims
  pub hmac : String → String → B  -- HMAC-SHA256 of the second text under the first
  pub url_encode : B → String  -- base64.RawURLEncoding
  pub url_decode : String → Result String B
  pub std_encode : B → String  -- base64.StdEncoding
  pub std_decode : String → Result String B
  pub parse_pkix : B → Result String (Option K)
  pub marshal_pkix : S → Result String B
  pub rsa_encrypt : K → String → Result String B  -- PKCS#1 v1.5
  pub rsa_decrypt : S → B → Result String String
  pub service_key : Result String S
  pub sha256 : String → List ℕ

-- `e` with what was being done in front
abbrev pub wrapped : {A : Type 0} → String → Result String A → Result String A
wrapped doing (ok a) = ok a
wrapped doing (err e) = err (doing ++ e)

abbrev pub on_ok : {A B : Type 0} → Result String A → (A → Result String B) → Result String B
on_ok (ok a) f = f a
on_ok (err e) f = err e

-- ten minutes
abbrev pub card_data_token_max_ttl : ℤ
card_data_token_max_ttl = pos 600

-- The difference stays in 64 bits: neither time is negative here.
unfoldable pub check_times : ℤ → CardTokenClaims → Result String CardTokenClaims
check_times now claims =
    if not (ltb_ℤ (pos 0) claims.expires_at)
    then err "token missing exp claim"
    else if ltb_ℤ claims.expires_at now
    then err "token expired"
    else if ltb_ℤ card_data_token_max_ttl (claims.expires_at -ℤ now)
    then err "token exceeds maximum allowed validity"
    else ok claims

module _ {B K S : Type 0} (c : CardCrypto B K S) where
  unfoldable pub generate_card_token : String → CardTokenClaims → Result String String
  generate_card_token secret claims = on_ok c.header λ header.
      on_ok (c.marshal_claims claims) λ payload.
        let signing_input = c.url_encode header ++ ("." ++ c.url_encode payload) in
        ok (signing_input ++ ("." ++ c.url_encode (c.hmac secret signing_input)))

  unfoldable pub parse_parts : String → ℤ → String → String → String → Result String CardTokenClaims
  unfolding check_times
  parse_parts secret now header body signature =
      let expected = c.url_encode (c.hmac secret (header ++ ("." ++ body))) in
      if not (expected == signature)
      then err "invalid token signature"
      else (on_ok (wrapped "invalid token payload: " (c.url_decode body)) λ payload.
          on_ok (wrapped "invalid token claims: " (c.unmarshal_claims payload))
            λ claims. check_times now claims)

  -- `now` is the present time.
  abbrev parse_three : String → ℤ → List String → Result String CardTokenClaims
  parse_three secret now (header ∷ body ∷ signature ∷ []) =
      parse_parts secret now header body signature
  parse_three secret now _ = err "invalid token format"

  unfoldable pub parse_card_token : String → ℤ → String → Result String CardTokenClaims
  unfolding parse_parts split_dots
  parse_card_token secret now token = parse_three secret now (split_dots token)
