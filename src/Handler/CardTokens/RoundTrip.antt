-- ===== src/Handler/CardTokens/RoundTrip.antt =====
-- What becomes of a card token that was generated.
use Prim.Native.String.{◌++◌}
use text.Mathlib.TextLemmas.{append_assoc}
use mockgatehub.Prelude.{String, ◌≡◌, ◌∙◌, sym, false, refl, ap, subst, eq_refl, [], ◌∷◌, arith}
use mockgatehub.Prelude.Int.{ℤ}
use mockgatehub.Prelude.Result.{ok}
use mockgatehub.Handler.CardTokens.Split.{split_dots, has_dot, split_dots-plain, split_dots-dot}
use mockgatehub.Handler.CardTokens.{
  CardCrypto, CardTokenClaims, generate_card_token, parse_card_token, parse_parts, check_times,
}

-- the text of a token, from its parts
abbrev three : String → String → String → String
three a b d = (a ++ ("." ++ b)) ++ ("." ++ d)

split_three :
    (a b d : String)
    → has_dot a ≡ false
    → has_dot b ≡ false
    → has_dot d ≡ false
    → split_dots (three a b d) ≡ a ∷ b ∷ d ∷ []
split_three a b d ha hb hd =
    let moved : three a b d ≡ a ++ ("." ++ (b ++ ("." ++ d))) = simp append_assoc in
    ap split_dots moved
    ∙ split_dots-dot a (b ++ ("." ++ d)) ha
    ∙ ap (λ rest. a ∷ rest) (split_dots-dot b d hb ∙ ap (λ rest. b ∷ rest) (split_dots-plain d hd))

module _ {B K S : Type 0} where
  -- JSON and base64 carry the claims: they are encoded without an error, base64 has no dots, and what
  -- was encoded decodes.
  pub record IsCoded (c : CardCrypto B K S) (claims : CardTokenClaims) : Type 0 where
    pub header : B
    pub payload : B
    pub header_coded : c.header ≡ ok header
    pub payload_coded : c.marshal_claims claims ≡ ok payload
    pub url_decode-url_encode : c.url_decode (c.url_encode payload) ≡ ok payload
    pub unmarshal-marshal : c.unmarshal_claims payload ≡ ok claims
    pub header_plain : has_dot (c.url_encode header) ≡ false
    pub payload_plain : has_dot (c.url_encode payload) ≡ false
    pub signature_plain :
        (secret text : String) → has_dot (c.url_encode (c.hmac secret text)) ≡ false

  generated :
      (c : CardCrypto B K S) (secret token : String) (claims : CardTokenClaims)
      (coded : IsCoded c claims)
      → generate_card_token c secret claims ≡ ok token
      → let a = c.url_encode coded.header in
        let b = c.url_encode coded.payload in
        three a b (c.url_encode (c.hmac secret (a ++ ("." ++ b)))) ≡ token
  unfolding generate_card_token
  generated c secret token claims coded made =
      let a = c.url_encode coded.header in
      let b = c.url_encode coded.payload in
      let expected : generate_card_token c secret claims
          ≡ ok (three a b (c.url_encode (c.hmac secret (a ++ ("." ++ b))))) =
        rw (generate_card_token, coded.header_coded, coded.payload_coded) refl in
      let same = sym expected ∙ made in ground arith

  -- A token reads back as the claims that it was generated from, under the same secret and at any time,
  -- up to what the time refuses.
  pub parse-generate :
      (c : CardCrypto B K S) (secret token : String) (now : ℤ) (claims : CardTokenClaims)
      → IsCoded c claims
      → generate_card_token c secret claims ≡ ok token
      → parse_card_token c secret now token ≡ check_times now claims
  unfolding parse_card_token parse_parts
  parse-generate c secret token now claims coded made =
      let a = c.url_encode coded.header in
      let b = c.url_encode coded.payload in
      let d = c.url_encode (c.hmac secret (a ++ ("." ++ b))) in
      let split =
        split_three a b d coded.header_plain coded.payload_plain
          (coded.signature_plain secret (a ++ ("." ++ b))) in
      let read : parse_card_token c secret now (three a b d) ≡ check_times now claims =
        rw
          (parse_card_token, split, eq_refl d, coded.url_decode-url_encode, coded.unmarshal-marshal)
          refl in
      subst (λ t. parse_card_token c secret now t ≡ check_times now claims)
        (generated c secret token claims coded made) read
