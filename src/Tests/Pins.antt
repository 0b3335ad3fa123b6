-- ===== src/Tests/Pins.antt =====
-- PINs and their tokens, with texts for bytes and for keys.
use mockgatehub.Prelude.Int.{◌-ℤ◌}
use Prim.Native.String.{◌++◌}
use mockgatehub.Prelude.{String, ◌≡◌, refl, false, some, [], eq_iff, arith}
use mockgatehub.Prelude.Int.{pos}
use mockgatehub.Prelude.Result.{ok, err}
use mockgatehub.Prelude.GoMap.{lookup}
use mockgatehub.Storage.Cards.{set_card_pin}
use mockgatehub.Handler.CardTokens.{
  CardTokenClaims, CardCrypto, generate_card_token, parse_card_token, check_times,
}
use mockgatehub.Handler.CardTokens.Split.{has_dot}
use mockgatehub.Handler.CardTokens.RoundTrip.{IsCoded, parse-generate}
use mockgatehub.Handler.CardPins.{
  TokenConfig, handle_set_card_pin, handle_get_card_pin, unauthorized, bearer_card_token,
  decrypt_with_service_key, send_encrypted_card_payload,
}
use mockgatehub.Handler.CardPins.Guarded.{other_token_changes_nothing, set_pin_is_read}
use mockgatehub.Tests.Data.{handler}

abbrev claims : String → CardTokenClaims
claims token_type = record {
  token_type = token_type;
  card_id = "card-1";
  public_key = "key";
  issued_at = pos 0;
  expires_at = pos 300;
}

-- The claims are coded by the type of the token alone, which decides all of these.
abbrev crypto : CardCrypto String String String
crypto = record {
  header = ok "HS256";
  marshal_claims = λ c. ok c.token_type;
  unmarshal_claims = λ text. ok (claims text);
  hmac = λ secret text. "hmac";
  url_encode = λ text. text;
  url_decode = λ text. ok text;
  std_encode = λ text. text;
  std_decode = λ text. ok text;
  parse_pkix = λ der. ok (some der);
  marshal_pkix = λ key. ok key;
  rsa_encrypt = λ key text. ok (key ++ ":" ++ text);
  rsa_decrypt = λ key text. ok (" " ++ text);
  service_key = ok "service";
  sha256 = λ text. [];
}

abbrev config : TokenConfig
config = record { secret = "secret"; public_base_url = "http://localhost:8080" }

pin-IsCoded : IsCoded crypto (claims "pin")
unfolding has_dot
pin-IsCoded = record {
  header = "HS256";
  payload = "pin";
  header_coded = refl;
  payload_coded = refl;
  url_decode-url_encode = refl;
  unmarshal-marshal = refl;
  header_plain = refl;
  payload_plain = refl;
  signature_plain = λ secret text. refl;
}

parse-generate_example :
    parse_card_token crypto "secret" (pos 301) "HS256.pin.hmac" ≡ err "token expired"
unfolding generate_card_token check_times
parse-generate_example =
    parse-generate crypto "secret" "HS256.pin.hmac" (pos 301) (claims "pin") pin-IsCoded refl

other_token_changes_nothing_example :
    handle_set_card_pin crypto config
      (pos 100)
      "Bearer HS256.pin.hmac"
      (some "4711")
      (handler false)
    ≡ (err unauthorized, handler false)
unfolding generate_card_token
other_token_changes_nothing_example =
    other_token_changes_nothing crypto config (pos 100) (claims "pin") "HS256.pin.hmac"
      (some "4711") (handler false) pin-IsCoded refl
      (λ e. ground (arith, eq_iff "pin" "pin-change"))

set_pin_is_read_example :
    (handle_get_card_pin crypto config
      (pos 200)
      "0000"
      "Bearer HS256.pin.hmac"
      (handle_set_card_pin crypto config
        (pos 100)
        "Bearer HS256.pin-change.hmac"
        (some "4711")
        (handler false)).1).0
    ≡ ok "key:4711"
unfolding bearer_card_token parse_card_token ◌-ℤ◌ decrypt_with_service_key handle_set_card_pin
    set_card_pin lookup send_encrypted_card_payload
set_pin_is_read_example =
    (set_pin_is_read crypto config (pos 100) (pos 200) "Bearer HS256.pin-change.hmac"
      "Bearer HS256.pin.hmac" "4711" " 4711" "0000" (claims "pin-change") (claims "pin")
      (handler false) refl refl refl refl refl).1
