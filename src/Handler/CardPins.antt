-- ===== src/Handler/CardPins.antt =====
-- The sensitive data of a card, internal/handler/cards.go from `GetCardToken` to `isPlausiblePIN`, with
-- the encryption of internal/handler/card_token.go. The generated key and the random digits of a
-- request are arguments.
pub mod Texts
pub mod Guarded
use Prim.Native.String.{◌++◌}
use mockgatehub.Prelude.{
  ℕ, String, Bool, true, false, Option, none, some, List, [], ◌∷◌, ◌+◌, ◌%◌, take, leb, ltb,
  nat_beq, ◌==◌, ◌&&◌, ◌||◌, not, if◌then◌else◌,
}
use mockgatehub.Prelude.Int.{ℤ, pos, ◌+ℤ◌}
use mockgatehub.Prelude.Result.{
  Result, ok, err, of_option, map_err, ◌>>=◌, ◌>>◌, raise_if, lift, gets, pure,
}
use mockgatehub.Storage.Cards.{get_card, get_card_pin, set_card_pin}
use mockgatehub.Handler.State.{Handler, Action, ApiError, bad_request, internal_err, call, call_or}
use mockgatehub.Handler.CardTokens.{
  CardTokenClaims, CardCrypto, generate_card_token, parse_card_token, on_ok, wrapped,
}
use mockgatehub.Handler.CardPins.Texts.{
  trim_space, trim_left, trim_right, is_plausible_pin, digits_of, strip_prefix,
}

abbrev pub card_token_type_card_data : String
card_token_type_card_data = "card-data"

abbrev pub card_token_type_pin : String
card_token_type_pin = "pin"

abbrev pub card_token_type_pin_change : String
card_token_type_pin_change = "pin-change"

abbrev card_data_path : String
card_data_path = "/cards/v1/token/card-data/data"

abbrev card_pin_path : String
card_pin_path = "/cards/v1/token/pin/data"

-- five minutes
abbrev pub card_data_token_ttl : ℤ
card_data_token_ttl = pos 300

-- the parts of `config.Config` that are read here
pub record TokenConfig : Type 0 where
  pub secret : String  -- CardDataTokenSecret
  pub public_base_url : String

-- `models.CardTokenResponse` with its only link, whose `rel` is "data"
pub record CardTokenResponse : Type 0 where
  pub token : String
  pub href : String
  pub method : String

abbrev pub unauthorized : ApiError
unauthorized = record { status = 401; msg = "invalid or expired token" }

abbrev pub could_not_decrypt : ApiError
could_not_decrypt =
    bad_request
      "could not decrypt cypher; it must be encrypted with this service's public key from GET /cards/v1/token/pin/public-key"

-- the endpoint that a type of token is for: none for a type that has no such endpoint
abbrev pub data_path : String → Option String
data_path token_type =
    if token_type == card_token_type_card_data
    then some card_data_path
    else if token_type == card_token_type_pin || token_type == card_token_type_pin_change
    then some card_pin_path
    else none

abbrev placeholder : String → String → CardTokenResponse
placeholder token_type card_id =
    let token = "mock-" ++ token_type ++ "-" ++ card_id in
    record {
      token = token;
      href = "/cards/v1/proxy/clientDevice/" ++ token_type ++ "?token=" ++ token;
      method = "GET";
    }

-- A token to read data names a key, one to change a PIN does not need it.
abbrev pub public_key_for : String → Option String → Result ApiError String
public_key_for token_type public_key =
    let given : String = elim public_key [ none ↦ "" | some key ↦ trim_space key ] in
    if token_type == card_token_type_pin_change
    then ok ""
    else if given == ""
    then err (
        bad_request (
          "publicKey is required for a " ++ token_type
          ++ " token: the response is encrypted with it"))
    else ok given

-- `random` are digits that were drawn for the request.
unfoldable pub generate_unmasked_pan : (String → List ℕ) → String → String → String
unfolding digits_of
generate_unmasked_pan sha256 random card_id =
    if card_id == "" then random else digits_of (take 16 (sha256 card_id))

unfoldable pub generate_card_pin : (String → List ℕ) → String → String → String
unfolding digits_of
generate_card_pin sha256 random card_id =
    if card_id == "" then random else digits_of (take 4 (sha256 ("pin:" ++ card_id)))

module _ {B K S : Type 0} (c : CardCrypto B K S) where
  unfoldable pub encrypt_with_base64_spki : String → String → Result String String
  unfolding trim_left trim_right
  encrypt_with_base64_spki public_key plaintext =
      on_ok (wrapped "public key is not valid base64: " (c.std_decode (trim_space public_key)))
        λ der. on_ok (wrapped "public key is not a valid SPKI key: " (c.parse_pkix der)) λ parsed.
          on_ok (of_option parsed "public key is not RSA") λ key.
            on_ok (wrapped "encryption failed: " (c.rsa_encrypt key plaintext))
              λ cipher_text. ok (c.std_encode cipher_text)

  unfoldable pub service_public_key_base64 : Result String String
  service_public_key_base64 =
      on_ok c.service_key λ key. on_ok (c.marshal_pkix key) λ der. ok (c.std_encode der)

  unfoldable pub decrypt_with_service_key : String → Result String String
  unfolding trim_left trim_right
  decrypt_with_service_key cipher = on_ok c.service_key λ key.
      on_ok (wrapped "cypher is not valid base64: " (c.std_decode (trim_space cipher)))
        λ raw. wrapped "decryption failed: " (c.rsa_decrypt key raw)

  -- `bearerCardToken` of the Authorization header: its errors are all answered alike
  unfoldable pub bearer_card_token :
      TokenConfig → ℤ → String → String → Result ApiError CardTokenClaims
  unfolding strip_prefix
  bearer_card_token config now want_type authz = elim (strip_prefix "Bearer " authz) [
    | none ↦ err unauthorized
    | some token ↦ elim (parse_card_token c config.secret now token) [
      | err e ↦ err unauthorized
      | ok claims ↦ if claims.token_type == want_type then ok claims else err unauthorized
    ]
  ]

  -- `payload` is the text that is encrypted, once it is encoded.
  unfoldable pub send_encrypted_card_payload :
      String → Result String String → Result ApiError String
  unfolding encrypt_with_base64_spki
  send_encrypted_card_payload public_key payload =
      if public_key == "" then err (bad_request "token carries no publicKey") else (elim payload [
        | err e ↦ err (internal_err "failed to encode card data")
        | ok plaintext ↦
            map_err (λ e. bad_request ("failed to encrypt with the supplied publicKey: " ++ e))
              (encrypt_with_base64_spki public_key plaintext)
      ])

  -- `body` is the card's ID and the public key of the request.
  unfoldable pub get_card_token :
      {F Raw : Type 0}
      → TokenConfig
      → ℤ
      → String
      → Option (String × Option String)
      → Action F Raw CardTokenResponse
  unfolding trim_left trim_right
  get_card_token config now type_given body = do
    let token_type = if type_given == "" then card_token_type_card_data else type_given
    req ← lift (of_option body (bad_request "invalid request body"))
    raise_if (req.0 == "") (bad_request "cardId is required")
    elim (data_path token_type) [
      | none ↦ pure (placeholder token_type req.0)
      | some path ↦ do
        public_key ← lift (public_key_for token_type req.1)
        token ← lift (
            map_err (λ _. internal_err "failed to generate token")
              (generate_card_token c config.secret (record {
                token_type = token_type;
                card_id = req.0;
                public_key = public_key;
                issued_at = now;
                expires_at = now +ℤ card_data_token_ttl;
              })))
        pure (record {
          token = token;
          href = config.public_base_url ++ path;
          method = if token_type == card_token_type_pin_change then "POST" else "GET";
        })
    ]

  -- `month_of` is the date as MM/YYYY, none where it does not parse.
  unfoldable pub card_data_expiry_date :
      {F Raw : Type 0} → (String → Option String) → String → Handler F Raw → String
  card_data_expiry_date month_of card_id h = elim ((call (get_card card_id) h).0) [
    | err _ ↦ "12/2030"
    | ok card ↦
        if card.expiry_date == ""
        then "12/2030"
        else elim (month_of card.expiry_date) [ none ↦ "12/2030" | some month ↦ month ]
  ]

  -- `encode` is the JSON of the PAN, the month of expiry and the CVC, which is drawn for the request.
  unfoldable pub get_card_data :
      {F Raw : Type 0}
      → (String → String → String → Result String String)
      → (String → Option String)
      → TokenConfig
      → ℤ
      → String
      → String
      → String
      → Action F Raw String
  unfolding bearer_card_token generate_unmasked_pan card_data_expiry_date
      send_encrypted_card_payload
  get_card_data encode month_of config now random_pan cvc authz = do
    claims ← lift (bearer_card_token config now card_token_type_card_data authz)
    expiry ← gets (card_data_expiry_date month_of claims.card_id)
    let pan = generate_unmasked_pan c.sha256 random_pan claims.card_id
    lift (send_encrypted_card_payload claims.public_key (encode pan expiry cvc))

  -- the PIN that was set, or the derived one
  abbrev pub pin_or : String → Result String String → String
  pin_or derived (err e) = derived
  pin_or derived (ok pin) = if pin == "" then derived else pin

  unfoldable pub handle_get_card_pin :
      {F Raw : Type 0} → TokenConfig → ℤ → String → String → Action F Raw String
  unfolding bearer_card_token generate_card_pin send_encrypted_card_payload
  handle_get_card_pin config now random_pin authz = do
    claims ← lift (bearer_card_token config now card_token_type_pin authz)
    let derived = generate_card_pin c.sha256 random_pin claims.card_id
    pin ← (λ h. (ok (pin_or derived (call (get_card_pin claims.card_id) h).0), h))
    lift (send_encrypted_card_payload claims.public_key (ok pin))

  -- `body` is the cypher of the request.
  unfoldable pub handle_set_card_pin :
      {F Raw : Type 0} → TokenConfig → ℤ → String → Option String → Action F Raw (Unit {0})
  unfolding bearer_card_token decrypt_with_service_key is_plausible_pin trim_left trim_right
  handle_set_card_pin config now authz body = do
    claims ← lift (bearer_card_token config now card_token_type_pin_change authz)
    cypher ← lift (of_option body (bad_request "invalid request body"))
    raise_if (cypher == "") (bad_request "cypher is required")
    plaintext ← lift (map_err (λ _. could_not_decrypt) (decrypt_with_service_key cypher))
    let pin = trim_space plaintext
    raise_if (not (is_plausible_pin pin)) (bad_request "decrypted pin must be 4 to 12 digits")
    call_or (λ _. internal_err "failed to store pin") (set_card_pin claims.card_id pin)

  unfoldable pub get_card_pin_public_key : {F Raw : Type 0} → Action F Raw String
  unfolding service_public_key_base64
  get_card_pin_public_key =
      lift (map_err (λ _. internal_err "public key unavailable") service_public_key_base64)
