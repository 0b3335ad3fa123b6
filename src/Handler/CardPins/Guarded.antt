-- ===== src/Handler/CardPins/Guarded.antt =====
-- Which tokens change a PIN, and what is read after a change.
use Prim.Native.Char.{code}
use Prim.Native.String.{◌++◌}
use text.Mathlib.TextLemmas.{nil-append, cons-append}
use mockgatehub.Prelude.{
  ℕ, String, ◌≡◌, ◌≢◌, ◌⊎◌, inl, inr, refl, sym, subst, true, false, some, Option, arith, ◌==◌,
  ==→eq, ne→==, Bool-cases, nat_beq, Bool, not, if◌then◌else◌,
}
use mockgatehub.Prelude.Int.{ℤ, pos, ◌-ℤ◌, ltb_ℤ}
use mockgatehub.Prelude.GoMap.{lookup, insert, lookup-insert_self, contains}
use mockgatehub.Prelude.Result.{Result, ok, err}
use mockgatehub.Storage.Cards.{set_card_pin, get_card_pin}
use mockgatehub.Storage.{MemoryStorage}
use mockgatehub.Handler.State.{Handler, ApiError, bad_request, internal_err}
use mockgatehub.Handler.CardTokens.{
  CardTokenClaims, CardCrypto, generate_card_token, check_times, card_data_token_max_ttl,
}
use mockgatehub.Handler.CardTokens.RoundTrip.{IsCoded, parse-generate}
use mockgatehub.Handler.CardPins.Texts.{strip_prefix, is_plausible_pin, trim_space}
use mockgatehub.Handler.CardPins.{
  TokenConfig, bearer_card_token, handle_set_card_pin, handle_get_card_pin, unauthorized,
  decrypt_with_service_key, send_encrypted_card_payload, card_token_type_pin,
  card_token_type_pin_change,
}

nat_beq_refl : (n : ℕ) → nat_beq n n ≡ true
nat_beq_refl n = ground arith

strip_prefix-append : (p s : String) → strip_prefix p (p ++ s) ≡ some s
unfolding strip_prefix
strip_prefix-append String.[] s = rw (nil-append s) refl
strip_prefix-append (String.◌∷◌ c p) s =
    rw (cons-append c p s, nat_beq_refl (code c), strip_prefix-append p s) refl

-- what three refusals in a row come to
guarded-cases :
    {A : Type 0} (p q r : Bool) (a b d : String) (x : A)
    → let answer : Result String A =
        if p then err a else if q then err b else if r then err d else ok x in
      ((e : String) × (answer ≡ err e)) ⊎ (answer ≡ ok x)
guarded-cases true q r a b d x = inl (a, refl)
guarded-cases false true r a b d x = inl (b, refl)
guarded-cases false false true a b d x = inl (d, refl)
guarded-cases false false false a b d x = inr refl

-- A check of times passes the claims themselves, if any.
check_times-cases :
    (now : ℤ) (claims : CardTokenClaims)
    → ((e : String) × (check_times now claims ≡ err e)) ⊎ (check_times now claims ≡ ok claims)
unfolding check_times
check_times-cases now claims =
    guarded-cases (not (ltb_ℤ (pos 0) claims.expires_at)) (ltb_ℤ claims.expires_at now)
      (ltb_ℤ card_data_token_max_ttl (claims.expires_at -ℤ now)) "token missing exp claim"
      "token expired" "token exceeds maximum allowed validity" claims

plausible-given : (pin : String) → is_plausible_pin pin ≡ true → (pin == "") ≡ false
unfolding is_plausible_pin
plausible-given pin plausible = elim (Bool-cases (pin == "")) [
  | inr given ↦ given
  | inl empty ↦
      absurd (empty_refused (subst (λ p. is_plausible_pin p ≡ true) (==→eq pin "" empty) plausible))
]
  where
    empty_refused : is_plausible_pin "" ≡ true → ⊥
    empty_refused e = ground arith

module _ {B K S F Raw : Type 0} (c : CardCrypto B K S) where
  -- A token that was generated for anything but a change of PIN changes none: the request is refused
  -- and leaves everything as it was, at any time and whatever its body is.
  pub other_token_changes_nothing :
      (config : TokenConfig) (now : ℤ) (claims : CardTokenClaims) (token : String)
      (body : Option String) (h : Handler F Raw)
      → IsCoded c claims
      → generate_card_token c config.secret claims ≡ ok token
      → claims.token_type ≢ card_token_type_pin_change
      → handle_set_card_pin c config now ("Bearer " ++ token) body h ≡ (err unauthorized, h)
  unfolding handle_set_card_pin bearer_card_token
  other_token_changes_nothing config now claims token body h coded made other =
      let stripped = strip_prefix-append "Bearer " token in
      let read = parse-generate c config.secret token now claims coded made in
      elim (check_times-cases now claims) [
        | inl (e, late) ↦ rw (handle_set_card_pin, bearer_card_token, stripped, read, late) refl
        | inr fine ↦
            rw
              (
                handle_set_card_pin,
                bearer_card_token,
                stripped,
                read,
                fine,
                ne→== claims.token_type card_token_type_pin_change other,
              )
              refl
      ]

  set_card_pin_parts :
      (card_id pin : String) (s : MemoryStorage F Raw)
      → ((e : String) × ((set_card_pin card_id pin s).0 ≡ err e))
        ⊎ (set_card_pin card_id pin s
            ≡ (ok tt, record s { card_pins = insert card_id pin s.card_pins }))
  unfolding set_card_pin
  set_card_pin_parts card_id pin s = elim (Bool-cases (card_id == "")) [
    | inl empty ↦ inl ("cardID is required", rw (set_card_pin, empty) refl)
    | inr given ↦ elim (Bool-cases (contains card_id s.cards)) [
      | inr gone ↦ inl ("card not found", rw (set_card_pin, given, gone) refl)
      | inl there ↦ inr (rw (set_card_pin, given, there) refl)
    ]
  ]

  set_pin_written :
      (config : TokenConfig) (now : ℤ) (authz cypher plaintext : String) (claims : CardTokenClaims)
      (h : Handler F Raw)
      → bearer_card_token c config now card_token_type_pin_change authz ≡ ok claims
      → decrypt_with_service_key c cypher ≡ ok plaintext
      → (handle_set_card_pin c config now authz (some cypher) h).0 ≡ ok tt
      → (is_plausible_pin (trim_space plaintext) ≡ true)
        × (lookup claims.card_id
              (handle_set_card_pin c config now authz (some cypher) h).1.store.card_pins
            ≡ some (trim_space plaintext))
  unfolding handle_set_card_pin
  set_pin_written config now authz cypher plaintext claims h accepted opened fine =
      let answer = handle_set_card_pin c config now authz (some cypher) h in
      let refused : (e : ApiError) → answer.0 ≡ err e → ⊥ = λ e bad. ground arith in
      elim (Bool-cases (cypher == "")) [
        | inl empty ↦ absurd (
            refused (bad_request "cypher is required")
              (rw (handle_set_card_pin, accepted, empty) refl))
        | inr given ↦ elim (Bool-cases (is_plausible_pin (trim_space plaintext))) [
          | inr bad ↦ absurd (
              refused (bad_request "decrypted pin must be 4 to 12 digits")
                (rw (handle_set_card_pin, accepted, given, opened, bad) refl))
          | inl plausible ↦
              elim (set_card_pin_parts claims.card_id (trim_space plaintext) h.store) [
                | inl (e, bad) ↦ absurd (
                    refused (internal_err "failed to store pin")
                      (rw (handle_set_card_pin, accepted, given, opened, plausible, bad) refl))
                | inr done ↦ (
                  plausible,
                  rw (handle_set_card_pin, accepted, given, opened, plausible, done)
                      (lookup-insert_self claims.card_id (trim_space plaintext) h.store.card_pins),
                )
              ]
        ]
      ]

  -- After a change of PIN that succeeded, with a token that was accepted for a change and a cypher that
  -- opened, the text of the cypher without the space around it is a PIN of 4 to 12 digits. A request for
  -- the PIN of that card with a token that is accepted for reading, at any time, is answered with that
  -- PIN, encrypted with the key of its token.
  pub set_pin_is_read :
      (config : TokenConfig) (now later : ℤ) (authz authz' cypher plaintext random : String)
      (claims reader : CardTokenClaims) (h : Handler F Raw)
      → bearer_card_token c config now card_token_type_pin_change authz ≡ ok claims
      → decrypt_with_service_key c cypher ≡ ok plaintext
      → (handle_set_card_pin c config now authz (some cypher) h).0 ≡ ok tt
      → bearer_card_token c config later card_token_type_pin authz' ≡ ok reader
      → reader.card_id ≡ claims.card_id
      → let h' = (handle_set_card_pin c config now authz (some cypher) h).1 in
        (is_plausible_pin (trim_space plaintext) ≡ true)
        × ((handle_get_card_pin c config later random authz' h').0
            ≡ send_encrypted_card_payload c reader.public_key (ok (trim_space plaintext)))
  unfolding handle_get_card_pin get_card_pin
  set_pin_is_read config now later authz authz' cypher plaintext random claims reader h accepted
        opened fine readable same =
      let (plausible, written) =
        set_pin_written config now authz cypher plaintext claims h accepted opened fine in
      let h' = (handle_set_card_pin c config now authz (some cypher) h).1 in
      let found : lookup reader.card_id h'.store.card_pins ≡ some (trim_space plaintext) =
        subst (λ id. lookup id h'.store.card_pins ≡ some (trim_space plaintext)) (sym same)
          written in
      (
        plausible,
        rw
            (
              handle_get_card_pin,
              readable,
              get_card_pin,
              found,
              plausible-given (trim_space plaintext) plausible,
            )
            refl,
      )
