-- ===== src/Auth/Middleware/Accepts.antt =====
-- Which requests the middleware serves.
use mockgatehub.Prelude.{
  String, ◌≡◌, ◌≢◌, inl, inr, refl, ap, sym, ◌∙◌, false, some, ◌==◌, ◌||◌, if◌then◌else◌, arith,
  eq_iff, eq_refl, Bool-cases, Option-cases, ==→eq, ne→==,
}
use mockgatehub.Prelude.GoMap.{GoMap, lookup, lookup-insert}
use mockgatehub.Auth.Signature.{
  Request, header, generate_signature, sign_request, build_outgoing_url,
}
use mockgatehub.Auth.Middleware.{served, public_endpoints, is_listed, middleware, reconstruct_url}

module _ (hmac : String → String → String) where
  abbrev pub IsSigned : GoMap String → Request → Type 0
  IsSigned valid_credentials r =
      (secret : String) × (body : String) × (lookup (header "x-gatehub-app-id" r) valid_credentials
        ≡ some secret)
      × (r.body ≡ some body)
      × (header "x-gatehub-app-id" r ≢ "")
      × (header "x-gatehub-timestamp" r ≢ "")
      × (header "x-gatehub-signature" r ≢ "")
      × (header "x-gatehub-signature" r
          ≡ generate_signature hmac (header "x-gatehub-timestamp" r) r.method (reconstruct_url r)
              body secret)

  -- A request whose path is not a public endpoint is served only if it names a registered application,
  -- has a timestamp and a body that can be read, and carries the signature of its timestamp, method,
  -- URL and body under that application's secret.
  pub served-IsSigned :
      (valid_credentials : GoMap String) (r : Request)
      → is_listed r.path public_endpoints ≡ false
      → middleware hmac valid_credentials r ≡ served
      → IsSigned valid_credentials r
  unfolding middleware
  served-IsSigned valid_credentials r private h =
      let app_id = header "x-gatehub-app-id" r in
      let timestamp = header "x-gatehub-timestamp" r in
      let signature = header "x-gatehub-signature" r in
      elim (Bool-cases (app_id == "" || timestamp == "" || signature == "")) [
        | inl missing ↦ absurd (ground (arith, private, missing))
        | inr given ↦ elim (Option-cases (lookup app_id valid_credentials)) [
          | inl unknown ↦ absurd (ground (arith, private, given, unknown))
          | inr (secret, known) ↦ elim (Option-cases r.body) [
            | inl unread ↦ absurd (ground (arith, private, given, known, unread))
            | inr (body, read) ↦
                let expected =
                  generate_signature hmac timestamp r.method (reconstruct_url r) body secret in
                elim (Bool-cases (signature == expected)) [
                  | inr wrong ↦ absurd (ground (arith, private, given, known, read, wrong))
                  | inl right ↦ (
                    secret,
                    body,
                    known,
                    read,
                    λ e. ground (arith, given, eq_iff app_id ""),
                    λ e. ground (arith, given, eq_iff timestamp ""),
                    λ e. ground (arith, given, eq_iff signature ""),
                    ==→eq _ _ right,
                  )
                ]
          ]
        ]
      ]

  IsSigned-served :
      (valid_credentials : GoMap String) (r : Request)
      → IsSigned valid_credentials r
      → middleware hmac valid_credentials r ≡ served
  unfolding middleware
  IsSigned-served valid_credentials r (secret, body, known, read, named, dated, signed, right) =
      let name_given = ne→== _ "" named in
      let date_given = ne→== _ "" dated in
      let signature_given = ne→== _ "" signed in
      elim (Bool-cases (is_listed r.path public_endpoints)) [
        | inl public ↦ rw (middleware, public) refl
        | inr private ↦ ground (
          arith,
          private,
          name_given,
          date_given,
          signature_given,
          known,
          read,
          right,
          eq_refl (header "x-gatehub-signature" r),
        )
      ]

  signed_header :
      (name timestamp secret body : String) (r : Request)
      → let signature =
          generate_signature hmac timestamp r.method (build_outgoing_url r) body secret in
        header name (sign_request hmac timestamp secret body r) ≡ (
          if "x-gatehub-app-id" == name
          then "mockgatehub"
          else if "x-gatehub-signature" == name
          then signature
          else if "x-gatehub-timestamp" == name
          then timestamp
          else header name r)
  unfolding sign_request
  signed_header name timestamp secret body r =
      let signature =
        generate_signature hmac timestamp r.method (build_outgoing_url r) body secret in
      simp lookup-insert (ground (arith, eq_iff "x-gatehub-app-id" name))

  signed_url :
      (timestamp secret body : String) (r : Request)
      → reconstruct_url (sign_request hmac timestamp secret body r) ≡ reconstruct_url r
  unfolding reconstruct_url sign_request
  signed_url timestamp secret body r = simp lookup-insert refl

  signed_rest :
      (timestamp secret body : String) (r : Request)
      → let r' = sign_request hmac timestamp secret body r in
        (r'.method ≡ r.method) × (r'.body ≡ r.body)
  unfolding sign_request
  signed_rest timestamp secret body r = (refl, refl)

  -- A request that `SignRequest` signed with the secret that the middleware has for mockgatehub is
  -- served, where the URL that was signed is the one that the middleware reconstructs, the body is the
  -- one that was signed, and neither the timestamp nor the signature is empty.
  pub signed_request_is_served :
      (valid_credentials : GoMap String) (timestamp secret body : String) (r : Request)
      → lookup "mockgatehub" valid_credentials ≡ some secret
      → r.body ≡ some body
      → timestamp ≢ ""
      → build_outgoing_url r ≡ reconstruct_url r
      → generate_signature hmac timestamp r.method (build_outgoing_url r) body secret ≢ ""
      → middleware hmac valid_credentials (sign_request hmac timestamp secret body r) ≡ served
  signed_request_is_served valid_credentials timestamp secret body r known read dated url signed =
      let app = signed_header "x-gatehub-app-id" timestamp secret body r in
      let time = signed_header "x-gatehub-timestamp" timestamp secret body r in
      let signature = signed_header "x-gatehub-signature" timestamp secret body r in
      let same_url = signed_url timestamp secret body r in
      let (same_method, same_body) = signed_rest timestamp secret body r in
      IsSigned-served valid_credentials (sign_request hmac timestamp secret body r) (
        secret,
        body,
        ap (λ (a : String). lookup a valid_credentials) app ∙ known,
        same_body ∙ read,
        λ e. ground (arith, app, e, eq_iff "mockgatehub" ""),
        λ e. dated (sym time ∙ e),
        λ e. signed (sym signature ∙ e),
        cc (signature, time, same_url, url, same_method),
      )
