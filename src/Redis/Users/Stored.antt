-- ===== src/Redis/Users/Stored.antt =====
-- What the user methods of redis.go promise.
use Prim.Native.Char.{code}
use Prim.Native.String.{◌++◌}
use text.Mathlib.TextLemmas.{cons-append, head-eq_of_cons-eq}
use mockgatehub.Prelude.{
  String, ◌≡◌, ◌⊎◌, inl, inr, refl, ap, ◌∙◌, sym, subst, true, false, some, ◌==◌, arith,
  if◌then◌else◌, eq_refl, nat_beq, Bool-cases, ne→==,
}
use mockgatehub.Prelude.Result.{Result, ok, err, Result-cases, ◌>>◌, pure, on_result}
use mockgatehub.Models.{User, Time}
use mockgatehub.Redis.Client.{RedisClient, Json, Call, save, set_text, get_text}
use mockgatehub.Redis.Laws.{Reads, get_text_lem, load_lem, save_cases}
use mockgatehub.Redis.Users.{create_user, get_user, get_user_by_email, user_key, email_key}

-- no key of a user is the key of an email
keys_apart : (id email : String) → (email_key email == user_key id) ≡ false
keys_apart id email = ne→== _ _ (λ e.
    let heads : "e" ≡ "u" =
      head-eq_of_cons-eq (sym (cons-append "e" "mail:" email) ∙ e ∙ cons-append "u" "ser:" id) in
    ground (arith, ap code heads))

abbrev pub created : String → Time → User → User
created fresh now u = record u {
  id = if u.id == "" then fresh else u.id;
  created_at = if nat_beq u.created_at 0 then now else u.created_at;
}

ok_inj : {E A : Type 0} {a b : A} → ◌≡◌ {A = Result E A} (ok a) (ok b) → a ≡ b
ok_inj e = cc

module _ {R : Type 0} ⦃client : RedisClient R⦄ ⦃json : Json User⦄ where
  -- after the object is written
  abbrev finish : String → String → User → Call R User
  finish key id kept = do set_text "failed to store email mapping: " key id; pure kept

  -- both writes succeed, or the creation fails
  finish_cases :
      (key id : String) (kept : User) (r : R)
      → ((e : String) × ((finish key id kept r).0 ≡ err e))
        ⊎ (((finish key id kept r).0 ≡ ok kept)
            × ((j : String)
                → client.holds j (finish key id kept r).1
                  ≡ (if key == j then some id else client.holds j r)))
  finish_cases key id kept r = elim (Result-cases (client.set key id 0 r).0) [
    | inl (e, bad) ↦ inl ("failed to store email mapping: " ++ e, rw bad refl)
    | inr (_, fine) ↦ inr (rw fine refl, λ j. rw fine (client.holds-set key j id 0 r fine))
  ]

  -- A creation that succeeds has written the object and the email's entry.
  create_user_writes :
      (fresh : String) (now : Time) (u u' : User) (r : R)
      → (create_user fresh now u r).0 ≡ ok u'
      → (u' ≡ created fresh now u)
        × ((text : String) × (json.unmarshal text ≡ ok u')
            × (client.holds (user_key u'.id) (create_user fresh now u r).1 ≡ some text)
            × (client.holds (email_key u.email) (create_user fresh now u r).1 ≡ some u'.id))
  unfolding create_user
  create_user_writes fresh now u u' r h =
      let id = if u.id == "" then fresh else u.id in
      let kept = created fresh now u in
      let refused : (e : String) → (create_user fresh now u r).0 ≡ err e → ⊥ =
        λ e bad. ground arith in
      elim (Bool-cases (u.email == "")) [
        | inl empty ↦ absurd (refused "email is required" (rw (create_user, empty) refl))
        | inr given ↦ elim (Result-cases (client.exists (user_key id) r)) [
          | inl (e, bad) ↦ absurd (
              refused ("failed to check user existence: " ++ e) (rw (create_user, given, bad) refl))
          | inr (true, there) ↦
              absurd (refused "user already exists" (rw (create_user, given, there) refl))
          | inr (false, free) ↦
              let up_to : create_user fresh now u r
                  ≡ (save "user" "store" (user_key id) kept >> finish (email_key u.email) id kept)
                      r =
                rw (create_user, given, free) refl in
              let r1 : R = (save "user" "store" (user_key id) kept r).1 in
              elim (save_cases "user" "store" (user_key id) kept r) [
                | inl (e, bad) ↦ absurd (
                    refused e (
                      ap (λ x. x.0) up_to
                      ∙ ap (λ x. (on_result x (λ _. finish (email_key u.email) id kept) r1).0) bad))
                | inr (saved, (text, decoded, holds)) ↦
                    let reached : create_user fresh now u r
                        ≡ finish (email_key u.email) id kept r1 =
                      up_to
                      ∙ ap (λ x. on_result x (λ _. finish (email_key u.email) id kept) r1) saved in
                    elim (finish_cases (email_key u.email) id kept r1) [
                      | inl (e, bad) ↦ absurd (refused e (ap (λ x. x.0) reached ∙ bad))
                      | inr (done, entries) ↦
                          let same : kept ≡ u' = ok_inj (sym (ap (λ x. x.0) reached ∙ done) ∙ h) in
                          let left = ap (λ x. x.1) reached in
                          subst
                            (λ (v : User).
                              (v ≡ created fresh now u)
                              × ((text' : String) × (json.unmarshal text' ≡ ok v)
                                  × (client.holds (user_key v.id) (create_user fresh now u r).1
                                      ≡ some text')
                                  × (client.holds (email_key u.email) (create_user fresh now u r).1
                                      ≡ some v.id)))
                            same
                            (
                              refl,
                              (
                                text,
                                decoded,
                                ap (client.holds (user_key id)) left
                                    ∙ entries (user_key id)
                                    ∙ rw (keys_apart id u.email)
                                        (holds (user_key id) ∙ rw (eq_refl (user_key id)) refl),
                                ap (client.holds (email_key u.email)) left
                                    ∙ entries (email_key u.email)
                                    ∙ rw (eq_refl (email_key u.email)) refl,
                              ),
                            )
                    ]
              ]
        ]
      ]

  -- A creation that succeeds returns the user with its ID and time, and from then on the user is read
  -- back, field by field, under its ID and under its email, or the server cannot be reached. The
  -- email may have belonged to another user: it leads to the new one then.
  pub create_user_stored :
      (fresh : String) (now : Time) (u u' : User) (r : R)
      → (create_user fresh now u r).0 ≡ ok u'
      → let r' = (create_user fresh now u r).1 in
        (u' ≡ created fresh now u)
        × Reads "failed to get user: " (get_user u'.id r').0 u'
        × (Reads "failed to get user: " (get_user_by_email u.email r').0 u'
            ⊎ ((e : String) × ((get_user_by_email u.email r').0
                  ≡ err ("failed to get user by email: " ++ e))))
  unfolding get_user get_user_by_email
  create_user_stored fresh now u u' r h =
      let r' : R = (create_user fresh now u r).1 in
      let (made, (text, decoded, by_id, by_email)) = create_user_writes fresh now u u' r h in
      let by_key : Reads "failed to get user: " (get_user u'.id r').0 u' =
        (load_lem "user" (user_key u'.id) text u' r' by_id decoded).0 in
      let (indexed, kept) =
        get_text_lem "user not found" "failed to get user by email: " (email_key u.email) u'.id r'
          by_email in
      let asked =
        get_text "user not found" "failed to get user by email: " (email_key u.email) r' in
      let steps : get_user_by_email u.email r' ≡ on_result (asked.0) get_user r' =
        ap (λ s. on_result (asked.0) get_user s) kept in
      (
        made,
        by_key,
        elim indexed [
          | inr (e, bad) ↦ inr (e, ap (λ x. x.0) steps ∙ ap (λ x. (on_result x get_user r').0) bad)
          | inl found ↦
              let same = ap (λ x. x.0) steps ∙ ap (λ x. (on_result x get_user r').0) found in
              inl
                (elim by_key [ inl read ↦ inl (same ∙ read) | inr (e, bad) ↦ inr (e, same ∙ bad) ])
        ],
      )
