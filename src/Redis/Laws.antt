-- ===== src/Redis/Laws.antt =====
-- What the steps of redis.go do, whatever the server answers.
use Prim.Native.String.{◌++◌}
use mockgatehub.Prelude.{
  String, ◌≡◌, ◌⊎◌, inl, inr, refl, ap, ◌∙◌, none, some, ◌==◌, arith, if◌then◌else◌, eq_refl,
}
use mockgatehub.Prelude.Result.{Result, ok, err, Result-cases}
use mockgatehub.Redis.Client.{RedisClient, Json, get_text, load, save}

-- the text of a wrapped error
abbrev pub wrapped : String → String → String
wrapped failed e = failed ++ e

-- The answer is `a`, or the server could not be reached.
abbrev pub Reads : {A : Type 0} → String → Result String A → A → Type 0
Reads failed answer a = (answer ≡ ok a) ⊎ ((e : String) × (answer ≡ err (failed ++ e)))

module _ {R : Type 0} ⦃client : RedisClient R⦄ where
  -- what a key holds is what a read finds
  pub get-Holds :
      (key : String) (r : R)
      → ((e : String) × (client.get key r ≡ err e)) ⊎ (client.get key r ≡ ok (client.holds key r))
  get-Holds key r = elim (Result-cases (client.get key r)) [
    | inl bad ↦ inl bad
    | inr (v, read) ↦ inr (read ∙ ap ok (client.get-holds key r v read))
  ]

  pub get_text_lem :
      (missing failed key text : String) (r : R)
      → client.holds key r ≡ some text
      → Reads failed (get_text missing failed key r).0 text
        × ((get_text missing failed key r).1 ≡ r)
  get_text_lem missing failed key text r held = elim (get-Holds key r) [
    | inl (e, bad) ↦ (inr (e, rw bad refl), rw bad refl)
    | inr read ↦ (inl (rw (read, held) refl), rw (read, held) refl)
  ]

module _ {R A : Type 0} ⦃client : RedisClient R⦄ ⦃json : Json A⦄ where
  -- a key that holds the text of an object reads as the object
  pub load_lem :
      (what key text : String) (a : A) (r : R)
      → client.holds key r ≡ some text
      → json.unmarshal text ≡ ok a
      → Reads ("failed to get " ++ what ++ ": ") (load what key r).0 a
        × ((load {A = A} what key r).1 ≡ r)
  load_lem what key text a r held decoded = elim (get-Holds key r) [
    | inl (e, bad) ↦ (inr (e, rw bad refl), rw bad refl)
    | inr read ↦ (inl (rw (read, held, decoded) refl), rw (read, held) refl)
  ]

  pub load_missing :
      (what key : String) (r : R)
      → client.holds key r ≡ none
      → (e : String) × (load {A = A} what key r ≡ (err e, r))
  load_missing what key r gone = elim (get-Holds key r) [
    | inl (e, bad) ↦ (("failed to get " ++ what ++ ": ") ++ e, rw bad refl)
    | inr read ↦ (what ++ " not found", rw (read, gone) refl)
  ]

  -- A write fails, or its key holds the text of the object from then on.
  pub save_cases :
      (what verb key : String) (a : A) (r : R)
      → ((e : String) × ((save what verb key a r).0 ≡ err e))
        ⊎ (((save what verb key a r).0 ≡ ok tt)
            × ((text : String) × (json.unmarshal text ≡ ok a)
                × ((j : String)
                    → client.holds j (save what verb key a r).1
                      ≡ (if key == j then some text else client.holds j r))))
  save_cases what verb key a r = elim (Result-cases (json.marshal a)) [
    | inl (e, bad) ↦ inl (("failed to marshal " ++ what ++ ": ") ++ e, rw bad refl)
    | inr (text, good) ↦ elim (Result-cases (client.set key text 0 r).0) [
      | inl (e, bad) ↦ inl (("failed to " ++ verb ++ " " ++ what ++ ": ") ++ e, rw (good, bad) refl)
      | inr (_, fine) ↦ inr (
        rw (good, fine) refl,
        (
          text,
          json.unmarshal-marshal a text good,
          λ j. rw good (client.holds-set key j text 0 r fine),
        ),
      )
    ]
  ]

  -- an object that was written is read again
  pub load-save :
      (what verb key : String) (a : A) (r : R)
      → (save what verb key a r).0 ≡ ok tt
      → Reads ("failed to get " ++ what ++ ": ") (load what key (save what verb key a r).1).0 a
  load-save what verb key a r fine = elim (save_cases what verb key a r) [
    | inl (e, bad) ↦ absurd (ground arith)
    | inr (_, (text, decoded, holds)) ↦
        (load_lem what key text a _ (holds key ∙ ground (arith, eq_refl key)) decoded).0
  ]
