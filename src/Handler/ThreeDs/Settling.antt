-- ===== src/Handler/ThreeDs/Settling.antt =====
-- What becomes of a 3DS challenge.
use mockgatehub.Prelude.{
  String, ◌≡◌, ◌≢◌, inl, inr, refl, ◌∙◌, sym, subst, Bool, true, false, some, List, [], ◌∷◌, arith,
  All, map, eq_iff, Bool-cases, if◌then◌else◌,
}
use mockgatehub.Prelude.Result.{ok}
use mockgatehub.Prelude.GoMap.{
  GoMap, lookup, insert, values, lookup-insert_self, IsDistinct, All-lookup, All-insert,
  All-insert_distinct,
}
use mockgatehub.Models.{ThreeDsChallenge, Time}
use mockgatehub.Storage.{MemoryStorage}
use mockgatehub.Storage.Cards.{select}
use mockgatehub.Storage.ThreeDs.{
  get_three_ds_challenge, get_pending_three_ds_challenges, update_three_ds_challenge,
  is_pending_for,
}
use mockgatehub.Handler.State.{Handler}
use mockgatehub.Handler.ThreeDs.{
  confirm_three_ds, get_pending_confirmations, PendingThreeDsConfirmation, pending_confirmation,
}

-- Every challenge is kept under its own ID.
abbrev pub IsKeyed : GoMap ThreeDsChallenge → Type 0
IsKeyed = All (λ entry. entry.1.transaction_id ≡ entry.0)

-- no pending challenge of a list has the ID
abbrev pub Avoids : String → List PendingThreeDsConfirmation → Type 0
Avoids id = All (λ p. p.transaction_id ≢ id)

-- What is listed of a map in which the challenge under the ID is settled.
listed-Avoids :
    (id user_id : String) (now : Time) (m : GoMap ThreeDsChallenge)
    → IsKeyed m
    → All (λ entry. (entry.0 ≡ id) → entry.1.status ≢ "pending") m
    → Avoids id (map (pending_confirmation now) (select (is_pending_for user_id now) (values m)))
unfolding select values is_pending_for
listed-Avoids id user_id now [] keyed settled = tt
listed-Avoids id user_id now ((k, c) ∷ m) keyed settled =
    let rest = listed-Avoids id user_id now m keyed.1 settled.1 in
    elim (Bool-cases (is_pending_for user_id now c)) [
      | inr out ↦ rw out rest
      | inl listed ↦
          let pending : c.status ≡ "pending" = ground (arith, eq_iff c.status "pending") in
          rw listed (λ e. settled.0 (sym keyed.0 ∙ e) pending, rest)
    ]

-- the status that a confirmation gives
abbrev pub settled_by : Bool → ThreeDsChallenge → ThreeDsChallenge
settled_by confirmed c = record c { status = if confirmed then "approved" else "declined" }

settled_by_not_pending :
    (confirmed : Bool) (c : ThreeDsChallenge) → (settled_by confirmed c).status ≢ "pending"
settled_by_not_pending true c = λ e. ground (arith, eq_iff "approved" "pending")
settled_by_not_pending false c = λ e. ground (arith, eq_iff "declined" "pending")

module _ {F Raw : Type 0} where
  abbrev pub with_challenge : ThreeDsChallenge → MemoryStorage F Raw → MemoryStorage F Raw
  with_challenge c s = record s {
    three_ds_challenges = insert c.transaction_id c s.three_ds_challenges;
  }

  update_existing :
      (c old : ThreeDsChallenge) (s : MemoryStorage F Raw)
      → lookup c.transaction_id s.three_ds_challenges ≡ some old
      → update_three_ds_challenge c s ≡ (ok tt, with_challenge c s)
  unfolding update_three_ds_challenge
  update_existing c old s found = rw (update_three_ds_challenge, found) refl

  confirm_existing :
      (tx_id : String) (confirmed : Bool) (c : ThreeDsChallenge) (h : Handler F Raw)
      → lookup tx_id h.store.three_ds_challenges ≡ some c
      → c.transaction_id ≡ tx_id
      → confirm_three_ds tx_id (some confirmed) h
        ≡ (ok confirmed, record h { store = with_challenge (settled_by confirmed c) h.store })
  unfolding confirm_three_ds get_three_ds_challenge
  confirm_existing tx_id confirmed c h found own =
      let written =
        update_existing (settled_by confirmed c) c h.store
          (subst (λ id. lookup id h.store.three_ds_challenges ≡ some c) (sym own) found) in
      rw (confirm_three_ds, get_three_ds_challenge, found) (rw written refl)

  -- A confirmation or a refusal of a challenge that is stored succeeds, whatever has become of the
  -- challenge before, approved, declined or past its time. The challenge has the new status, and from
  -- then on it is pending for no user at any time. The map of challenges has each ID once, as the key
  -- of the challenge that has it.
  pub confirm_settles :
      (tx_id : String) (confirmed : Bool) (c : ThreeDsChallenge) (h : Handler F Raw)
      → IsKeyed h.store.three_ds_challenges
      → IsDistinct h.store.three_ds_challenges
      → lookup tx_id h.store.three_ds_challenges ≡ some c
      → let (answer, h') = confirm_three_ds tx_id (some confirmed) h in
        (answer ≡ ok confirmed)
        × ((get_three_ds_challenge tx_id h'.store).0 ≡ ok (settled_by confirmed c))
        × ((user_id : String) (now : Time)
            → (listed : List PendingThreeDsConfirmation) × ((get_pending_confirmations now user_id
                  h').0
                ≡ ok listed)
              × Avoids tx_id listed)
  unfolding get_three_ds_challenge get_pending_confirmations get_pending_three_ds_challenges
  confirm_settles tx_id confirmed c h keyed distinct found =
      let m = h.store.three_ds_challenges in
      let c' = settled_by confirmed c in
      let own : c.transaction_id ≡ tx_id =
        All-lookup (λ entry. entry.1.transaction_id ≡ entry.0) tx_id c m keyed found in
      let done = confirm_existing tx_id confirmed c h found own in
      let read : lookup tx_id (insert c.transaction_id c' m) ≡ some c' =
        subst (λ id. lookup tx_id (insert id c' m) ≡ some c') (sym own)
          (lookup-insert_self tx_id c' m) in
      let keyed' : IsKeyed (insert c.transaction_id c' m) =
        All-insert (λ entry. entry.1.transaction_id ≡ entry.0) c.transaction_id c' m keyed refl in
      let settled : All (λ entry. (entry.0 ≡ tx_id) → entry.1.status ≢ "pending")
          (insert c.transaction_id c' m) =
        subst (λ id. All (λ entry. (entry.0 ≡ tx_id) → entry.1.status ≢ "pending") (insert id c' m))
          (sym own)
          (All-insert_distinct (λ entry. entry.1.status ≢ "pending") tx_id c' m distinct
            (settled_by_not_pending confirmed c)) in
      rw done (
        refl,
        rw read refl,
        λ user_id now. (_, refl, listed-Avoids tx_id user_id now _ keyed' settled),
      )
