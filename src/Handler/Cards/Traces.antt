-- ===== src/Handler/Cards/Traces.antt =====
-- What holds over any requests of the card API.
use mockgatehub.Prelude.{
  String, ◌≡◌, ◌≢◌, ◌⊎◌, inl, inr, refl, subst, ap, sym, ◌∙◌, true, false, none, some, List, [],
  ◌∷◌, ◌==◌, arith, eq_iff, Bool-cases, ==→eq, if◌then◌else◌,
}
use mockgatehub.Prelude.Result.{ok}
use mockgatehub.Models.{Card}
use mockgatehub.Consts.{
  card_status_active, card_status_blocked, card_status_temporary_blocked, card_status_soft_delete,
}
use mockgatehub.Storage.CardStore.{CardStore}
use mockgatehub.Handler.Cards.{
  lock_card, unlock_card, CardRequest, apply_card_request, apply_card_requests,
}
use mockgatehub.Handler.Cards.Lifecycle.{
  CardStep, locked, unlocked, blocked, deleted, request_card_id, request-Effect,
}

CardStep-id : {c c' : Card} → CardStep c c' → c'.id ≡ c.id
CardStep-id (locked c reason _ _ _) = refl
CardStep-id (unlocked c _) = refl
CardStep-id (blocked c reason _ _) = refl
CardStep-id (deleted c _) = refl

CardStep-not_deleted : {c c' : Card} → CardStep c c' → c.status ≢ card_status_soft_delete
CardStep-not_deleted (locked c reason h _ _) = h
CardStep-not_deleted (unlocked c h) =
    λ e. ground (arith, eq_iff card_status_temporary_blocked card_status_soft_delete)
CardStep-not_deleted (blocked c reason h _) = h
CardStep-not_deleted (deleted c h) = h

CardStep-of_blocked :
    {c c' : Card}
    → CardStep c c'
    → c.status ≡ card_status_blocked
    → c'.status ≡ card_status_soft_delete
CardStep-of_blocked (locked c reason _ h _) e = absurd (h e)
CardStep-of_blocked (unlocked c h) e =
    ground (arith, eq_iff card_status_temporary_blocked card_status_blocked)
CardStep-of_blocked (blocked c reason _ h) e = absurd (h e)
CardStep-of_blocked (deleted c h) e = refl

module _ {S : Type 0} ⦃cs : CardStore S⦄ where
  -- What a request does to the card under an ID.
  pub card_after_request :
      (r : CardRequest) (s : S) (id : String) (c : Card)
      → cs.WellFormed s
      → (cs.get id s).0 ≡ ok c
      → (c' : Card) × ((cs.get id (apply_card_request r s)).0 ≡ ok c')
        × ((c' ≡ c) ⊎ ((request_card_id r ≡ id) × CardStep c c'))
  card_after_request r s id c wf h = elim (request-Effect r s) [
    | inl same ↦ (c, rw same h, inl refl)
    | inr (d, d', found, step, e) ↦
        let (own_id, named) = cs.get_id (request_card_id r) s d wf found in
        let kept : d'.id ≡ request_card_id r = CardStep-id step ∙ own_id in
        let read : (cs.get id (cs.update d' s).1).0
            ≡ (if d'.id == id then ok d' else (cs.get id s).0) =
          cs.get_after_update d' d id s (λ z. named (sym (CardStep-id step) ∙ z)) (rw kept found) in
        elim (Bool-cases (d'.id == id)) [
          | inl hit ↦
              let own : request_card_id r ≡ id = sym kept ∙ ==→eq _ _ hit in
              let same_card : d ≡ c = cc (ap (λ i. (cs.get i s).0) own) in
              (d', ground (arith, read), inr (own, subst (λ x. CardStep x d') same_card step))
          | inr miss ↦ (c, ground (arith, read), inl refl)
        ]
  ]

  apply_card_request-WellFormed :
      (r : CardRequest) (s : S) → cs.WellFormed s → cs.WellFormed (apply_card_request r s)
  apply_card_request-WellFormed r s wf = elim (request-Effect r s) [
    | inl same ↦ rw same wf
    | inr (d, d', found, step, e) ↦ rw e (cs.update-WellFormed d' s wf)
  ]

  -- In a well-formed storage, in memory.go one that has every card under its own ID, a deleted card
  -- stays, unchanged, through any requests to lock, unlock, block or delete cards.
  pub deleted_card_stays :
      (rs : List CardRequest) (s : S) (id : String) (c : Card)
      → cs.WellFormed s
      → (cs.get id s).0 ≡ ok c
      → c.status ≡ card_status_soft_delete
      → (cs.get id (apply_card_requests rs s)).0 ≡ ok c
  unfolding apply_card_requests
  deleted_card_stays [] s id c wf h e = h
  deleted_card_stays (r ∷ rs) s id c wf h e =
      let (c', h', how) = card_after_request r s id c wf h in
      let same : c' ≡ c = elim how [
        | inl same ↦ same
        | inr (own, step) ↦ absurd (CardStep-not_deleted step e)
      ] in
      deleted_card_stays rs (apply_card_request r s) id c (apply_card_request-WellFormed r s wf)
        (rw h' (ap ok same)) e

  -- A blocked card is blocked or deleted from then on: no request makes it usable again.
  pub blocked_card_stays_unusable :
      (rs : List CardRequest) (s : S) (id : String) (c : Card)
      → cs.WellFormed s
      → (cs.get id s).0 ≡ ok c
      → c.status ≡ card_status_blocked
      → (c' : Card) × ((cs.get id (apply_card_requests rs s)).0 ≡ ok c')
        × ((c'.status ≡ card_status_blocked) ⊎ (c'.status ≡ card_status_soft_delete))
  unfolding apply_card_requests
  blocked_card_stays_unusable [] s id c wf h e = (c, h, inl e)
  blocked_card_stays_unusable (r ∷ rs) s id c wf h e =
      let (c', h', how) = card_after_request r s id c wf h in
      let wf' = apply_card_request-WellFormed r s wf in
      elim how [
        | inl same ↦
            blocked_card_stays_unusable rs (apply_card_request r s) id c' wf' h'
              (ap (λ (x : Card). x.status) same ∙ e)
        | inr (own, step) ↦ (
          c',
          deleted_card_stays rs (apply_card_request r s) id c' wf' h' (CardStep-of_blocked step e),
          inr (CardStep-of_blocked step e),
        )
      ]

  -- A request leaves every card but its own.
  pub other_cards_stay :
      (r : CardRequest) (s : S) (id : String) (c : Card)
      → cs.WellFormed s
      → (cs.get id s).0 ≡ ok c
      → request_card_id r ≢ id
      → (cs.get id (apply_card_request r s)).0 ≡ ok c
  other_cards_stay r s id c wf h ne =
      let (c', h', how) = card_after_request r s id c wf h in
      elim how [ inl same ↦ h' ∙ ap ok same | inr (own, step) ↦ absurd (ne own) ]

  lock_passes :
      (s : S) (id reason : String) (c : Card)
      → cs.WellFormed s
      → (cs.get id s).0 ≡ ok c
      → c.status ≡ card_status_active
      → let c' = record c {
        status = card_status_temporary_blocked;
        lock_level = some (if reason == "" then "ClientRequestedLock" else reason);
        is_first_time_lock = true;
      } in
        ((lock_card id reason s).0 ≡ ok c')
        × ((cs.get id (lock_card id reason s).1).0 ≡ ok c')
        × cs.WellFormed (lock_card id reason s).1
  unfolding lock_card
  lock_passes s id reason c wf h e =
      let (own_id, named) = cs.get_id id s c wf h in
      let c' : Card = record c {
        status = card_status_temporary_blocked;
        lock_level = some (if reason == "" then "ClientRequestedLock" else reason);
        is_first_time_lock = true;
      } in
      let at_own : (cs.get c'.id s).0 ≡ ok c = ap (λ (i : String). (cs.get i s).0) own_id ∙ h in
      let found = cs.update_found c' c s named at_own in
      let read = cs.get_after_update c' c id s named at_own in
      let wf' = cs.update-WellFormed c' s wf in
      let there : (c.status == card_status_soft_delete) ≡ false =
        ap (λ (x : String). x == card_status_soft_delete) e in
      let unbarred : (c.status == card_status_blocked) ≡ false =
        ap (λ (x : String). x == card_status_blocked) e in
      let free : (c.status == card_status_temporary_blocked) ≡ false =
        ap (λ (x : String). x == card_status_temporary_blocked) e in
      let left : (cs.update c' s).1 ≡ (lock_card id reason s).1 =
        ground (arith, cs.get_keeps id s, found) in
      (
        ground (arith, cs.get_keeps id s, found),
        ground (arith, cs.get_keeps id s, found, read, eq_iff c.id id),
        subst cs.WellFormed left wf',
      )

  unlock_passes :
      (s : S) (id : String) (c : Card)
      → cs.WellFormed s
      → (cs.get id s).0 ≡ ok c
      → c.status ≡ card_status_temporary_blocked
      → (unlock_card id s).0 ≡ ok (record c { status = card_status_active; lock_level = none })
  unfolding unlock_card
  unlock_passes s id c wf h e =
      let (own_id, named) = cs.get_id id s c wf h in
      let c' : Card = record c { status = card_status_active; lock_level = none } in
      let at_own : (cs.get c'.id s).0 ≡ ok c = ap (λ (i : String). (cs.get i s).0) own_id ∙ h in
      let found = cs.update_found c' c s named at_own in
      let held : (c.status == card_status_temporary_blocked) ≡ true =
        ap (λ (x : String). x == card_status_temporary_blocked) e in
      ground (arith, cs.get_keeps id s, found)

  -- Locking an active card and unlocking it succeeds, and gives the card back but for its lock level,
  -- which is none then, and its mark of a first lock.
  pub unlock-lock :
      (s : S) (id reason : String) (c : Card)
      → cs.WellFormed s
      → (cs.get id s).0 ≡ ok c
      → c.status ≡ card_status_active
      → let s' = (lock_card id reason s).1 in
        (unlock_card id s').0 ≡ ok (record c { lock_level = none; is_first_time_lock = true })
  unlock-lock s id reason c wf h e =
      let (answer, read, wf') = lock_passes s id reason c wf h e in
      unlock_passes (lock_card id reason s).1 id _ wf' read refl ∙ ground arith
