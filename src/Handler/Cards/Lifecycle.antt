-- ===== src/Handler/Cards/Lifecycle.antt =====
-- The states of a card under the requests of cards.go.
use mockgatehub.Prelude.{
  String, ◌≡◌, ◌≢◌, ◌⊎◌, inl, inr, refl, true, none, some, ◌==◌, arith, Bool-cases, ==→eq, ==→ne,
  if◌then◌else◌,
}
use mockgatehub.Prelude.Result.{Result, ok, err}
use mockgatehub.Models.{Card}
use mockgatehub.Consts.{
  card_status_active, card_status_blocked, card_status_temporary_blocked, card_status_soft_delete,
}
use mockgatehub.Storage.{GoError}
use mockgatehub.Storage.CardStore.{CardStore}
use mockgatehub.Handler.Cards.{
  lock_card, unlock_card, block_card, delete_card, CardRequest, lock, unlock, block, delete,
  apply_card_request,
}

-- The card that a request leaves, where its guards let it pass.
pub data CardStep : Card → Card → Type 0 where
  locked :
      (c : Card) (reason : String)
      → c.status ≢ card_status_soft_delete
      → c.status ≢ card_status_blocked
      → c.status ≢ card_status_temporary_blocked
      → CardStep c (record c {
        status = card_status_temporary_blocked;
        lock_level = some reason;
        is_first_time_lock = true;
      })
  unlocked :
      (c : Card)
      → c.status ≡ card_status_temporary_blocked
      → CardStep c (record c { status = card_status_active; lock_level = none })
  blocked :
      (c : Card) (reason : String)
      → c.status ≢ card_status_soft_delete
      → c.status ≢ card_status_blocked
      → CardStep c (record c {
        status = card_status_blocked;
        status_reason_code = some reason;
        lock_level = none;
      })
  deleted :
      (c : Card)
      → c.status ≢ card_status_soft_delete
      → CardStep c (record c {
        status = card_status_soft_delete;
        status_reason_code = none;
        lock_level = none;
      })

abbrev pub request_card_id : CardRequest → String
request_card_id (lock id reason) = id
request_card_id (unlock id) = id
request_card_id (block id reason) = id
request_card_id (delete id) = id

module _ {S : Type 0} ⦃cs : CardStore S⦄ where
  -- A request leaves the store as it was, or makes one step of its own card and writes that back.
  abbrev pub Effect : CardRequest → S → Type 0
  Effect r s =
      (apply_card_request r s ≡ s)
      ⊎ ((c : Card) × (c' : Card) × ((cs.get (request_card_id r) s).0 ≡ ok c)
          × CardStep c c'
          × (apply_card_request r s ≡ (cs.update c' s).1))

  lock-Effect : (id reason : String) (s : S) → Effect (lock id reason) s
  unfolding apply_card_request lock_card
  lock-Effect id reason s = go (cs.get id s).0 refl
    where
      go : (r : Result GoError Card) → (cs.get id s).0 ≡ r → Effect (lock id reason) s
      go (err e) h = inl (ground (arith, cs.get_keeps id s))
      go (ok c) h = elim (Bool-cases (c.status == card_status_soft_delete)) [
        | inl gone ↦ inl (ground (arith, cs.get_keeps id s))
        | inr there ↦ elim (Bool-cases (c.status == card_status_blocked)) [
          | inl barred ↦ inl (ground (arith, cs.get_keeps id s))
          | inr unbarred ↦ elim (Bool-cases (c.status == card_status_temporary_blocked)) [
            | inl held ↦ inl (ground (arith, cs.get_keeps id s))
            | inr free ↦
                let reason' = if reason == "" then "ClientRequestedLock" else reason in
                inr (
                  c,
                  record c {
                    status = card_status_temporary_blocked;
                    lock_level = some reason';
                    is_first_time_lock = true;
                  },
                  h,
                  locked c reason' (==→ne _ _ there) (==→ne _ _ unbarred) (==→ne _ _ free),
                  ground (arith, cs.get_keeps id s),
                )
          ]
        ]
      ]

  unlock-Effect : (id : String) (s : S) → Effect (unlock id) s
  unfolding apply_card_request unlock_card
  unlock-Effect id s = go (cs.get id s).0 refl
    where
      go : (r : Result GoError Card) → (cs.get id s).0 ≡ r → Effect (unlock id) s
      go (err e) h = inl (ground (arith, cs.get_keeps id s))
      go (ok c) h = elim (Bool-cases (c.status == card_status_temporary_blocked)) [
        | inr free ↦ inl (ground (arith, cs.get_keeps id s))
        | inl held ↦ inr (
          c,
          record c { status = card_status_active; lock_level = none },
          h,
          unlocked c (==→eq _ _ held),
          ground (arith, cs.get_keeps id s),
        )
      ]

  block-Effect : (id reason : String) (s : S) → Effect (block id reason) s
  unfolding apply_card_request block_card
  block-Effect id reason s = go (cs.get id s).0 refl
    where
      go : (r : Result GoError Card) → (cs.get id s).0 ≡ r → Effect (block id reason) s
      go (err e) h = inl (ground (arith, cs.get_keeps id s))
      go (ok c) h = elim (Bool-cases (c.status == card_status_soft_delete)) [
        | inl gone ↦ inl (ground (arith, cs.get_keeps id s))
        | inr there ↦ elim (Bool-cases (c.status == card_status_blocked)) [
          | inl barred ↦ inl (ground (arith, cs.get_keeps id s))
          | inr unbarred ↦ inr (
            c,
            record c {
              status = card_status_blocked;
              status_reason_code = some reason;
              lock_level = none;
            },
            h,
            blocked c reason (==→ne _ _ there) (==→ne _ _ unbarred),
            ground (arith, cs.get_keeps id s),
          )
        ]
      ]

  delete-Effect : (id : String) (s : S) → Effect (delete id) s
  unfolding apply_card_request delete_card
  delete-Effect id s = go (cs.get id s).0 refl
    where
      go : (r : Result GoError Card) → (cs.get id s).0 ≡ r → Effect (delete id) s
      go (err e) h = inl (ground (arith, cs.get_keeps id s))
      go (ok c) h = elim (Bool-cases (c.status == card_status_soft_delete)) [
        | inl gone ↦ inl (ground (arith, cs.get_keeps id s))
        | inr there ↦ inr (
          c,
          record c {
            status = card_status_soft_delete;
            status_reason_code = none;
            lock_level = none;
          },
          h,
          deleted c (==→ne _ _ there),
          ground (arith, cs.get_keeps id s),
        )
      ]

  pub request-Effect : (r : CardRequest) (s : S) → Effect r s
  request-Effect (lock id reason) s = lock-Effect id reason s
  request-Effect (unlock id) s = unlock-Effect id s
  request-Effect (block id reason) s = block-Effect id reason s
  request-Effect (delete id) s = delete-Effect id s
