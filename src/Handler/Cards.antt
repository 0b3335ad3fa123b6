-- ===== src/Handler/Cards.antt =====
-- The card lifecycle of internal/handler/cards.go: lock, unlock, block and delete. The handlers use
-- the storage through the `CardStore` interface only. A handler writes to the card that it read and
-- passes it to `UpdateCard`; what it answers is that card.
pub mod Lifecycle
pub mod Traces
use mockgatehub.Prelude.{
  String, Bool, true, false, Option, none, some, List, [], ◌∷◌, ◌==◌, if◌then◌else◌,
}
use mockgatehub.Prelude.Result.{Result, ok, err, Exec, ◌>>=◌, ◌>>◌, raise_if, or_else, pure}
use mockgatehub.Models.{Card}
use mockgatehub.Consts.{
  card_status_active, card_status_blocked, card_status_temporary_blocked, card_status_soft_delete,
}
use mockgatehub.Storage.CardStore.{CardStore}
use mockgatehub.Handler.State.{ApiError, bad_request, not_found, internal_err}

abbrev pub card_not_found : ApiError
card_not_found = not_found "card not found"

module _ {S : Type 0} ⦃cs : CardStore S⦄ where
  unfoldable pub handle_get_card : String → Exec S ApiError Card
  handle_get_card card_id = or_else (cs.get card_id) (λ _. card_not_found)

  unfoldable pub delete_card : String → Exec S ApiError (Unit {0})
  delete_card card_id = do
    card ← or_else (cs.get card_id) (λ _. card_not_found)
    raise_if (card.status == card_status_soft_delete) (bad_request "card is already deleted")
    let deleted = record card {
      status = card_status_soft_delete;
      status_reason_code = none;
      lock_level = none;
    }
    or_else (cs.update deleted) (λ _. internal_err "failed to delete card")

  unfoldable pub lock_card : String → String → Exec S ApiError Card
  lock_card card_id reason_code = do
    let reason = if reason_code == "" then "ClientRequestedLock" else reason_code
    card ← or_else (cs.get card_id) (λ _. card_not_found)
    raise_if (card.status == card_status_soft_delete) (bad_request "cannot lock a deleted card")
    raise_if (card.status == card_status_blocked)
        (bad_request "cannot lock a permanently blocked card")
    raise_if (card.status == card_status_temporary_blocked) (bad_request "card is already locked")
    let locked = record card {
      status = card_status_temporary_blocked;
      lock_level = some reason;
      is_first_time_lock = true;
    }
    or_else (cs.update locked) (λ _. internal_err "failed to lock card")
    pure locked

  unfoldable pub unlock_card : String → Exec S ApiError Card
  unlock_card card_id = do
    card ← or_else (cs.get card_id) (λ _. card_not_found)
    raise_if (if card.status == card_status_temporary_blocked then false else true)
        (bad_request "card is not locked")
    let unlocked = record card { status = card_status_active; lock_level = none }
    or_else (cs.update unlocked) (λ _. internal_err "failed to unlock card")
    pure unlocked

  unfoldable pub block_card : String → String → Exec S ApiError Card
  block_card card_id reason_code = do
    card ← or_else (cs.get card_id) (λ _. card_not_found)
    raise_if (card.status == card_status_soft_delete) (bad_request "cannot block a deleted card")
    raise_if (card.status == card_status_blocked) (bad_request "card is already blocked")
    let blocked = record card {
      status = card_status_blocked;
      status_reason_code = some reason_code;
      lock_level = none;
    }
    or_else (cs.update blocked) (λ _. internal_err "failed to block card")
    pure blocked

-- one request of the card API; a reason code that is not given is ""
pub data CardRequest : Type 0 where
  lock : String → String → CardRequest
  unlock : String → CardRequest
  block : String → String → CardRequest
  delete : String → CardRequest

module _ {S : Type 0} ⦃cs : CardStore S⦄ where
  -- what the handler of a request leaves
  unfoldable pub apply_card_request : CardRequest → S → S
  apply_card_request (lock id reason) s = (lock_card id reason s).1
  apply_card_request (unlock id) s = (unlock_card id s).1
  apply_card_request (block id reason) s = (block_card id reason s).1
  apply_card_request (delete id) s = (delete_card id s).1

  unfoldable pub apply_card_requests : List CardRequest → S → S
  apply_card_requests [] s = s
  apply_card_requests (r ∷ rs) s = apply_card_requests rs (apply_card_request r s)
