-- ===== src/Handler/Withdrawals.antt =====
-- The settlement of withdrawals, internal/handler/withdrawals_admin.go.
pub mod Settlement
pub mod Settled
use Prim.Native.String.{◌++◌}
use mockgatehub.Prelude.{
  ℕ, String, Bool, true, false, Option, none, some, List, [], ◌∷◌, ◌==◌, ◌||◌, ◌&&◌, not, nat_beq,
  if◌then◌else◌,
}
use mockgatehub.Prelude.Result.{
  Result, ok, err, of_option, map_err, Exec, ◌>>=◌, ◌>>◌, raise_if, raise, or_else, lift, gets,
  modify, pure,
}
use mockgatehub.Float64.{Float64}
use mockgatehub.Models.{Transaction}
use mockgatehub.Consts.{
  deposit_type_withdrawal, transaction_status_pending, transaction_status_completed,
  transaction_status_failed, event_withdrawal_completed, event_withdrawal_rejected,
}
use mockgatehub.Storage.Cards.{select}
use mockgatehub.Storage.Transactions.{
  get_transaction, list_transactions_by_user, update_transaction_status,
}
use mockgatehub.Storage.Balances.{deduct_balance}
use mockgatehub.Handler.State.{
  Handler, Action, ApiError, bad_request, not_found, conflict, internal_err, call_or, send_async,
  Payload,
}

-- `withdrawalStatusFilter`: the status to match, or none for no filter. `%q` puts the text in
-- quotation marks; they are left out here.
unfoldable pub withdrawal_status_filter : String → Result String (Option ℕ)
withdrawal_status_filter filter =
    if filter == ""
    then ok none
    else if filter == "pending"
    then ok (some transaction_status_pending)
    else if filter == "completed"
    then ok (some transaction_status_completed)
    else if filter == "failed" || filter == "rejected"
    then ok (some transaction_status_failed)
    else err ("unknown status " ++ filter ++ ": expected pending, completed or failed")

abbrev wanted : Option ℕ → ℕ → Bool
wanted none status = true
wanted (some want) status = nat_beq status want

abbrev pub is_listed : Option ℕ → Transaction → Bool
is_listed want tx = tx.deposit_type == deposit_type_withdrawal && wanted want tx.status

abbrev completed_payload : Transaction → Payload
completed_payload tx =
    ("tx_uuid", some tx.id)
    ∷ ("amount", some tx.amount)
    ∷ ("currency", some tx.currency)
    ∷ ("address", some tx.receiving_address)
    ∷ ("total_fees", some tx.fee)
    ∷ []

abbrev rejected_payload : Transaction → Payload
rejected_payload tx =
    ("tx_uuid", some tx.id)
    ∷ ("user_id", some tx.user_id)
    ∷ ("status", some "REJECTED")
    ∷ ("currency", some tx.currency)
    ∷ ("amount", some tx.amount)
    ∷ []

module _ {F Raw : Type 0} where
  unfoldable pub list_withdrawals : String → String → Action F Raw (List Transaction)
  unfolding withdrawal_status_filter select
  list_withdrawals user_id status_filter = do
    raise_if (user_id == "") (bad_request "user ID is required")
    want ← lift (map_err bad_request (withdrawal_status_filter status_filter))
    transactions ←
        call_or (λ _. internal_err "failed to list transactions")
          (list_transactions_by_user user_id)
    pure (select (is_listed want) transactions)

  unfoldable pub reject_withdrawal : Transaction → Action F Raw (Unit {0})
  reject_withdrawal tx = do
    call_or (λ _. internal_err "failed to update transaction status")
        (update_transaction_status tx.id transaction_status_failed)
    modify (send_async event_withdrawal_rejected tx.user_id (rejected_payload tx))

module _ {F Raw : Type 0} ⦃fl : Float64 F⦄ where
  unfoldable pub complete_withdrawal : Transaction → Action F Raw (Unit {0})
  complete_withdrawal tx = do
    total ←
        lift
          (of_option (fl.parse tx.total_amount) (internal_err "transaction total is not a number"))
    call_or (λ e. conflict ("could not deduct balance: " ++ e))
        (deduct_balance tx.user_id tx.currency total)
    call_or (λ _. internal_err "failed to update transaction status")
        (update_transaction_status tx.id transaction_status_completed)
    modify (send_async event_withdrawal_completed tx.user_id (completed_payload tx))

  unfoldable pub settle_withdrawal : String → String → Action F Raw (Unit {0})
  settle_withdrawal tx_id event = do
    raise_if (not (event == event_withdrawal_completed || event == event_withdrawal_rejected)) (
        bad_request (
          "unsupported event " ++ event ++ "; use " ++ event_withdrawal_completed ++ " or "
          ++ event_withdrawal_rejected))
    tx ← call_or (λ _. not_found "transaction not found") (get_transaction tx_id)
    raise_if (not (tx.deposit_type == deposit_type_withdrawal))
        (bad_request "transaction is not a withdrawal")
    raise_if (not (nat_beq tx.status transaction_status_pending))
        (conflict "withdrawal is not pending; it has already been settled")
    if event == event_withdrawal_completed then complete_withdrawal tx else reject_withdrawal tx
