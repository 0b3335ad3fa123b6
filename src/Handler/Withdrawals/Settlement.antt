-- ===== src/Handler/Withdrawals/Settlement.antt =====
-- The parts of `settleWithdrawal`: its tests, its two outcomes, and what each leaves in the store.
use mockgatehub.Prelude.{
  String, ◌≡◌, ◌≢◌, ◌⊎◌, inl, inr, Bool, true, some, ◌==◌, ◌||◌, nat_beq, arith, Bool-cases,
  Option-cases, ==→eq, if◌then◌else◌,
}
use mockgatehub.Prelude.Result.{Result, ok, err}
use mockgatehub.Prelude.GoMap.{lookup, insert}
use mockgatehub.Float64.{Float64}
use mockgatehub.Models.{Transaction}
use mockgatehub.Consts.{
  deposit_type_withdrawal, transaction_status_pending, transaction_status_completed,
  transaction_status_failed, event_withdrawal_completed, event_withdrawal_rejected,
}
use mockgatehub.Storage.{MemoryStorage}
use mockgatehub.Storage.Transactions.{get_transaction, update_transaction_status}
use mockgatehub.Storage.Balances.{deduct_balance}
use mockgatehub.Handler.State.{Handler, ApiError, send_async}
use mockgatehub.Handler.Withdrawals.{settle_withdrawal, complete_withdrawal, reject_withdrawal}

-- The first test of `settleWithdrawal`, for the event.
abbrev pub is_supported : String → Bool
is_supported event = event == event_withdrawal_completed || event == event_withdrawal_rejected

module _ {F Raw : Type 0} ⦃fl : Float64 F⦄ where
  -- `DeductBalance` touches no transaction.
  pub transactions-deduct_balance :
      (u c : String) (x : F) (s : MemoryStorage F Raw)
      → (deduct_balance u c x s).1.transactions ≡ s.transactions
  unfolding deduct_balance
  transactions-deduct_balance u c x s = ground arith

  pub store-send_async :
      (event user : String) (p : _) (h : Handler F Raw)
      → (send_async event user p h).store ≡ h.store
  unfolding send_async
  store-send_async event user p h = ground arith

  -- `DeductBalance` succeeds, or changes nothing.
  pub deduct_or_same :
      (u c : String) (x : F) (s : MemoryStorage F Raw)
      → ((deduct_balance u c x s).0 ≡ ok tt) ⊎ ((deduct_balance u c x s).1 ≡ s)
  unfolding deduct_balance
  deduct_or_same u c x s = ground arith

  pub complete_refused :
      (tx : Transaction) (h : Handler F Raw) (e : ApiError)
      → lookup tx.id h.store.transactions ≡ some tx
      → (complete_withdrawal tx h).0 ≡ err e
      → (complete_withdrawal tx h).1 ≡ h
  unfolding complete_withdrawal update_transaction_status
  complete_refused tx h e found r = elim (Option-cases (fl.parse tx.total_amount)) [
    | inl bad ↦ ground arith
    | inr (total, parsed) ↦ ground (
      arith,
      parsed,
      transactions-deduct_balance tx.user_id tx.currency total h.store,
      deduct_or_same tx.user_id tx.currency total h.store,
    )
  ]

  pub reject_accepted :
      (tx : Transaction) (h : Handler F Raw)
      → lookup tx.id h.store.transactions ≡ some tx
      → (reject_withdrawal tx h).0 ≡ ok tt
  unfolding reject_withdrawal update_transaction_status
  reject_accepted tx h found = ground arith

  -- The parts of the store after a completion that succeeds.
  pub complete_store :
      (tx : Transaction) (total : F) (h : Handler F Raw)
      → fl.parse tx.total_amount ≡ some total
      → lookup tx.id h.store.transactions ≡ some tx
      → (complete_withdrawal tx h).0 ≡ ok tt
      → ((deduct_balance tx.user_id tx.currency total h.store).0 ≡ ok tt)
        × ((complete_withdrawal tx h).1.store.balances
            ≡ (deduct_balance tx.user_id tx.currency total h.store).1.balances)
        × ((complete_withdrawal tx h).1.store.transactions
            ≡ insert tx.id
                (record tx { status = transaction_status_completed })
                h.store.transactions)
  unfolding complete_withdrawal update_transaction_status send_async
  complete_store tx total h parsed found r =
      let kept = transactions-deduct_balance tx.user_id tx.currency total h.store in
      (ground (arith, parsed, kept), ground (arith, parsed, kept), ground (arith, parsed, kept))

  pub complete_parses :
      (tx : Transaction) (h : Handler F Raw)
      → (complete_withdrawal tx h).0 ≡ ok tt
      → (total : F) × (fl.parse tx.total_amount ≡ some total)
  unfolding complete_withdrawal
  complete_parses tx h r = elim (Option-cases (fl.parse tx.total_amount)) [
    | inl bad ↦ absurd (ground (arith, bad))
    | inr parsed ↦ parsed
  ]

  pub reject_store :
      (tx : Transaction) (h : Handler F Raw)
      → lookup tx.id h.store.transactions ≡ some tx
      → ((reject_withdrawal tx h).1.store.balances ≡ h.store.balances)
        × ((reject_withdrawal tx h).1.store.transactions
            ≡ insert tx.id (record tx { status = transaction_status_failed }) h.store.transactions)
  unfolding reject_withdrawal update_transaction_status send_async
  reject_store tx h found = (ground arith, ground arith)

  abbrev pub settle_by :
      String → Transaction → Handler F Raw → Result ApiError (Unit {0}) × Handler F Raw
  settle_by event tx h =
      if event == event_withdrawal_completed
      then complete_withdrawal tx h
      else reject_withdrawal tx h

  passed :
      (tx_id event : String) (h : Handler F Raw) (tx : Transaction)
      → lookup tx_id h.store.transactions ≡ some tx
      → is_supported event ≡ true
      → (tx.deposit_type == deposit_type_withdrawal) ≡ true
      → nat_beq tx.status transaction_status_pending ≡ true
      → settle_withdrawal tx_id event h ≡ settle_by event tx h
  unfolding settle_withdrawal get_transaction
  passed tx_id event h tx found known withdrawal pending =
      elim (Bool-cases (event == event_withdrawal_completed)) [
        | inl c ↦ rw (known, found, withdrawal, pending, c)
        | inr c ↦ rw (known, found, withdrawal, pending, c)
      ]

  -- A request either fails a test and changes nothing, or passes them all.
  pub settle_tests :
      (tx_id event : String) (h : Handler F Raw)
      → (((settle_withdrawal tx_id event h).1 ≡ h) × ((settle_withdrawal tx_id event h).0 ≢ ok tt))
        ⊎ ((tx : Transaction) × (lookup tx_id h.store.transactions ≡ some tx)
            × (is_supported event ≡ true)
            × (tx.deposit_type ≡ deposit_type_withdrawal)
            × (tx.status ≡ transaction_status_pending)
            × (settle_withdrawal tx_id event h ≡ settle_by event tx h))
  unfolding settle_withdrawal get_transaction
  settle_tests tx_id event h = elim (Bool-cases (is_supported event)) [
    | inr unknown ↦ inl (ground arith, ground arith)
    | inl known ↦ elim (Option-cases (lookup tx_id h.store.transactions)) [
      | inl gone ↦ inl (ground arith, ground arith)
      | inr (tx, found) ↦ elim (Bool-cases (tx.deposit_type == deposit_type_withdrawal)) [
        | inr other ↦ inl (ground arith, ground arith)
        | inl withdrawal ↦ elim (Bool-cases (nat_beq tx.status transaction_status_pending)) [
          | inr settled ↦ inl (ground arith, ground arith)
          | inl pending ↦ inr (
            tx,
            found,
            known,
            ==→eq _ _ withdrawal,
            ground arith,
            passed tx_id event h tx found known withdrawal pending,
          )
        ]
      ]
    ]
  ]
