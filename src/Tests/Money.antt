-- ===== src/Tests/Money.antt =====
-- The settlement of withdrawals and the payments of the iframe.
use mockgatehub.Storage.Balances.{add_balance}
use mockgatehub.Prelude.GoMap.{insert}
use mockgatehub.Prelude.Int.{div_round, ◌*ℤ◌, ◌+ℤ◌}
use mockgatehub.Prelude.{
  String, ◌≡◌, ◌≢◌, refl, true, false, some, ◌==◌, ◌&&◌, arith, if◌then◌else◌, eq_iff,
}
use mockgatehub.Prelude.Int.{ℤ}
use mockgatehub.Prelude.Result.{ok, err}
use mockgatehub.Prelude.GoMap.{lookup}
use mockgatehub.Float64.Units.{units}
use mockgatehub.Models.{Transaction}
use mockgatehub.Consts.{
  event_withdrawal_completed, event_withdrawal_rejected, deposit_type_withdrawal,
}
use mockgatehub.Storage.Transactions.{
  get_transaction, update_transaction_status, create_transaction,
}
use mockgatehub.Storage.Users.{get_user}
use mockgatehub.Storage.Wallets.{get_wallets_by_user}
use mockgatehub.Storage.Balances.{deduct_balance, get_balance}
use mockgatehub.Fees.{calculate_fee, get_withdrawal_fee_for_user}
use mockgatehub.Handler.Payments.{
  process_withdrawal, extract_user_from_bearer, charge_now, withdrawal_record,
}
use mockgatehub.Handler.Payments.Settling.{withdrawal_settles}
use mockgatehub.Handler.Payments.{process_deposit}
use mockgatehub.Handler.Payments.Deposit.{deposit_credits}
use mockgatehub.Handler.Payments.Withdrawal.{fee_on, total_of}
use mockgatehub.Handler.Payments.Charges.{withdrawal_now, withdrawal_refused}
use mockgatehub.Storage.Transactions.Keyed.{TransactionsKeyed}
use mockgatehub.Storage.Balances.Laws.{balance}
use mockgatehub.Handler.{bad_request, not_found}
use mockgatehub.Handler.Withdrawals.{settle_withdrawal, complete_withdrawal, reject_withdrawal}
use mockgatehub.Handler.Withdrawals.Settled.{settle_completed, settle_once, settle_rejected}
use mockgatehub.Tests.Data.{handler, fresh, request}

keyed : (async : _) → TransactionsKeyed (handler async).store
unfolding lookup
keyed async = record { own_id = λ id tx h. ground (arith, eq_iff "tx-1" id) }

completes : (settle_withdrawal "tx-1" event_withdrawal_completed (handler true)).0 ≡ ok tt
unfolding settle_withdrawal complete_withdrawal units get_transaction lookup deduct_balance
    update_transaction_status
completes = refl

settle_completed_example :
    let s' = (settle_withdrawal "tx-1" event_withdrawal_completed (handler true)).1.store in
    (tx : Transaction) × (total : ℤ) × (lookup "tx-1" (handler true).store.transactions ≡ some tx)
    × (tx.deposit_type ≡ deposit_type_withdrawal)
    × (tx.status ≡ 1)
    × (units.parse tx.total_amount ≡ some total)
    × (units.lt (balance tx.user_id tx.currency (handler true).store) total ≡ false)
    × ((u c : String)
        → balance u c s' ≡ (
            if tx.user_id == u && tx.currency == c
            then units.sub (balance tx.user_id tx.currency (handler true).store) total
            else balance u c (handler true).store))
    × (lookup "tx-1" s'.transactions ≡ some (record tx { status = 100 }))
settle_completed_example = settle_completed "tx-1" (handler true) (keyed true) completes

settle_once_example :
    let h' = (settle_withdrawal "tx-1" event_withdrawal_completed (handler true)).1 in
    ((settle_withdrawal "tx-1" event_withdrawal_rejected h').1 ≡ h')
    × ((settle_withdrawal "tx-1" event_withdrawal_rejected h').0 ≢ ok tt)
settle_once_example =
    settle_once "tx-1" event_withdrawal_completed event_withdrawal_rejected (handler true)
      (keyed true) completes

rejects : (settle_withdrawal "tx-1" event_withdrawal_rejected (handler true)).0 ≡ ok tt
unfolding settle_withdrawal reject_withdrawal get_transaction lookup update_transaction_status
rejects = refl

settle_rejected_example :
    let s' = (settle_withdrawal "tx-1" event_withdrawal_rejected (handler true)).1.store in
    (tx : Transaction) × (lookup "tx-1" (handler true).store.transactions ≡ some tx)
    × (tx.deposit_type ≡ deposit_type_withdrawal)
    × (tx.status ≡ 1)
    × (s'.balances ≡ (handler true).store.balances)
    × (lookup "tx-1" s'.transactions ≡ some (record tx { status = 3 }))
settle_rejected_example = settle_rejected "tx-1" (handler true) (keyed true) rejects

unknown :
    (settle_withdrawal "tx-9" event_withdrawal_completed (handler true)).0
    ≡ err (not_found "transaction not found")
unfolding settle_withdrawal get_transaction lookup
unknown = refl

charged_now : (process_withdrawal fresh "bearer-1" (request "50.00") (handler false)).0 ≡ ok "tx-2"
unfolding process_withdrawal extract_user_from_bearer charge_now units get_user get_wallets_by_user
    get_balance create_transaction deduct_balance update_transaction_status lookup calculate_fee
    get_withdrawal_fee_for_user ◌+ℤ◌ div_round ◌*ℤ◌
charged_now = refl

withdrawal_now_example :
    let s' = (process_withdrawal fresh "bearer-1" (request "50.00") (handler false)).1.store in
    let user = extract_user_from_bearer "bearer-1" (handler false) in
    (amount : ℤ) × (address : String) × (units.parse "50.00" ≡ some amount)
    × (units.lt (balance user "USD" (handler false).store) (total_of user amount (handler false))
        ≡ false)
    × ((u c : String)
        → balance u c s' ≡ (
            if user == u && "USD" == c
            then units.sub
                (balance user "USD" (handler false).store)
                (total_of user amount (handler false))
            else balance u c (handler false).store))
    × (lookup "tx-2" s'.transactions
        ≡ some
            (record (withdrawal_record fresh user
              (request "50.00")
              address
              amount
              (fee_on user amount (handler false))
              100) { created_at = 9 }))
withdrawal_now_example =
    withdrawal_now fresh "bearer-1" "tx-2" (request "50.00") (handler false) refl charged_now

booked_later : (process_withdrawal fresh "bearer-1" (request "50.00") (handler true)).0 ≡ ok "tx-2"
unfolding process_withdrawal extract_user_from_bearer charge_now units get_user get_wallets_by_user
    get_balance create_transaction deduct_balance update_transaction_status lookup calculate_fee
    get_withdrawal_fee_for_user ◌+ℤ◌ div_round ◌*ℤ◌
booked_later = refl

too_much :
    (process_withdrawal fresh "bearer-1" (request "99.00") (handler false)).0
    ≡ err (bad_request "Insufficient balance. Required: 100.98, Available: 100.00")
unfolding process_withdrawal extract_user_from_bearer charge_now units get_user get_wallets_by_user
    get_balance create_transaction deduct_balance update_transaction_status lookup calculate_fee
    get_withdrawal_fee_for_user ◌+ℤ◌ div_round ◌*ℤ◌
too_much = refl

withdrawal_refused_example :
    (process_withdrawal fresh "bearer-1" (request "99.00") (handler false)).1.store.balances
    ≡ (handler false).store.balances
withdrawal_refused_example =
    withdrawal_refused fresh "bearer-1" (request "99.00") (handler false)
      (bad_request "Insufficient balance. Required: 100.98, Available: 100.00") too_much

settled_later :
    (settle_withdrawal "tx-2" event_withdrawal_completed
      (process_withdrawal fresh "bearer-1" (request "50.00") (handler true)).1).0
    ≡ ok tt
unfolding process_withdrawal settle_withdrawal complete_withdrawal get_transaction lookup get_user
    get_wallets_by_user units get_balance ◌+ℤ◌ calculate_fee div_round ◌*ℤ◌
    get_withdrawal_fee_for_user create_transaction insert deduct_balance update_transaction_status
settled_later = refl

withdrawal_settles_example :
    let h = handler true in
    let h' = (process_withdrawal fresh "bearer-1" (request "50.00") h).1 in
    let settled = (settle_withdrawal "tx-2" event_withdrawal_completed h').1 in
    let user = extract_user_from_bearer "bearer-1" h in
    (amount : ℤ) × (charged : ℤ) × (units.parse "50.00" ≡ some amount)
    × (units.parse (units.format (total_of user amount h)) ≡ some charged)
    × ((u c : String)
        → balance u c settled.store ≡ (
            if user == u && "USD" == c
            then units.sub (balance user "USD" h.store) charged
            else balance u c h.store))
withdrawal_settles_example =
    withdrawal_settles fresh "bearer-1" "tx-2" (request "50.00") (handler true) refl (keyed true)
      booked_later settled_later

deposited : (process_deposit fresh "bearer-1" (request "25.50") (handler false)).0 ≡ ok tt
unfolding process_deposit lookup get_user get_wallets_by_user units create_transaction add_balance
deposited = refl

deposit_credits_example :
    let user = extract_user_from_bearer "bearer-1" (handler false) in
    (amount : ℤ) × (units.parse "25.50" ≡ some amount)
    × ((u c : String)
        → balance u c (process_deposit fresh "bearer-1" (request "25.50") (handler false)).1.store
          ≡ (if user == u && "USD" == c
              then units.add (balance user "USD" (handler false).store) amount
              else balance u c (handler false).store))
deposit_credits_example =
    deposit_credits fresh "bearer-1" (request "25.50") (handler false) deposited
