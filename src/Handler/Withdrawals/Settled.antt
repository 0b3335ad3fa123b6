-- ===== src/Handler/Withdrawals/Settled.antt =====
-- What settling a withdrawal does to balances and records, and that it happens once.
use mockgatehub.Prelude.{
  String, ◌≡◌, ◌≢◌, inl, inr, refl, ap, sym, ◌∙◌, false, some, ◌==◌, ◌&&◌, arith, subst, Bool-cases,
  ==→eq, if◌then◌else◌,
}
use mockgatehub.Prelude.Result.{ok, err}
use mockgatehub.Prelude.GoMap.{lookup, insert, lookup-insert_self}
use mockgatehub.Float64.{Float64}
use mockgatehub.Models.{Transaction}
use mockgatehub.Consts.{
  deposit_type_withdrawal, transaction_status_pending, transaction_status_completed,
  transaction_status_failed, event_withdrawal_completed, event_withdrawal_rejected,
}
use mockgatehub.Storage.Transactions.Keyed.{TransactionsKeyed}
use mockgatehub.Storage.Balances.{deduct_balance}
use mockgatehub.Storage.Balances.Laws.{balance, balance-deduct_balance, balance_of_balances}
use mockgatehub.Handler.State.{Handler, ApiError}
use mockgatehub.Handler.Withdrawals.{settle_withdrawal, complete_withdrawal, reject_withdrawal}
use mockgatehub.Handler.Withdrawals.Settlement.{
  settle_tests, complete_refused, complete_store, complete_parses, reject_accepted, reject_store,
}

module _ {F Raw : Type 0} ⦃fl : Float64 F⦄ where
  -- Where every transaction is stored under its own ID, a refused settlement, whatever the reason,
  -- changes nothing: no balance, no record, no webhook.
  pub settle_refused :
      (tx_id event : String) (h : Handler F Raw) (e : ApiError)
      → TransactionsKeyed h.store
      → (settle_withdrawal tx_id event h).0 ≡ err e
      → (settle_withdrawal tx_id event h).1 ≡ h
  settle_refused tx_id event h e keyed r = elim (settle_tests tx_id event h) [
    | inl (same, _) ↦ same
    | inr (tx, found, known, withdrawal, pending, passed) ↦
        let own : lookup tx.id h.store.transactions ≡ some tx =
          ap (λ (i : String). lookup i h.store.transactions) (keyed.own_id tx_id tx found)
          ∙ found in
        elim (Bool-cases (event == event_withdrawal_completed)) [
          | inl c ↦
              let way : settle_withdrawal tx_id event h ≡ complete_withdrawal tx h =
                passed ∙ rw c refl in
              ap (λ p. p.1) way ∙ complete_refused tx h e own (sym (ap (λ p. p.0) way) ∙ r)
          | inr c ↦
              let way : settle_withdrawal tx_id event h ≡ reject_withdrawal tx h =
                passed ∙ rw c refl in
              absurd (ground (arith, way, reject_accepted tx h own))
        ]
  ]

  -- Where every transaction is stored under its own ID, a completion that is accepted was of a stored
  -- pending withdrawal whose recorded total the balance covered. It takes exactly that total from the
  -- user's balance in the record's currency, leaves every other balance, and marks the record
  -- completed, changing nothing else of it.
  pub settle_completed :
      (tx_id : String) (h : Handler F Raw)
      → TransactionsKeyed h.store
      → (settle_withdrawal tx_id event_withdrawal_completed h).0 ≡ ok tt
      → let s' = (settle_withdrawal tx_id event_withdrawal_completed h).1.store in
        (tx : Transaction) × (total : F) × (lookup tx_id h.store.transactions ≡ some tx)
        × (tx.deposit_type ≡ deposit_type_withdrawal)
        × (tx.status ≡ transaction_status_pending)
        × (fl.parse tx.total_amount ≡ some total)
        × (fl.lt (balance tx.user_id tx.currency h.store) total ≡ false)
        × ((u c : String)
            → balance u c s' ≡ (
                if tx.user_id == u && tx.currency == c
                then fl.sub (balance tx.user_id tx.currency h.store) total
                else balance u c h.store))
        × (lookup tx_id s'.transactions
            ≡ some (record tx { status = transaction_status_completed }))
  settle_completed tx_id h keyed r = elim (settle_tests tx_id event_withdrawal_completed h) [
    | inl (_, refused) ↦ absurd (refused r)
    | inr (tx, found, known, withdrawal, pending, passed) ↦
        let id = keyed.own_id tx_id tx found in
        let own : lookup tx.id h.store.transactions ≡ some tx =
          ap (λ (i : String). lookup i h.store.transactions) id ∙ found in
        let r' : (complete_withdrawal tx h).0 ≡ ok tt = sym (ap (λ p. p.0) passed) ∙ r in
        let (total, parsed) = complete_parses tx h r' in
        let (charged, balances, transactions) = complete_store tx total h parsed own r' in
        let law =
          λ (u c : String). balance-deduct_balance tx.user_id tx.currency u c total h.store in
        (
          tx,
          total,
          found,
          withdrawal,
          pending,
          parsed,
          ground (arith, law tx.user_id tx.currency, charged),
          λ u c.
              let moved =
                balance_of_balances u c
                  (settle_withdrawal tx_id event_withdrawal_completed h).1.store
                  (deduct_balance tx.user_id tx.currency total h.store).1
                  (ap (λ p. p.1.store.balances) passed ∙ balances) in
              ground (arith, law u c, charged, moved),
          ap (λ p. lookup tx_id p.1.store.transactions) passed
              ∙ ap (λ m. lookup tx_id m) transactions
              ∙ ap
                  (λ (i : String). lookup tx_id (
                    insert i (record tx { status = transaction_status_completed })
                      h.store.transactions))
                  id
              ∙ lookup-insert_self tx_id _ _,
        )
  ]

  -- Where every transaction is stored under its own ID, a rejection that is accepted was of a stored
  -- pending withdrawal. It leaves every balance, and marks the record failed, changing nothing else
  -- of it.
  pub settle_rejected :
      (tx_id : String) (h : Handler F Raw)
      → TransactionsKeyed h.store
      → (settle_withdrawal tx_id event_withdrawal_rejected h).0 ≡ ok tt
      → let s' = (settle_withdrawal tx_id event_withdrawal_rejected h).1.store in
        (tx : Transaction) × (lookup tx_id h.store.transactions ≡ some tx)
        × (tx.deposit_type ≡ deposit_type_withdrawal)
        × (tx.status ≡ transaction_status_pending)
        × (s'.balances ≡ h.store.balances)
        × (lookup tx_id s'.transactions ≡ some (record tx { status = transaction_status_failed }))
  settle_rejected tx_id h keyed r = elim (settle_tests tx_id event_withdrawal_rejected h) [
    | inl (_, refused) ↦ absurd (refused r)
    | inr (tx, found, known, withdrawal, pending, passed) ↦
        let id = keyed.own_id tx_id tx found in
        let own : lookup tx.id h.store.transactions ≡ some tx =
          ap (λ (i : String). lookup i h.store.transactions) id ∙ found in
        let (balances, transactions) = reject_store tx h own in
        (
          tx,
          found,
          withdrawal,
          pending,
          ap (λ p. p.1.store.balances) passed ∙ balances,
          ap (λ p. lookup tx_id p.1.store.transactions) passed
              ∙ ap (λ m. lookup tx_id m) transactions
              ∙ ap
                  (λ (i : String). lookup tx_id (
                    insert i (record tx { status = transaction_status_failed })
                      h.store.transactions))
                  id
              ∙ lookup-insert_self tx_id _ _,
        )
  ]

  -- A transaction that is not pending is not settled.
  settled_stays :
      (tx_id event : String) (h : Handler F Raw) (tx : Transaction)
      → lookup tx_id h.store.transactions ≡ some tx
      → tx.status ≢ transaction_status_pending
      → ((settle_withdrawal tx_id event h).1 ≡ h) × ((settle_withdrawal tx_id event h).0 ≢ ok tt)
  settled_stays tx_id event h tx found settled = elim (settle_tests tx_id event h) [
    | inl refused ↦ refused
    | inr (tx', found', known, withdrawal, pending, passed) ↦
        absurd (ground (arith, found, found', pending, settled))
  ]

  -- Where every transaction is stored under its own ID, a settlement that is accepted is the last: a
  -- second one of the same transaction, with either event or any other, is refused and changes
  -- nothing.
  pub settle_once :
      (tx_id event again : String) (h : Handler F Raw)
      → TransactionsKeyed h.store
      → (settle_withdrawal tx_id event h).0 ≡ ok tt
      → let h' = (settle_withdrawal tx_id event h).1 in
        ((settle_withdrawal tx_id again h').1 ≡ h') × ((settle_withdrawal tx_id again h').0 ≢ ok tt)
  settle_once tx_id event again h keyed r =
      elim (Bool-cases (event == event_withdrawal_completed)) [
        | inl c ↦
            let e : event ≡ event_withdrawal_completed = ==→eq _ _ c in
            let (tx, total, found, _, _, _, _, _, after) =
              settle_completed tx_id h keyed
                (subst (λ v. (settle_withdrawal tx_id v h).0 ≡ ok tt) e r) in
            settled_stays tx_id again _ _
              (ap (λ v. lookup tx_id (settle_withdrawal tx_id v h).1.store.transactions) e ∙ after)
              (ground arith)
        | inr c ↦ elim (Bool-cases (event == event_withdrawal_rejected)) [
          | inl j ↦
              let e : event ≡ event_withdrawal_rejected = ==→eq _ _ j in
              let (tx, found, _, _, _, after) =
                settle_rejected tx_id h keyed
                  (subst (λ v. (settle_withdrawal tx_id v h).0 ≡ ok tt) e r) in
              settled_stays tx_id again _ _
                (ap (λ v. lookup tx_id (settle_withdrawal tx_id v h).1.store.transactions) e
                  ∙ after)
                (ground arith)
          | inr j ↦ elim (settle_tests tx_id event h) [
            | inl (_, refused) ↦ absurd (refused r)
            | inr (tx, found, known, _, _, _) ↦ absurd (ground (arith, known, c, j))
          ]
        ]
      ]
