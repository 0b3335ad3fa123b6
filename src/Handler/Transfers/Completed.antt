-- ===== src/Handler/Transfers/Completed.antt =====
-- What completing a transaction does to balances and records.
use mockgatehub.Prelude.{
  String, ◌≡◌, inl, inr, refl, ap, ◌∙◌, false, some, ◌&&◌, ◌==◌, arith, Bool-cases, if◌then◌else◌,
}
use mockgatehub.Prelude.Result.{ok}
use mockgatehub.Prelude.GoMap.{lookup, insert, lookup-insert_self}
use mockgatehub.Float64.{Float64}
use mockgatehub.Models.{Transaction}
use mockgatehub.Consts.{transaction_status_completed}
use mockgatehub.Storage.{MemoryStorage}
use mockgatehub.Storage.Transactions.{update_transaction_status}
use mockgatehub.Storage.Balances.{add_balance}
use mockgatehub.Storage.Balances.Laws.{balance, balance-add_balance, balance_of_balances}
use mockgatehub.Handler.State.{Handler}
use mockgatehub.Handler.Withdrawals.Settlement.{store-send_async}
use mockgatehub.Handler.Transfers.{Completion, complete_transaction}

module _ {F Raw : Type 0} ⦃fl : Float64 F⦄ where
  balances-update_transaction_status :
      (id : String) (status : _) (s : MemoryStorage F Raw)
      → (update_transaction_status id status s).1.balances ≡ s.balances
  unfolding update_transaction_status
  balances-update_transaction_status id status s = ground arith

  -- Completing a stored transaction that is no debit succeeds. It adds the amount less the fee to the
  -- user's balance in the transaction's currency, and leaves every other balance.
  pub complete_credit :
      (c : Completion F) (h : Handler F Raw) (tx : Transaction)
      → lookup c.tx_id h.store.transactions ≡ some tx
      → c.is_debit ≡ false
      → let (r, h') = complete_transaction c h in
        (r ≡ ok tt)
        × ((u d : String)
            → balance u d h'.store ≡ (
                if c.user_id == u && c.currency == d
                then fl.add (balance c.user_id c.currency h.store) (fl.sub c.amount c.fee)
                else balance u d h.store))
  unfolding complete_transaction update_transaction_status
  complete_credit c h tx found credit = elim (Bool-cases c.has_webhook) [
    | inl hooked ↦
        let s : MemoryStorage F Raw = record h.store {
          transactions =
              insert c.tx_id (record tx { status = transaction_status_completed })
                h.store.transactions;
        } in
        let net = fl.sub c.amount c.fee in
        let law = λ (u d : String). balance-add_balance c.user_id c.currency u d net s in
        let still = λ (u d : String). balance_of_balances u d s h.store refl in
        let after : (complete_transaction c h).1.store
            ≡ (add_balance c.user_id c.currency net s).1 =
          rw (complete_transaction, hooked, found, credit, (law c.user_id c.currency).0)
            (store-send_async _ _ _ _) in
        (
          rw (complete_transaction, hooked, found, credit, (law c.user_id c.currency).0) refl,
          λ u d.
              ap (λ t. balance u d t) after
              ∙ (law u d).1
              ∙ rw (still c.user_id c.currency, still u d) refl,
        )
    | inr silent ↦
        let net = fl.sub c.amount c.fee in
        let law = λ (u d : String). balance-add_balance c.user_id c.currency u d net h.store in
        let after : (complete_transaction c h).1.store
            ≡ (add_balance c.user_id c.currency net h.store).1 =
          rw (complete_transaction, silent, credit, (law c.user_id c.currency).0) refl in
        (
          rw (complete_transaction, silent, credit, (law c.user_id c.currency).0) refl,
          λ u d. ap (λ t. balance u d t) after ∙ (law u d).1,
        )
  ]

  transactions-add_balance :
      (u c : String) (x : F) (s : MemoryStorage F Raw)
      → (add_balance u c x s).1.transactions ≡ s.transactions
  unfolding add_balance
  transactions-add_balance u c x s = refl

  -- Completing a stored transaction that is no debit marks it completed only where a webhook is
  -- configured. Where none is, its record stays as it was, its status with it.
  pub complete_credit_status :
      (c : Completion F) (h : Handler F Raw) (tx : Transaction)
      → lookup c.tx_id h.store.transactions ≡ some tx
      → c.is_debit ≡ false
      → lookup c.tx_id (complete_transaction c h).1.store.transactions
        ≡ some (if c.has_webhook then record tx { status = transaction_status_completed } else tx)
  unfolding complete_transaction update_transaction_status
  complete_credit_status c h tx found credit = elim (Bool-cases c.has_webhook) [
    | inl hooked ↦
        let marked : Transaction = record tx { status = transaction_status_completed } in
        let s : MemoryStorage F Raw = record h.store {
          transactions = insert c.tx_id marked h.store.transactions;
        } in
        let net = fl.sub c.amount c.fee in
        let fine = (balance-add_balance c.user_id c.currency "" "" net s).0 in
        let after : (complete_transaction c h).1.store
            ≡ (add_balance c.user_id c.currency net s).1 =
          rw (complete_transaction, hooked, found, credit, fine) (store-send_async _ _ _ _) in
        ap (λ t. lookup c.tx_id t.transactions) after
        ∙ ap (λ m. lookup c.tx_id m) (transactions-add_balance c.user_id c.currency net s)
        ∙ lookup-insert_self c.tx_id marked h.store.transactions
        ∙ rw hooked refl
    | inr silent ↦
        let net = fl.sub c.amount c.fee in
        let fine = (balance-add_balance c.user_id c.currency "" "" net h.store).0 in
        let after : (complete_transaction c h).1.store
            ≡ (add_balance c.user_id c.currency net h.store).1 =
          rw (complete_transaction, silent, credit, fine) refl in
        ap (λ t. lookup c.tx_id t.transactions) after
        ∙ ap (λ m. lookup c.tx_id m) (transactions-add_balance c.user_id c.currency net h.store)
        ∙ found
        ∙ rw silent refl
  ]
