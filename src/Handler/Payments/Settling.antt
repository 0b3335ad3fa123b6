-- ===== src/Handler/Payments/Settling.antt =====
-- A withdrawal of the iframe that settles later, from its request to its completion.
use mockgatehub.Prelude.{
  String, ◌≡◌, refl, ap, sym, subst, ◌∙◌, true, some, ◌==◌, ◌&&◌, arith, if◌then◌else◌, inl, inr,
}
use mockgatehub.Prelude.Result.{ok}
use mockgatehub.Float64.{Float64}
use mockgatehub.Models.{Transaction}
use mockgatehub.Consts.{transaction_status_pending, event_withdrawal_completed}
use mockgatehub.Storage.Transactions.{create_transaction}
use mockgatehub.Storage.Transactions.Keyed.{TransactionsKeyed, create_transaction-TransactionsKeyed}
use mockgatehub.Storage.Balances.Laws.{balance, balance_of_balances}
use mockgatehub.Handler.State.{Handler}
use mockgatehub.Handler.Withdrawals.{settle_withdrawal}
use mockgatehub.Handler.Withdrawals.Settled.{settle_completed}
use mockgatehub.Handler.Payments.{
  TransactionRequest, Fresh, process_withdrawal, withdrawal_record, extract_user_from_bearer,
}
use mockgatehub.Handler.Payments.Withdrawal.{withdrawal_tests, book, fee_on, total_of}
use mockgatehub.Handler.Payments.Charges.{withdrawal_later, create_transaction_parts}

module _ {F Raw : Type 0} ⦃fl : Float64 F⦄ where
  book_later_store :
      (fresh : Fresh) (u c : String) (total : F) (tx : Transaction) (h : Handler F Raw)
      → tx.id ≡ fresh.tx_id
      → tx.created_at ≡ 0
      → (book true fresh u c total tx h).1.store
        ≡ (create_transaction fresh.tx_id fresh.now tx h.store).1
  book_later_store fresh u c total tx h e z =
      let (made, _, _) = create_transaction_parts fresh.tx_id fresh.now tx h.store e z in
      ground (arith, made)

  withdrawal_later-TransactionsKeyed :
      (fresh : Fresh) (bearer id : String) (req : TransactionRequest) (h : Handler F Raw)
      → h.settings.async_withdrawals ≡ true
      → TransactionsKeyed h.store
      → (process_withdrawal fresh bearer req h).0 ≡ ok id
      → TransactionsKeyed (process_withdrawal fresh bearer req h).1.store
  withdrawal_later-TransactionsKeyed fresh bearer id req h later keyed r =
      elim (withdrawal_tests fresh bearer req h) [
        | inl (same, refused) ↦ absurd (refused id r)
        | inr (wallet, amount, parsed, enough, passed) ↦
            let user = extract_user_from_bearer bearer h in
            let tx =
              withdrawal_record fresh user req wallet.address amount (fee_on user amount h)
                transaction_status_pending in
            let way : process_withdrawal fresh bearer req h
                ≡ book true fresh user req.currency (total_of user amount h) tx h =
              passed ∙ rw later refl in
            subst TransactionsKeyed
              (sym (
                ap (λ p. p.1.store) way
                ∙ book_later_store fresh user req.currency (total_of user amount h) tx h refl refl))
              (create_transaction-TransactionsKeyed fresh.tx_id fresh.now tx h.store keyed)
      ]

  -- Where withdrawals settle later and every transaction is stored under its own ID: an accepted
  -- withdrawal whose completion is accepted next had an amount that parses, and together the two take
  -- from the user's balance exactly the number that the printed sum of amount and fee is read as. Every
  -- other balance stays.
  pub withdrawal_settles :
      (fresh : Fresh) (bearer id : String) (req : TransactionRequest) (h : Handler F Raw)
      → h.settings.async_withdrawals ≡ true
      → TransactionsKeyed h.store
      → (process_withdrawal fresh bearer req h).0 ≡ ok id
      → (settle_withdrawal id event_withdrawal_completed
          (process_withdrawal fresh bearer req h).1).0
        ≡ ok tt
      → let h' = (process_withdrawal fresh bearer req h).1 in
        let settled = (settle_withdrawal id event_withdrawal_completed h').1 in
        let user = extract_user_from_bearer bearer h in
        (amount : F) × (charged : F) × (fl.parse req.amount ≡ some amount)
        × (fl.parse (fl.format (total_of user amount h)) ≡ some charged)
        × ((u c : String)
            → balance u c settled.store ≡ (
                if user == u && req.currency == c
                then fl.sub (balance user req.currency h.store) charged
                else balance u c h.store))
  withdrawal_settles fresh bearer id req h later keyed r done =
      let h' = (process_withdrawal fresh bearer req h).1 in
      let user = extract_user_from_bearer bearer h in
      let (amount, address, parsed, _, balances, booked) =
        withdrawal_later fresh bearer id req h later r in
      let keyed' = withdrawal_later-TransactionsKeyed fresh bearer id req h later keyed r in
      let (tx, total, found, _, _, read, _, moved, _) = settle_completed id h' keyed' done in
      let booked_tx : Transaction =
        record (withdrawal_record fresh user req address amount (fee_on user amount h)
          transaction_status_pending) { created_at = fresh.now } in
      let same : tx ≡ booked_tx = cc (found, booked) in
      let still = λ (u c : String). balance_of_balances u c h'.store h.store balances in
      (
        amount,
        total,
        parsed,
        ap (λ (t : Transaction). fl.parse t.total_amount) (sym same) ∙ read,
        λ u c.
            moved u c
            ∙ ap
                (λ (t : Transaction).
                  if t.user_id == u && t.currency == c
                  then fl.sub (balance t.user_id t.currency h'.store) total
                  else balance u c h'.store)
                same
            ∙ rw (still user req.currency, still u c) refl,
      )
