-- ===== src/Handler/Payments/Charges.antt =====
-- What a withdrawal of the iframe charges, and when.
use mockgatehub.Prelude.{
  ℕ, String, ◌≡◌, ◌⊎◌, inl, inr, refl, ap, sym, ◌∙◌, true, false, some, ◌==◌, ◌&&◌, arith, eq_iff,
  Bool-cases, if◌then◌else◌,
}
use mockgatehub.Prelude.Result.{ok, err}
use mockgatehub.Prelude.GoMap.{lookup, lookup-insert_self}
use mockgatehub.Float64.{Float64}
use mockgatehub.Models.{Transaction}
use mockgatehub.Consts.{transaction_status_pending, transaction_status_completed}
use mockgatehub.Storage.{MemoryStorage}
use mockgatehub.Storage.Transactions.{create_transaction, update_transaction_status}
use mockgatehub.Storage.Balances.Laws.{balance, balance-deduct_balance, balance_of_balances}
use mockgatehub.Handler.State.{Handler, ApiError, internal_err}
use mockgatehub.Handler.Withdrawals.Settlement.{transactions-deduct_balance}
use mockgatehub.Handler.Payments.{
  TransactionRequest, Fresh, process_withdrawal, charge_now, withdrawal_record,
  extract_user_from_bearer,
}
use mockgatehub.Handler.Payments.Withdrawal.{
  withdrawal_tests, book, fee_on, total_of, withdrawal_tx,
}

module _ {F Raw : Type 0} ⦃fl : Float64 F⦄ where
  -- What `CreateTransaction` leaves, for a transaction that has its ID and no time yet.
  pub create_transaction_parts :
      (fresh : String) (now : ℕ) (tx : Transaction) (s : MemoryStorage F Raw)
      → tx.id ≡ fresh
      → tx.created_at ≡ 0
      → let (r, s') = create_transaction fresh now tx s in
        (r ≡ ok (record tx { created_at = now }))
        × (s'.balances ≡ s.balances)
        × (lookup fresh s'.transactions ≡ some (record tx { created_at = now }))
  unfolding create_transaction
  create_transaction_parts fresh now tx s e z =
      let same : (if tx.id == "" then fresh else tx.id) ≡ fresh = ground (arith, eq_iff tx.id "") in
      let kept : Transaction = record tx {
        id = if tx.id == "" then fresh else tx.id;
        created_at = now;
      } in
      (
        ground (arith, eq_iff tx.id ""),
        refl,
        ground (arith, same, eq_iff tx.id "", lookup-insert_self fresh kept s.transactions),
      )

  book_later :
      (fresh : Fresh) (u c : String) (total : F) (tx : Transaction) (h : Handler F Raw)
      → tx.id ≡ fresh.tx_id
      → tx.created_at ≡ 0
      → let (r, h') = book true fresh u c total tx h in
        (r ≡ ok fresh.tx_id)
        × (h'.store.balances ≡ h.store.balances)
        × (lookup fresh.tx_id h'.store.transactions ≡ some (record tx { created_at = fresh.now }))
  book_later fresh u c total tx h e z =
      let (made, balances, kept) = create_transaction_parts fresh.tx_id fresh.now tx h.store e z in
      (ground (arith, made), ground (arith, made, balances), ground (arith, made, kept))

  book_now :
      (fresh : Fresh) (u c : String) (total : F) (tx : Transaction) (h : Handler F Raw)
      → tx.id ≡ fresh.tx_id
      → tx.created_at ≡ 0
      → let (r, h') = book false fresh u c total tx h in
        ((e : ApiError) × (r ≡ err e) × (h'.store.balances ≡ h.store.balances))
        ⊎ ((r ≡ ok fresh.tx_id)
            × (lookup fresh.tx_id h'.store.transactions
                ≡ some (record tx { created_at = fresh.now }))
            × (fl.lt (balance u c h.store) total ≡ false)
            × ((u' c' : String)
                → balance u' c' h'.store ≡ (
                    if u == u' && c == c'
                    then fl.sub (balance u c h.store) total
                    else balance u' c' h.store)))
  unfolding charge_now update_transaction_status
  book_now fresh u c total tx h e z =
      let (made, balances, kept) = create_transaction_parts fresh.tx_id fresh.now tx h.store e z in
      let s = (create_transaction fresh.tx_id fresh.now tx h.store).1 in
      let law = λ (u' c' : String). balance-deduct_balance u c u' c' total s in
      let still = λ (u' c' : String). balance_of_balances u' c' s h.store balances in
      elim (law u c) [
        | inl (gone, refused, same) ↦ inl (
          internal_err "Failed to deduct balance",
          ground (arith, made, refused),
          ground (arith, made, refused, same, balances),
        )
        | inr (inl (short, refused, same)) ↦ inl (
          internal_err "Failed to deduct balance",
          ground (arith, made, refused),
          ground (arith, made, refused, same, balances),
        )
        | inr (inr (known, enough, charged, moved)) ↦ inr (
          ground (arith, made, charged),
          ground (arith, made, charged, kept, transactions-deduct_balance u c total s),
          ground (arith, still u c, enough),
          λ u' c'. ground (arith, made, charged, law u' c', still u' c', still u c),
        )
      ]

  -- An accepted withdrawal, where withdrawals settle at once, had an amount that parses and that the
  -- user's balance covers together with the fee. It takes exactly the amount and the fee from that
  -- balance, leaves every other balance, and stores a completed record of it under the ID that it
  -- answers.
  pub withdrawal_now :
      (fresh : Fresh) (bearer id : String) (req : TransactionRequest) (h : Handler F Raw)
      → h.settings.async_withdrawals ≡ false
      → (process_withdrawal fresh bearer req h).0 ≡ ok id
      → let s' = (process_withdrawal fresh bearer req h).1.store in
        let user = extract_user_from_bearer bearer h in
        (amount : F) × (address : String) × (fl.parse req.amount ≡ some amount)
        × (fl.lt (balance user req.currency h.store) (total_of user amount h) ≡ false)
        × ((u c : String)
            → balance u c s' ≡ (
                if user == u && req.currency == c
                then fl.sub (balance user req.currency h.store) (total_of user amount h)
                else balance u c h.store))
        × (lookup id s'.transactions
            ≡ some
                (record (withdrawal_record fresh user req address amount
                  (fee_on user amount h)
                  transaction_status_completed) { created_at = fresh.now }))
  withdrawal_now fresh bearer id req h now r = elim (withdrawal_tests fresh bearer req h) [
    | inl (same, refused) ↦ absurd (refused id r)
    | inr (wallet, amount, parsed, enough, passed) ↦
        let user = extract_user_from_bearer bearer h in
        let tx =
          withdrawal_record fresh user req wallet.address amount (fee_on user amount h)
            transaction_status_completed in
        let way : process_withdrawal fresh bearer req h
            ≡ book false fresh user req.currency (total_of user amount h) tx h =
          passed ∙ rw now refl in
        elim (book_now fresh user req.currency (total_of user amount h) tx h refl refl) [
          | inl (e, bad, _) ↦ absurd (ground (arith, way, bad))
          | inr (answer, kept, _, moved) ↦
              let same : fresh.tx_id ≡ id = ground (arith, way, answer) in
              (
                amount,
                wallet.address,
                parsed,
                enough,
                λ u c. ap (λ p. balance u c p.1.store) way ∙ moved u c,
                ap (λ p. lookup id p.1.store.transactions) way
                    ∙ ap
                        (λ (i : String).
                          lookup i
                            (book false fresh user req.currency (total_of user amount h) tx
                              h).1.store.transactions)
                        (sym same)
                    ∙ kept,
              )
        ]
  ]

  -- An accepted withdrawal, where withdrawals settle later, had an amount that parses and that the
  -- user's balance covers together with the fee. It leaves every balance, and stores a pending record
  -- of it, with the total of amount and fee, under the ID that it answers.
  pub withdrawal_later :
      (fresh : Fresh) (bearer id : String) (req : TransactionRequest) (h : Handler F Raw)
      → h.settings.async_withdrawals ≡ true
      → (process_withdrawal fresh bearer req h).0 ≡ ok id
      → let s' = (process_withdrawal fresh bearer req h).1.store in
        let user = extract_user_from_bearer bearer h in
        (amount : F) × (address : String) × (fl.parse req.amount ≡ some amount)
        × (fl.lt (balance user req.currency h.store) (total_of user amount h) ≡ false)
        × (s'.balances ≡ h.store.balances)
        × (lookup id s'.transactions
            ≡ some
                (record (withdrawal_record fresh user req address amount
                  (fee_on user amount h)
                  transaction_status_pending) { created_at = fresh.now }))
  withdrawal_later fresh bearer id req h later r = elim (withdrawal_tests fresh bearer req h) [
    | inl (same, refused) ↦ absurd (refused id r)
    | inr (wallet, amount, parsed, enough, passed) ↦
        let user = extract_user_from_bearer bearer h in
        let tx =
          withdrawal_record fresh user req wallet.address amount (fee_on user amount h)
            transaction_status_pending in
        let way : process_withdrawal fresh bearer req h
            ≡ book true fresh user req.currency (total_of user amount h) tx h =
          passed ∙ rw later refl in
        let (answer, balances, kept) =
          book_later fresh user req.currency (total_of user amount h) tx h refl refl in
        let same : fresh.tx_id ≡ id = ground (arith, way, answer) in
        (
          amount,
          wallet.address,
          parsed,
          enough,
          ap (λ p. p.1.store.balances) way ∙ balances,
          ap (λ p. lookup id p.1.store.transactions) way
              ∙ ap
                  (λ (i : String).
                    lookup i
                      (book true fresh user req.currency (total_of user amount h) tx
                        h).1.store.transactions)
                  (sym same)
              ∙ kept,
        )
  ]

  -- A refused withdrawal moves no balance, whatever the reason and the mode.
  pub withdrawal_refused :
      (fresh : Fresh) (bearer : String) (req : TransactionRequest) (h : Handler F Raw)
      (e : ApiError)
      → (process_withdrawal fresh bearer req h).0 ≡ err e
      → (process_withdrawal fresh bearer req h).1.store.balances ≡ h.store.balances
  withdrawal_refused fresh bearer req h e r = elim (withdrawal_tests fresh bearer req h) [
    | inl (same, refused) ↦ ap (λ h'. h'.store.balances) same
    | inr (wallet, amount, parsed, enough, passed) ↦
        let user = extract_user_from_bearer bearer h in
        let tx = withdrawal_tx fresh user req wallet.address amount h in
        elim (Bool-cases h.settings.async_withdrawals) [
          | inl later ↦
              let way : process_withdrawal fresh bearer req h
                  ≡ book true fresh user req.currency (total_of user amount h) tx h =
                passed ∙ rw later refl in
              ap (λ p. p.1.store.balances) way
              ∙ (book_later fresh user req.currency (total_of user amount h) tx h refl refl).1
          | inr now ↦
              let way : process_withdrawal fresh bearer req h
                  ≡ book false fresh user req.currency (total_of user amount h) tx h =
                passed ∙ rw now refl in
              elim (book_now fresh user req.currency (total_of user amount h) tx h refl refl) [
                | inl (_, bad, balances) ↦ ap (λ p. p.1.store.balances) way ∙ balances
                | inr (answer, _, _, _) ↦ absurd (ground (arith, way, answer))
              ]
        ]
  ]
