-- ===== src/Handler/Transfers/Created.antt =====
-- What a created transaction and the goroutine that completes it have in common.
use mockgatehub.Prelude.{
  String, ◌≡◌, ◌⊎◌, inl, inr, refl, ap, sym, ◌∙◌, subst, Bool, false, Option, none, some, ◌==◌,
  ◌||◌, ◌&&◌, arith, Bool-cases, if◌then◌else◌,
}
use mockgatehub.Prelude.Result.{Result, ok, err, Result-cases, pure}
use mockgatehub.Prelude.GoMap.{lookup, lookup-insert_self}
use mockgatehub.Float64.{Float64}
use mockgatehub.Models.{Time, Transaction}
use mockgatehub.Consts.{deposit_type_external, deposit_type_hosted}
use mockgatehub.Storage.{MemoryStorage}
use mockgatehub.Storage.Transactions.{create_transaction}
use mockgatehub.Storage.Balances.Laws.{balance}
use mockgatehub.Handler.State.{Handler, Action, ApiError, bad_request, not_found, has_url}
use mockgatehub.Handler.Payments.Withdrawal.{reads_user}
use mockgatehub.Handler.Transfers.{
  CreateTransactionRequest, Completion, handle_create_transaction, complete_transaction,
  resolve_user, resolve_currency, requested, completion_of, fee_of, deposit_type_of,
}
use mockgatehub.Handler.Transfers.Completed.{complete_credit}

both :
    {A B : Type 0} {a a' : A} {b b' : B}
    → ◌≡◌ {A = Result ApiError (A × Option B)} (ok (a, some b)) (ok (a', some b'))
    → (a ≡ a') × (b ≡ b')
both e = (cc, cc)

module _ {F : Type 0} ⦃fl : Float64 F⦄ where
  -- the transaction that is stored
  abbrev kept :
      String → Time → CreateTransactionRequest F → (user currency : String) → F → Transaction
  kept fresh now req user currency fee = record (requested req user currency fee) {
    id = fresh;
    created_at = now;
  }

module _ {F Raw : Type 0} ⦃fl : Float64 F⦄ where
  -- what the goroutine captures of the transaction that was stored
  record Captures (req : CreateTransactionRequest F) (h h1 : Handler F Raw) (tx : Transaction)
      (c : Completion F) : Type 0 where
    tx_id : c.tx_id ≡ tx.id
    user_id : c.user_id ≡ tx.user_id
    currency : c.currency ≡ tx.currency
    amount : c.amount ≡ req.amount
    amount_text : fl.format req.amount ≡ tx.amount
    fee_text : fl.format c.fee ≡ tx.fee
    balances : h1.store.balances ≡ h.store.balances
    stored : lookup tx.id h1.store.transactions ≡ some tx

  create_transaction-stored :
      (fresh : String) (now : Time) (tx : Transaction) (s : MemoryStorage F Raw)
      → tx.id ≡ ""
      → tx.created_at ≡ 0
      → let (r, s') = create_transaction fresh now tx s in
        let kept : Transaction = record tx { id = fresh; created_at = now } in
        (r ≡ ok kept) × (s'.balances ≡ s.balances) × (lookup fresh s'.transactions ≡ some kept)
  unfolding create_transaction
  create_transaction-stored fresh now tx s e z =
      let kept : Transaction = record tx { id = fresh; created_at = now } in
      (
        rw (create_transaction, e, z) refl,
        refl,
        rw (create_transaction, e, z) (lookup-insert_self fresh kept s.transactions),
      )

  -- the handler that a transaction is stored in
  abbrev keeping : String → Time → Transaction → Handler F Raw → Handler F Raw
  keeping fresh now tx h = record h { store = (create_transaction fresh now tx h.store).1 }

  -- what is left to do once the transaction is stored
  abbrev started :
      CreateTransactionRequest F
      → Transaction
      → Completion F
      → Bool
      → Action F Raw (Transaction × Option (Completion F))
  started req tx c hooked =
      if deposit_type_of req == deposit_type_external || deposit_type_of req == deposit_type_hosted
      then if hooked
        then pure (tx, some c)
        else (λ h. (ok (tx, none), (complete_transaction c h).1))
      else pure (tx, none)

  started-some :
      (req : CreateTransactionRequest F) (tx tx' : Transaction) (c c' : Completion F)
      (hooked : Bool) (h : Handler F Raw)
      → (started req tx c hooked h).0 ≡ ok (tx', some c')
      → (tx ≡ tx') × (c ≡ c') × ((started req tx c hooked h).1 ≡ h)
  started-some req tx tx' c c' hooked h r =
      let is_timed =
        deposit_type_of req == deposit_type_external
        || deposit_type_of req == deposit_type_hosted in
      elim (Bool-cases is_timed) [
        | inl timed ↦ elim (Bool-cases hooked) [
          | inl now ↦
              let (same, on) = both (rw (timed, now) at r) in (same, on, rw (timed, now) refl)
          | inr silent ↦ absurd (ground arith)
        ]
        | inr other ↦ absurd (ground arith)
      ]

  -- A request fails a test, or has its transaction stored.
  handle_create_transaction_tests :
      (fresh : String) (now : Time) (header : String) (req : CreateTransactionRequest F)
      (h : Handler F Raw)
      → let user = resolve_user req header h in
        let fee = fee_of req user h in
        ((e : ApiError) × ((handle_create_transaction fresh now header req h).0 ≡ err e))
        ⊎ ((currency : String) × let h1 = keeping fresh now (requested req user currency fee) h in
              let tx = kept fresh now req user currency fee in
              handle_create_transaction fresh now header req h
              ≡ started req tx (completion_of req user currency fee tx h1) (has_url h1) h1)
  unfolding handle_create_transaction
  handle_create_transaction_tests fresh now header req h =
      let user = resolve_user req header h in
      elim (Bool-cases (user == "")) [
        | inl named ↦ inl (
          bad_request
              "user_id is required (provide in body, x-gatehub-managed-user-uuid header, or use a valid receiving_address)",
          rw (handle_create_transaction, named) refl,
        )
        | inr named ↦ elim (Bool-cases (fl.lt req.amount fl.zero || fl.eq req.amount fl.zero)) [
          | inl fine ↦ inl (
            bad_request "amount must be positive",
            rw (handle_create_transaction, named, fine) refl,
          )
          | inr fine ↦ elim (Result-cases (resolve_currency req.currency req.vault_uuid)) [
            | inl (e, unknown) ↦ inl (e, rw (handle_create_transaction, named, fine, unknown) refl)
            | inr (currency, known) ↦ elim (reads_user user h.store) [
              | inl gone ↦ inl (
                not_found "User not found",
                rw (handle_create_transaction, named, fine, known, gone) refl,
              )
              | inr (p, found) ↦
                  let tx = requested req user currency (fee_of req user h) in
                  let (made, _, _) = create_transaction-stored fresh now tx h.store refl refl in
                  inr
                    (currency, rw (handle_create_transaction, named, fine, known, found, made) refl)
            ]
          ]
        ]
      ]

  handle_create_transaction-Captures :
      (fresh : String) (now : Time) (header : String) (req : CreateTransactionRequest F)
      (h : Handler F Raw) (tx : Transaction) (c : Completion F)
      → (handle_create_transaction fresh now header req h).0 ≡ ok (tx, some c)
      → Captures req h (handle_create_transaction fresh now header req h).1 tx c
  handle_create_transaction-Captures fresh now header req h tx c r =
      elim (handle_create_transaction_tests fresh now header req h) [
        | inl (e, bad) ↦ absurd (ground (arith, r, bad))
        | inr (currency, way) ↦
            let user = resolve_user req header h in
            let fee = fee_of req user h in
            let asked = requested req user currency fee in
            let h1 = keeping fresh now asked h in
            let stored = kept fresh now req user currency fee in
            let completion = completion_of req user currency fee stored h1 in
            let (made, same, held) = create_transaction-stored fresh now asked h.store refl refl in
            let (is_stored, is_started, is_left) =
              started-some req stored tx completion c (has_url h1) h1
                (ap (λ p. p.0) (sym way) ∙ r) in
            let captured : Captures req h h1 stored completion = record {
              tx_id = refl;
              user_id = refl;
              currency = refl;
              amount = refl;
              amount_text = refl;
              fee_text = refl;
              balances = same;
              stored = held;
            } in
            subst (λ x. Captures req h x tx c) (sym (ap (λ p. p.1) way ∙ is_left))
              (subst (λ t. Captures req h h1 t c) is_stored
                (subst (Captures req h h1 stored) is_started captured))
      ]

  -- A transaction that was created and whose completion was started is stored under its ID, with the
  -- amount of the request and the fee as texts, and no balance has moved. Whatever has happened
  -- until the completion runs, if the transaction is still stored then and is no debit, the
  -- completion succeeds: it adds the requested amount less that fee to the balance of the
  -- transaction's user in the transaction's currency, and leaves every other balance.
  pub created_credit :
      (fresh : String) (now : Time) (header : String) (req : CreateTransactionRequest F)
      (h later : Handler F Raw) (tx known : Transaction) (c : Completion F)
      → (handle_create_transaction fresh now header req h).0 ≡ ok (tx, some c)
      → c.is_debit ≡ false
      → lookup tx.id later.store.transactions ≡ some known
      → let h1 = (handle_create_transaction fresh now header req h).1 in
        let (done, h2) = complete_transaction c later in
        (lookup tx.id h1.store.transactions ≡ some tx)
        × (fl.format req.amount ≡ tx.amount)
        × (fl.format c.fee ≡ tx.fee)
        × (h1.store.balances ≡ h.store.balances)
        × (done ≡ ok tt)
        × ((u d : String)
            → balance u d h2.store ≡ (
                if tx.user_id == u && tx.currency == d
                then fl.add (balance tx.user_id tx.currency later.store) (fl.sub req.amount c.fee)
                else balance u d later.store))
  created_credit fresh now header req h later tx known c r credit still =
      let captured = handle_create_transaction-Captures fresh now header req h tx c r in
      let (done, moved) = complete_credit c later known (rw captured.tx_id still) credit in
      (
        captured.stored,
        captured.amount_text,
        captured.fee_text,
        captured.balances,
        done,
        rw (← captured.user_id, ← captured.currency, ← captured.amount) moved,
      )
