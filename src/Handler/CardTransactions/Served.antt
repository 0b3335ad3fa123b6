-- ===== src/Handler/CardTransactions/Served.antt =====
-- What is read of a simulated transaction.
use mockgatehub.Prelude.{
  ℕ, String, ◌≡◌, inl, inr, refl, ap, ◌∙◌, sym, subst, false, some, arith, List, [], ◌∷◌, ◌++◌,
  ◌==◌, Bool-cases, not, ◌+◌, ◌&&◌, Option-cases,
}
use mockgatehub.Prelude.GoMap.{lookup}
use mockgatehub.Prelude.Result.{ok, err, Result-cases}
use mockgatehub.Consts.{event_card_transaction, event_card_transaction_authorization}
use mockgatehub.Storage.Users.{get_user}
use mockgatehub.Storage.Cards.{get_card}
use mockgatehub.Storage.{MemoryStorage}
use mockgatehub.Storage.Customers.{list_or_nil}
use mockgatehub.Storage.CardTransactions.{
  next_card_transaction_seq_id, get_card_transaction_ids, get_raw_card_transaction,
}
use mockgatehub.Handler.State.{Handler, ApiError, bad_request, internal_err}
use mockgatehub.Handler.CardTransactions.Simulation.{
  TransactionJson, CardTxScenario, SimulateCardTransactionRequest, SimulateCardTransactionResult,
  find_card_scenario, materialise_card_transaction, emit_card_transaction_webhook,
}
use mockgatehub.Handler.CardTransactions.{
  simulate_card_transaction, run_scenario, checked_request, checked_event,
  handle_get_card_transaction, served_transaction,
}
use mockgatehub.Handler.CardTransactions.Simulated.{materialise-IsIdentified}
use mockgatehub.Handler.CardTransactions.Stored.{
  IsListed, with_transaction, store_simulated_parts, with_transaction-IsListed, keeps_store-emit,
}

module _ {V F Raw : Type 0} (j : TransactionJson V Raw) where
  checked_request-given :
      (to_lower : String → String) (catalogue : List (CardTxScenario Raw))
      (req : SimulateCardTransactionRequest V) (h : Handler F Raw) (scenario : CardTxScenario Raw)
      → (checked_request to_lower catalogue req h).0 ≡ ok scenario
      → (req.card_id == "") ≡ false
  unfolding checked_request
  checked_request-given to_lower catalogue req h scenario fine =
      let refused : (e : ApiError) → (checked_request to_lower catalogue req h).0 ≡ err e → ⊥ =
        λ e bad. ground arith in
      elim (Bool-cases (req.card_id == "")) [
        | inr given ↦ given
        | inl empty ↦ elim (Bool-cases (req.user_id == "")) [
          | inl nobody ↦
              absurd
                (refused (bad_request "userId is required") (rw (checked_request, nobody) refl))
          | inr somebody ↦ absurd (
              refused (bad_request "cardId is required")
                (rw (checked_request, somebody, empty) refl))
        ]
      ]

  run_scenario-IsListed :
      (sha256 : String → List ℕ) (tx_id created_at : String)
      (req : SimulateCardTransactionRequest V) (scenario : CardTxScenario Raw) (h : Handler F Raw)
      (result : SimulateCardTransactionResult Raw)
      → (req.card_id == "") ≡ false
      → (run_scenario j sha256 tx_id created_at req scenario h).0 ≡ ok result
      → (result.transaction_id ≡ tx_id)
        × IsListed req.card_id tx_id result.transaction
            (list_or_nil (lookup req.card_id h.store.card_transactions_by_card))
            (run_scenario j sha256 tx_id created_at req scenario h).1.store
  unfolding run_scenario next_card_transaction_seq_id get_card_transaction_ids
  run_scenario-IsListed sha256 tx_id created_at req scenario h result given fine =
      let refused : (e : ApiError)
          → (run_scenario j sha256 tx_id created_at req scenario h).0 ≡ err e
          → ⊥ =
        λ e bad. ground arith in
      let seq_id = h.store.card_tx_seq_id + 1 in
      let h1 : Handler F Raw = record h { store = record (h.store) { card_tx_seq_id = seq_id } } in
      elim (Result-cases (
        materialise_card_transaction j sha256 tx_id created_at scenario.payload req.overrides seq_id
          req.card_id)) [
            | inl (e, bad) ↦ absurd (
                refused (internal_err "failed to build transaction from scenario")
                  (rw (run_scenario, next_card_transaction_seq_id, bad) refl))
            | inr (made, good) ↦ elim (store_simulated_parts req.card_id made h1 given) [
              | inl (e, bad) ↦
                  absurd
                    (refused e (rw (run_scenario, next_card_transaction_seq_id, good, bad) refl))
              | inr stored ↦
                  let h2 : Handler F Raw = record h1 {
                    store = with_transaction req.card_id made h1.store;
                  } in
                  let expected : SimulateCardTransactionResult Raw = record {
                    scenario = scenario.key;
                    event = checked_event req;
                    transaction_id = made.tx_id;
                    transaction = made.raw;
                  } in
                  let ran : run_scenario j sha256 tx_id created_at req scenario h ≡ (
                    ok expected,
                    emit_card_transaction_webhook j (checked_event req) req made.raw made.tx_id h2,
                  ) =
                    rw (run_scenario, next_card_transaction_seq_id, good, stored) refl in
                  let same_ok = sym (ap (λ x. x.0) ran) ∙ fine in
                  let same : expected ≡ result = ground arith in
                  let identified =
                    materialise-IsIdentified j sha256 tx_id created_at scenario.payload
                      req.overrides seq_id req.card_id made good in
                  let left : (run_scenario j sha256 tx_id created_at req scenario h).1.store
                      ≡ with_transaction req.card_id made h1.store =
                    ap (λ x. x.1.store) ran
                    ∙ keeps_store-emit j (checked_event req) req made.raw made.tx_id h2 in
                  let stored_in = with_transaction req.card_id made h1.store in
                  let L : String → Raw → MemoryStorage F Raw → Type 0 = λ id raw s.
                    IsListed req.card_id id raw
                      (list_or_nil (lookup req.card_id h.store.card_transactions_by_card)) s in
                  let listed = with_transaction-IsListed req.card_id made h1.store in
                  (
                    sym (ap (λ (r : SimulateCardTransactionResult Raw). r.transaction_id) same)
                        ∙ identified.0,
                    subst (λ s. L tx_id result.transaction s) (sym left)
                        (subst (λ raw. L tx_id raw stored_in)
                          (ap (λ (r : SimulateCardTransactionResult Raw). r.transaction) same)
                          (subst (λ id. L id made.raw stored_in) identified.0 listed)),
                  )
            ]
          ]

  checked_request-keeps :
      (to_lower : String → String) (catalogue : List (CardTxScenario Raw))
      (req : SimulateCardTransactionRequest V) (h : Handler F Raw)
      → (checked_request to_lower catalogue req h).1 ≡ h
  unfolding checked_request get_user get_card
  checked_request-keeps to_lower catalogue req h =
      let event = checked_event req in
      elim (Bool-cases (req.user_id == "")) [
        | inl a ↦ rw (checked_request, a) refl
        | inr a ↦ elim (Bool-cases (req.card_id == "")) [
          | inl b ↦ rw (checked_request, a, b) refl
          | inr b ↦ elim (Bool-cases (req.scenario == "")) [
            | inl d ↦ rw (checked_request, a, b, d) refl
            | inr d ↦ elim (Option-cases (lookup req.user_id h.store.users)) [
              | inl e ↦ rw (checked_request, get_user, a, b, d, e) refl
              | inr (_, e) ↦ elim (Option-cases (lookup req.card_id h.store.cards)) [
                | inl f ↦ rw (checked_request, get_user, get_card, a, b, d, e, f) refl
                | inr (_, f) ↦
                    elim (Option-cases (find_card_scenario to_lower catalogue req.scenario)) [
                      | inl g ↦ rw (checked_request, get_user, get_card, a, b, d, e, f, g) refl
                      | inr (_, g) ↦
                          elim (Bool-cases (
                            not (event == event_card_transaction_authorization)
                            && not (event == event_card_transaction))) [
                              | inl k ↦
                                  rw (checked_request, get_user, get_card, a, b, d, e, f, g, k) refl
                              | inr k ↦
                                  rw (checked_request, get_user, get_card, a, b, d, e, f, g, k) refl
                            ]
                    ]
              ]
            ]
          ]
        ]
      ]

  -- After a simulation that succeeded the transaction is served: it has the new ID, the endpoint of
  -- transactions answers the ID with the JSON that the simulation returned, unless that is empty, and the
  -- ID stands at the end of the list of its card. The webhook that was sent changes none of it.
  pub simulated_is_served :
      (to_lower : String → String) (sha256 : String → List ℕ)
      (catalogue : List (CardTxScenario Raw)) (tx_id created_at : String)
      (req : SimulateCardTransactionRequest V) (h : Handler F Raw)
      (result : SimulateCardTransactionResult Raw)
      → (simulate_card_transaction j to_lower sha256 catalogue tx_id created_at req h).0 ≡ ok result
      → j.is_empty result.transaction ≡ false
      → let h' = (simulate_card_transaction j to_lower sha256 catalogue tx_id created_at req h).1 in
        (result.transaction_id ≡ tx_id)
        × ((handle_get_card_transaction j tx_id h').0 ≡ ok (some result.transaction))
        × ((get_card_transaction_ids req.card_id h'.store).0
            ≡ ok (list_or_nil (lookup req.card_id h.store.card_transactions_by_card) ++ tx_id ∷ []))
  unfolding simulate_card_transaction handle_get_card_transaction served_transaction
      get_raw_card_transaction
  simulated_is_served to_lower sha256 catalogue tx_id created_at req h result fine full =
      let refused : (e : ApiError)
          → (simulate_card_transaction j to_lower sha256 catalogue tx_id created_at req h).0 ≡ err e
          → ⊥ =
        λ e bad. ground arith in
      elim (Result-cases (checked_request to_lower catalogue req h).0) [
        | inl (e, bad) ↦ absurd (refused e (rw (simulate_card_transaction, bad) refl))
        | inr (scenario, good) ↦
            let given = checked_request-given to_lower catalogue req h scenario good in
            let same = checked_request-keeps to_lower catalogue req h in
            let ran : simulate_card_transaction j to_lower sha256 catalogue tx_id created_at req h
                ≡ run_scenario j sha256 tx_id created_at req scenario h =
              rw (simulate_card_transaction, good, same) refl in
            let (own, listed) =
              run_scenario-IsListed sha256 tx_id created_at req scenario h result given
                (ap (λ x. x.0) (sym ran) ∙ fine) in
            (
              own,
              rw
                  (
                    ran, handle_get_card_transaction, served_transaction, get_raw_card_transaction,
                    listed.read, full,
                  )
                  refl,
              rw (ran) listed.listed,
            )
      ]
