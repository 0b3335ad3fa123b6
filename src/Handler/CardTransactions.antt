-- ===== src/Handler/CardTransactions.antt =====
-- Card transactions: internal/handler/cardtx_admin.go, which makes them from the scenarios of
-- internal/handler/cardscenarios.go, and their endpoints in internal/handler/cards.go. The catalogue of
-- scenarios is an argument, a list; so are `strings.ToLower`, the hash and what a request generates.
pub mod Simulation
pub mod Record
pub mod Simulated
pub mod Stored
pub mod Served
use Prim.Native.String.{◌++◌}
use mockgatehub.Prelude.{
  ℕ, suc, String, Bool, true, false, Option, none, some, List, [], ◌∷◌, ◌+◌, ◌*◌, ◌%◌, length,
  nat_beq, ◌==◌, ◌&&◌, ◌||◌, not, if◌then◌else◌,
}
use mockgatehub.Prelude.Int.{ℤ, pos}
use mockgatehub.Prelude.GoMap.{GoMap, insert, lookup}
use mockgatehub.Prelude.Result.{
  Result, ok, err, of_option, map_err, ◌>>=◌, ◌>>◌, raise_if, lift, modify, pure, ignore_err,
}
use mockgatehub.Models.{CardTransaction}
use mockgatehub.Consts.{
  card_tx_status_processing, card_tx_status_completed, card_tx_status_reversed,
  card_tx_status_declined, event_card_transaction_authorization, event_card_transaction,
}
use mockgatehub.Storage.Users.{get_user}
use mockgatehub.Storage.Cards.{get_card}
use mockgatehub.Storage.CardTransactions.{
  create_card_transaction, get_card_transaction, update_card_transaction_status,
  store_raw_card_transaction, get_raw_card_transaction, next_card_transaction_seq_id,
  add_card_transaction_index, get_card_transaction_ids,
}
use mockgatehub.Handler.State.{
  Handler, Action, bad_request, not_found, internal_err, call, call_or, send_async,
}
use mockgatehub.Handler.Pages.{paginate, total_pages}
use mockgatehub.Handler.CardTokens.{on_ok}
use mockgatehub.Handler.CardPins.Texts.{trim_space, trim_left, trim_right}
use mockgatehub.Handler.CardTransactions.Simulation.{
  TransactionJson, CardTxScenario, SimulateCardTransactionRequest, SimulateCardTransactionResult,
  Materialised, find_card_scenario, is_known_card_tx_status, numeric_card_id,
  materialise_card_transaction, emit_card_transaction_webhook,
}
use mockgatehub.Handler.CardTransactions.Record.{
  CreateCardTransactionArgs, card_uuid_of, new_transaction,
}

abbrev pub checked_event : {V : Type 0} → SimulateCardTransactionRequest V → String
checked_event req = if req.event == "" then event_card_transaction_authorization else req.event

module _ {Raw : Type 0} where
  -- what is stored of a transaction that was made
  unfoldable pub store_simulated :
      {F : Type 0} → String → Materialised Raw → Action F Raw (Unit {0})
  store_simulated card_id made = do
    call_or (λ _. internal_err "failed to create transaction") (create_card_transaction made.tx)
    call_or (λ _. internal_err "failed to store transaction payload")
        (store_raw_card_transaction made.tx_id made.raw)
    ignore_err (call (add_card_transaction_index card_id made.tx_id))

module _ {V Raw : Type 0} where
  -- The checks of a request, up to its scenario and its event.
  unfoldable pub checked_request :
      {F : Type 0}
      → (String → String)
      → List (CardTxScenario Raw)
      → SimulateCardTransactionRequest V
      → Action F Raw (CardTxScenario Raw)
  unfolding find_card_scenario
  checked_request to_lower catalogue req = do
    raise_if (req.user_id == "") (bad_request "userId is required")
    raise_if (req.card_id == "") (bad_request "cardId is required")
    raise_if (req.scenario == "") (
        bad_request
          "scenario is required; GET /admin/card-transactions/scenarios lists the available keys")
    call_or (λ _. not_found "user not found") (get_user req.user_id)
    call_or (λ _. not_found "card not found") (get_card req.card_id)
    scenario ← lift (
        of_option (find_card_scenario to_lower catalogue req.scenario)
          (bad_request ("unknown scenario " ++ req.scenario)))
    let event = checked_event req
    raise_if
        (not (event == event_card_transaction_authorization)
          && not (event == event_card_transaction))
        (bad_request (
          "unsupported event " ++ event
          ++ "; use cards.transaction.authorization or cards.transaction.event"))
    pure scenario

module _ {V Raw : Type 0} (j : TransactionJson V Raw) where
  unfoldable pub run_scenario :
      {F : Type 0}
      → (String → List ℕ)
      → String
      → String
      → SimulateCardTransactionRequest V
      → CardTxScenario Raw
      → Action F Raw (SimulateCardTransactionResult Raw)
  unfolding materialise_card_transaction store_simulated emit_card_transaction_webhook
  run_scenario sha256 tx_id created_at req scenario = do
    seq_id ←
        call_or (λ _. internal_err "failed to allocate transaction id") next_card_transaction_seq_id
    made ← lift (
        map_err (λ _. internal_err "failed to build transaction from scenario")
          (materialise_card_transaction j sha256 tx_id created_at scenario.payload req.overrides
            seq_id req.card_id))
    store_simulated req.card_id made
    modify (emit_card_transaction_webhook j (checked_event req) req made.raw made.tx_id)
    pure (record {
      scenario = scenario.key;
      event = checked_event req;
      transaction_id = made.tx_id;
      transaction = made.raw;
    })

  unfoldable pub simulate_card_transaction :
      {F : Type 0}
      → (String → String)
      → (String → List ℕ)
      → List (CardTxScenario Raw)
      → String
      → String
      → SimulateCardTransactionRequest V
      → Action F Raw (SimulateCardTransactionResult Raw)
  unfolding checked_request run_scenario
  simulate_card_transaction to_lower sha256 catalogue tx_id created_at req = do
    scenario ← checked_request to_lower catalogue req
    run_scenario sha256 tx_id created_at req scenario

  -- `body` is the status of the request.
  unfoldable pub set_card_transaction_status :
      {F : Type 0} → String → Option String → Action F Raw (Unit {0})
  unfolding is_known_card_tx_status
  set_card_transaction_status tx_id body = do
    raise_if (tx_id == "") (bad_request "txID is required")
    status ← lift (of_option body (bad_request "invalid request body"))
    raise_if (status == "") (bad_request "status is required")
    raise_if (not (is_known_card_tx_status status)) (bad_request ("unknown status " ++ status))
    call_or (λ _. not_found "card transaction not found") (get_card_transaction tx_id)
    call_or (λ _. internal_err "failed to update status")
        (update_card_transaction_status j.with_tx_status tx_id status)

  -- The JSON of a transaction: what was stored of it, unless that is empty, or its encoded record.
  -- none where there is no such transaction.
  unfoldable pub served_transaction :
      {F : Type 0} → String → Handler F Raw → Option (Result String Raw)
  served_transaction tx_id h =
      let encoded : Option (Result String Raw) = elim ((call (get_card_transaction tx_id) h).0) [
        | err _ ↦ none
        | ok tx ↦ some (j.marshal tx)
      ] in
      elim ((call (get_raw_card_transaction tx_id) h).0) [
        | err _ ↦ encoded
        | ok raw ↦ if j.is_empty raw then encoded else some (ok raw)
      ]

  -- An encoding that fails leaves an answer without a body, none here.
  unfoldable pub handle_get_card_transaction : {F : Type 0} → String → Action F Raw (Option Raw)
  unfolding served_transaction
  handle_get_card_transaction tx_id h = elim (served_transaction tx_id h) [
    | none ↦ (err (not_found "transaction not found"), h)
    | some (ok raw) ↦ (ok (some raw), h)
    | some (err e) ↦ (ok none, h)
  ]

  unfoldable pub collect_transactions : {F : Type 0} → List String → Handler F Raw → List Raw
  unfolding served_transaction
  collect_transactions [] h = []
  collect_transactions (tx_id ∷ tx_ids) h =
      let rest = collect_transactions tx_ids h in
      elim (served_transaction tx_id h) [
        | none ↦ rest
        | some (ok raw) ↦ raw ∷ rest
        | some (err e) ↦ rest
      ]

  -- The page, with the numbers of pages and of transactions. The page is none where the slice is out
  -- of range, which panics.
  unfoldable pub list_card_transactions :
      {F : Type 0} → String → ℤ × ℤ → Handler F Raw → Option (List Raw) × (ℕ × ℕ)
  unfolding collect_transactions
  list_card_transactions card_id (page_number, page_size) h =
      let all : List Raw = elim ((call (get_card_transaction_ids card_id) h).0) [
        | err _ ↦ []
        | ok tx_ids ↦ collect_transactions tx_ids h
      ] in
      (paginate all page_number page_size, (total_pages (length all) page_size, length all))

module _ {F Raw : Type 0} where
  abbrev index_by_card : String → String → Action F Raw (Unit {0})
  index_by_card card_uuid tx_id =
      if card_uuid == ""
      then pure tt
      else ignore_err (call (add_card_transaction_index card_uuid tx_id))

  -- `fresh` are the eight characters of a new UUID, `now` is the present time as text.
  unfoldable pub handle_create_card_transaction :
      (String → List ℕ)
      → String
      → String
      → Option CreateCardTransactionArgs
      → Action F Raw CardTransaction
  unfolding numeric_card_id
  handle_create_card_transaction sha256 fresh now body = do
    req ← lift (of_option body (bad_request "invalid request body"))
    seq_id ←
        call_or (λ _. internal_err "failed to allocate transaction id") next_card_transaction_seq_id
    let numeric = numeric_card_id sha256 (card_uuid_of req)
    let tx = new_transaction ("tx-" ++ fresh) now seq_id numeric req
    call_or (λ _. internal_err "failed to create transaction") (create_card_transaction tx)
    index_by_card (card_uuid_of req) ("tx-" ++ fresh)
    pure tx
