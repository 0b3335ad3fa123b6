-- ===== src/Handler/CardTransactions/Simulation.antt =====
-- A transaction from a scenario: internal/handler/cardtx_admin.go and `findCardScenario` of
-- internal/handler/cardscenarios.go. `strings.ToLower`, SHA-256 and JSON are arguments.
use mockgatehub.Prelude.{
  ℕ, String, Bool, Option, none, some, List, [], ◌∷◌, ◌+◌, ◌*◌, ◌%◌, nat_beq, ◌==◌, ◌||◌,
  if◌then◌else◌,
}
use mockgatehub.Prelude.Int.{ℤ, pos}
use mockgatehub.Prelude.GoMap.{GoMap, insert}
use mockgatehub.Prelude.Result.{Result, ok, err}
use mockgatehub.Models.{CardTransaction}
use mockgatehub.Consts.{
  card_tx_status_processing, card_tx_status_completed, card_tx_status_reversed,
  card_tx_status_declined, event_card_transaction,
}
use mockgatehub.Handler.State.{Handler, send_async}
use mockgatehub.Handler.CardTokens.{on_ok}
use mockgatehub.Handler.CardPins.Texts.{trim_space, trim_left, trim_right}

-- What is used of JSON: V are the values of an object's fields.
pub record TransactionJson (V Raw : Type 0) : Type 0 where
  pub text : String → V
  pub number : ℤ → V
  pub unmarshal_fields : Raw → Result String (GoMap V)
  pub marshal_fields : GoMap V → Result String Raw
  pub unmarshal : Raw → Result String CardTransaction
  pub marshal : CardTransaction → Result String Raw
  pub with_tx_status : String → Raw → Option Raw
  pub is_empty : Raw → Bool
  pub shown : Raw → String

-- `Key` and `Payload`, which are what is read of a scenario
pub record CardTxScenario (Raw : Type 0) : Type 0 where
  pub key : String
  pub payload : Raw

pub record CardTxNotification : Type 0 where
  pub title : String
  pub body : String

pub record SimulateCardTransactionRequest (V : Type 0) : Type 0 where
  pub user_id : String
  pub card_id : String
  pub scenario : String
  pub overrides : GoMap V
  pub event : String
  pub notification : Option CardTxNotification

pub record SimulateCardTransactionResult (Raw : Type 0) : Type 0 where
  pub scenario : String
  pub event : String
  pub transaction_id : String
  pub transaction : Raw

unfoldable find_key :
    {Raw : Type 0} → String → List (CardTxScenario Raw) → Option (CardTxScenario Raw)
find_key want [] = none
find_key want (s ∷ catalogue) =
    let rest = find_key want catalogue in if s.key == want then some s else rest

unfoldable pub find_card_scenario :
    {Raw : Type 0}
    → (String → String)
    → List (CardTxScenario Raw)
    → String
    → Option (CardTxScenario Raw)
unfolding find_key trim_left trim_right
find_card_scenario to_lower catalogue key = find_key (to_lower (trim_space key)) catalogue

unfoldable pub is_known_card_tx_status : String → Bool
is_known_card_tx_status status =
    status == card_tx_status_processing
    || status == card_tx_status_completed
    || status == card_tx_status_reversed
    || status == card_tx_status_declined

-- the first four bytes of a hash as a number, without the highest bit
unfoldable pub leading_bits : List ℕ → ℕ
leading_bits (a ∷ b ∷ c ∷ d ∷ rest) = (a * 16_777_216 + b * 65_536 + c * 256 + d) % 2_147_483_648
leading_bits _ = 0

unfoldable pub numeric_card_id : (String → List ℕ) → String → ℕ
unfolding leading_bits
numeric_card_id sha256 card_uuid =
    let n = leading_bits (sha256 card_uuid) in
    if card_uuid == "" then 0 else if nat_beq n 0 then 1 else n

-- the fields of `overrides` over those of `fields`
unfoldable pub override_fields : {V : Type 0} → GoMap V → GoMap V → GoMap V
override_fields [] fields = fields
override_fields ((k, v) ∷ overrides) fields = override_fields overrides (insert k v fields)

-- What a simulation makes: the record, the JSON and the ID.
pub record Materialised (Raw : Type 0) : Type 0 where
  pub tx : CardTransaction
  pub raw : Raw
  pub tx_id : String

module _ {V Raw : Type 0} (j : TransactionJson V Raw) where
  -- the identity of the transaction, over all other fields
  abbrev pub with_identity : String → ℕ → ℕ → String → GoMap V → GoMap V
  with_identity tx_id seq_id numeric created_at fields = insert "createdAt" (j.text created_at) (
      insert "cardId" (j.number (pos numeric))
        (insert "id" (j.number (pos seq_id)) (insert "transactionId" (j.text tx_id) fields)))

  -- `tx_id` is a new UUID and `created_at` the present time as text.
  unfoldable pub materialise_card_transaction :
      (String → List ℕ)
      → String
      → String
      → Raw
      → GoMap V
      → ℕ
      → String
      → Result String (Materialised Raw)
  unfolding numeric_card_id override_fields
  materialise_card_transaction sha256 tx_id created_at payload overrides seq_id card_uuid =
      on_ok (j.unmarshal_fields payload) λ fields.
        on_ok
          (j.marshal_fields (
            with_identity tx_id seq_id (numeric_card_id sha256 card_uuid) created_at
              (override_fields overrides fields)))
          λ normalised.
            on_ok (j.unmarshal normalised)
              λ tx. ok (record { tx = tx; raw = normalised; tx_id = tx_id })

  abbrev notification_or : Option CardTxNotification → CardTxNotification
  notification_or (some n) = n
  notification_or none = record {
    title = "Card transaction";
    body = "A card transaction was recorded";
  }

  -- The transaction is sent as JSON: here the text of it.
  unfoldable pub emit_card_transaction_webhook :
      {F : Type 0}
      → String
      → SimulateCardTransactionRequest V
      → Raw
      → String
      → Handler F Raw
      → Handler F Raw
  emit_card_transaction_webhook event req raw tx_id h =
      let n = notification_or req.notification in
      let noticed =
        ("title", some n.title)
        ∷ ("body", some n.body)
        ∷ ("transactionId", some tx_id)
        ∷ ("cardId", some req.card_id)
        ∷ [] in
      if event == event_card_transaction
      then send_async event req.user_id noticed h
      else (elim (j.unmarshal_fields raw) [
        | err e ↦ h
        | ok _ ↦ send_async event req.user_id (("authorizationData", some (j.shown raw)) ∷ []) h
      ])
