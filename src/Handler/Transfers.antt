-- ===== src/Handler/Transfers.antt =====
-- `CreateTransaction` of internal/handler/core.go. The goroutine that completes a transaction is a value,
-- a `Completion` that `complete` runs; identifiers and times that are generated are arguments.
pub mod Vault
pub mod Completed
pub mod Created
use mockgatehub.Prelude.{
  ℕ, String, Bool, true, false, Option, none, some, List, [], ◌∷◌, ◌==◌, ◌||◌, ◌&&◌, not,
  if◌then◌else◌,
}
use mockgatehub.Prelude.Int.{ℤ, pos, eqb_ℤ}
use mockgatehub.Prelude.Result.{
  Result, ok, err, of_option, Exec, ◌>>=◌, ◌>>◌, raise_if, raise, lift, gets, modify, pure,
}
use mockgatehub.Prelude.GoMap.{lookup}
use mockgatehub.Float64.{Float64}
use mockgatehub.Models.{Time, Transaction, Wallet}
use mockgatehub.Consts.{
  sandbox_vault_ids, vault_uuid_to_currency, transaction_type_deposit, deposit_type_external,
  deposit_type_hosted, deposit_type_withdrawal, transaction_status_pending,
  transaction_status_completed, event_deposit_completed,
}
use mockgatehub.Storage.Users.{get_user}
use mockgatehub.Storage.Wallets.{get_wallet}
use mockgatehub.Storage.Transactions.{create_transaction, update_transaction_status}
use mockgatehub.Storage.Balances.{add_balance, deduct_balance}
use mockgatehub.Fees.{calculate_fee, get_deposit_fee_for_user, get_withdrawal_fee_for_user}
use mockgatehub.Handler.Payments.{text_or_empty}
use mockgatehub.Handler.State.{
  Handler, Action, ApiError, bad_request, not_found, internal_err, call_or, send_async, has_url,
  Payload,
}

pub record CreateTransactionRequest (F : Type 0) : Type 0 where
  pub user_id : String
  pub uid : String
  pub amount : F
  pub currency : String
  pub vault_uuid : String
  pub sending_address : String
  pub receiving_address : String
  pub kind : ℤ  -- Type
  pub deposit_type : String

-- What the goroutine captures.
pub record Completion (F : Type 0) : Type 0 where
  pub tx_id : String
  pub user_id : String
  pub currency : String
  pub amount : F
  pub fee : F
  pub deposit_type : String
  pub receiving_address : String
  pub is_debit : Bool
  pub has_webhook : Bool

-- The currency of a request, from the two fields that may give it.
unfoldable pub resolve_currency : String → String → Result ApiError String
resolve_currency currency vault_uuid =
    let known = lookup vault_uuid vault_uuid_to_currency in
    if currency == ""
    then if vault_uuid == ""
      then err (bad_request "either currency or vault_uuid is required")
      else of_option known (bad_request "invalid vault_uuid")
    else if not (vault_uuid == "")
        && not (vault_uuid == text_or_empty (lookup currency sandbox_vault_ids))
    then ok (elim known [ none ↦ currency | some c ↦ c ])
    else ok currency

abbrev owner_or_empty : Option Wallet → String
owner_or_empty none = ""
owner_or_empty (some wallet) = wallet.user_id

module _ {F : Type 0} ⦃fl : Float64 F⦄ where
  abbrev completed_payload : Completion F → Payload
  completed_payload c =
      ("transaction_id", some c.tx_id)
      ∷ ("tx_uuid", some c.tx_id)
      ∷ ("amount", some (fl.format c.amount))
      ∷ ("currency", some c.currency)
      ∷ ("address", some c.receiving_address)
      ∷ ("deposit_type", some c.deposit_type)
      ∷ ("status", some "completed")
      ∷ []

  abbrev kind_of : CreateTransactionRequest F → ℤ
  kind_of req = if eqb_ℤ req.kind (pos 0) then transaction_type_deposit else req.kind

  abbrev pub deposit_type_of : CreateTransactionRequest F → String
  deposit_type_of req =
      if req.deposit_type == ""
      then if eqb_ℤ (kind_of req) transaction_type_deposit
        then deposit_type_external
        else deposit_type_hosted
      else req.deposit_type

  -- the transaction that is handed to the store
  abbrev pub requested : CreateTransactionRequest F → (user_id currency : String) → F → Transaction
  requested req user_id currency fee = record {
    id = "";
    user_id = user_id;
    uid = req.uid;
    amount = fl.format req.amount;
    total_amount =
        if deposit_type_of req == deposit_type_withdrawal
        then fl.format (fl.add req.amount fee)
        else fl.format req.amount;
    fee = fl.format fee;
    currency = currency;
    vault_uuid =
        if req.vault_uuid == ""
        then text_or_empty (lookup currency sandbox_vault_ids)
        else req.vault_uuid;
    sending_address = req.sending_address;
    receiving_address = req.receiving_address;
    kind = kind_of req;
    deposit_type = deposit_type_of req;
    status = transaction_status_pending;
    created_at = 0;
    account_iban = "";
    account_legal_name = "";
    message = "";
  }

module _ {F Raw : Type 0} ⦃fl : Float64 F⦄ where
  -- `complete`; an error only ends it, and is logged.
  unfoldable pub complete_transaction : Completion F → Action F Raw (Unit {0})
  complete_transaction c = do
    if c.has_webhook
        then call_or internal_err (update_transaction_status c.tx_id transaction_status_completed)
        else pure tt
    let net_amount = fl.sub c.amount c.fee
    if c.is_debit
        then call_or internal_err (deduct_balance c.user_id c.currency net_amount)
        else call_or internal_err (add_balance c.user_id c.currency net_amount)
    if c.has_webhook
        then modify (send_async event_deposit_completed c.user_id (completed_payload c))
        else pure tt

  -- who the transaction is for: the body, the header, or the owner of the receiving wallet
  unfoldable pub resolve_user : CreateTransactionRequest F → String → Handler F Raw → String
  resolve_user req header_user h =
      let user_id = if req.user_id == "" then header_user else req.user_id in
      if user_id == "" && not (req.receiving_address == "")
      then owner_or_empty (lookup req.receiving_address h.store.wallets)
      else user_id

  abbrev is_debit_of : String → String → String → Handler F Raw → Bool
  is_debit_of deposit_type sending_address user_id h =
      deposit_type == deposit_type_hosted
      && not (sending_address == "")
      && elim (lookup sending_address h.store.wallets) [
        | none ↦ false
        | some wallet ↦ wallet.user_id == user_id
      ]

  abbrev fee_percent : String → String → Handler F Raw → F
  fee_percent deposit_type user_id h =
      if deposit_type == deposit_type_external
      then (get_deposit_fee_for_user user_id h.fee_config).0
      else if deposit_type == deposit_type_withdrawal
      then (get_withdrawal_fee_for_user user_id h.fee_config).0
      else fl.zero

  abbrev pub fee_of : CreateTransactionRequest F → String → Handler F Raw → F
  fee_of req user_id h = calculate_fee req.amount (fee_percent (deposit_type_of req) user_id h)

  abbrev pub completion_of :
      CreateTransactionRequest F
      → (user_id currency : String) → F
      → Transaction
      → Handler F Raw
      → Completion F
  completion_of req user_id currency fee stored h = record {
    tx_id = stored.id;
    user_id = user_id;
    currency = currency;
    amount = req.amount;
    fee = fee;
    deposit_type = deposit_type_of req;
    receiving_address = req.receiving_address;
    is_debit = is_debit_of (deposit_type_of req) req.sending_address user_id h;
    has_webhook = has_url h;
  }

  -- The transaction that is answered, and the goroutine that was started, if one was.
  unfoldable pub handle_create_transaction :
      (fresh : String) (now : Time)
      → String
      → CreateTransactionRequest F
      → Action F Raw (Transaction × Option (Completion F))
  unfolding resolve_user
  handle_create_transaction fresh now header_user req = do
    user_id ← gets (resolve_user req header_user)
    raise_if (user_id == "") (
        bad_request
          "user_id is required (provide in body, x-gatehub-managed-user-uuid header, or use a valid receiving_address)")
    raise_if (fl.lt req.amount fl.zero || fl.eq req.amount fl.zero)
        (bad_request "amount must be positive")
    currency ← lift (resolve_currency req.currency req.vault_uuid)
    call_or (λ _. not_found "User not found") (get_user user_id)
    fee ← gets (fee_of req user_id)
    stored ←
        call_or (λ _. internal_err "Failed to create transaction")
          (create_transaction fresh now (requested req user_id currency fee))
    completion ← gets (completion_of req user_id currency fee stored)
    if deposit_type_of req == deposit_type_external || deposit_type_of req == deposit_type_hosted
        then if completion.has_webhook
          then pure (stored, some completion)
          else (λ h. (ok (stored, none), (complete_transaction completion h).1))
        else pure (stored, none)
