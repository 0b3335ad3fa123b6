-- ===== src/Handler/Payments.antt =====
-- The iframe's deposits and withdrawals: `processDeposit` and `processWithdrawal` of handler.go. IDs
-- and addresses that the code generates are arguments, `address` for `GenerateMockXRPLAddress`.
pub mod Withdrawal
pub mod Charges
pub mod Settling
pub mod Deposit
use Prim.Native.String.{◌++◌}
use mockgatehub.Prelude.{
  ℕ, String, Bool, true, false, Option, none, some, List, [], ◌∷◌, ◌==◌, ◌||◌, not, is_some,
  if◌then◌else◌,
}
use mockgatehub.Prelude.Result.{
  Result, ok, err, of_option, Exec, ◌>>=◌, ◌>>◌, raise_if, raise, or_else, lift, gets, modify, pure,
  ignore_err,
}
use mockgatehub.Prelude.GoMap.{lookup}
use mockgatehub.Float64.{Float64}
use mockgatehub.Models.{Time, Wallet, Transaction}
use mockgatehub.Consts.{
  sandbox_currencies, sandbox_vault_ids, wallet_type_standard, network_xrp_ledger,
  transaction_type_deposit, transaction_type_withdrawal, deposit_type_external,
  deposit_type_withdrawal, transaction_status_pending, transaction_status_completed,
  transaction_status_failed, event_deposit_completed, mock_withdrawal_iban,
  mock_withdrawal_legal_name, mock_withdrawal_reference,
}
use mockgatehub.Storage.{MemoryStorage}
use mockgatehub.Storage.Users.{get_user}
use mockgatehub.Storage.Wallets.{get_wallets_by_user, create_wallet}
use mockgatehub.Storage.Transactions.{create_transaction, update_transaction_status}
use mockgatehub.Storage.Balances.{get_balance, add_balance, deduct_balance}
use mockgatehub.Fees.{calculate_fee, get_deposit_fee_for_user, get_withdrawal_fee_for_user}
use mockgatehub.Handler.State.{
  Handler, Action, ApiError, bad_request, not_found, internal_err, call_or, send_async, Payload,
}

pub record TransactionRequest : Type 0 where
  pub amount : String
  pub currency : String

-- What `time.Now()` and the generators return to one request.
pub record Fresh : Type 0 where
  pub now : Time
  pub tx_id : String
  pub address : String

abbrev pub text_or_empty : Option String → String
text_or_empty none = ""
text_or_empty (some text) = text

-- `%q` puts the text in quotation marks; they are left out here.
abbrev pub bad_amount : String → ApiError
bad_amount amount =
    bad_request ("invalid amount format " ++ amount ++ ": expected a decimal number")

abbrev pub default_wallet : String → String → Wallet
default_wallet address user_id = record {
  address = address;
  user_id = user_id;
  name = "Default Wallet";
  kind = wallet_type_standard;
  network = network_xrp_ledger;
  created_at = 0;
}

abbrev deposit_payload : Transaction → Payload
deposit_payload tx =
    ("tx_uuid", some tx.id)
    ∷ ("amount", some tx.amount)
    ∷ ("currency", some tx.currency)
    ∷ ("vault_uuid", some tx.vault_uuid)
    ∷ ("address", some tx.receiving_address)
    ∷ ("deposit_type", some "external")
    ∷ ("total_fees", some "0")
    ∷ []

abbrev pub head_or : List Wallet → Option Wallet
head_or [] = none
head_or (w ∷ ws) = some w

-- `isSupportedCurrency`, over `SandboxCurrencies`
unfoldable pub is_supported_currency : String → List String → Bool
is_supported_currency currency [] = false
is_supported_currency currency (c ∷ cs) = c == currency || is_supported_currency currency cs

module _ {F : Type 0} ⦃fl : Float64 F⦄ where
  -- the record that `processDeposit` stores; the source's comment on the status says "completed"
  abbrev pub deposit_record : Fresh → String → TransactionRequest → String → F → F → Transaction
  deposit_record fresh user_id req wallet_address amount fee = record {
    id = fresh.tx_id;
    user_id = user_id;
    uid = "";
    amount = fl.format amount;
    total_amount = fl.format amount;
    fee = fl.format fee;
    currency = req.currency;
    vault_uuid = text_or_empty (lookup req.currency sandbox_vault_ids);
    sending_address = "";
    receiving_address = wallet_address;
    kind = transaction_type_deposit;
    deposit_type = deposit_type_external;
    status = 1;
    created_at = 0;
    account_iban = "";
    account_legal_name = "";
    message = "";
  }

  abbrev pub withdrawal_record :
      Fresh → String → TransactionRequest → String → F → F → ℕ → Transaction
  withdrawal_record fresh user_id req wallet_address amount fee status = record {
    id = fresh.tx_id;
    user_id = user_id;
    uid = "";
    amount = fl.format amount;
    total_amount = fl.format (fl.add amount fee);
    fee = fl.format fee;
    currency = req.currency;
    vault_uuid = text_or_empty (lookup req.currency sandbox_vault_ids);
    sending_address = wallet_address;
    receiving_address = wallet_address;
    kind = transaction_type_withdrawal;
    deposit_type = deposit_type_withdrawal;
    status = status;
    created_at = 0;
    account_iban = mock_withdrawal_iban;
    account_legal_name = mock_withdrawal_legal_name;
    message = mock_withdrawal_reference;
  }

  abbrev pub insufficient : F → F → ApiError
  insufficient total current = bad_request (
      "Insufficient balance. Required: " ++ fl.format total ++ ", Available: " ++ fl.format current)

-- `validateTransactionRequest`: the error, if there is one. `F` is what amounts are read as.
unfoldable pub validate_transaction_request :
    (F : Type 0) ⦃fl : Float64 F⦄ → TransactionRequest → Option String
unfolding sandbox_currencies is_supported_currency
validate_transaction_request F ⦃fl⦄ req =
    if req.amount == ""
    then some "amount is required"
    else if req.currency == ""
    then some "currency is required"
    else if not (is_some (fl.parse req.amount))
    then some "amount must be a valid number"
    else if not (is_supported_currency req.currency sandbox_currencies)
    then some ("unsupported currency: " ++ req.currency)
    else none

module _ {F Raw : Type 0} where
  -- `extractUserFromBearer`
  unfoldable pub extract_user_from_bearer : String → Handler F Raw → String
  extract_user_from_bearer bearer h = text_or_empty (lookup bearer h.tokens)

  -- the user's first wallet, made where there is none
  unfoldable pub first_wallet : Fresh → String → List Wallet → Action F Raw String
  first_wallet fresh user_id (wallet ∷ wallets) = pure wallet.address
  first_wallet fresh user_id [] = do
    wallet ←
        call_or (λ _. internal_err "Failed to create wallet")
          (create_wallet fresh.now (default_wallet fresh.address user_id))
    pure wallet.address

module _ {F Raw : Type 0} ⦃fl : Float64 F⦄ where
  unfoldable pub process_deposit : Fresh → String → TransactionRequest → Action F Raw (Unit {0})
  unfolding extract_user_from_bearer first_wallet
  process_deposit fresh bearer req = do
    user_id ← gets (extract_user_from_bearer bearer)
    raise_if (user_id == "") (bad_request "Invalid bearer token")
    call_or (λ _. not_found "User not found") (get_user user_id)
    wallets ← call_or (λ _. internal_err "Failed to get wallets") (get_wallets_by_user user_id)
    wallet_address ← first_wallet fresh user_id wallets
    amount ← lift (of_option (fl.parse req.amount) (bad_amount req.amount))
    fee_config ← gets (λ h. h.fee_config)
    let fee = calculate_fee amount (get_deposit_fee_for_user user_id fee_config).0
    let tx = deposit_record fresh user_id req wallet_address amount fee
    call_or (λ _. internal_err "Failed to create transaction")
        (create_transaction fresh.tx_id fresh.now tx)
    call_or (λ _. internal_err "Failed to update balance") (add_balance user_id req.currency amount)
    modify (send_async event_deposit_completed user_id (deposit_payload tx))

  -- The charge of a withdrawal that settles at once; a record that cannot be charged becomes failed.
  unfoldable pub charge_now : String → String → String → F → Action F Raw (Unit {0})
  charge_now user_id currency tx_id total h =
      let (charged, s) = deduct_balance user_id currency total h.store in
      let (_, marked) = update_transaction_status tx_id transaction_status_failed s in
      elim charged [
        | ok _ ↦ (ok tt, record h { store = s })
        | err _ ↦ (err (internal_err "Failed to deduct balance"), record h { store = marked })
      ]

  -- Answers the transaction's ID.
  unfoldable pub process_withdrawal : Fresh → String → TransactionRequest → Action F Raw String
  unfolding extract_user_from_bearer charge_now
  process_withdrawal fresh bearer req = do
    user_id ← gets (extract_user_from_bearer bearer)
    raise_if (user_id == "") (bad_request "Invalid bearer token")
    call_or (λ _. not_found "User not found") (get_user user_id)
    wallets ← call_or (λ _. internal_err "Failed to get wallets") (get_wallets_by_user user_id)
    wallet ← lift (of_option (head_or wallets) (bad_request "User has no wallets"))
    amount ← lift (of_option (fl.parse req.amount) (bad_amount req.amount))
    fee_config ← gets (λ h. h.fee_config)
    let fee = calculate_fee amount (get_withdrawal_fee_for_user user_id fee_config).0
    let total = fl.add amount fee
    current ← call_or (λ _. internal_err "") (get_balance user_id req.currency)
    raise_if (fl.lt current total) (insufficient total current)
    async ← gets (λ h. h.settings.async_withdrawals)
    let status = if async then transaction_status_pending else transaction_status_completed
    let tx = withdrawal_record fresh user_id req wallet.address amount fee status
    call_or (λ _. internal_err "Failed to create transaction")
        (create_transaction fresh.tx_id fresh.now tx)
    if async then pure tt else charge_now user_id req.currency fresh.tx_id total
    pure fresh.tx_id
