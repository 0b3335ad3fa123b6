-- ===== src/Handler/Wallets.antt =====
-- Wallets, balances and currencies of internal/handler/core.go. Times are text in the responses that
-- print them.
pub mod Default
use Prim.Native.String.{◌++◌}
use mockgatehub.Prelude.{
  ℕ, String, Bool, true, false, Option, none, some, List, [], ◌∷◌, map, ◌==◌, ◌&&◌, if◌then◌else◌,
}
use mockgatehub.Prelude.Int.{ℤ, pos, eqb_ℤ}
use mockgatehub.Prelude.GoMap.{lookup}
use mockgatehub.Prelude.Result.{ok, err, of_option, ◌>>=◌, ◌>>◌, raise_if, lift, pure}
use mockgatehub.Float64.{Float64}
use mockgatehub.Models.{Wallet, Time, Transaction}
use mockgatehub.Consts.{
  wallet_type_standard, network_xrp_ledger, sandbox_currencies, sandbox_vault_ids,
}
use mockgatehub.Storage.Users.{get_user}
use mockgatehub.Storage.Wallets.{create_wallet, get_wallet, get_wallets_by_user}
use mockgatehub.Storage.Transactions.{get_transaction}
use mockgatehub.Storage.Balances.{get_balance}
use mockgatehub.Storage.Cards.{select}
use mockgatehub.Handler.State.{Handler, Action, bad_request, not_found, internal_err, call, call_or}
use mockgatehub.Handler.CardPins.Texts.{strip_prefix}
use mockgatehub.Handler.Payments.{default_wallet, extract_user_from_bearer}

pub record CreateWalletRequest : Type 0 where
  pub user_id : String
  pub name : String
  pub kind : ℤ  -- Type
  pub network : ℤ

pub record UserWalletResponse : Type 0 where
  pub uuid : String
  pub address : String
  pub name : String
  pub kind : ℤ  -- Type
  pub primary : Bool
  pub active : Bool
  pub enabled : Bool

pub record VaultSummary : Type 0 where
  pub uuid : String
  pub name : String
  pub asset_code : String
  pub created_at : String
  pub updated_at : String

pub record WalletBalanceResponse : Type 0 where
  pub available : String
  pub pending : String
  pub total : String
  pub vault : VaultSummary

abbrev int_or : ℤ → ℤ → ℤ
int_or n default = if eqb_ℤ n (pos 0) then default else n

abbrev wallet_response : Bool → Wallet → UserWalletResponse
wallet_response primary w = record {
  uuid = w.address;
  address = w.address;
  name = w.name;
  kind = w.kind;
  primary = primary;
  active = true;
  enabled = true;
}

-- The first wallet is the primary one.
unfoldable pub user_wallets : List Wallet → List UserWalletResponse
user_wallets [] = []
user_wallets (w ∷ wallets) = wallet_response true w ∷ map (wallet_response false) wallets

-- `walletID` of the path, or its older name `address`
abbrev pub resolve_wallet_param : String → String → String
resolve_wallet_param wallet_id address = if wallet_id == "" then address else wallet_id

-- `sending` and `receiving` are the addresses of the nested wallets.
pub record TransactionResponse : Type 0 where
  pub tx : Transaction
  pub vault_name : String
  pub sending : String
  pub receiving : String

module _ {F Raw : Type 0} where
  -- `fresh` is a new address, `user_id` that of the path.
  unfoldable pub handle_create_wallet :
      String → Time → String → Option CreateWalletRequest → Action F Raw Wallet
  handle_create_wallet fresh now user_id body = do
    req ← lift (of_option body (bad_request "Invalid request body"))
    let owner = if req.user_id == "" then user_id else req.user_id
    raise_if (owner == "") (bad_request "user_id is required")
    call_or (λ _. not_found "User not found") (get_user owner)
    call_or (λ _. internal_err "Failed to create wallet")
        (create_wallet now (record {
          address = fresh;
          user_id = owner;
          name = req.name;
          kind = int_or req.kind wallet_type_standard;
          network = int_or req.network network_xrp_ledger;
          created_at = 0;
        }))

  -- the wallets, with a new one where there is none
  unfoldable pub or_default_wallet :
      String → Time → String → List Wallet → Action F Raw (List Wallet)
  or_default_wallet fresh now user_id (w ∷ wallets) = pure (w ∷ wallets)
  or_default_wallet fresh now user_id [] = do
    wallet ←
        call_or (λ _. internal_err "Failed to create wallet")
          (create_wallet now (default_wallet fresh user_id))
    pure (wallet ∷ [])

  unfoldable pub get_user_wallets : String → Time → String → Action F Raw (List UserWalletResponse)
  unfolding or_default_wallet user_wallets
  get_user_wallets fresh now user_id = do
    raise_if (user_id == "") (bad_request "User ID is required")
    call_or (λ _. not_found "User not found") (get_user user_id)
    wallets ← call_or (λ _. internal_err "Failed to get wallets") (get_wallets_by_user user_id)
    all ← or_default_wallet fresh now user_id wallets
    pure (user_wallets all)

  unfoldable pub handle_get_wallet : String → String → Action F Raw Wallet
  handle_get_wallet wallet_id address = do
    let id = resolve_wallet_param wallet_id address
    raise_if (id == "") (bad_request "Wallet address is required")
    call_or (λ _. not_found "Wallet not found") (get_wallet id)

  unfoldable pub handle_get_transaction : String → Action F Raw TransactionResponse
  handle_get_transaction tx_id = do
    raise_if (tx_id == "") (bad_request "Transaction ID is required")
    tx ← call_or (λ _. not_found "Transaction not found") (get_transaction tx_id)
    pure (record {
      tx = tx;
      vault_name = tx.currency ++ " Vault";
      sending = tx.receiving_address;
      receiving = tx.receiving_address;
    })

abbrev vault_of : Option String → String
vault_of none = ""
vault_of (some vault) = vault

-- the query's token, or that of the Authorization header
abbrev pub bearer_of : String → String → String
bearer_of bearer authorization =
    if bearer == ""
    then elim (strip_prefix "Bearer " authorization) [
      | none ↦ authorization
      | some token ↦ if token == "" then authorization else token
    ]
    else bearer

abbrev pub or_all : List String → List String
or_all [] = sandbox_currencies
or_all (c ∷ currencies) = c ∷ currencies

module _ {F : Type 0} ⦃fl : Float64 F⦄ where
  -- `date` is the present time as text.
  abbrev balance_response : String → String → F → WalletBalanceResponse
  balance_response date currency balance = record {
    available = fl.format balance;
    pending = "0.00";
    total = fl.format balance;
    vault = record {
      uuid = vault_of (lookup currency sandbox_vault_ids);
      name = "Sandbox Vault " ++ currency;
      asset_code = currency;
      created_at = date;
      updated_at = date;
    };
  }

module _ {F Raw : Type 0} ⦃fl : Float64 F⦄ where
  abbrev balance_or_zero : String → Handler F Raw → String → F
  balance_or_zero user_id h currency = elim ((call (get_balance user_id currency) h).0) [
    | err _ ↦ fl.zero
    | ok balance ↦ balance
  ]

  unfoldable pub get_wallet_balance :
      String → String → String → Action F Raw (List WalletBalanceResponse)
  unfolding sandbox_currencies sandbox_vault_ids
  get_wallet_balance date wallet_id address = do
    let id = resolve_wallet_param wallet_id address
    raise_if (id == "") (bad_request "Wallet address is required")
    wallet ← call_or (λ _. not_found "Wallet not found") (get_wallet id)
    (λ h. (
      ok (
          map
            (λ currency. balance_response date currency (balance_or_zero wallet.user_id h currency))
            sandbox_currencies),
      h,
    ))

  -- the currencies with a positive balance
  unfoldable pub funded_currencies : String → Handler F Raw → List String
  unfolding select sandbox_currencies
  funded_currencies user_id h =
      select (λ currency. fl.lt fl.zero (balance_or_zero user_id h currency)) sandbox_currencies

  unfoldable pub get_user_currencies : String → String → Action F Raw (List String)
  unfolding extract_user_from_bearer funded_currencies strip_prefix
  get_user_currencies query_bearer authorization = do
    let bearer = bearer_of query_bearer authorization
    raise_if (bearer == "") (bad_request "Missing bearer token")
    (λ h.
        let user_id = extract_user_from_bearer bearer h in
        if user_id == ""
        then (ok sandbox_currencies, h)
        else (ok (or_all (funded_currencies user_id h)), h))
