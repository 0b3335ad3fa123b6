-- ===== src/Redis/Money.antt =====
-- Wallets, transactions and balances of redis.go.
pub mod Unchecked
use Prim.Native.String.{◌++◌}
use mockgatehub.Prelude.{ℕ, String, Option, none, some, List, ◌==◌, if◌then◌else◌}
use mockgatehub.Prelude.Result.{Result, ok, err, ◌>>=◌, ◌>>◌, raise_if, raise, pure}
use mockgatehub.Float64.{Float64}
use mockgatehub.Models.{Wallet, Transaction, Time}
use mockgatehub.Storage.Transactions.{sort_recent}
use mockgatehub.Redis.Client.{
  RedisClient, RedisFloats, Json, Call, load, save, write, read, collect,
}

abbrev pub wallet_key : String → String
wallet_key address = "wallet:" ++ address

abbrev pub user_wallets_key : String → String
user_wallets_key user_id = "user:" ++ user_id ++ ":wallets"

abbrev pub tx_key : String → String
tx_key id = "tx:" ++ id

abbrev pub user_transactions_key : String → String
user_transactions_key user_id = "user:" ++ user_id ++ ":transactions"

abbrev pub balance_key : String → String → String
balance_key user_id currency = "balance:" ++ user_id ++ ":" ++ currency

module _ {R : Type 0} ⦃client : RedisClient R⦄ ⦃json : Json Wallet⦄ where
  -- An address that is taken is written over.
  unfoldable pub create_wallet : Time → Wallet → Call R Wallet
  create_wallet now wallet = do
    raise_if (wallet.address == "") "wallet address is required"
    let kept = record wallet { created_at = now }
    save "wallet" "store" (wallet_key wallet.address) kept
    write "failed to add wallet to user list: "
        (client.s_add (user_wallets_key wallet.user_id) wallet.address)
    pure kept

  unfoldable pub get_wallet : String → Call R Wallet
  get_wallet address = load "wallet" (wallet_key address)

  unfoldable pub get_wallets_by_user : String → Call R (List Wallet)
  unfolding collect get_wallet
  get_wallets_by_user user_id = do
    addresses ← read "failed to get user wallets: " (client.s_members (user_wallets_key user_id))
    (λ r. (ok (collect get_wallet addresses r), r))

module _ {R : Type 0} ⦃client : RedisClient R⦄ ⦃json : Json Transaction⦄ where
  abbrev index_transaction : String → String → Call R (Unit {0})
  index_transaction user_id id =
      if user_id == ""
      then pure tt
      else write "failed to index transaction by user: "
          (client.l_push (user_transactions_key user_id) id)

  -- The time is set whatever it was before.
  unfoldable pub create_transaction : String → Time → Transaction → Call R Transaction
  create_transaction fresh now tx = do
    let id = if tx.id == "" then fresh else tx.id
    let kept = record tx { id = id; created_at = now }
    save "transaction" "store" (tx_key id) kept
    index_transaction tx.user_id id
    pure kept

  unfoldable pub get_transaction : String → Call R Transaction
  get_transaction id = load "transaction" (tx_key id)

  -- An index entry with no transaction behind it is left out.
  unfoldable pub list_transactions_by_user : String → Call R (List Transaction)
  unfolding collect get_transaction sort_recent
  list_transactions_by_user user_id = do
    ids ← read "failed to list user transactions: " (client.l_range (user_transactions_key user_id))
    (λ r. (ok (sort_recent (collect get_transaction ids r)), r))

  unfoldable pub update_transaction_status : String → ℕ → Call R (Unit {0})
  unfolding get_transaction
  update_transaction_status id status = do
    tx ← get_transaction id
    save "transaction" "update" (tx_key id) (record tx { status = status })

module _ {R F : Type 0} ⦃client : RedisClient R⦄ ⦃floats : RedisFloats R F⦄ ⦃fl : Float64 F⦄ where
  unfoldable pub get_balance : String → String → Call R F
  get_balance user_id currency = do
    found ← read "failed to get balance: " (client.get (balance_key user_id currency))
    elim found [
      | none ↦ pure fl.zero
      | some text ↦ elim (fl.parse text) [
        | none ↦ raise "failed to parse balance"
        | some x ↦ pure x
      ]
    ]

  unfoldable pub add_balance : String → String → F → Call R (Unit {0})
  add_balance user_id currency amount =
      write "failed to update balance: "
        (floats.incr_by_float (balance_key user_id currency) amount)

  unfoldable pub deduct_balance : String → String → F → Call R (Unit {0})
  unfolding add_balance
  deduct_balance user_id currency amount = add_balance user_id currency (fl.neg amount)
