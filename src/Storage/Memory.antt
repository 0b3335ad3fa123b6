-- ===== src/Storage/Memory.antt =====
-- The state of `MemoryStorage`, and the type of its methods.
use mockgatehub.Prelude.{ℕ, String, List, []}
use mockgatehub.Prelude.Result.{Exec}
use mockgatehub.Prelude.GoMap.{GoMap}
use mockgatehub.Prelude.Heap.{Heap, Ptr}
use mockgatehub.Models.{
  User, Customer, Account, Card, CardTransaction, CardLimit, CustomerDeliveryAddress,
  ThreeDsChallenge, Wallet, Transaction, Organization,
}

-- `F` is `float64`, and `Raw` is `json.RawMessage`.
pub record MemoryStorage (F Raw : Type 0) : Type 0 where
  pub user_heap : Heap User
  pub users : GoMap Ptr
  pub users_by_email : GoMap Ptr
  pub customer_heap : Heap Customer
  pub customers : GoMap Ptr
  pub customers_by_source : GoMap Ptr
  pub account_heap : Heap Account
  pub accounts : GoMap Ptr
  pub cards : GoMap Card
  pub card_transactions : GoMap CardTransaction
  pub raw_card_transactions : GoMap Raw
  pub card_pins : GoMap String
  pub card_tx_seq_id : ℕ
  pub card_transactions_by_card : GoMap (List String)
  pub card_limits : GoMap (List (CardLimit F))
  pub customer_addresses : GoMap (List CustomerDeliveryAddress)
  pub three_ds_challenges : GoMap ThreeDsChallenge
  pub wallets : GoMap Wallet
  pub transactions : GoMap Transaction
  pub transactions_by_user : GoMap (List String)
  pub balances : GoMap (GoMap F)
  pub organizations : GoMap Organization

-- `NewMemoryStorage`
unfoldable pub new_memory_storage : {F Raw : Type 0} → MemoryStorage F Raw
new_memory_storage = record {
  user_heap = [];
  users = [];
  users_by_email = [];
  customer_heap = [];
  customers = [];
  customers_by_source = [];
  account_heap = [];
  accounts = [];
  cards = [];
  card_transactions = [];
  raw_card_transactions = [];
  card_pins = [];
  card_tx_seq_id = 0;
  card_transactions_by_card = [];
  card_limits = [];
  customer_addresses = [];
  three_ds_challenges = [];
  wallets = [];
  transactions = [];
  transactions_by_user = [];
  balances = [];
  organizations = [];
}

-- An `error` is its message.
abbrev pub GoError : Type 0
GoError = String

-- A method with the results `(A, error)`.
abbrev pub Method : Type 0 → Type 0 → Type 0 → Type 0
Method F Raw A = Exec (MemoryStorage F Raw) GoError A

abbrev pub nil_dereference : GoError
nil_dereference = "runtime error: invalid memory address or nil pointer dereference"
