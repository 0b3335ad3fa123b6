-- ===== src/Tests/Data.antt =====
-- The data of the examples.
use mockgatehub.Prelude.{String, Bool, true, false, none, [], ◌∷◌}
use mockgatehub.Prelude.Int.{ℤ, pos}
use mockgatehub.Float64.Units.{units}
use mockgatehub.Models.{User, Wallet, Transaction, Card}
use mockgatehub.Storage.{MemoryStorage}
use mockgatehub.Fees.{FeeConfig}
use mockgatehub.Handler.{Handler, Settings}
use mockgatehub.Handler.Users.{managed_user}
use mockgatehub.Handler.Payments.{TransactionRequest, Fresh}

abbrev pub alice : User
alice = managed_user "alice-id" "alice@example.com"

abbrev pub wallet : Wallet
wallet = record {
  address = "rAlice";
  user_id = "alice-id";
  name = "Default Wallet";
  kind = pos 1;
  network = pos 30;
  created_at = 5;
}

abbrev pub pending_withdrawal : Transaction
pending_withdrawal = record {
  id = "tx-1";
  user_id = "alice-id";
  uid = "";
  amount = "20.00";
  total_amount = "20.40";
  fee = "0.40";
  currency = "USD";
  vault_uuid = "";
  sending_address = "rAlice";
  receiving_address = "rAlice";
  kind = pos 0;
  deposit_type = "withdrawal";
  status = 1;
  created_at = 7;
  account_iban = "";
  account_legal_name = "";
  message = "";
}

abbrev pub card : Card
card = record {
  id = "card-1";
  source_id = "";
  account_id = "";
  account_source_id = "";
  customer_id = "customer-1";
  customer_source_id = "";
  name_on_card = "ALICE";
  product_code = "";
  pan_token = "";
  masked_pan = "";
  status = "Active";
  status_reason_code = none;
  lock_level = none;
  expiry_date = "";
  relation_type = "";
  membership_fee_effective_date = none;
  is_first_time_lock = false;
  plastic_created = false;
  order_plastic_on_sync = false;
  created_at = 3;
}

-- One user with a wallet, 100.00 USD, a pending withdrawal and a card.
abbrev pub store_with : Card → MemoryStorage ℤ String
store_with c = record {
  user_heap = alice ∷ [];
  users = ("alice-id", 0) ∷ [];
  users_by_email = ("alice@example.com", 0) ∷ [];
  customer_heap = [];
  customers = [];
  customers_by_source = [];
  account_heap = [];
  accounts = [];
  cards = ("card-1", c) ∷ [];
  card_transactions = [];
  raw_card_transactions = [];
  card_pins = [];
  card_tx_seq_id = 0;
  card_transactions_by_card = [];
  card_limits = [];
  customer_addresses = [];
  three_ds_challenges = [];
  wallets = ("rAlice", wallet) ∷ [];
  transactions = ("tx-1", pending_withdrawal) ∷ [];
  transactions_by_user = ("alice-id", "tx-1" ∷ []) ∷ [];
  balances = ("alice-id", ("USD", pos 1_000_000) ∷ []) ∷ [];
  organizations = [];
}

abbrev pub store : MemoryStorage ℤ String
store = store_with card

-- two percent on withdrawals, one on deposits
abbrev pub fees : FeeConfig ℤ
fees = record {
  deposit_fee_percent = pos 10_000;
  withdrawal_fee_percent = pos 20_000;
  user_overrides = [];
}

abbrev pub settings : Bool → Settings
settings async = record {
  async_withdrawals = async;
  webhook_url = "http://localhost/webhook";
  default_organization_id = "";
  has_queue = true;
}

abbrev pub handler : Bool → Handler ℤ String
handler async = record {
  settings = settings async;
  store = store;
  tokens = ("bearer-1", "alice-id") ∷ [];
  fee_config = fees;
  outbox = [];
}

abbrev pub fresh : Fresh
fresh = record { now = 9; tx_id = "tx-2"; address = "rNew" }

abbrev pub request : String → TransactionRequest
request amount = record { amount = amount; currency = "USD" }
