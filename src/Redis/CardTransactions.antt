-- ===== src/Redis/CardTransactions.antt =====
-- Card transactions of redis.go. The map that `json.Unmarshal` makes of a raw payload, with its
-- `txStatus` replaced and encoded again, is the argument `with_tx_status`: none where a step fails.
pub mod Orders
use Prim.Native.String.{◌++◌}
use mockgatehub.Prelude.{ℕ, String, Option, none, some, List, ◌==◌, ◌||◌}
use mockgatehub.Prelude.Result.{
  Result, ok, err, ◌>>=◌, ◌>>◌, raise_if, raise, lift, pure, ignore_err,
}
use mockgatehub.Models.{CardTransaction}
use mockgatehub.Redis.Client.{RedisClient, Json, Call, set_text, get_text, load, save, write, read}

abbrev pub card_transaction_key : String → String
card_transaction_key id = "cardtx:" ++ id

abbrev pub card_transactions_key : String → String
card_transactions_key card_id = "card:" ++ card_id ++ ":transactions"

abbrev pub card_transaction_raw_key : String → String
card_transaction_raw_key id = "cardtx:" ++ id ++ ":raw"

abbrev pub card_transaction_seq_key : String
card_transaction_seq_key = "cardtx:seq"

module _ {R : Type 0} ⦃client : RedisClient R⦄ where
  unfoldable pub store_raw_card_transaction : String → String → Call R (Unit {0})
  store_raw_card_transaction tx_id raw = do
    raise_if (tx_id == "") "txID is required"
    set_text "failed to store raw card transaction: " (card_transaction_raw_key tx_id) raw

  unfoldable pub get_raw_card_transaction : String → Call R String
  get_raw_card_transaction tx_id =
      get_text "raw card transaction not found" "failed to get raw card transaction: "
        (card_transaction_raw_key tx_id)

  unfoldable pub next_card_transaction_seq_id : Call R ℕ
  next_card_transaction_seq_id =
      write "failed to increment card transaction sequence: " (client.incr card_transaction_seq_key)

  -- `atoi` reads the counter's text: `Int64` of the reply
  unfoldable pub peek_card_transaction_seq_id : (String → Result String ℕ) → Call R ℕ
  peek_card_transaction_seq_id atoi = do
    found ← read "failed to read card transaction sequence: " (client.get card_transaction_seq_key)
    elim found [
      | none ↦ pure 0
      | some text ↦ read "failed to read card transaction sequence: " (λ _. atoi text)
    ]

  unfoldable pub add_card_transaction_index : String → String → Call R (Unit {0})
  add_card_transaction_index card_id transaction_id = do
    raise_if (card_id == "" || transaction_id == "") "cardID and transactionID are required"
    write "failed to index card transaction: "
        (client.l_push (card_transactions_key card_id) transaction_id)

  unfoldable pub get_card_transaction_ids : String → Call R (List String)
  get_card_transaction_ids card_id =
      read "failed to get card transaction IDs: " (client.l_range (card_transactions_key card_id))

module _ {R : Type 0} ⦃client : RedisClient R⦄ ⦃json : Json CardTransaction⦄ where
  unfoldable pub create_card_transaction : CardTransaction → Call R (Unit {0})
  create_card_transaction tx = do
    raise_if (tx.transaction_id == "") "transactionId is required"
    save "card transaction" "store" (card_transaction_key tx.transaction_id) tx

  unfoldable pub get_card_transaction : String → Call R CardTransaction
  get_card_transaction id = load "card transaction" (card_transaction_key id)

  -- the raw payload, updated in step where it can be
  abbrev restate_raw : (String → Option String) → String → Call R (Unit {0})
  restate_raw with_tx_status tx_id r = elim (get_raw_card_transaction tx_id r).0 [
    | err _ ↦ (ok tt, r)
    | ok raw ↦ elim (with_tx_status raw) [
      | none ↦ (ok tt, r)
      | some updated ↦ ignore_err (store_raw_card_transaction tx_id updated) r
    ]
  ]

  unfoldable pub update_card_transaction_status :
      (String → Option String) → String → String → Call R (Unit {0})
  unfolding get_card_transaction get_raw_card_transaction store_raw_card_transaction
  update_card_transaction_status with_tx_status tx_id status = do
    tx ← get_card_transaction tx_id
    save "card transaction" "update" (card_transaction_key tx_id)
        (record tx { tx_status = some status })
    restate_raw with_tx_status tx_id
