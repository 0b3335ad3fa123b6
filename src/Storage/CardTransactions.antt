-- ===== src/Storage/CardTransactions.antt =====
-- Card transactions of memory.go: the typed record, the verbatim JSON beside it, the index by card
-- and the sequence counter. `json.Unmarshal` and `json.Marshal` are the parameter `with_tx_status`:
-- the payload with its `txStatus` replaced, or `none` where either call fails.
use mockgatehub.Prelude.{ℕ, ◌+◌, String, Option, none, some, List, ◌||◌, ◌==◌}
use mockgatehub.Prelude.Result.{ok, of_option, ◌>>=◌, ◌>>◌, raise_if, gets, modify}
use mockgatehub.Prelude.GoMap.{lookup, insert, contains}
use mockgatehub.Models.{CardTransaction}
use mockgatehub.Storage.Memory.{MemoryStorage, Method}
use mockgatehub.Storage.Customers.{list_or_nil, append_at}

module _ {F Raw : Type 0} where
  unfoldable pub create_card_transaction : CardTransaction → Method F Raw (Unit {0})
  create_card_transaction tx = do
    raise_if (tx.transaction_id == "") "transactionId is required"
    taken ← gets (λ s. contains tx.transaction_id s.card_transactions)
    raise_if taken "card transaction already exists"
    modify (λ s. record s { card_transactions = insert tx.transaction_id tx s.card_transactions })

  unfoldable pub get_card_transaction : String → Method F Raw CardTransaction
  get_card_transaction id s =
      (of_option (lookup id s.card_transactions) "card transaction not found", s)

  -- the raw payload, updated in step
  abbrev pub restate_raw :
      (String → Raw → Option Raw) → String → String → MemoryStorage F Raw → MemoryStorage F Raw
  restate_raw with_tx_status tx_id status s = elim (lookup tx_id s.raw_card_transactions) [
    | none ↦ s
    | some raw ↦ elim (with_tx_status status raw) [
      | none ↦ s
      | some updated ↦ record s {
        raw_card_transactions = insert tx_id updated s.raw_card_transactions;
      }
    ]
  ]

  unfoldable pub update_card_transaction_status :
      (String → Raw → Option Raw) → String → String → Method F Raw (Unit {0})
  update_card_transaction_status with_tx_status tx_id status = do
    tx ← (λ s. (of_option (lookup tx_id s.card_transactions) "card transaction not found", s))
    modify (λ s. record s {
      card_transactions = insert tx_id (record tx { tx_status = some status }) s.card_transactions;
    })
    modify (restate_raw with_tx_status tx_id status)

  unfoldable pub store_raw_card_transaction : String → Raw → Method F Raw (Unit {0})
  store_raw_card_transaction tx_id raw = do
    raise_if (tx_id == "") "txID is required"
    modify (λ s. record s { raw_card_transactions = insert tx_id raw s.raw_card_transactions })

  unfoldable pub get_raw_card_transaction : String → Method F Raw Raw
  get_raw_card_transaction tx_id s =
      (of_option (lookup tx_id s.raw_card_transactions) "raw card transaction not found", s)

  -- The counter is an `int64` that starts at 0 and grows by one for each transaction.
  unfoldable pub next_card_transaction_seq_id : Method F Raw ℕ
  next_card_transaction_seq_id s =
      (ok (s.card_tx_seq_id + 1), record s { card_tx_seq_id = s.card_tx_seq_id + 1 })

  unfoldable pub peek_card_transaction_seq_id : Method F Raw ℕ
  peek_card_transaction_seq_id s = (ok s.card_tx_seq_id, s)

  unfoldable pub add_card_transaction_index : String → String → Method F Raw (Unit {0})
  add_card_transaction_index card_id tx_id = do
    raise_if (card_id == "" || tx_id == "") "cardID and transactionID are required"
    modify (λ s. record s {
      card_transactions_by_card = append_at card_id tx_id s.card_transactions_by_card;
    })

  unfoldable pub get_card_transaction_ids : String → Method F Raw (List String)
  get_card_transaction_ids card_id s =
      (ok (list_or_nil (lookup card_id s.card_transactions_by_card)), s)
