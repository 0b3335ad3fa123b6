-- ===== src/Handler/CardTransactions/Stored.antt =====
-- How a simulated transaction is stored.
use mockgatehub.Prelude.{
  String, ◌≡◌, ◌⊎◌, inl, inr, refl, ap, false, some, Option, List, [], ◌∷◌, ◌++◌, ◌==◌, Bool-cases,
}
use mockgatehub.Prelude.GoMap.{lookup, insert, lookup-insert_self, contains}
use mockgatehub.Prelude.Result.{ok, err, Result-cases}
use mockgatehub.Consts.{event_card_transaction}
use mockgatehub.Storage.{MemoryStorage}
use mockgatehub.Storage.Customers.{list_or_nil, append_at}
use mockgatehub.Storage.CardTransactions.{
  create_card_transaction, store_raw_card_transaction, add_card_transaction_index,
  get_card_transaction_ids,
}
use mockgatehub.Handler.State.{Handler, ApiError, internal_err}
use mockgatehub.Handler.Kyc.Writes.{keeps_store-send_async}
use mockgatehub.Handler.CardTransactions.Simulation.{
  TransactionJson, SimulateCardTransactionRequest, Materialised, emit_card_transaction_webhook,
}
use mockgatehub.Handler.CardTransactions.{store_simulated}

module _ {F Raw : Type 0} where
  -- the transaction in the store, with its JSON and in the list of its card
  abbrev pub with_transaction :
      String → Materialised Raw → MemoryStorage F Raw → MemoryStorage F Raw
  with_transaction card_id made s = record s {
    card_transactions = insert made.tx.transaction_id made.tx s.card_transactions;
    raw_card_transactions = insert made.tx_id made.raw s.raw_card_transactions;
    card_transactions_by_card = append_at card_id made.tx_id s.card_transactions_by_card;
  }

  pub store_simulated_parts :
      (card_id : String) (made : Materialised Raw) (h : Handler F Raw)
      → (card_id == "") ≡ false
      → ((e : ApiError) × ((store_simulated card_id made h).0 ≡ err e))
        ⊎ (store_simulated card_id made h
            ≡ (ok tt, record h { store = with_transaction card_id made h.store }))
  unfolding store_simulated create_card_transaction store_raw_card_transaction
      add_card_transaction_index
  store_simulated_parts card_id made h given = elim (Bool-cases (made.tx.transaction_id == "")) [
    | inl empty ↦ inl (
      internal_err "failed to create transaction",
      rw (store_simulated, create_card_transaction, empty) refl,
    )
    | inr named ↦ elim (Bool-cases (contains made.tx.transaction_id h.store.card_transactions)) [
      | inl taken ↦ inl (
        internal_err "failed to create transaction",
        rw (store_simulated, create_card_transaction, named, taken) refl,
      )
      | inr free ↦ elim (Bool-cases (made.tx_id == "")) [
        | inl empty ↦ inl (
          internal_err "failed to store transaction payload",
          rw
              (
                store_simulated, create_card_transaction, store_raw_card_transaction, named, free,
                empty,
              )
              refl,
        )
        | inr some_id ↦ inr (
            rw
              (
                store_simulated, create_card_transaction, store_raw_card_transaction,
                add_card_transaction_index, named, free, some_id, given,
              )
              refl)
      ]
    ]
  ]

  -- what a store has of a transaction: its JSON, and its ID at the end of the list of its card
  pub record IsListed (card_id tx_id : String) (raw : Raw) (before : List String)
      (s : MemoryStorage F Raw) : Type 0 where
    pub read : lookup tx_id s.raw_card_transactions ≡ some raw
    pub listed : (get_card_transaction_ids card_id s).0 ≡ ok (before ++ tx_id ∷ [])

  pub with_transaction-IsListed :
      (card_id : String) (made : Materialised Raw) (s : MemoryStorage F Raw)
      → IsListed card_id made.tx_id made.raw
          (list_or_nil (lookup card_id s.card_transactions_by_card))
          (with_transaction card_id made s)
  unfolding get_card_transaction_ids
  with_transaction-IsListed card_id made s =
      let ids = list_or_nil (lookup card_id s.card_transactions_by_card) ++ made.tx_id ∷ [] in
      record {
        read = lookup-insert_self made.tx_id made.raw s.raw_card_transactions;
        listed =
            ap (λ (found : Option (List String)). ok (list_or_nil found))
              (lookup-insert_self card_id ids s.card_transactions_by_card);
      }

module _ {V F Raw : Type 0} (j : TransactionJson V Raw) where
  pub keeps_store-emit :
      (event : String) (req : SimulateCardTransactionRequest V) (raw : Raw) (tx_id : String)
      (h : Handler F Raw)
      → (emit_card_transaction_webhook j event req raw tx_id h).store ≡ h.store
  unfolding emit_card_transaction_webhook
  keeps_store-emit event req raw tx_id h = elim (Bool-cases (event == event_card_transaction)) [
    | inl notice ↦ rw (emit_card_transaction_webhook, notice) (keeps_store-send_async _ _ _ _)
    | inr other ↦ elim (Result-cases (j.unmarshal_fields raw)) [
      | inl (e, bad) ↦ rw (emit_card_transaction_webhook, other, bad) refl
      | inr (fields, good) ↦
          rw (emit_card_transaction_webhook, other, good) (keeps_store-send_async _ _ _ _)
    ]
  ]
