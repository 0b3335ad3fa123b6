-- ===== src/Storage/Transactions/Keyed.antt =====
-- Every transaction of the store stands under its own ID.
use mockgatehub.Prelude.{
  ℕ, String, ◌≡◌, inl, inr, some, nat_beq, ◌==◌, arith, eq_iff, Option-cases, if◌then◌else◌,
}
use mockgatehub.Prelude.GoMap.{lookup, lookup-insert, lookup-nil}
use mockgatehub.Models.{Transaction, Time}
use mockgatehub.Storage.Memory.{MemoryStorage, new_memory_storage}
use mockgatehub.Storage.Transactions.{create_transaction, update_transaction_status}

module _ {F Raw : Type 0} where
  pub record TransactionsKeyed (s : MemoryStorage F Raw) : Type 0 where
    pub own_id : (id : String) (tx : Transaction) → lookup id s.transactions ≡ some tx → tx.id ≡ id

  pub TransactionsKeyed-new : TransactionsKeyed (new_memory_storage {F = F} {Raw = Raw})
  unfolding new_memory_storage
  TransactionsKeyed-new = record {
    own_id = λ id tx h. absurd (ground (arith, lookup-nil {V = Transaction} id));
  }

  -- Both writes keep every transaction under its own ID.
  pub create_transaction-TransactionsKeyed :
      (fresh : String) (now : Time) (tx : Transaction) (s : MemoryStorage F Raw)
      → TransactionsKeyed s
      → TransactionsKeyed (create_transaction fresh now tx s).1
  unfolding create_transaction
  create_transaction-TransactionsKeyed fresh now tx s keyed =
      let id = if tx.id == "" then fresh else tx.id in
      let created = if nat_beq tx.created_at 0 then now else tx.created_at in
      let kept : Transaction = record tx { id = id; created_at = created } in
      record {
        own_id = λ j t h.
            ground (arith, lookup-insert id j kept s.transactions, eq_iff id j, keyed.own_id j t);
      }

  pub update_transaction_status-TransactionsKeyed :
      (id : String) (status : ℕ) (s : MemoryStorage F Raw)
      → TransactionsKeyed s
      → TransactionsKeyed (update_transaction_status id status s).1
  unfolding update_transaction_status
  update_transaction_status-TransactionsKeyed id status s keyed =
      elim (Option-cases (lookup id s.transactions)) [
        | inl gone ↦ record { own_id = λ j t h. ground (arith, gone, keyed.own_id j t) }
        | inr (tx, found) ↦ record {
          own_id = λ j t h. ground (
            arith,
            found,
            lookup-insert id j (record tx { status = status }) s.transactions,
            eq_iff id j,
            keyed.own_id j t,
            keyed.own_id id tx found,
          );
        }
      ]
