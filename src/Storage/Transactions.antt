-- ===== src/Storage/Transactions.antt =====
-- Transactions of memory.go.
pub mod Keyed
pub mod Sorted
use mockgatehub.Prelude.{ℕ, String, none, some, List, [], ◌∷◌, ltb, nat_beq, ◌==◌, if◌then◌else◌}
use mockgatehub.Prelude.Result.{ok, of_option, ◌>>=◌, ◌>>◌, modify, pure}
use mockgatehub.Prelude.GoMap.{GoMap, lookup, insert}
use mockgatehub.Models.{Transaction, Time}
use mockgatehub.Storage.Memory.{Method}
use mockgatehub.Storage.Customers.{list_or_nil, append_at}

-- `sort.SliceStable`, the most recent first: insertion keeps the order of equal elements.
unfoldable pub insert_recent : Transaction → List Transaction → List Transaction
insert_recent t [] = t ∷ []
insert_recent t (u ∷ us) =
    if ltb t.created_at u.created_at then u ∷ insert_recent t us else t ∷ u ∷ us

unfoldable pub sort_recent : List Transaction → List Transaction
sort_recent [] = []
sort_recent (t ∷ ts) = insert_recent t (sort_recent ts)

-- the transactions of a list of IDs, those that are not known being left out
unfoldable pub resolve_all : GoMap Transaction → List String → List Transaction
resolve_all m [] = []
resolve_all m (id ∷ ids) = elim (lookup id m) [
  | none ↦ resolve_all m ids
  | some tx ↦ tx ∷ resolve_all m ids
]

module _ {F Raw : Type 0} where
  -- The transaction as `CreateTransaction` leaves it. An ID that is taken is written over.
  unfoldable pub create_transaction : String → Time → Transaction → Method F Raw Transaction
  create_transaction fresh now tx = do
    let id = if tx.id == "" then fresh else tx.id
    let created = if nat_beq tx.created_at 0 then now else tx.created_at
    let kept = record tx { id = id; created_at = created }
    modify (λ s. record s {
      transactions = insert id kept s.transactions;
      transactions_by_user = append_at tx.user_id id s.transactions_by_user;
    })
    pure kept

  unfoldable pub list_transactions_by_user : String → Method F Raw (List Transaction)
  unfolding sort_recent insert_recent resolve_all
  list_transactions_by_user user_id s = (
    ok (
        sort_recent
          (resolve_all s.transactions (list_or_nil (lookup user_id s.transactions_by_user)))),
    s,
  )

  unfoldable pub get_transaction : String → Method F Raw Transaction
  get_transaction id s = (of_option (lookup id s.transactions) "transaction not found", s)

  unfoldable pub update_transaction_status : String → ℕ → Method F Raw (Unit {0})
  update_transaction_status id status = do
    tx ← (λ s. (of_option (lookup id s.transactions) "transaction not found", s))
    modify
        (λ s. record s { transactions = insert id (record tx { status = status }) s.transactions })
