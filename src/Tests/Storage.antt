-- ===== src/Tests/Storage.antt =====
-- The storage.
use mockgatehub.Prelude.{String, ◌≡◌, refl, [], ◌∷◌}
use mockgatehub.Prelude.Int.{ℤ, pos}
use mockgatehub.Prelude.Result.{ok}
use mockgatehub.Prelude.GoMap.{lookup}
use mockgatehub.Prelude.Heap.{alloc}
use mockgatehub.Float64.Units.{units}
use mockgatehub.Models.{Transaction, User}
use mockgatehub.Storage.{MemoryStorage, new_memory_storage}
use mockgatehub.Storage.Balances.Ledger.{answer_calls, ledger, settle_all, answer_calls_refine}
use mockgatehub.Storage.Balances.Runs.{
  BalanceCall, run_calls, run_calls-IsCovered, IsCovered, IsCovered-new, credit, debit,
}
use mockgatehub.Prelude.{Bool, List}
use mockgatehub.Storage.Customers.{list_or_nil}
use mockgatehub.Storage.Transactions.{list_transactions_by_user, resolve_all}
use mockgatehub.Storage.Transactions.Sorted.{IsRecentFirst, count, list_transactions_by_user_lem}
use mockgatehub.Tests.Data.{store, alice}

run_calls-IsCovered_example : IsCovered (
    run_calls
      (credit "alice-id" "USD" (pos 500_000)
        ∷ debit "alice-id" "USD" (pos 600_000)
        ∷ debit "alice-id" "USD" (pos 100_000)
        ∷ [])
      (new_memory_storage {F = ℤ} {Raw = String}))
unfolding units
run_calls-IsCovered_example =
    run_calls-IsCovered
      (credit "alice-id" "USD" (pos 500_000)
        ∷ debit "alice-id" "USD" (pos 600_000)
        ∷ debit "alice-id" "USD" (pos 100_000)
        ∷ [])
      (new_memory_storage {F = ℤ} {Raw = String}) (refl, (tt, (tt, tt))) IsCovered-new

abbrev bob : User
bob = record alice { id = "bob-id"; email = "bob@example.com" }

abbrev with_bob : MemoryStorage ℤ String
with_bob = record store { user_heap = alloc bob store.user_heap }

abbrev moved : User
moved = record alice { email = "new@example.com" }

abbrev with_moved : MemoryStorage ℤ String
with_moved = record store { user_heap = alloc moved store.user_heap }

list_transactions_by_user_lem_example :
    (txs : List Transaction) × (list_transactions_by_user "alice-id" store ≡ (ok txs, store))
    × IsRecentFirst txs
    × ((p : Transaction → Bool)
        → count p txs
          ≡ count p (
              resolve_all store.transactions
                (list_or_nil (lookup "alice-id" store.transactions_by_user))))
list_transactions_by_user_lem_example = list_transactions_by_user_lem "alice-id" store

answer_calls_refine_example :
    let calls : List (BalanceCall ℤ) =
      debit "bob-id" "USD" (pos 0)
      ∷ debit "alice-id" "USD" (pos 5)
      ∷ credit "bob-id" "EUR" (pos 7)
      ∷ [] in
    let (answers, s') = answer_calls calls store in
    (answers, ledger s') ≡ settle_all calls (ledger store)
answer_calls_refine_example =
    answer_calls_refine
      (debit "bob-id" "USD" (pos 0)
        ∷ debit "alice-id" "USD" (pos 5)
        ∷ credit "bob-id" "EUR" (pos 7)
        ∷ [])
      store
