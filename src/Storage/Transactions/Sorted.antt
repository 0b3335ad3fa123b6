-- ===== src/Storage/Transactions/Sorted.antt =====
-- The order in which a user's transactions are listed.
use mockgatehub.Prelude.{
  ℕ, ◌+◌, ◌≤◌, String, ◌≡◌, refl, ap, ◌∙◌, Bool, List, [], ◌∷◌, All, All-map, ltb, arith,
  if◌then◌else◌, Bool-cases, inl, inr,
}
use mockgatehub.Prelude.Result.{ok}
use mockgatehub.Models.{Transaction}
use mockgatehub.Storage.Memory.{MemoryStorage}
use mockgatehub.Storage.Transactions.{
  insert_recent, sort_recent, resolve_all, list_transactions_by_user,
}
use mockgatehub.Storage.Customers.{list_or_nil}
use mockgatehub.Prelude.GoMap.{lookup}

abbrev IsOlder : Transaction → Transaction → Type 0
IsOlder t u = u.created_at ≤ t.created_at

-- Every transaction is at least as recent as those after it.
abbrev pub IsRecentFirst : List Transaction → Type 0
IsRecentFirst [] = Unit
IsRecentFirst (t ∷ ts) = All (IsOlder t) ts × IsRecentFirst ts

All-insert_recent :
    (P : Transaction → Type 0) (t : Transaction) (ts : List Transaction)
    → P t
    → All P ts
    → All P (insert_recent t ts)
unfolding insert_recent
All-insert_recent P t [] h k = (h, tt)
All-insert_recent P t (u ∷ us) h k = elim (Bool-cases (ltb t.created_at u.created_at)) [
  | inl older ↦ rw (insert_recent, older) (k.0, All-insert_recent P t us h k.1)
  | inr newer ↦ rw (insert_recent, newer) (h, k)
]

insert_recent-IsRecentFirst :
    (t : Transaction) (ts : List Transaction)
    → IsRecentFirst ts
    → IsRecentFirst (insert_recent t ts)
unfolding insert_recent
insert_recent-IsRecentFirst t [] h = (tt, tt)
insert_recent-IsRecentFirst t (u ∷ us) h = elim (Bool-cases (ltb t.created_at u.created_at)) [
  | inl older ↦
      rw (insert_recent, older)
        (
          All-insert_recent (IsOlder u) t us (ground arith) h.0,
          insert_recent-IsRecentFirst t us h.1,
        )
  | inr newer ↦
      let below : u.created_at ≤ t.created_at = ground arith in
      rw (insert_recent, newer)
        (
          (below, All-map (λ (v : Transaction) (w : IsOlder u v). omega (arith, w, below)) us h.0),
          h,
        )
]

sort_recent-IsRecentFirst : (ts : List Transaction) → IsRecentFirst (sort_recent ts)
unfolding sort_recent
sort_recent-IsRecentFirst [] = tt
sort_recent-IsRecentFirst (t ∷ ts) =
    insert_recent-IsRecentFirst t (sort_recent ts) (sort_recent-IsRecentFirst ts)

-- how many transactions pass a test
unfoldable pub count : (Transaction → Bool) → List Transaction → ℕ
count p [] = 0
count p (t ∷ ts) = (if p t then 1 else 0) + count p ts

count-insert_recent :
    (p : Transaction → Bool) (t : Transaction) (ts : List Transaction)
    → count p (insert_recent t ts) ≡ (if p t then 1 else 0) + count p ts
unfolding insert_recent count
count-insert_recent p t [] = refl
count-insert_recent p t (u ∷ us) = ground (arith, count-insert_recent p t us)

count-sort_recent :
    (p : Transaction → Bool) (ts : List Transaction) → count p (sort_recent ts) ≡ count p ts
unfolding sort_recent count
count-sort_recent p [] = refl
count-sort_recent p (t ∷ ts) =
    count-insert_recent p t (sort_recent ts)
    ∙ ap (λ (n : ℕ). (if p t then 1 else 0) + n) (count-sort_recent p ts)

module _ {F Raw : Type 0} where
  -- Listing a user's transactions succeeds and changes nothing. The list has the most recent ones first,
  -- and the same transactions as those stored under the user's IDs: of each kind, by whatever test,
  -- as many.
  pub list_transactions_by_user_lem :
      (user_id : String) (s : MemoryStorage F Raw)
      → (txs : List Transaction) × (list_transactions_by_user user_id s ≡ (ok txs, s))
        × IsRecentFirst txs
        × ((p : Transaction → Bool)
            → count p txs
              ≡ count p (
                  resolve_all s.transactions (list_or_nil (lookup user_id s.transactions_by_user))))
  unfolding list_transactions_by_user
  list_transactions_by_user_lem user_id s =
      let stored =
        resolve_all s.transactions (list_or_nil (lookup user_id s.transactions_by_user)) in
      (sort_recent stored, refl, sort_recent-IsRecentFirst stored, λ p. count-sort_recent p stored)
