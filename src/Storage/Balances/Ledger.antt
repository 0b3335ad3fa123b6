-- ===== src/Storage/Balances/Ledger.antt =====
-- What the balance methods of memory.go promise: a ledger of amounts under a user and a currency.
use mockgatehub.Prelude.{
  String, ◌≡◌, refl, ap, Bool, List, [], ◌∷◌, ◌==◌, ◌||◌, ◌&&◌, arith, not, Option-cases,
  Bool-cases, inl, inr, if◌then◌else◌,
}
use mathlib.Core.Path.{fun_ext}
use mockgatehub.Prelude.Result.{Result, ok, err}
use mockgatehub.Prelude.GoMap.{lookup, lookup-insert, contains, insert}
use mockgatehub.Float64.{Float64}
use mockgatehub.Storage.Memory.{MemoryStorage, GoError}
use mockgatehub.Storage.Balances.{
  add_balance, deduct_balance, insufficient_balance, user_balances, or_zero,
}
use mockgatehub.Storage.Balances.Laws.{balance, balance-insert}
use mockgatehub.Storage.Balances.Runs.{BalanceCall, credit, debit}

-- `is_known` are the users that a balance was ever written for.
pub record Ledger (F : Type 0) : Type 0 where
  pub is_known : String → Bool
  pub held : String → String → F

module _ {F : Type 0} ⦃fl : Float64 F⦄ where
  -- a ledger with one amount put in its place
  abbrev pub put : String → String → F → Ledger F → Ledger F
  put u c x l = record {
    is_known = λ u'. u == u' || l.is_known u';
    held = λ u' c'. if u == u' && c == c' then x else l.held u' c';
  }

  abbrev pub settle : BalanceCall F → Ledger F → Result GoError (Unit {0}) × Ledger F
  settle (credit u c x) l = (ok tt, put u c (fl.add (l.held u c) x) l)
  settle (debit u c x) l =
      if not (l.is_known u)
      then (err "insufficient balance", l)
      else if fl.lt (l.held u c) x
      then (err (insufficient_balance (l.held u c) x), l)
      else (ok tt, put u c (fl.sub (l.held u c) x) l)

  unfoldable pub settle_all :
      List (BalanceCall F) → Ledger F → List (Result GoError (Unit {0})) × Ledger F
  settle_all [] l = ([], l)
  settle_all (call ∷ calls) l =
      let (answer, l') = settle call l in
      let (answers, l'') = settle_all calls l' in (answer ∷ answers, l'')

module _ {F Raw : Type 0} ⦃fl : Float64 F⦄ where
  abbrev pub ledger : MemoryStorage F Raw → Ledger F
  ledger s = record { is_known = λ u. contains u s.balances; held = λ u c. balance u c s }

  abbrev pub answer_call :
      BalanceCall F → MemoryStorage F Raw → Result GoError (Unit {0}) × MemoryStorage F Raw
  answer_call (credit u c x) s = add_balance u c x s
  answer_call (debit u c x) s = deduct_balance u c x s

  unfoldable pub answer_calls :
      List (BalanceCall F)
      → MemoryStorage F Raw
      → List (Result GoError (Unit {0})) × MemoryStorage F Raw
  answer_calls [] s = ([], s)
  answer_calls (call ∷ calls) s =
      let (answer, s') = answer_call call s in
      let (answers, s'') = answer_calls calls s' in (answer ∷ answers, s'')

  contains-insert :
      (u c u' : String) (x : F) (s : MemoryStorage F Raw)
      → contains u' (insert u (insert c x (user_balances (lookup u s.balances))) s.balances)
        ≡ (u == u' || contains u' s.balances)
  contains-insert u c u' x s =
      let m = insert c x (user_balances (lookup u s.balances)) in
      ground (arith, lookup-insert u u' m s.balances)

  ledger-insert :
      (u c : String) (x : F) (s : MemoryStorage F Raw)
      → let m = insert c x (user_balances (lookup u s.balances)) in
        ledger (record s { balances = insert u m s.balances }) ≡ put u c x (ledger s)
  ledger-insert u c x s =
      let known = fun_ext (λ u'. contains-insert u c u' x s) in
      let held = fun_ext (λ u'. fun_ext (λ c'. balance-insert u c u' c' x s)) in
      λ i. record { is_known = known i; held = held i }

  answer_call-settle :
      (call : BalanceCall F) (s : MemoryStorage F Raw)
      → let (r, s') = answer_call call s in (r, ledger s') ≡ settle call (ledger s)
  unfolding add_balance deduct_balance balance
  answer_call-settle (credit u c x) s =
      ap (λ l. (ok tt, l)) (ledger-insert u c (fl.add (balance u c s) x) s)
  answer_call-settle (debit u c x) s = elim (Option-cases (lookup u s.balances)) [
    | inl gone ↦ rw (deduct_balance, gone) refl
    | inr (m, found) ↦ elim (Bool-cases (fl.lt (or_zero (lookup c m)) x)) [
      | inl short ↦ rw (deduct_balance, found, short) refl
      | inr enough ↦
          let after = ledger-insert u c (fl.sub (or_zero (lookup c m)) x) s in
          rw (deduct_balance, found, enough) (ap (λ l. (ok tt, l)) (rw found at after))
    ]
  ]

  -- The balance methods of memory.go implement the ledger: any calls of `AddBalance` and of
  -- `DeductBalance`, with any amounts, are answered as the ledger answers them, errors and their
  -- texts included, and leave the store with the ledger that the same calls leave.
  pub answer_calls_refine :
      (calls : List (BalanceCall F)) (s : MemoryStorage F Raw)
      → let (answers, s') = answer_calls calls s in
        (answers, ledger s') ≡ settle_all calls (ledger s)
  unfolding answer_calls settle_all
  answer_calls_refine [] s = refl
  answer_calls_refine (call ∷ calls) s =
      let first = answer_call-settle call s in
      let later = answer_calls_refine calls (answer_call call s).1 in rw (← first, ← later) refl
