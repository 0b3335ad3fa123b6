-- ===== src/Storage/Balances/Runs.antt =====
-- Histories of credits and debits.
use mockgatehub.Prelude.{String, List, [], ◌∷◌, arith, All}
use mockgatehub.Float64.{Float64, NonNeg}
use mockgatehub.Storage.Memory.{MemoryStorage, new_memory_storage}
use mockgatehub.Storage.Balances.{add_balance, deduct_balance}
use mockgatehub.Prelude.GoMap.{GoMap, lookup-nil}
use mockgatehub.Storage.Balances.Laws.{balance, balance-add_balance, balance-deduct_balance}

-- one call of `AddBalance` or of `DeductBalance`
pub data BalanceCall (F : Type 0) : Type 0 where
  credit : String → String → F → BalanceCall F
  debit : String → String → F → BalanceCall F

module _ {F Raw : Type 0} ⦃fl : Float64 F⦄ where
  unfoldable pub run_call : BalanceCall F → MemoryStorage F Raw → MemoryStorage F Raw
  run_call (credit u c x) s = (add_balance u c x s).1
  run_call (debit u c x) s = (deduct_balance u c x s).1

  unfoldable pub run_calls : List (BalanceCall F) → MemoryStorage F Raw → MemoryStorage F Raw
  run_calls [] s = s
  run_calls (call ∷ calls) s = run_calls calls (run_call call s)

  pub record IsCovered (s : MemoryStorage F Raw) : Type 0 where
    pub at : (u c : String) → NonNeg (balance u c s)

module _ {F : Type 0} ⦃fl : Float64 F⦄ where
  abbrev pub CreditIsNonNeg : BalanceCall F → Type 0
  CreditIsNonNeg (credit u c x) = NonNeg x
  CreditIsNonNeg (debit u c x) = Unit

module _ {F Raw : Type 0} ⦃fl : Float64 F⦄ where
  run_call-IsCovered :
      (call : BalanceCall F) (s : MemoryStorage F Raw)
      → CreditIsNonNeg call
      → IsCovered s
      → IsCovered (run_call call s)
  unfolding run_call
  run_call-IsCovered (credit u c x) s p h = record {
    at = λ u' c'. ground (
      arith,
      (balance-add_balance u c u' c' x s).1,
      h.at u' c',
      fl.lt-add (balance u c s) x (h.at u c) p,
    );
  }
  run_call-IsCovered (debit u c x) s p h = record {
    at = λ u' c'.
        ground
          (arith, balance-deduct_balance u c u' c' x s, h.at u' c', fl.lt-sub (balance u c s) x);
  }

  -- From a store with no balance below zero, any calls of `AddBalance` with amounts that are not
  -- negative and of `DeductBalance` with any amounts, refused or not, leave no balance below zero.
  pub run_calls-IsCovered :
      (calls : List (BalanceCall F)) (s : MemoryStorage F Raw)
      → All CreditIsNonNeg calls
      → IsCovered s
      → IsCovered (run_calls calls s)
  unfolding run_calls
  run_calls-IsCovered [] s p h = h
  run_calls-IsCovered (call ∷ calls) s p h =
      run_calls-IsCovered calls (run_call call s) p.1 (run_call-IsCovered call s p.0 h)

  pub IsCovered-new : IsCovered (new_memory_storage {F = F} {Raw = Raw})
  unfolding new_memory_storage balance
  IsCovered-new = record {
    at = λ u c. ground (arith, fl.lt-zero, lookup-nil {V = F} c, lookup-nil {V = GoMap F} u);
  }
