-- ===== src/Storage/Balances/Laws.antt =====
-- What each balance method of memory.go does to every balance.
use mockgatehub.Prelude.{
  String, ◌≡◌, ap, true, false, none, ◌==◌, ◌&&◌, arith, eq_iff, if◌then◌else◌, refl, Option-cases,
  Bool-cases, inl, inr, ◌⊎◌, ◌≢◌,
}
use mockgatehub.Prelude.Result.{ok, err}
use mockgatehub.Prelude.GoMap.{lookup, insert, lookup-insert, lookup-nil}
use mockgatehub.Float64.{Float64}
use mockgatehub.Storage.Memory.{MemoryStorage}
use mockgatehub.Storage.Balances.{
  or_zero, user_balances, insufficient_balance, get_balance, add_balance, deduct_balance,
}

module _ {F Raw : Type 0} ⦃fl : Float64 F⦄ where
  -- What a user holds in a currency: 0 where nothing is recorded.
  unfoldable pub balance : String → String → MemoryStorage F Raw → F
  balance user_id currency s = or_zero (lookup currency (user_balances (lookup user_id s.balances)))

  pub balance_of_balances :
      (u c : String) (s s' : MemoryStorage F Raw)
      → s.balances ≡ s'.balances
      → balance u c s ≡ balance u c s'
  unfolding balance
  balance_of_balances u c s s' e = ap (λ m. or_zero (lookup c (user_balances (lookup u m)))) e

  pub get_balance-balance :
      (u c : String) (s : MemoryStorage F Raw) → get_balance u c s ≡ (ok (balance u c s), s)
  unfolding get_balance balance
  get_balance-balance u c s = elim (Option-cases (lookup u s.balances)) [
    | inl gone ↦ rw gone (rw (lookup-nil c))
    | inr (m, found) ↦ rw found
  ]

  -- the entry that a write under (u, c) leaves under (u', c')
  pub balance-insert :
      (u c u' c' : String) (x : F) (s : MemoryStorage F Raw)
      → let m = insert c x (user_balances (lookup u s.balances)) in
        balance u' c' (record s { balances = insert u m s.balances })
        ≡ (if u == u' && c == c' then x else balance u' c' s)
  unfolding balance
  balance-insert u c u' c' x s =
      let m = user_balances (lookup u s.balances) in
      ground (
        arith,
        eq_iff u u',
        eq_iff c c',
        lookup-insert u u' (insert c x m) s.balances,
        lookup-insert c c' x m,
      )

  -- `AddBalance` succeeds, adds the amount to the one balance, and leaves every other.
  pub balance-add_balance :
      (u c u' c' : String) (x : F) (s : MemoryStorage F Raw)
      → let (r, s') = add_balance u c x s in
        (r ≡ ok tt)
        × (balance u' c' s'
            ≡ (if u == u' && c == c' then fl.add (balance u c s) x else balance u' c' s))
  unfolding add_balance balance
  balance-add_balance u c u' c' x s = (refl, balance-insert u c u' c' (fl.add (balance u c s) x) s)

  -- `DeductBalance` refuses an unknown user and an amount above the balance, and changes nothing then;
  -- otherwise it subtracts the amount from the one balance, and leaves every other.
  pub balance-deduct_balance :
      (u c u' c' : String) (x : F) (s : MemoryStorage F Raw)
      → let (r, s') = deduct_balance u c x s in
        ((lookup u s.balances ≡ none) × (r ≡ err "insufficient balance") × (s' ≡ s))
        ⊎ ((fl.lt (balance u c s) x ≡ true)
            × (r ≡ err (insufficient_balance (balance u c s) x))
            × (s' ≡ s))
        ⊎ ((lookup u s.balances ≢ none)
            × (fl.lt (balance u c s) x ≡ false)
            × (r ≡ ok tt)
            × (balance u' c' s'
                ≡ (if u == u' && c == c' then fl.sub (balance u c s) x else balance u' c' s)))
  unfolding deduct_balance balance
  balance-deduct_balance u c u' c' x s = elim (Option-cases (lookup u s.balances)) [
    | inl gone ↦ inl (gone, ground arith, ground arith)
    | inr (m, found) ↦ elim (Bool-cases (fl.lt (or_zero (lookup c m)) x)) [
      | inl short ↦ inr (inl (ground arith, ground arith, ground arith))
      | inr enough ↦
          let after = balance-insert u c u' c' (fl.sub (or_zero (lookup c m)) x) s in
          inr (inr (ground arith, ground arith, ground arith, ground (arith, after)))
    ]
  ]
