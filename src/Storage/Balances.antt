-- ===== src/Storage/Balances.antt =====
-- Balances of memory.go, per user and currency.
pub mod Laws
pub mod Ledger
pub mod Runs
use Prim.Native.String.{◌++◌}
use mockgatehub.Prelude.{String, Option, none, some, [], ◌∷◌, not, if◌then◌else◌}
use mockgatehub.Prelude.Result.{ok, err}
use mockgatehub.Prelude.GoMap.{GoMap, lookup, insert}
use mockgatehub.Float64.{Float64}
use mockgatehub.Storage.Memory.{Method, GoError}

-- `m[k]` in a map of numbers: 0 where the key is missing
abbrev pub or_zero : {F : Type 0} ⦃fl : Float64 F⦄ → Option F → F
or_zero ⦃fl⦄ none = fl.zero
or_zero (some x) = x

-- a user's map, nil as the empty one
abbrev pub user_balances : {F : Type 0} → Option (GoMap F) → GoMap F
user_balances none = []
user_balances (some m) = m

abbrev pub insufficient_balance : {F : Type 0} ⦃fl : Float64 F⦄ → F → F → GoError
insufficient_balance ⦃fl⦄ have need =
    "insufficient balance: have " ++ fl.format have ++ ", need " ++ fl.format need

module _ {F : Type 0} ⦃fl : Float64 F⦄ where
  -- the entries that are not 0
  unfoldable pub nonzero_entries : GoMap F → GoMap F
  nonzero_entries [] = []
  nonzero_entries ((c, x) ∷ m) =
      let rest = nonzero_entries m in if not (fl.eq x fl.zero) then (c, x) ∷ rest else rest

module _ {F Raw : Type 0} ⦃fl : Float64 F⦄ where
  unfoldable pub get_all_balances : String → Method F Raw (GoMap F)
  unfolding nonzero_entries
  get_all_balances user_id s = (ok (nonzero_entries (user_balances (lookup user_id s.balances))), s)

  unfoldable pub get_balance : String → String → Method F Raw F
  get_balance user_id currency s = (
    ok (elim (lookup user_id s.balances) [ none ↦ fl.zero | some m ↦ or_zero (lookup currency m) ]),
    s,
  )

  unfoldable pub add_balance : String → String → F → Method F Raw (Unit {0})
  add_balance user_id currency amount s =
      let m = user_balances (lookup user_id s.balances) in
      let m' = insert currency (fl.add (or_zero (lookup currency m)) amount) m in
      (ok tt, record s { balances = insert user_id m' s.balances })

  unfoldable pub deduct_balance : String → String → F → Method F Raw (Unit {0})
  deduct_balance user_id currency amount s = elim (lookup user_id s.balances) [
    | none ↦ (err "insufficient balance", s)
    | some m ↦
        let current = or_zero (lookup currency m) in
        let m' = insert currency (fl.sub current amount) m in
        if fl.lt current amount
        then (err (insufficient_balance current amount), s)
        else (ok tt, record s { balances = insert user_id m' s.balances })
  ]
