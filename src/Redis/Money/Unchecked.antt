-- ===== src/Redis/Money/Unchecked.antt =====
-- Histories of credits and debits in redis.go, which takes any amount from any balance.
use mockgatehub.Prelude.{String, Option, none, some, List, [], ◌∷◌, ◌==◌, if◌then◌else◌}
use mockgatehub.Prelude.Result.{Result, ok, err, ◌>>◌, pure}
use mockgatehub.Float64.{Float64}
use mockgatehub.Storage.Balances.Runs.{BalanceCall, credit, debit}
use mockgatehub.Redis.Client.{RedisClient, RedisFloats, Call}
use mockgatehub.Redis.Money.{add_balance, deduct_balance, balance_key}

module _ {F : Type 0} where
  abbrev pub key_of : BalanceCall F → String
  key_of (credit u c x) = balance_key u c
  key_of (debit u c x) = balance_key u c

module _ {F : Type 0} ⦃fl : Float64 F⦄ where
  abbrev pub moved : BalanceCall F → F
  moved (credit u c x) = x
  moved (debit u c x) = fl.neg x

  -- the text that a balance's key comes to hold: each call for the key adds to it, whatever it
  -- holds, by the server's sum
  unfoldable pub text_after :
      (Option String → F → String) → String → List (BalanceCall F) → Option String → Option String
  text_after sum key [] text = text
  text_after sum key (call ∷ calls) text =
      text_after sum key calls (if key_of call == key then some (sum text (moved call)) else text)

  -- the balance that a text stands for
  abbrev pub balance_in : Option String → Result String F
  balance_in none = ok fl.zero
  balance_in (some text) = elim (fl.parse text) [
    | none ↦ err "failed to parse balance"
    | some x ↦ ok x
  ]

module _ {R F : Type 0} ⦃client : RedisClient R⦄ ⦃floats : RedisFloats R F⦄ ⦃fl : Float64 F⦄ where
  abbrev pub make_call : BalanceCall F → Call R (Unit {0})
  make_call (credit u c x) = add_balance u c x
  make_call (debit u c x) = deduct_balance u c x

  -- the calls one after the other, up to the first that fails
  unfoldable pub make_calls : List (BalanceCall F) → Call R (Unit {0})
  make_calls [] = pure tt
  make_calls (call ∷ calls) = make_call call >> make_calls calls
