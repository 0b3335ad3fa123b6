-- ===== src/Prelude/Result.antt =====
-- Go's `(T, error)`, and code that changes a state and returns early with an error: what was
-- written before the early return stays written, so the state comes back beside the error too.
use mathlib.Core.Bool.{Bool}
use mathlib.Core.Path.{◌≡◌, refl, ap, sym, subst, ◌∙◌}
use mathlib.Core.Logic.{◌⊎◌, inl, inr}
use mathlib.Core.Option.{Option, none, some}
use native.Mathlib.Omega.{arith}
use mockgatehub.Prelude.Tests.{if◌then◌else◌}

pub data Result {ℓ} (E A : Type ℓ) : Type ℓ where
  ok : A → Result E A
  err : E → Result E A

abbrev pub Exec {ℓ} : Type ℓ → Type ℓ → Type ℓ → Type ℓ
Exec S E A = S → Result E A × S

module _ {ℓ} {S E A : Type ℓ} where
  abbrev pub pure : A → Exec S E A
  pure a s = (ok a, s)

  abbrev pub raise : E → Exec S E A
  raise e s = (err e, s)

  abbrev pub gets : (S → A) → Exec S E A
  gets f s = (ok (f s), s)

  abbrev pub lift : Result E A → Exec S E A
  lift r s = (r, s)

abbrev pub on_result {ℓ} : {S E A B : Type ℓ} → Result E A → (A → Exec S E B) → Exec S E B
on_result (ok a) f s = f a s
on_result (err e) f s = (err e, s)

abbrev pub of_option {ℓ} : {E A : Type ℓ} → Option A → E → Result E A
of_option none e = err e
of_option (some a) e = ok a

infixl 5 ◌>>=◌ ◌>>◌
abbrev pub ◌>>=◌ {ℓ} : {S E A B : Type ℓ} → Exec S E A → (A → Exec S E B) → Exec S E B
◌>>=◌ m f s = on_result (m s).0 f (m s).1

abbrev pub ◌>>◌ {ℓ} : {S E A B : Type ℓ} → Exec S E A → Exec S E B → Exec S E B
m >> k = m >>= λ _. k

-- `if c { return e }`
abbrev pub raise_if : {S E : Type 0} → Bool → E → Exec S E (Unit {0})
raise_if c e s = (if c then err e else ok tt, s)

abbrev pub modify : {S E : Type 0} → (S → S) → Exec S E (Unit {0})
modify f s = (ok tt, f s)

module _ {ℓ} {E E' A : Type ℓ} where
  abbrev pub map_err : (E → E') → Result E A → Result E' A
  map_err f (ok a) = ok a
  map_err f (err e) = err (f e)

  -- `if err != nil { return f(err) }` after a call
  abbrev pub or_else : {S : Type ℓ} → Exec S E A → (E → E') → Exec S E' A
  or_else m f s = (map_err f (m s).0, (m s).1)

-- `_ = call()`: the error is dropped
abbrev pub ignore_err : {S E E' A : Type 0} → Exec S E A → Exec S E' (Unit {0})
ignore_err m s = (ok tt, (m s).1)

pub Result-cases {ℓ} :
    {E A : Type ℓ} (r : Result E A) → ((e : E) × (r ≡ err e)) ⊎ ((a : A) × (r ≡ ok a))
Result-cases (ok a) = inr (a, refl)
Result-cases (err e) = inl (e, refl)

-- A chain that succeeds has a first step that succeeded, and goes on from there.
pub bind_ok :
    {S E A B : Type 0} (m : Exec S E A) (k : A → Exec S E B) (s : S) (b : B)
    → ((m >>= k) s).0 ≡ ok b
    → (a : A) × ((m s).0 ≡ ok a) × ((m >>= k) s ≡ k a (m s).1)
bind_ok m k s b h = elim (Result-cases (m s).0) [
  | inl (e, bad) ↦ absurd (failed e bad)
  | inr (a, good) ↦ (a, good, ap (λ r. on_result r k (m s).1) good)
]
  where
    failed : (e : _) → (m s).0 ≡ err e → ⊥
    failed e bad = let refused = ap (λ r. (on_result r k (m s).1).0) bad in ground arith

-- What holds after a chain that succeeds: the rest need only give it where the step succeeded.
pub after_ok :
    {S E A B : Type 0} (P : S → Type 0) (m : Exec S E A) (k : A → Exec S E B) (s : S) (b : B)
    → ((m >>= k) s).0 ≡ ok b
    → ((a : A) → (m s).0 ≡ ok a → (k a (m s).1).0 ≡ ok b → P (k a (m s).1).1)
    → P ((m >>= k) s).1
after_ok P m k s b fine rest =
    let (a, good, on) = bind_ok m k s b fine in
    subst (λ x. P x.1) (sym on) (rest a good (ap (λ x. x.0) (sym on) ∙ fine))
