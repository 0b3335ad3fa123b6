-- ===== src/Prelude/GoMap.antt =====
-- Go's `map[string]V` as an association list in which `insert` keeps each key once.
use Prim.Native.String.{String}
use mathlib.Core.Path.{◌≡◌, refl, ap, subst, sym, ◌∙◌}
use mathlib.Core.Logic.{◌≢◌, inl, inr}
use mathlib.Core.Bool.{Bool}
use mathlib.Core.Option.{Option, none, some}
use mathlib.Core.List.{List, [], ◌∷◌}
use native.Mathlib.Omega.{arith}
use text.Mathlib.Text.{◌==◌}
use text.Mathlib.TextEquality.{eq_iff}
use text.Mathlib.TextPositions.{eq_refl}
use mockgatehub.Prelude.Lists.{All, All-map}
use mockgatehub.Prelude.Texts.{==→eq, ==→ne}
use mockgatehub.Prelude.Tests.{if◌then◌else◌, is_some, Bool-cases}

abbrev pub GoMap {ℓ} : Type ℓ → Type ℓ
GoMap V = List (String × V)

module _ {ℓ} {V : Type ℓ} where
  -- `v, exists := m[k]`
  unfoldable pub lookup : String → GoMap V → Option V
  lookup key [] = none
  lookup key (entry ∷ entries) = if entry.0 == key then some entry.1 else lookup key entries

  -- `m[k] = v`
  unfoldable pub insert : String → V → GoMap V → GoMap V
  insert key value [] = (key, value) ∷ []
  insert key value (entry ∷ entries) =
      if entry.0 == key then (key, value) ∷ entries else entry ∷ insert key value entries

  -- `delete(m, k)`
  unfoldable pub erase : String → GoMap V → GoMap V
  erase k [] = []
  erase k ((j, v) ∷ m) = let rest = erase k m in if j == k then rest else (j, v) ∷ rest

  -- `for _, v := range m`, in the order of the entries
  unfoldable pub values : GoMap V → List V
  values [] = []
  values ((j, v) ∷ m) = v ∷ values m

  -- `_, exists := m[k]`
  abbrev pub contains : String → GoMap V → Bool
  contains k m = is_some (lookup k m)

  pub lookup-nil : (k : String) → lookup k [] ≡ none
  unfolding lookup
  lookup-nil k = refl

  pub lookup-insert :
      (key sought : String) (value : V) (entries : GoMap V)
      → lookup sought (insert key value entries)
        ≡ (if key == sought then some value else lookup sought entries)
  unfolding lookup insert
  lookup-insert key sought value [] = refl
  lookup-insert key sought value (entry ∷ entries) =
      let later = lookup-insert key sought value entries in
      ground (arith, later, eq_iff entry.0 key, eq_iff entry.0 sought, eq_iff key sought)

  pub lookup-erase :
      (k j : String) (m : GoMap V) → lookup j (erase k m) ≡ (if k == j then none else lookup j m)
  unfolding lookup erase
  lookup-erase k j [] = ground arith
  lookup-erase k j ((i, v) ∷ m) =
      ground (arith, lookup-erase k j m, eq_iff i k, eq_iff i j, eq_iff k j)

  pub lookup-insert_self : (k : String) (v : V) (m : GoMap V) → lookup k (insert k v m) ≡ some v
  lookup-insert_self k v m = simp (lookup-insert, eq_refl)

  pub lookup-insert_ne :
      (k j : String) (v : V) (m : GoMap V) → k ≢ j → lookup j (insert k v m) ≡ lookup j m
  lookup-insert_ne k j v m h = simp lookup-insert (ground (arith, eq_iff k j))

module _ {V : Type 0} where
  -- a write of what is there already
  pub insert-lookup : (k : String) (v : V) (m : GoMap V) → lookup k m ≡ some v → insert k v m ≡ m
  unfolding lookup insert
  insert-lookup k v [] h = ground arith
  insert-lookup k v ((j, w) ∷ m) h = elim (Bool-cases (j == k)) [
    | inl hit ↦ ground (arith, eq_iff j k)
    | inr miss ↦ rw miss (ap (◌∷◌ (j, w)) (insert-lookup k v m (rw miss at h)))
  ]

-- each key once
abbrev pub IsDistinct {ℓ} : {V : Type ℓ} → GoMap V → Type 0
IsDistinct [] = Unit
IsDistinct (entry ∷ m) = All (λ other. other.0 ≢ entry.0) m × IsDistinct m

module _ {V : Type 0} (P : String × V → Type 0) where
  pub All-lookup : (k : String) (v : V) (m : GoMap V) → All P m → lookup k m ≡ some v → P (k, v)
  unfolding lookup
  All-lookup k v [] all e = absurd (ground arith)
  All-lookup k v ((j, w) ∷ m) all e = elim (Bool-cases (j == k)) [
    | inl hit ↦
        let is : j ≡ k = ==→eq j k hit in
        let same : w ≡ v = ground (arith, rw hit at e) in subst P (λ i. (is i, same i)) all.0
    | inr miss ↦ All-lookup k v m all.1 (rw miss at e)
  ]

  pub All-insert : (k : String) (v : V) (m : GoMap V) → All P m → P (k, v) → All P (insert k v m)
  unfolding insert
  All-insert k v [] all p = (p, tt)
  All-insert k v ((j, w) ∷ m) all p = elim (Bool-cases (j == k)) [
    | inl hit ↦ rw hit (p, all.1)
    | inr miss ↦ rw miss (all.0, All-insert k v m all.1 p)
  ]

-- After a write only the entry of its key has the key, so what holds of that entry is all that is asked.
pub All-insert_distinct :
    {V : Type 0} (P : String × V → Type 0) (k : String) (v : V) (m : GoMap V)
    → IsDistinct m
    → P (k, v)
    → All (λ entry. (entry.0 ≡ k) → P (k, entry.1)) (insert k v m)
unfolding insert
All-insert_distinct P k v [] distinct p = (λ e. p, tt)
All-insert_distinct P k v ((j, w) ∷ m) distinct p = elim (Bool-cases (j == k)) [
  | inl hit ↦
      let is : j ≡ k = ==→eq j k hit in
      rw hit (
        λ e. p,
        All-map {Q = λ entry. (entry.0 ≡ k) → P (k, entry.1)}
            (λ other ne e. absurd (ne (e ∙ sym is))) m distinct.0,
      )
  | inr miss ↦ rw miss (λ e. absurd (==→ne j k miss e), All-insert_distinct P k v m distinct.1 p)
]

pub ruleset map_laws = (lookup-nil, lookup-insert, lookup-erase, eq_refl)
