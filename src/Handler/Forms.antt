-- ===== src/Handler/Forms.antt =====
-- What `KYCIframeSubmit` (identity.go) uses of Go's library on a submitted form: `r.FormValue`,
-- `strings.Split` at dashes and `strconv.Atoi`.
use Prim.Native.Char.{Char, code}
use Prim.Native.Nat.{◌^◌}
use mockgatehub.Prelude.{
  ◌≡◌, refl, inl, inr, Bool-cases, ℕ, String, Option, none, some, List, [], ◌∷◌, ◌+◌, ◌-◌, ◌*◌, ltb,
  leb, nat_beq, ◌==◌, ◌&&◌, if◌then◌else◌,
}
use mockgatehub.Prelude.Int.{ℤ, pos, negsuc}
use mockgatehub.Prelude.GoMap.{GoMap, lookup}
use mockgatehub.Models.{User}

abbrev pub Form : Type 0
Form = GoMap String

-- "" where the form has no such field
abbrev pub form_value : String → Form → String
form_value name form = elim (lookup name form) [ none ↦ "" | some value ↦ value ]

abbrev push_char : Char → List String → List String
push_char c [] = String.◌∷◌ c "" ∷ []
push_char c (part ∷ parts) = String.◌∷◌ c part ∷ parts

unfoldable pub split_dashes : String → List String
split_dashes String.[] = "" ∷ []
split_dashes (String.◌∷◌ c s) =
    let rest = split_dashes s in if nat_beq (code c) b'-' then "" ∷ rest else push_char c rest

-- the digits of `s` after the number `n`
unfoldable pub read_digits : ℕ → String → Option ℕ
read_digits n String.[] = some n
read_digits n (String.◌∷◌ c s) =
    let rest = read_digits (n * 10 + (code c - b'0')) s in
    if leb b'0' (code c) && leb (code c) b'9' then rest else none

abbrev read_natural : String → Option ℕ
read_natural s = if s == "" then none else read_digits 0 s

-- a 64-bit integer, from its sign and its digits
abbrev positive : Option ℕ → Option ℤ
positive none = none
positive (some n) = if ltb n (2 ^ 63) then some (pos n) else none

abbrev negative : Option ℕ → Option ℤ
negative none = none
negative (some n) =
    if nat_beq n 0 then some (pos 0) else if leb n (2 ^ 63) then some (negsuc (n - 1)) else none

unfoldable pub atoi : String → Option ℤ
unfolding read_digits
atoi String.[] = none
atoi (String.◌∷◌ c s) =
    if nat_beq (code c) b'-'
    then negative (read_natural s)
    else if nat_beq (code c) b'+'
    then positive (read_natural s)
    else positive (read_natural (String.◌∷◌ c s))

abbrev atoi_or : ℤ → String → ℤ
atoi_or old text = elim (atoi text) [ none ↦ old | some n ↦ n ]

abbrev with_birth_parts : List String → User → User
with_birth_parts (year ∷ month ∷ day ∷ []) u = record u {
  birth_year = atoi_or u.birth_year year;
  birth_month = atoi_or u.birth_month month;
  birth_day = atoi_or u.birth_day day;
}
with_birth_parts _ u = u

-- a date of the form YYYY-MM-DD; the parts that are no numbers leave the fields as they were
unfoldable pub with_birth_date : String → User → User
unfolding split_dashes atoi
with_birth_date dob u = if dob == "" then u else with_birth_parts (split_dashes dob) u

with_birth_parts_keeps :
    (parts : List String) (u : User)
    → let u' = with_birth_parts parts u in
      (u'.id ≡ u.id) × (u'.email ≡ u.email) × (u'.kyc_state ≡ u.kyc_state)
with_birth_parts_keeps [] u = (refl, refl, refl)
with_birth_parts_keeps (a ∷ []) u = (refl, refl, refl)
with_birth_parts_keeps (a ∷ b ∷ []) u = (refl, refl, refl)
with_birth_parts_keeps (a ∷ b ∷ c ∷ []) u = (refl, refl, refl)
with_birth_parts_keeps (a ∷ b ∷ c ∷ d ∷ parts) u = (refl, refl, refl)

-- A date of birth touches neither what identifies the user nor the state.
pub with_birth_date_keeps :
    (dob : String) (u : User)
    → let u' = with_birth_date dob u in
      (u'.id ≡ u.id) × (u'.email ≡ u.email) × (u'.kyc_state ≡ u.kyc_state)
unfolding with_birth_date
with_birth_date_keeps dob u = elim (Bool-cases (dob == "")) [
  | inl empty ↦ rw (with_birth_date, empty) (refl, refl, refl)
  | inr given ↦ rw (with_birth_date, given) (with_birth_parts_keeps (split_dashes dob) u)
]
