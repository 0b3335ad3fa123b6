-- ===== src/Handler/CardTokens/Split.antt =====
-- `strings.Split` at dots, in card_token.go.
use Prim.Native.Char.{Char, char, code}
use Prim.Native.String.{◌++◌}
use text.Mathlib.TextLemmas.{nil-append, cons-append}
use mockgatehub.Prelude.{
  String, Bool, false, ◌≡◌, refl, List, [], ◌∷◌, nat_beq, ◌||◌, if◌then◌else◌, Bool-cases, inl, inr,
  arith,
}

abbrev extend : Char → List String → List String
extend c [] = []
extend c (part ∷ parts) = String.◌∷◌ c part ∷ parts

abbrev pub is_dot : Char → Bool
is_dot c = nat_beq (code c) b'.'

unfoldable pub split_dots : String → List String
split_dots String.[] = "" ∷ []
split_dots (String.◌∷◌ c s) =
    let parts = split_dots s in if is_dot c then "" ∷ parts else extend c parts

unfoldable pub has_dot : String → Bool
has_dot String.[] = false
has_dot (String.◌∷◌ c s) = is_dot c || has_dot s

-- A text without dots is one part.
pub split_dots-plain : (a : String) → has_dot a ≡ false → split_dots a ≡ a ∷ []
unfolding split_dots has_dot
split_dots-plain String.[] h = refl
split_dots-plain (String.◌∷◌ c s) h = elim (Bool-cases (is_dot c)) [
  | inl dot ↦ absurd (ground arith)
  | inr other ↦ rw (other, split_dots-plain s (rw other at h)) refl
]

-- The part in front of the first dot.
pub split_dots-dot :
    (a b : String) → has_dot a ≡ false → split_dots (a ++ ("." ++ b)) ≡ a ∷ split_dots b
unfolding split_dots has_dot
split_dots-dot String.[] b h =
    rw (nil-append ("." ++ b), cons-append (char 46 tt) "" b, nil-append b) refl
split_dots-dot (String.◌∷◌ c s) b h = elim (Bool-cases (is_dot c)) [
  | inl dot ↦ absurd (ground arith)
  | inr other ↦ rw (cons-append c s ("." ++ b), other, split_dots-dot s b (rw other at h)) refl
]
