-- ===== src/Auth/Signature/Bars.antt =====
-- What the trimming of the signed message forgets.
use Prim.Native.String.{◌++◌}
use mockgatehub.Prelude.{String, ◌≡◌, refl, ap, ◌∙◌, Bool-cases, inl, inr}
use text.Mathlib.TextLemmas.{append_assoc, cons-append}
use mockgatehub.Auth.Signature.{is_bar, trim_left_bars, trim_right_bars, generate_signature}

trim_right_bars-bar : (s : String) → trim_right_bars (s ++ "|") ≡ trim_right_bars s
unfolding trim_right_bars
trim_right_bars-bar String.[] = refl
trim_right_bars-bar (String.◌∷◌ c s) = rw (cons-append c s "|", trim_right_bars-bar s) refl

trimmed-bar :
    (s : String) → trim_right_bars (trim_left_bars (s ++ "|")) ≡ trim_right_bars (trim_left_bars s)
unfolding trim_right_bars trim_left_bars
trimmed-bar String.[] = refl
trimmed-bar (String.◌∷◌ c s) = elim (Bool-cases (is_bar c)) [
  | inl bar ↦ rw (cons-append c s "|", bar) (trimmed-bar s)
  | inr other ↦ rw (cons-append c s "|", other, trim_right_bars-bar s) refl
]

-- Signing leaves out the bars at the end of a body: two bodies that differ in them alone have the same
-- signature.
pub generate_signature-bar :
    (hmac : String → String → String) (timestamp method url body secret : String)
    → generate_signature hmac timestamp method url (body ++ "|") secret
      ≡ generate_signature hmac timestamp method url body secret
unfolding generate_signature
generate_signature-bar hmac timestamp method url body secret =
    let message = λ (b : String). timestamp ++ "|" ++ method ++ "|" ++ url ++ "|" ++ b in
    let moved : message (body ++ "|") ≡ message body ++ "|" = simp append_assoc in
    ap (hmac secret)
      (ap (λ m. trim_right_bars (trim_left_bars m)) moved ∙ trimmed-bar (message body))
