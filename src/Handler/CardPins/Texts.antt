-- ===== src/Handler/CardPins/Texts.antt =====
-- What the endpoints of PINs use of Go's `strings`, and the digits that are derived from a hash.
use Prim.Native.Char.{Char, char, code}
use Prim.Native.String.{len}
use mockgatehub.Prelude.{
  ℕ, String, Bool, true, false, Option, none, some, List, [], ◌∷◌, ◌%◌, leb, ltb, nat_beq, ◌==◌,
  ◌&&◌, ◌||◌, if◌then◌else◌,
}

-- The white space of Unicode, which `strings.TrimSpace` takes away.
abbrev is_space : Char → Bool
is_space c =
    let n = code c in
    leb 9 n && leb n 13
    || nat_beq n 32
    || nat_beq n 133
    || nat_beq n 160
    || nat_beq n 5760
    || leb 8192 n && leb n 8202
    || nat_beq n 8232
    || nat_beq n 8233
    || nat_beq n 8239
    || nat_beq n 8287
    || nat_beq n 12288

unfoldable pub trim_left : String → String
trim_left String.[] = ""
trim_left (String.◌∷◌ c s) = let rest = trim_left s in if is_space c then rest else String.◌∷◌ c s

unfoldable pub trim_right : String → String
trim_right String.[] = ""
trim_right (String.◌∷◌ c s) =
    let rest = trim_right s in if is_space c && rest == "" then "" else String.◌∷◌ c rest

abbrev pub trim_space : String → String
trim_space s = trim_right (trim_left s)

unfoldable pub all_digits : String → Bool
all_digits String.[] = true
all_digits (String.◌∷◌ c s) = leb b'0' (code c) && leb (code c) b'9' && all_digits s

-- Four to twelve bytes, all of them digits.
unfoldable pub is_plausible_pin : String → Bool
unfolding all_digits
is_plausible_pin pin = if ltb (len pin) 4 || ltb 12 (len pin) then false else all_digits pin

-- `'0' + b % 10`
abbrev pub digit : ℕ → Char
digit b =
    let n = b % 10 in
    if nat_beq n 0
    then char 48 tt
    else if nat_beq n 1
    then char 49 tt
    else if nat_beq n 2
    then char 50 tt
    else if nat_beq n 3
    then char 51 tt
    else if nat_beq n 4
    then char 52 tt
    else if nat_beq n 5
    then char 53 tt
    else if nat_beq n 6
    then char 54 tt
    else if nat_beq n 7
    then char 55 tt
    else if nat_beq n 8
    then char 56 tt
    else char 57 tt

unfoldable pub digits_of : List ℕ → String
digits_of [] = ""
digits_of (b ∷ bytes) = String.◌∷◌ (digit b) (digits_of bytes)

-- the text behind a prefix: `strings.HasPrefix` with `strings.TrimPrefix`
unfoldable pub strip_prefix : String → String → Option String
strip_prefix String.[] s = some s
strip_prefix (String.◌∷◌ c p) String.[] = none
strip_prefix (String.◌∷◌ c p) (String.◌∷◌ d s) =
    let rest = strip_prefix p s in if nat_beq (code c) (code d) then rest else none
