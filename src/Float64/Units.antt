-- ===== src/Float64/Units.antt =====
-- An instance of the interface at which tests and examples run: numbers with four decimals, counted
-- in ten-thousandths, with products and quotients rounded to the nearest, and text with two decimals.
use Prim.Native.Char.{code}
use Prim.Native.String.{◌++◌}
use mockgatehub.Prelude.{
  ℕ, zero, suc, ◌+◌, ◌-◌, ◌*◌, ◌/◌, ◌%◌, String, ◌≡◌, refl, false, ◌&&◌, Option, none, some, [],
  ◌∷◌, arith, ltb, leb, nat_beq, get_elem?, ◌==◌, if◌then◌else◌,
}
use mockgatehub.Prelude.Int.{
  ℤ, pos, negsuc, pos_part, neg_part, ◌+ℤ◌, ◌-ℤ◌, ◌*ℤ◌, ltb_ℤ, eqb_ℤ, div_round,
}
use mockgatehub.Float64.{Float64}

abbrev digit : ℕ → String
digit n =
    elim (get_elem? {A = String} ("0" ∷ "1" ∷ "2" ∷ "3" ∷ "4" ∷ "5" ∷ "6" ∷ "7" ∷ "8" ∷ "9" ∷ [])
      n) [ none ↦ "" | some d ↦ d ]

-- decimal digits, in front of a text; each round takes one digit, so the fuel may be the number
decimal : ℕ → ℕ → String → String
decimal zero n acc = acc
decimal (suc fuel) n acc =
    let rest = decimal fuel (n / 10) (digit (n % 10) ++ acc) in
    if ltb n 10 then digit n ++ acc else rest

cents_text : ℕ → String
cents_text c = decimal 30 (c / 100) ("." ++ digit (c / 10 % 10) ++ digit (c % 10))

format_units : ℤ → String
format_units x =
    let c = div_round x 100 in
    if ltb_ℤ c (pos 0) then "-" ++ cents_text (neg_part c) else cents_text (pos_part c)

-- The digits read so far and, after a point, how many of the four decimals are left.
read_units : String → ℕ → Option ℕ → Option ℤ
read_units String.[] n none = some (pos (n * 10000))
read_units String.[] n (some left) = some (
    pos (
      n * elim left [
        | zero ↦ 1
        | suc zero ↦ 10
        | suc (suc zero) ↦ 100
        | suc (suc (suc zero)) ↦ 1000
        | _ ↦ 10000
      ]))
read_units (String.◌∷◌ c s) n none =
    let k = code c in
    let whole = read_units s (n * 10 + (k - 48)) none in
    let decimals = read_units s n (some 4) in
    if leb 48 k && leb k 57 then whole else if nat_beq k 46 then decimals else none
read_units (String.◌∷◌ c s) n (some zero) = none
read_units (String.◌∷◌ c s) n (some (suc left)) =
    let k = code c in
    let more = read_units s (n * 10 + (k - 48)) (some left) in
    if leb 48 k && leb k 57 then more else none

negated : Option ℤ → Option ℤ
negated none = none
negated (some x) = some (pos 0 -ℤ x)

digits_units : String → Option ℤ
digits_units s = if s == "" then none else read_units s 0 none

parse_units : String → Option ℤ
parse_units String.[] = none
parse_units (String.◌∷◌ c s) =
    if nat_beq (code c) 45 then negated (digits_units s) else digits_units (String.◌∷◌ c s)

abbrev pub GeZero : ℤ → Type 0
GeZero a = ltb_ℤ a (pos 0) ≡ false

pub units_add : (a b : ℤ) → GeZero a → GeZero b → GeZero (a +ℤ b)
unfolding ◌+ℤ◌
units_add a b h k = ground arith

pub units_sub : (a b : ℤ) → ltb_ℤ a b ≡ false → GeZero (a -ℤ b)
unfolding ◌-ℤ◌
units_sub a b h = ground arith

pub units_mul : (a b : ℤ) → GeZero a → GeZero b → GeZero (div_round (a *ℤ b) 10000)
unfolding ◌*ℤ◌ div_round
units_mul (pos m) (pos n) h k = ground arith
units_mul (pos m) (negsuc n) h k = absurd (ground arith)
units_mul (negsuc m) (pos n) h k = absurd (ground arith)
units_mul (negsuc m) (negsuc n) h k = absurd (ground arith)

pub units_round : (a : ℤ) → GeZero a → GeZero (div_round a 10000 *ℤ pos 10000)
unfolding div_round ◌*ℤ◌
units_round a h = ground arith

-- a quotient of two amounts, of which only the division by 100.0 is used
abbrev pub units_quotient : ℤ → ℤ → ℤ
units_quotient a b = div_round (a *ℤ pos 10000) (pos_part b)

pub units_div_hundred : (a : ℤ) → GeZero a → GeZero (units_quotient a (pos 1_000_000))
unfolding div_round ◌*ℤ◌
units_div_hundred a h = ground arith

pub units_seed : pos 0 +ℤ pos 100_000_000 ≡ pos 100_000_000
unfolding ◌+ℤ◌
units_seed = refl

-- `units` counts ten-thousandths.
instance unfoldable pub units : Float64 ℤ
unfolding format_units cents_text decimal parse_units digits_units read_units negated
units = record {
  zero = pos 0;
  hundred = pos 1_000_000;
  seed_amount = pos 100_000_000;
  of_nat = λ n. pos (n * 10000);
  add = ◌+ℤ◌;
  sub = ◌-ℤ◌;
  mul = λ a b. div_round (a *ℤ b) 10000;
  div = units_quotient;
  neg = λ a. pos 0 -ℤ a;
  lt = ltb_ℤ;
  eq = eqb_ℤ;
  round = λ a. div_round a 10000 *ℤ pos 10000;
  format = format_units;
  parse = parse_units;
  lt-zero = refl;
  lt-add = units_add;
  lt-sub = units_sub;
  lt-mul = units_mul;
  lt-div_hundred = units_div_hundred;
  lt-round = units_round;
  lt-hundred = refl;
  eq-zero = refl;
  add-zero_seed = units_seed;
  eq-seed_zero = refl;
}

format_units_example : format_units (pos 123_456) ≡ "12.35"
unfolding format_units div_round cents_text decimal
format_units_example = refl

parse_units_example : parse_units "12.35" ≡ some (pos 123_500)
unfolding parse_units digits_units read_units
parse_units_example = refl

parse_minus_example : parse_units "-5.00" ≡ some (negsuc 49_999)
unfolding parse_units digits_units read_units negated ◌-ℤ◌
parse_minus_example = refl
