-- ===== src/Float64.antt =====
-- Go's `float64`, which the code uses for amounts, percentages and balances. The arithmetic of IEEE
-- 754 is not modelled bit by bit: the operations are an interface, and the laws are those that hold
-- of every value, the infinities and NaN among them. "Not below zero" is the test `x < 0` failing.
pub mod Units
use mockgatehub.Prelude.{ℕ, String, ◌≡◌, Bool, true, false, Option}

pub record Float64 (F : Type 0) : Type 0 where
  pub zero : F
  pub hundred : F
  pub seed_amount : F  -- 10000.00
  pub of_nat : ℕ → F  -- the literal of a whole number
  pub add : F → F → F
  pub sub : F → F → F
  pub mul : F → F → F
  pub div : F → F → F
  pub neg : F → F
  pub lt : F → F → Bool
  pub eq : F → F → Bool
  pub round : F → F  -- math.Round
  pub format : F → String  -- fmt.Sprintf("%.2f", x)
  pub parse : String → Option F  -- strconv.ParseFloat(s, 64)
  pub lt-zero : lt zero zero ≡ false
  pub lt-add : (a b : F) → lt a zero ≡ false → lt b zero ≡ false → lt (add a b) zero ≡ false
  pub lt-sub : (a b : F) → lt a b ≡ false → lt (sub a b) zero ≡ false
  pub lt-mul : (a b : F) → lt a zero ≡ false → lt b zero ≡ false → lt (mul a b) zero ≡ false
  pub lt-div_hundred : (a : F) → lt a zero ≡ false → lt (div a hundred) zero ≡ false
  pub lt-round : (a : F) → lt a zero ≡ false → lt (round a) zero ≡ false
  pub lt-hundred : lt hundred zero ≡ false
  pub eq-zero : eq zero zero ≡ true
  pub add-zero_seed : add zero seed_amount ≡ seed_amount
  pub eq-seed_zero : eq seed_amount zero ≡ false

-- The comparisons that the source writes `a < 0` and `a > b`.
abbrev pub NonNeg : {F : Type 0} ⦃fl : Float64 F⦄ → F → Type 0
NonNeg ⦃fl⦄ x = fl.lt x fl.zero ≡ false
