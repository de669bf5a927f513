-- ===== src/Float.antt =====
-- The quotient of two natural numbers as a double, which is what `/` gives in Python: the exact
-- quotient, rounded to 53 binary digits, to the even one of two that are equally near. Quotients beyond
-- the range of doubles are not modelled.
use belcoin.Prelude.{
  ℕ, zero, suc, ◌+◌, ◌*◌, ◌/◌, ◌%◌, true, false, ◌&&◌, ◌||◌, ◌==◌, ltb, leb, if◌then◌else◌,
}

-- The number `mantissa * times / over`, where `times` and `over` are powers of two
pub record Float : Type 0 where
  pub mantissa : ℕ
  pub times : ℕ
  pub over : ℕ

abbrev two_52 : ℕ
two_52 = 4_503_599_627_370_496

-- `n / d`, rounded to a whole number
abbrev pub nearest : ℕ → ℕ → ℕ
nearest n d =
    if ltb d (2 * (n % d)) || ((d == 2 * (n % d)) && ((n / d) % 2 == 1)) then n / d + 1 else n / d

-- The divisor is doubled until the quotient is below 2 ^ 53.
unfoldable pub scale_up : ℕ → ℕ → ℕ → ℕ → ℕ → Float
scale_up zero n d times over = record { mantissa = nearest n d; times = times; over = over }
scale_up (suc fuel) n d times over = elim (leb (2 * two_52 * d) n) [
  | true ↦ scale_up fuel n (2 * d) (2 * times) over
  | false ↦ record { mantissa = nearest n d; times = times; over = over }
]

-- The number is doubled until the quotient is at least 2 ^ 52.
unfoldable pub scale_down : ℕ → ℕ → ℕ → ℕ → Float
unfolding scale_up
scale_down zero n d over = record { mantissa = nearest n d; times = 1; over = over }
scale_down (suc fuel) n d over = elim (ltb n (two_52 * d)) [
  | true ↦ scale_down fuel (2 * n) d (2 * over)
  | false ↦ scale_up 971 n d 1 over
]

-- `a / b` for a positive `b`: a double has an exponent of 971 at most and -1074 at least.
unfoldable pub true_div : ℕ → ℕ → Float
unfolding scale_down
true_div a b = elim (a == 0) [
  | true ↦ record { mantissa = 0; times = 1; over = 1 }
  | false ↦ scale_down 1074 a b 1
]

-- `int(x)`
unfoldable pub int : Float → ℕ
int x = x.mantissa * x.times / x.over
