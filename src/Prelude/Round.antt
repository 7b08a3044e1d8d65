-- ===== src/Prelude/Round.antt =====
-- Python's `round` on a fraction and on the quotient of two numbers, which is a double.
use Prim.Native.Nat.{ℕ, zero, suc, ◌+◌, ◌*◌, ◌/◌, ◌%◌}
use vanpilot.Prelude.Tests.{ltb, leb, if◌then◌else◌}
use vanpilot.Prelude.Equality.{◌==◌, nat_eq}

-- `round(a / b)`, half to even
unfoldable pub round_div : ℕ → ℕ → ℕ
round_div a b =
    let q = a / b in
    let r = 2 * (a % b) in
    if ltb r b then q else (if ltb b r then q + 1 else (if q % 2 == 0 then q else q + 1))

-- A double, as its mantissa over a power of two.
pub record Double : Type 0 where
  pub mantissa : ℕ
  pub over : ℕ

-- the least mantissa of 53 bits
abbrev least_mantissa : ℕ
least_mantissa = 4503599627370496

-- The fraction is doubled until it has 53 bits before the point, at most `fuel` times, and then
-- rounded.
unfoldable scaled_up : ℕ → ℕ → ℕ → ℕ → Double
unfolding round_div
scaled_up zero a b over = record { mantissa = round_div a b; over = over }
scaled_up (suc fuel) a b over =
    let rest = scaled_up fuel (a * 2) b (over * 2) in
    if leb (b * least_mantissa) a then record { mantissa = round_div a b; over = over } else rest

-- `a / b`, the double nearest to the quotient, for quotients under 2 ^ 53. No double has more than
-- 1074 bits after the point.
unfoldable pub quotient : ℕ → ℕ → Double
unfolding scaled_up
quotient a b = scaled_up 1074 a b 1

-- `round(x, d)`, with `scale` the d-th power of ten, as a multiple of the last digit: the number
-- nearest to the value of the double
unfoldable pub round_at : ℕ → Double → ℕ
unfolding round_div
round_at scale x = round_div (x.mantissa * scale) x.over
