-- ===== src/Math.antt =====
-- crates/common/src/math.rs: the fixed-point scales, and `a × b / d` through 256 bits.
pub mod Bounds
pub mod Rounding
mod Tests
use stellar_rfq.Prelude.{
  ℕ, ◌+◌, ◌-◌, ◌*◌, ◌/◌, ◌^◌, Bool, true, false, ◌||◌, Option, none, some, ltb, leb, if◌then◌else◌,
}
use stellar_rfq.Prelude.Int.{ℤ, pos, pos_part, ltb_ℤ, leb_ℤ}
use stellar_rfq.Prelude.Result.{Result, ok, err, trap, ◌>>=◌, ◌>>◌, fail_if}
use stellar_rfq.Prelude.Words.{i128_max}

abbrev pub one : ℤ
one = pos 1_000_000_000_000_000_000

abbrev pub bps : ℤ
bps = pos 10_000

abbrev pub rate_scale : ℤ
rate_scale = pos 100

-- 10_000 * 100 * 86_400
abbrev pub denom : ℤ
denom = pos 86_400_000_000

pub data MathError : Type 0 where
  domain overflow : MathError

-- A 256-bit result of the host's `U256` arithmetic, which traps past 2 ^ 256.
u256 : ℕ → Result MathError ℕ
u256 n = if ltb n (2 ^ 256) then ok n else trap

-- `U256::sub` below zero and `U256::div` by zero trap.
u256_sub : ℕ → ℕ → Result MathError ℕ
u256_sub a b = if leb b a then ok (a - b) else trap

u256_div : ℕ → ℕ → Result MathError ℕ
u256_div n d = if leb d 0 then trap else ok (n / d)

abbrev u128_max : ℕ
u128_max = 340282366920938463463374607431768211455

-- `U256::to_u128`
to_u128 : ℕ → Option ℕ
to_u128 n = if leb n u128_max then some n else none

-- The numerator before the division; `ceil` adds `den`, then takes one off.
numerator : Bool → ℕ → ℕ → ℕ → Result MathError ℕ
unfolding u256 u256_sub
numerator false a b den = u256 (a * b)
numerator true a b den = do num ← u256 (a * b); sum ← u256 (num + den); u256_sub sum 1

in_i128 : Option ℕ → Result MathError ℤ
in_i128 none = err overflow
in_i128 (some v) = if leb v i128_max then ok (pos v) else err overflow

pub mul_div_round : ℤ → ℤ → ℤ → Bool → Result MathError ℤ
unfolding numerator u256_div to_u128 in_i128
mul_div_round a b d ceil = do
  fail_if (ltb_ℤ a (pos 0) || ltb_ℤ b (pos 0) || leb_ℤ d (pos 0)) domain
  let den = pos_part d
  num ← numerator ceil (pos_part a) (pos_part b) den
  quotient ← u256_div num den
  in_i128 (to_u128 quotient)

unfoldable pub mul_div : ℤ → ℤ → ℤ → Result MathError ℤ
unfolding mul_div_round
mul_div a b d = mul_div_round a b d false

unfoldable pub mul_div_ceil : ℤ → ℤ → ℤ → Result MathError ℤ
unfolding mul_div_round
mul_div_ceil a b d = mul_div_round a b d true
