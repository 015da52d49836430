-- ===== src/Math/Bounds.antt =====
-- What crates/common/src/math.rs computes: exact rounding, and no failure but the two stated.
use stellar_rfq.Prelude.{
  ℕ, ◌+◌, ◌-◌, ◌*◌, ◌/◌, ◌^◌, ◌≤◌, ◌<◌, ◌≡◌, ◌≢◌, Bool, true, false, leb, if◌then◌else◌, arith,
}
use stellar_rfq.Prelude.Int.{ℤ, pos, pos_part, neg_part}
use stellar_rfq.Prelude.Result.{ok, err, trap}
use stellar_rfq.Prelude.Words.{i128_max, IsI128}
use stellar_rfq.Math.{overflow, mul_div, mul_div_ceil, mul_div_round, u256}

-- `q` is `a × b / d` rounded down.
pub record RoundsDown (a b d q : ℤ) : Type 0 where
  pub a_nonneg : neg_part a ≡ 0
  pub b_nonneg : neg_part b ≡ 0
  pub d_nonneg : neg_part d ≡ 0
  pub q_nonneg : neg_part q ≡ 0
  pub d_pos : 0 < pos_part d
  pub below : pos_part q * pos_part d ≤ pos_part a * pos_part b
  pub above : pos_part a * pos_part b < pos_part q * pos_part d + pos_part d
  pub fits : pos_part q ≤ i128_max

-- `q` is `a × b / d` rounded up.
pub record RoundsUp (a b d q : ℤ) : Type 0 where
  pub a_nonneg : neg_part a ≡ 0
  pub b_nonneg : neg_part b ≡ 0
  pub d_nonneg : neg_part d ≡ 0
  pub q_nonneg : neg_part q ≡ 0
  pub d_pos : 0 < pos_part d
  pub below : pos_part a * pos_part b ≤ pos_part q * pos_part d
  pub above : pos_part q * pos_part d < pos_part a * pos_part b + pos_part d
  pub fits : pos_part q ≤ i128_max

div_bounds : (n d : ℕ) → 0 < d → (n / d * d ≤ n) × (n < n / d * d + d)
div_bounds n d h = grind arith

-- A result of `mul_div` is the quotient rounded down.
pub mul_div-RoundsDown : (a b d : ℤ) {q : ℤ} → mul_div a b d ≡ ok q → RoundsDown a b d q
unfolding mul_div
mul_div-RoundsDown (pos a) (pos b) (pos d) h = ground (arith, div_bounds (a * b) d)
mul_div-RoundsDown a b d h = ground arith

pub mul_div_ceil-RoundsUp : (a b d : ℤ) {q : ℤ} → mul_div_ceil a b d ≡ ok q → RoundsUp a b d q
unfolding mul_div_ceil
mul_div_ceil-RoundsUp (pos a) (pos b) (pos d) h = ground (arith, div_bounds (a * b + d - 1) d)
mul_div_ceil-RoundsUp a b d h = ground arith

product_fits : (a b : ℕ) → a ≤ i128_max → b ≤ i128_max → a * b < 2 ^ 255
product_fits a b p q = grind arith

-- In-range arguments never make the 256-bit arithmetic trap, by an overflow, a difference below
-- zero or a division by zero: every failure is one of the two stated.
pub mul_div_round-ne-trap :
    (a b d : ℤ) (ceil : Bool) → IsI128 a → IsI128 b → IsI128 d → mul_div_round a b d ceil ≢ trap
unfolding mul_div_round u256
mul_div_round-ne-trap (pos a) (pos b) (pos d) false p q r = ground (arith, product_fits a b)
mul_div_round-ne-trap (pos a) (pos b) (pos d) true p q r = ground (arith, product_fits a b)
mul_div_round-ne-trap a b d ceil p q r = ground arith

-- For in-range non-negative factors and a positive divisor, a quotient that an `i128` holds is
-- returned, and one that it does not is `Overflow`.
pub mul_div_nonneg :
    (a b d : ℕ)
    → a ≤ i128_max
    → b ≤ i128_max
    → 0 < d
    → mul_div (pos a) (pos b) (pos d)
      ≡ (if leb (a * b / d) i128_max then ok (pos (a * b / d)) else err overflow)
unfolding mul_div u256
mul_div_nonneg a b d p q r = ground (arith, product_fits a b)
