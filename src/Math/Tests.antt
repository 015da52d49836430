-- ===== src/Math/Tests.antt =====
-- Rounding at work.
use stellar_rfq.Prelude.{◌/◌, ◌*◌, ◌≡◌, ◌≢◌, refl, true, leb, if◌then◌else◌, arith}
use stellar_rfq.Prelude.Int.{pos}
use stellar_rfq.Prelude.Result.{ok, err, trap}
use stellar_rfq.Prelude.Words.{i128_max}
use stellar_rfq.Math.{overflow, mul_div, mul_div_ceil, mul_div_round}
use stellar_rfq.Math.Bounds.{
  RoundsDown, RoundsUp, mul_div-RoundsDown, mul_div_ceil-RoundsUp, mul_div_round-ne-trap,
  mul_div_nonneg,
}

down_run : mul_div (pos 10) (pos 7) (pos 4) ≡ ok (pos 17)
unfolding mul_div
down_run = refl

up_run : mul_div_ceil (pos 10) (pos 7) (pos 4) ≡ ok (pos 18)
unfolding mul_div_ceil
up_run = refl

mul_div-RoundsDown_example : RoundsDown (pos 10) (pos 7) (pos 4) (pos 17)
mul_div-RoundsDown_example = mul_div-RoundsDown (pos 10) (pos 7) (pos 4) {q = pos 17} down_run

mul_div_ceil-RoundsUp_example : RoundsUp (pos 10) (pos 7) (pos 4) (pos 18)
mul_div_ceil-RoundsUp_example = mul_div_ceil-RoundsUp (pos 10) (pos 7) (pos 4) {q = pos 18} up_run

mul_div_round-ne-trap_example : mul_div_round (pos i128_max) (pos i128_max) (pos 1) true ≢ trap
mul_div_round-ne-trap_example =
    mul_div_round-ne-trap (pos i128_max) (pos i128_max) (pos 1) true (omega arith) (omega arith)
      (omega arith)

mul_div_nonneg_example :
    mul_div (pos i128_max) (pos 3) (pos 2)
    ≡ (if leb (i128_max * 3 / 2) i128_max then ok (pos (i128_max * 3 / 2)) else err overflow)
mul_div_nonneg_example = mul_div_nonneg i128_max 3 2 (omega arith) (omega arith) (omega arith)
