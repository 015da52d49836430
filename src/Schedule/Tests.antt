-- ===== src/Schedule/Tests.antt =====
-- Dates at work.
use stellar_rfq.Prelude.{ℕ, ◌<◌, ◌≤◌, ◌≡◌, refl, true, some, arith}
use stellar_rfq.Prelude.Result.{ok}
use stellar_rfq.Prelude.Words.{uint, sub_uint}
use stellar_rfq.Types.{Schedule, cyclical}
use stellar_rfq.Schedule.{max_seconds, is_valid, seconds_for}
use stellar_rfq.Schedule.Horizon.{Answers, seconds_for-Answers, valid_never_lapses}

-- Every thirty days, once at 100_000.
abbrev monthly : Schedule
monthly = record {
  mode = cyclical;
  rolling_seconds = 0;
  next_redemption_at = 100_000;
  cycle_seconds = 2_592_000;
  max_bps_per_day = 500;
}

-- A second after the third date the fourth is a cycle less a second away.
monthly_run : seconds_for {E = ℕ} 5_284_001 monthly ≡ ok (some 2_591_999)
unfolding seconds_for uint sub_uint
monthly_run = refl

monthly_valid : is_valid {E = ℕ} 1_000 monthly ≡ ok true
unfolding is_valid uint
monthly_valid = refl

seconds_for-Answers_example : Answers 5_284_001 monthly (some 2_591_999)
seconds_for-Answers_example =
    seconds_for-Answers {E = ℕ} 5_284_001 monthly {r = some 2_591_999} monthly_run

valid_never_lapses_example :
    (r : ℕ) × (seconds_for {E = ℕ} 5_284_001 monthly ≡ ok (some r)) × (0 < r) × (r ≤ max_seconds)
valid_never_lapses_example =
    valid_never_lapses {E = ℕ} 1_000 5_284_001 monthly monthly_valid (omega arith) (omega arith)
