-- ===== src/Rfq/PushTests.antt =====
-- A keeper pushes a price, and the theorem about it at work.
use stellar_rfq.Prelude.{◌≡◌, refl, true, some}
use stellar_rfq.Prelude.Int.{pos, ◌-ℤ◌}
use stellar_rfq.Prelude.Result.{err}
use stellar_rfq.Prelude.Words.{i128}
use stellar_rfq.Math
use stellar_rfq.Rfq.Types.{price_deviation}
use stellar_rfq.Rfq.Storage.{Storage, set_fallback}
use stellar_rfq.Rfq.Price.{mul_div}
use stellar_rfq.Rfq.Admin.{push_price, keeper_auth, check_last_push, check_price_move, distance}
use stellar_rfq.Types.{Schedule, rolling}
use stellar_rfq.Schedule
use stellar_rfq.Rfq.Storage.{set_schedule}
use stellar_rfq.Rfq.Price
use stellar_rfq.Rfq.Shifts.{Shifts}
use stellar_rfq.Rfq.Example.{host, store, fund}

-- The keeper is account 3; the last price was pushed 400 seconds ago.
abbrev kept : Storage
kept = record store {
  keeper = λ who. true;
  fallback = λ asset. some (record { price = pos 1_000; updated_at = 600; epoch = 1 });
}

abbrev pushed : Storage
pushed = record kept {
  fallback =
      (set_fallback kept fund
        (record { price = pos 1_100; updated_at = 1_000; epoch = 1 })).fallback;
}

-- A third more is too far.
push_too_far : push_price host kept 3 fund (pos 1_300) ≡ err price_deviation
unfolding push_price keeper_auth check_last_push check_price_move distance i128 ◌-ℤ◌ mul_div
    Math.mul_div set_fallback
push_too_far = refl

-- The keeper moves the fund's schedule from seven days to eight.
abbrev eight_days : Schedule
eight_days = record {
  mode = rolling;
  rolling_seconds = 691_200;
  next_redemption_at = 0;
  cycle_seconds = 0;
  max_bps_per_day = 450;
}

abbrev shifted : Storage
shifted = record kept { sched = (set_schedule kept fund eight_days).sched }
