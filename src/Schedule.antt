-- ===== src/Schedule.antt =====
-- crates/common/src/schedule.rs: when an asset's next redemption lands.
pub mod Horizon
mod Tests
use stellar_rfq.Prelude.{
  ℕ, ◌+◌, ◌-◌, ◌*◌, ◌/◌, ◌%◌, ◌^◌, Bool, true, false, ◌&&◌, Option, none, some, ltb, leb,
  if◌then◌else◌, ◌==◌,
}
use stellar_rfq.Prelude.Result.{Result, ok, trap, ◌>>=◌, ◌>>◌, trap_unless}
use stellar_rfq.Prelude.Words.{u64_max, uint, sub_uint}
use stellar_rfq.Types.{Schedule, ScheduleMode, rolling, cyclical}

-- Ten years: 3650 * 86_400.
abbrev pub max_seconds : ℕ
max_seconds = 315_360_000

in_horizon : ℕ → Bool
in_horizon seconds = leb 1 seconds && leb seconds max_seconds

module _ {E : Type 0} where
  unfoldable pub is_valid : ℕ → Schedule → Result E Bool
  unfolding in_horizon
  is_valid now s = if s.max_bps_per_day == 0 then ok false else elim s.mode [
    | rolling ↦ ok (in_horizon s.rolling_seconds)
    | cyclical ↦
        if in_horizon s.cycle_seconds && ltb 0 s.next_redemption_at
        then (do limit ← uint u64_max (now + max_seconds); ok (leb s.next_redemption_at limit))
        else ok false
  ]

  -- The redemption date, rolled forward by whole cycles once it has passed. A division by zero
  -- traps.
  anchor_of : ℕ → Schedule → Result E ℕ
  anchor_of now s =
      let cycle = s.cycle_seconds in
      if leb s.next_redemption_at now
      then (do
        trap_unless (ltb 0 cycle)
        steps ← uint u64_max ((now - s.next_redemption_at) / cycle + 1)
        shift ← uint u64_max (steps * cycle)
        uint u64_max (s.next_redemption_at + shift))
      else ok s.next_redemption_at

  unfoldable pub seconds_for : ℕ → Schedule → Result E (Option ℕ)
  unfolding anchor_of
  seconds_for now s = elim s.mode [
    | rolling ↦ ok (some s.rolling_seconds)
    | cyclical ↦ do
      anchor ← anchor_of now s
      remaining ← sub_uint anchor now
      ok (if leb remaining max_seconds then some (remaining % 2 ^ 32) else none)
  ]
