-- ===== src/Rfq/Shifts.antt =====
-- contracts/rfq/src/lib.rs: how far a keeper may change an asset's schedule.
use stellar_rfq.Prelude.{ℕ, ◌+◌, ◌≤◌, ◌≡◌, ◌⊎◌, some}
use stellar_rfq.Prelude.Maps.{nat_eq}
use stellar_rfq.Prelude.Result.{ok}
use stellar_rfq.Host.{Host}
use stellar_rfq.Types.{Address, Schedule}
use stellar_rfq.Schedule
use stellar_rfq.Rfq.Types.{Config}
use stellar_rfq.Rfq.Storage.{Storage}
use stellar_rfq.Rfq.Price.{seconds_for}
use stellar_rfq.Rfq.Admin.{amplitude}

-- Two numbers are at most so far apart.
abbrev pub Near : ℕ → ℕ → ℕ → Type 0
Near limit a b = (a ≤ b + limit) × (b ≤ a + limit)

module _ {T : Type 0} (h : Host T) where
  -- A change that a keeper may make: of a schedule that is there, with no higher rate ceiling, and
  -- unless the limit is switched off, with the horizon and the length shifted by no more than it.
  abbrev pub Shifts : Storage → Address → Schedule → Type 0
  Shifts s asset schedule =
      (prev : Schedule) × (s.sched asset ≡ some prev)
      × (schedule.max_bps_per_day ≤ prev.max_bps_per_day)
      × (c : Config) × (s.cfg ≡ some c)
      × ((c.max_shift_seconds ≡ 0)
          ⊎ ((old : ℕ) × (new : ℕ) × (seconds_for h prev ≡ ok old)
              × (seconds_for h schedule ≡ ok new)
              × Near c.max_shift_seconds old new
              × Near c.max_shift_seconds (amplitude prev) (amplitude schedule)))
