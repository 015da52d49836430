-- ===== src/Schedule/Horizon.antt =====
-- What crates/common/src/schedule.rs promises of a date.
use stellar_rfq.Prelude.{
  ℕ, ◌+◌, ◌-◌, ◌*◌, ◌/◌, ◌≤◌, ◌<◌, ◌≡◌, refl, true, arith, some, none, if◌then◌else◌, leb, inl, inr,
  Bool-cases, ◌⊎◌, Option,
}
use stellar_rfq.Prelude.Result.{ok}
use stellar_rfq.Prelude.Words.{u64_max, uint, sub_uint}
use stellar_rfq.Types.{Schedule, ScheduleMode, rolling, cyclical}
use stellar_rfq.Schedule.{max_seconds, is_valid, seconds_for, anchor_of}

-- The date that `seconds_for` counts to: not yet past, a whole number of cycles from the stored
-- one, and the earliest such.
pub record IsNextDate (now : ℕ) (s : Schedule) (date : ℕ) : Type 0 where
  pub ahead : now < date
  pub cycles : ℕ
  pub on_cycle : date ≡ s.next_redemption_at + cycles * s.cycle_seconds
  pub earliest : 0 < cycles → date ≤ now + s.cycle_seconds

div_next : (n d : ℕ) → 0 < d → (n < (n / d + 1) * d) × ((n / d + 1) * d ≤ n + d)
div_next n d h = grind arith

Mode-cases : (m : ScheduleMode) → (m ≡ rolling) ⊎ (m ≡ cyclical)
Mode-cases rolling = inl refl
Mode-cases cyclical = inr refl

-- What `seconds_for` may answer. A rolling schedule is always its own horizon; a cyclical one
-- counts to the next date, and has no answer exactly when that is more than ten years away.
abbrev pub Answers : ℕ → Schedule → Option ℕ → Type 0
Answers now s (some r) =
    ((s.mode ≡ rolling) × (r ≡ s.rolling_seconds))
    ⊎ ((s.mode ≡ cyclical) × (0 < r) × (r ≤ max_seconds) × IsNextDate now s (now + r))
Answers now s none =
    (s.mode ≡ cyclical) × ((date : ℕ) × IsNextDate now s date × (now + max_seconds < date))

cyclical-Answers :
    (now a : ℕ) (s : Schedule) (r : Option ℕ)
    → s.mode ≡ cyclical
    → IsNextDate now s a
    → r ≡ (if leb (a - now) max_seconds then some (a - now) else none)
    → Answers now s r
cyclical-Answers now a s none e d h = (e, (a, d, ground arith))
cyclical-Answers now a s (some r) e d h =
    let date : a ≡ now + r = ground arith in inr (e, ground arith, ground arith, rw (← date) d)

module _ {E : Type 0} where
  anchor_lem :
      (now : ℕ) (s : Schedule) {a : ℕ} → anchor_of {E = E} now s ≡ ok a → IsNextDate now s a
  unfolding anchor_of uint
  anchor_lem now s h = elim (Bool-cases (leb s.next_redemption_at now)) [
    | inl past ↦ record {
      ahead = ground (arith, div_next (now - s.next_redemption_at) s.cycle_seconds);
      cycles = (now - s.next_redemption_at) / s.cycle_seconds + 1;
      on_cycle = ground arith;
      earliest = λ _. ground (arith, div_next (now - s.next_redemption_at) s.cycle_seconds);
    }
    | inr future ↦ record {
      ahead = ground arith;
      cycles = 0;
      on_cycle = ground arith;
      earliest = λ p. absurd (omega arith);
    }
  ]

  cyclical_anchor :
      (now : ℕ) (s : Schedule) {r : Option ℕ}
      → s.mode ≡ cyclical
      → seconds_for {E = E} now s ≡ ok r
      → (a : ℕ) × (anchor_of {E = E} now s ≡ ok a)
        × (r ≡ (if leb (a - now) max_seconds then some (a - now) else none))
  unfolding seconds_for sub_uint
  cyclical_anchor now s e h = ground arith

  -- The answer of `seconds_for` is the schedule's horizon, or the time to the earliest date on its
  -- cycle that is still ahead; there is none exactly when that date is more than ten years away.
  pub seconds_for-Answers :
      (now : ℕ) (s : Schedule) {r : Option ℕ} → seconds_for {E = E} now s ≡ ok r → Answers now s r
  unfolding seconds_for
  seconds_for-Answers now s {r} h = elim (Mode-cases s.mode) [
    | inl e ↦ let answer : r ≡ some s.rolling_seconds = ground arith in rw answer (inl (e, refl))
    | inr e ↦
        let (a, found, answer) = cyclical_anchor now s e h in
        cyclical-Answers now a s r e (anchor_lem now s found) answer
  ]

  -- A schedule that was valid when it was stored always has a horizon later, while the clock has
  -- room for twenty years more: it never lapses, and it is between one second and ten years.
  pub valid_never_lapses :
      (stored now : ℕ) (s : Schedule)
      → is_valid {E = E} stored s ≡ ok true
      → stored ≤ now
      → now + 2 * max_seconds ≤ u64_max
      → (r : ℕ) × (seconds_for {E = E} now s ≡ ok (some r)) × (0 < r) × (r ≤ max_seconds)
  unfolding is_valid seconds_for anchor_of uint sub_uint
  valid_never_lapses stored now s v later room = elim (Mode-cases s.mode) [
    | inl e ↦ (s.rolling_seconds, ground arith, ground arith, ground arith)
    | inr e ↦ elim (Bool-cases (leb s.next_redemption_at now)) [
      | inl past ↦
          let n = now - s.next_redemption_at in
          let next = div_next n s.cycle_seconds in
          (
            (n / s.cycle_seconds + 1) * s.cycle_seconds - n,
            ground (arith, next),
            ground (arith, next),
            ground (arith, next),
          )
      | inr future ↦ (s.next_redemption_at - now, ground arith, ground arith, ground arith)
    ]
  ]
