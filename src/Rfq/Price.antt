-- ===== src/Rfq/Price.antt =====
-- contracts/rfq/src/price.rs: horizons and prices. A price comes from the pair's oracle, or
-- through the reference asset from each side's oracle or pushed backstop.
use stellar_rfq.Prelude.{
  ℕ, ◌+◌, ◌-◌, Bool, true, false, ◌&&◌, Option, none, some, ltb, leb, if◌then◌else◌,
}
use stellar_rfq.Prelude.Int.{ℤ, pos, ltb_ℤ}
use stellar_rfq.Prelude.Maps.{nat_eq, ◌==◌}
use stellar_rfq.Prelude.Result.{Result, ok, err, trap, ◌>>=◌, or_err, fail_if}
use stellar_rfq.Prelude.Words.{u64_max, uint}
use stellar_rfq.Types.{Address, Schedule, PriceData}
use stellar_rfq.Math
use stellar_rfq.Math.{MathError, one}
use stellar_rfq.Schedule
use stellar_rfq.Host.{Host}
use stellar_rfq.Rfq.Types.{
  Error, Return, OracleCfg, PushedPrice, invalid_amount, invalid_schedule, no_schedule, no_price,
}
use stellar_rfq.Rfq.Storage.{Storage, config, reference}

checked : Result MathError ℤ → Return ℤ
checked (ok v) = ok v
checked (err MathError.domain) = err invalid_amount
checked (err MathError.overflow) = err Error.overflow
checked trap = trap

unfoldable pub mul_div : ℤ → ℤ → ℤ → Return ℤ
unfolding checked
mul_div a b d = checked (Math.mul_div a b d)

unfoldable pub mul_div_ceil : ℤ → ℤ → ℤ → Return ℤ
unfolding checked
mul_div_ceil a b d = checked (Math.mul_div_ceil a b d)

-- The reading if it is positive and no older than the configuration allows.
fresh : ℕ → OracleCfg → Option PriceData → Return (Option ℤ)
fresh now cfg none = ok none
fresh now cfg (some p) =
    if ltb_ℤ (pos 0) p.price
    then (do
      limit ← uint u64_max (p.timestamp + cfg.max_age)
      ok (if leb now limit then some p.price else none))
    else ok none

module _ {T : Type 0} (h : Host T) where
  unfoldable pub validate_schedule : Schedule → Return (Unit {0})
  validate_schedule s = do
    valid ← Schedule.is_valid h.timestamp s
    fail_if (if valid then false else true) invalid_schedule

  unfoldable pub seconds_for : Schedule → Return ℕ
  seconds_for s = do or_err (← Schedule.seconds_for h.timestamp s) invalid_schedule

  unfoldable pub seconds_to_redemption : Storage → Address → Return ℕ
  unfolding seconds_for
  seconds_to_redemption s asset = do
    schedule ← or_err (s.sched asset) no_schedule
    seconds_for schedule

  -- A token with no schedule, such as the stablecoin, is due at once.
  maker_seconds : Option Schedule → Return ℕ
  unfolding seconds_for
  maker_seconds none = ok 0
  maker_seconds (some s) = seconds_for s

  -- The seconds by which the taker's token redeems later, and its rate ceiling.
  unfoldable pub horizon : Storage → Address → Address → Return (ℕ × ℕ)
  unfolding seconds_for maker_seconds
  horizon s taker_token maker_token = do
    schedule ← or_err (s.sched taker_token) no_schedule
    t ← seconds_for schedule
    m ← maker_seconds (s.sched maker_token)
    ok (if ltb m t then t - m else 1, schedule.max_bps_per_day)

  unfoldable pub try_oracle : Storage → T → Address → Address → Return (Option ℤ)
  unfolding fresh
  try_oracle s x base quote = elim (s.oracle base quote) [
    | none ↦ ok none
    | some cfg ↦ fresh h.timestamp cfg (h.get_price x cfg.oracle base quote)
  ]

  unfoldable pub is_live_fallback : Storage → PushedPrice → ℕ → Return Bool
  is_live_fallback s fp epoch = do
    cfg ← config s
    let max_age = cfg.fallback_max_age
    if ltb_ℤ (pos 0) fp.price && (fp.epoch == epoch && ltb 0 max_age)
        then (do limit ← uint u64_max (fp.updated_at + max_age); ok (leb h.timestamp limit))
        else ok false

  -- The pushed price of the asset, if there is one and it is live.
  backstop : Storage → Option PushedPrice → ℕ → Return ℤ
  unfolding is_live_fallback
  backstop s none epoch = err no_price
  backstop s (some fp) epoch = do
    live ← is_live_fallback s fp epoch
    if live then ok fp.price else err no_price

  unfoldable pub unit_price : Storage → T → Address → Return ℤ
  unfolding try_oracle backstop
  unit_price s x asset = do
    r ← reference s
    if asset == r.asset then ok one else (do
      found ← try_oracle s x asset r.asset
      elim found [ some p ↦ ok p | none ↦ backstop s (s.fallback asset) r.epoch ])

  unfoldable pub price_of : Storage → T → Address → Address → Return ℤ
  unfolding try_oracle unit_price mul_div
  price_of s x base quote = if base == quote then ok one else (do
    found ← try_oracle s x base quote
    elim found [
      | some p ↦ ok p
      | none ↦ do a ← unit_price s x base; b ← unit_price s x quote; mul_div a one b
    ])
