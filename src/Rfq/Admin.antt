-- ===== src/Rfq/Admin.antt =====
-- contracts/rfq/src/lib.rs: the admin's settings, the keepers' schedules and pushed prices, and
-- what signers register and cancel.
use Prim.Native.Nat.{min, max}
use stellar_rfq.Prelude.{
  ℕ, ◌+◌, ◌-◌, Bool, true, false, ◌&&◌, ◌||◌, not, Option, none, some, ltb, if◌then◌else◌,
}
use stellar_rfq.Prelude.Int.{ℤ, pos, pos_part, neg_part, ltb_ℤ, leb_ℤ}
use stellar_rfq.Prelude.Maps.{Bytes, nat_eq, ◌==◌, ◌!=◌}
use stellar_rfq.Prelude.Result.{ok, ◌>>=◌, ◌>>◌, fail_if, or_err}
use stellar_rfq.Prelude.Words.{sub_i128, i128, uint, u32_max, u64_max}
use stellar_rfq.Math.{bps}
use stellar_rfq.Host.{Host, require_auth}
use stellar_rfq.Types.{Address, Schedule, rolling, cyclical}
use stellar_rfq.Rfq.Types.{
  Return, Config, OracleCfg, PushedPrice, already_initialized, not_authorized, invalid_amount,
  invalid_config, price_deviation, schedule_shift_too_large, price_update_too_soon,
}
use stellar_rfq.Rfq.Storage.{
  Storage, admin, config, reference, set_keeper, set_schedule, set_oracle, set_fallback,
  set_salt_cancelled, set_signer,
}
use stellar_rfq.Rfq.Price.{mul_div, validate_schedule, seconds_for}
use stellar_rfq.Rfq.Checks.{account_pubkey}

abbrev pub max_fee_bps_limit : ℕ
max_fee_bps_limit = 2_000

abbrev pub initial_config : Config
initial_config = record {
  min_fee_bps = 0;
  max_fee_bps = 1_000;
  fallback_max_age = 0;
  max_deviation_bps = 2_000;
  min_push_interval = 300;
  max_shift_seconds = 172_800;
  decay_seconds = 0;
}

is_some : {A : Type 0} → Option A → Bool
is_some none = false
is_some (some _) = true

unfoldable pub abs_diff : ℕ → ℕ → ℕ
abs_diff a b = if ltb a b then b - a else a - b

unfoldable pub amplitude : Schedule → ℕ
amplitude s = elim s.mode [ rolling ↦ s.rolling_seconds | cyclical ↦ s.cycle_seconds ]

-- Whether the account that calls signs for the given one with its own key.
unfoldable pub is_delegate : (Bytes → Bool) → Option Bytes → Bool
is_delegate registered none = false
is_delegate registered (some pk) = registered pk

-- `if let Some(c) = &cfg { if c.max_age == 0 { ... } }`
is_ageless : Option OracleCfg → Bool
is_ageless none = false
is_ageless (some c) = c.max_age == 0

-- `(new_price - prev.price).abs()`
unfoldable pub distance : ℤ → ℤ → Return ℤ
distance a b = do diff ← sub_i128 a b; i128 (pos (pos_part diff + neg_part diff))

module _ {T : Type 0} (h : Host T) where
  unfoldable pub initialize : Storage → Address → Address → Return Storage
  unfolding is_some
  initialize s who asset = do
    fail_if (is_some s.admin_entry) already_initialized
    require_auth h who
    ok (record s {
      admin_entry = some who;
      ref = some (record { asset = asset; epoch = 1 });
      cfg = some initial_config;
    })

  abbrev require_admin : Storage → Return (Unit {0})
  require_admin s = do a ← admin s; require_auth h a

  -- Which code runs is recorded, not run: the storage keeps, and a call that a theorem speaks of
  -- after an upgrade is still a call of this code.
  unfoldable pub upgrade : Storage → Bytes → Return Storage
  upgrade s new_wasm_hash = do require_admin s; ok (record s { wasm_hash = new_wasm_hash })

  unfoldable pub set_config : Storage → Config → Return Storage
  set_config s c = do
    require_admin s
    fail_if
        (ltb c.max_fee_bps c.min_fee_bps
          || ltb max_fee_bps_limit c.max_fee_bps
          || ltb (pos_part bps) c.max_deviation_bps)
        invalid_config
    ok (record s { cfg = some c })

  unfoldable pub set_reference : Storage → Address → Return Storage
  set_reference s asset = do
    require_admin s
    old ← reference s
    epoch ← uint u32_max (old.epoch + 1)
    ok (record s { ref = some (record { asset = asset; epoch = epoch }) })

  unfoldable pub allow_keeper : Storage → Address → Bool → Return Storage
  allow_keeper s who allowed = do require_admin s; ok (set_keeper s who allowed)

  unfoldable pub set_paused : Storage → Bool → Return Storage
  set_paused s paused = do require_admin s; ok (record s { paused = paused })

  unfoldable pub configure_oracle : Storage → Address → Address → Option OracleCfg → Return Storage
  unfolding is_ageless
  configure_oracle s base quote cfg = do
    require_admin s
    fail_if (is_ageless cfg) invalid_config
    ok (set_oracle s base quote cfg)

  -- Whether the caller is the admin; a keeper is let through, anyone else is not.
  unfoldable pub keeper_auth : Storage → Address → Return Bool
  keeper_auth s caller = do
    require_auth h caller
    a ← admin s
    if caller == a then ok true else (do fail_if (not (s.keeper caller)) not_authorized; ok false)

  unfoldable pub check_keeper_shift : Storage → Address → Schedule → Return (Unit {0})
  unfolding abs_diff
  check_keeper_shift s asset schedule = do
    prev ← or_err (s.sched asset) not_authorized
    fail_if (ltb prev.max_bps_per_day schedule.max_bps_per_day) schedule_shift_too_large
    cfg ← config s
    let limit = cfg.max_shift_seconds
    if limit == 0 then ok tt else (do
      old ← seconds_for h prev
      new ← seconds_for h schedule
      fail_if
          (ltb limit (abs_diff old new)
            || ltb limit (abs_diff (amplitude prev) (amplitude schedule)))
          schedule_shift_too_large)

  unfoldable pub schedule_asset : Storage → Address → Address → Schedule → Return Storage
  schedule_asset s caller asset schedule = do
    is_admin ← keeper_auth s caller
    validate_schedule h schedule
    elim is_admin [ true ↦ ok tt | false ↦ check_keeper_shift s asset schedule ]
    ok (set_schedule s asset schedule)

  -- The interval floors at one second however it is configured.
  unfoldable pub check_price_move : Storage → PushedPrice → ℤ → ℕ → Bool → Return (Unit {0})
  unfolding distance
  check_price_move s prev new_price now is_admin = do
    cfg ← config s
    fail_if (not is_admin && ltb now (min (prev.updated_at + max cfg.min_push_interval 1) u64_max))
        price_update_too_soon
    if cfg.max_deviation_bps == 0 then ok tt else (do
      diff ← distance new_price prev.price
      moved ← mul_div diff bps prev.price
      fail_if (ltb_ℤ (pos cfg.max_deviation_bps) moved) price_deviation)

  -- The check against the last push, if that is of this epoch.
  unfoldable pub check_last_push :
      Storage → Option PushedPrice → ℤ → ℕ → ℕ → Bool → Return (Unit {0})
  unfolding check_price_move
  check_last_push s none new_price epoch now is_admin = ok tt
  check_last_push s (some prev) new_price epoch now is_admin =
      if prev.epoch == epoch then check_price_move s prev new_price now is_admin else ok tt

  unfoldable pub push_price : Storage → Address → Address → ℤ → Return Storage
  unfolding check_last_push
  push_price s caller asset new_price = do
    is_admin ← keeper_auth s caller
    fail_if (leb_ℤ new_price (pos 0)) invalid_amount
    r ← reference s
    check_last_push s (s.fallback asset) new_price r.epoch h.timestamp is_admin
    ok (
        set_fallback s asset
          (record { price = new_price; updated_at = h.timestamp; epoch = r.epoch }))

  unfoldable pub register_order_signer : Storage → Address → Bytes → Bool → Return Storage
  register_order_signer s maker key allowed = do
    require_auth h maker
    ok (set_signer s maker key allowed)

  -- A signer, or the account whose key it registered, cancels one of its salts.
  unfoldable pub cancel_salt : Storage → Address → Address → ℕ → Return Storage
  unfolding is_delegate
  cancel_salt s caller who salt = do
    require_auth h caller
    let delegated = is_delegate (s.signer who) (account_pubkey h caller)
    fail_if (caller != who && not delegated) not_authorized
    ok (set_salt_cancelled s who salt)
