-- ===== src/Redemption/State.antt =====
-- contracts/redemption_vault/src/lib.rs: the stored state, its getters and the small helpers.
use stellar_rfq.Prelude.{ℕ, ◌+◌, Bool, true, false, ◌&&◌, ◌||◌, leb, ltb, Option, none, some, List}
use stellar_rfq.Prelude.Int.{ℤ, pos, ltb_ℤ}
use stellar_rfq.Prelude.Maps.{nat_eq, ◌!=◌}
use stellar_rfq.Prelude.Result.{Result, ok, err, trap, ◌>>=◌, ◌>>◌, fail_if, or_trap, or_err}
use stellar_rfq.Prelude.Words.{uint, u64_max}
use stellar_rfq.Math
use stellar_rfq.Math.{MathError}
use stellar_rfq.Types.{Address, PriceData}
use stellar_rfq.Host.{Host}
use stellar_rfq.Timelock.{Timelock}
use stellar_rfq.Redemption.Types.{
  invalid_amount, wrong_status, wrong_mode, invalid_settings, Return, Mode, mode_eq, Status,
  status_eq, Init, Roles, Settings, Change, set_settings, set_roles, skims, set_delay, Batch,
  Totals, max_fee_bps,
}
use stellar_rfq.Redemption.Batches.{Batches, find, store}

-- One field for each `Key`.
pub record Vault : Type 0 where
  pub init_entry : Option Init
  pub roles_entry : Option Roles
  pub settings_entry : Option Settings
  pub totals : Totals
  pub is_paused : Bool
  pub open_entry : Option ℕ
  pub next_entry : Option ℕ
  pub accounts : List Address
  pub batches : Batches
  pub busy : Address → Option ℕ
  pub ct : Address → Option ℕ
  pub timelock : Timelock Change

unfoldable pub init : Vault → Return Init
init v = or_trap v.init_entry

unfoldable pub roles : Vault → Return Roles
roles v = or_trap v.roles_entry

unfoldable pub settings : Vault → Return Settings
settings v = or_trap v.settings_entry

unfoldable pub batch_of : Vault → ℕ → Return Batch
batch_of v id = or_err (find v.batches id) wrong_status

unfoldable pub with_status : Vault → ℕ → Status → Return Batch
unfolding batch_of
with_status v id status = do b ← batch_of v id; fail_if (b.status != status) wrong_status; ok b

unfoldable pub in_mode : Vault → Mode → Return Settings
unfolding settings
in_mode v mode = do s ← settings v; fail_if (s.mode != mode) wrong_mode; ok s

unfoldable pub put_batch : Vault → ℕ → Batch → Vault
put_batch v id b = record v { batches = store v.batches id b }

unfoldable pub kind : Change → ℕ
kind (set_settings _) = 0
kind (set_roles _) = 1
kind (skims _ _) = 2
kind (set_delay _) = 3

-- Any failure of the arithmetic is an invalid amount.
invalid_or : Result MathError ℤ → Return ℤ
invalid_or (ok v) = ok v
invalid_or (err _) = err invalid_amount
invalid_or trap = trap

unfoldable pub md : ℤ → ℤ → ℤ → Return ℤ
unfolding invalid_or
md a b d = invalid_or (Math.mul_div a b d)

-- Two roundings up in a chain, of which either failure is an invalid amount.
unfoldable pub md_up_twice : ℤ → ℤ → ℤ → ℤ → ℤ → Return ℤ
unfolding invalid_or
md_up_twice a b d c e = invalid_or (do w ← Math.mul_div_ceil a b d; Math.mul_div_ceil w c e)

is_none : Option Address → Bool
is_none none = true
is_none (some _) = false

unfoldable pub check_settings : Settings → Return (Unit {0})
unfolding is_none
check_settings s =
    fail_if
      (ltb max_fee_bps s.fee_bps
        || (ltb 0 s.fee_bps && is_none s.fee_recipient)
        || ltb 10_000 s.floor_bps)
      invalid_settings

module _ {T : Type 0} (h : Host T) where
  unfoldable pub send : T → Address → Address → ℤ → Return T
  send x token to amount = elim (ltb_ℤ (pos 0) amount) [
    | true ↦ or_trap (h.transfer x token h.me to amount)
    | false ↦ ok x
  ]

  -- The reading of a price, if the sum of its time and the oldest age is still to come.
  reading : Settings → Option PriceData → Return ℤ
  reading s none = ok (pos 0)
  reading s (some p) = elim (ltb_ℤ (pos 0) p.price) [
    | false ↦ ok (pos 0)
    | true ↦ do
      until ← uint u64_max (p.timestamp + s.max_age)
      ok (elim (leb h.timestamp until) [ true ↦ p.price | false ↦ pos 0 ])
  ]

  unfoldable pub nav : Vault → T → Settings → Return ℤ
  unfolding reading init
  nav v x s = elim s.oracle [
    | none ↦ ok (pos 0)
    | some oracle ↦ do i ← init v; reading s (h.get_price x oracle i.rwa i.stable)
  ]
