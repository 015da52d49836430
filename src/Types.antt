-- ===== src/Types.antt =====
-- crates/common/src/types.rs: the types that several contracts store. An `Address` is only ever
-- compared, so it is a number.
use stellar_rfq.Prelude.{ℕ}
use stellar_rfq.Prelude.Int.{ℤ}
use stellar_rfq.Prelude.Maps.{Bytes}

abbrev pub Address : Type 0
Address = ℕ

pub data ScheduleMode : Type 0 where
  rolling cyclical : ScheduleMode

pub record Schedule : Type 0 where
  pub mode : ScheduleMode
  pub rolling_seconds : ℕ
  pub next_redemption_at : ℕ
  pub cycle_seconds : ℕ
  pub max_bps_per_day : ℕ

pub record PriceData : Type 0 where
  pub price : ℤ
  pub timestamp : ℕ

pub record QueueConfig : Type 0 where
  pub facility : Address
  pub curator : Address

pub record VaultConfig : Type 0 where
  pub asset : Address
  pub curator : Address
  pub manager : Address
  pub guardian : Address
  pub name : Bytes
  pub symbol : Bytes
  pub deposit_cap : ℤ
  pub curator_fee_bps : ℕ
  pub timelock : ℕ
