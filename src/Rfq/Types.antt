-- ===== src/Rfq/Types.antt =====
-- contracts/rfq/src/types.rs and errors.rs.
use stellar_rfq.Prelude.{ℕ, Bool}
use stellar_rfq.Prelude.Int.{ℤ}
use stellar_rfq.Prelude.Result.{Result}
use stellar_rfq.Types.{Address}

pub data Error : Type 0 where
  already_initialized not_authorized paused order_not_fillable not_fillable_by_taker : Error
  signer_not_authorized invalid_amount overflow no_schedule invalid_schedule no_price : Error
  bps_per_day_too_high discount_too_large fee_out_of_bounds below_min_received : Error
  maker_amount_too_high same_token listing_not_active ask_above_max price_deviation : Error
  schedule_shift_too_large invalid_config wrong_sender salt_is_cancelled : Error
  request_overfilled price_update_too_soon : Error

-- What every function of the contract returns.
abbrev pub Return : Type 0 → Type 0
Return A = Result Error A

pub record DutchOrder : Type 0 where
  pub maker_token : Address
  pub taker_token : Address
  pub taker_amount : ℤ
  pub start_maker_amount : ℤ
  pub min_maker_amount : ℤ
  pub fee_bps : ℕ
  pub fee_recipient : Address
  pub expiry : ℕ

pub record Listing : Type 0 where
  pub order : DutchOrder
  pub seller : Address
  pub created_at : ℕ
  pub decay_seconds : ℕ
  pub active : Bool

pub record Quote : Type 0 where
  pub maker_amount : ℤ
  pub fee : ℤ
  pub horizon_seconds : ℕ

pub record PushedPrice : Type 0 where
  pub price : ℤ
  pub updated_at : ℕ
  pub epoch : ℕ

pub record OracleCfg : Type 0 where
  pub oracle : Address
  pub max_age : ℕ

pub record Reference : Type 0 where
  pub asset : Address
  pub epoch : ℕ

pub record Config : Type 0 where
  pub min_fee_bps : ℕ
  pub max_fee_bps : ℕ
  pub fallback_max_age : ℕ
  pub max_deviation_bps : ℕ
  pub min_push_interval : ℕ
  pub max_shift_seconds : ℕ
  pub decay_seconds : ℕ
