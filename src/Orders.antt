-- ===== src/Orders.antt =====
-- crates/orders/src/lib.rs: the orders that are signed off-chain. One taker signature over a
-- `Request` pairs with whichever bid wins.
use stellar_rfq.Prelude.{ℕ, Option}
use stellar_rfq.Prelude.Int.{ℤ}
use stellar_rfq.Prelude.Maps.{Bytes}
use stellar_rfq.Types.{Address}

pub data OrderType : Type 0 where
  rfq fixed : OrderType

pub record Request : Type 0 where
  pub maker_token : Address
  pub taker_token : Address
  pub taker_amount : ℤ
  pub min_received_amount : ℤ
  pub fee_bps : ℕ
  pub taker : Option Address
  pub sender : Option Address
  pub fee_recipient : Address
  pub expiry : ℕ
  pub salt : ℕ
  pub taker_max_bps_per_day : ℕ
  pub order_type : OrderType

pub record RfqOrder : Type 0 where
  pub maker_token : Address
  pub taker_token : Address
  pub taker_amount : ℤ
  pub min_received_amount : ℤ
  pub fee_bps : ℕ
  pub taker : Option Address
  pub sender : Option Address
  pub fee_recipient : Address
  pub expiry : ℕ
  pub salt : ℕ
  pub taker_max_bps_per_day : ℕ
  pub maker_bps_per_day : ℕ
  pub max_maker_amount : ℤ
  pub maker : Address

pub record FixedOrder : Type 0 where
  pub maker_token : Address
  pub taker_token : Address
  pub taker_amount : ℤ
  pub min_received_amount : ℤ
  pub fee_bps : ℕ
  pub taker : Option Address
  pub sender : Option Address
  pub fee_recipient : Address
  pub expiry : ℕ
  pub salt : ℕ
  pub maker_amount : ℤ
  pub maker : Address

-- `RfqOrder::request`
unfoldable pub rfq_request : RfqOrder → Request
rfq_request o = record {
  maker_token = o.maker_token;
  taker_token = o.taker_token;
  taker_amount = o.taker_amount;
  min_received_amount = o.min_received_amount;
  fee_bps = o.fee_bps;
  taker = o.taker;
  sender = o.sender;
  fee_recipient = o.fee_recipient;
  expiry = o.expiry;
  salt = o.salt;
  taker_max_bps_per_day = o.taker_max_bps_per_day;
  order_type = rfq;
}

-- `FixedOrder::request`
unfoldable pub fixed_request : FixedOrder → Request
fixed_request o = record {
  maker_token = o.maker_token;
  taker_token = o.taker_token;
  taker_amount = o.taker_amount;
  min_received_amount = o.min_received_amount;
  fee_bps = o.fee_bps;
  taker = o.taker;
  sender = o.sender;
  fee_recipient = o.fee_recipient;
  expiry = o.expiry;
  salt = o.salt;
  taker_max_bps_per_day = 0;
  order_type = fixed;
}

pub record Signature : Type 0 where
  pub signer : Bytes
  pub signature : Bytes

pub record FillResult : Type 0 where
  pub taker_filled : ℤ
  pub maker_filled : ℤ
  pub fee : ℤ
