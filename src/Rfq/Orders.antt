-- ===== src/Rfq/Orders.antt =====
-- contracts/rfq/src/lib.rs: signed orders, priced by the rate model (`fill_rfq_order`) or by the
-- maker (`fill_fixed_order`). Published events are not modelled.
use stellar_rfq.Prelude.{◌*◌, ◌||◌, Option, ltb}
use stellar_rfq.Prelude.Int.{ℤ, pos, ltb_ℤ, leb_ℤ}
use stellar_rfq.Prelude.Result.{ok, ◌>>=◌, ◌>>◌, fail_if}
use stellar_rfq.Prelude.Words.{sub_i128, i128}
use stellar_rfq.Math.{one, bps, denom}
use stellar_rfq.Host.{Host, require_auth}
use stellar_rfq.Types.{Address}
use stellar_rfq.Orders.{RfqOrder, FixedOrder, Signature, FillResult, rfq_request, fixed_request}
use stellar_rfq.Rfq.Types.{
  Return, Quote, bps_per_day_too_high, discount_too_large, maker_amount_too_high,
}
use stellar_rfq.Rfq.Storage.{Storage, World}
use stellar_rfq.Rfq.Hash
use stellar_rfq.Rfq.Price.{mul_div, horizon, price_of}
use stellar_rfq.Rfq.Checks.{validate_common, take_fill, verify, check_floor}
use stellar_rfq.Rfq.Tokens.{deliver, pay}

module _ {T : Type 0} (h : Host T) where
  -- What the maker owes for the input: its value at the price, less the rate over the horizon.
  unfoldable pub quote : Storage → T → RfqOrder → ℤ → Return Quote
  quote s x order taker_amount_in = do
    (horizon_seconds, cap) ← horizon h s order.taker_token order.maker_token
    fail_if
        (ltb cap order.maker_bps_per_day || ltb order.taker_max_bps_per_day order.maker_bps_per_day)
        bps_per_day_too_high
    discount ← i128 (pos (order.maker_bps_per_day * horizon_seconds))
    fail_if (leb_ℤ denom discount) discount_too_large
    rate ← price_of h s x order.taker_token order.maker_token
    gross ← mul_div taker_amount_in rate one
    left ← sub_i128 denom discount
    maker_amount ← mul_div gross left denom
    fee ← mul_div maker_amount (pos order.fee_bps) bps
    ok (record { maker_amount = maker_amount; fee = fee; horizon_seconds = horizon_seconds })

  unfoldable pub quote_rfq_order : World T → RfqOrder → ℤ → Return Quote
  unfolding quote
  quote_rfq_order w order taker_amount_in = quote w.store w.ext order taker_amount_in

  unfoldable pub fill_rfq_order :
      World T
      → RfqOrder
      → Signature
      → Option Signature
      → Address
      → ℤ
      → Return (FillResult × World T)
  fill_rfq_order w order maker_signature taker_signature sender taker_amount_in = do
    require_auth h sender
    let order_hash = Hash.rfq_order h order
    (taker, s1) ←
        validate_common h w.store (rfq_request order) order.maker taker_signature sender
          taker_amount_in
    s2 ← take_fill s1 order_hash order.taker_amount taker_amount_in
    verify h s2 order.maker order_hash maker_signature
    (delivered, x1) ← deliver h w.ext order.taker_token taker order.maker taker_amount_in
    q ← quote s2 x1 order delivered
    cap ← mul_div order.max_maker_amount taker_amount_in order.taker_amount
    fail_if (ltb_ℤ cap q.maker_amount) maker_amount_too_high
    net ← sub_i128 q.maker_amount q.fee
    (received, x2) ← pay h x1 order.maker_token order.maker taker order.fee_recipient net q.fee
    check_floor received order.min_received_amount taker_amount_in order.taker_amount
    ok (
      record { taker_filled = taker_amount_in; maker_filled = q.maker_amount; fee = q.fee },
      record { store = s2; ext = x2 },
    )

  unfoldable pub fill_fixed_order :
      World T
      → FixedOrder
      → Signature
      → Option Signature
      → Address
      → ℤ
      → Return (FillResult × World T)
  fill_fixed_order w order maker_signature taker_signature sender taker_amount_in = do
    require_auth h sender
    let order_hash = Hash.fixed_order h order
    (taker, s1) ←
        validate_common h w.store (fixed_request order) order.maker taker_signature sender
          taker_amount_in
    s2 ← take_fill s1 order_hash order.taker_amount taker_amount_in
    verify h s2 order.maker order_hash maker_signature
    (delivered, x1) ← deliver h w.ext order.taker_token taker order.maker taker_amount_in
    maker_amount ← mul_div order.maker_amount delivered order.taker_amount
    fee ← mul_div maker_amount (pos order.fee_bps) bps
    net ← sub_i128 maker_amount fee
    (received, x2) ← pay h x1 order.maker_token order.maker taker order.fee_recipient net fee
    check_floor received order.min_received_amount taker_amount_in order.taker_amount
    ok (
      record { taker_filled = taker_amount_in; maker_filled = maker_amount; fee = fee },
      record { store = s2; ext = x2 },
    )
