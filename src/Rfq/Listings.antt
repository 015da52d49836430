-- ===== src/Rfq/Listings.antt =====
-- contracts/rfq/src/lib.rs: Dutch listings. The contract escrows the seller's tokens, and its ask
-- decays from a start to a floor.
use stellar_rfq.Prelude.{
  ℕ, true, false, ◌&&◌, ◌||◌, not, Option, none, some, ltb, leb, if◌then◌else◌,
}
use stellar_rfq.Prelude.Int.{ℤ, pos, ltb_ℤ, leb_ℤ, eqb_ℤ}
use stellar_rfq.Prelude.Maps.{nat_eq, ◌==◌}
use stellar_rfq.Prelude.Result.{ok, err, ◌>>=◌, ◌>>◌, fail_if, or_trap}
use stellar_rfq.Prelude.Words.{sub_i128, sub_uint}
use stellar_rfq.Math.{bps}
use stellar_rfq.Host.{Host, require_auth}
use stellar_rfq.Types.{Address}
use stellar_rfq.Orders.{FillResult}
use stellar_rfq.Rfq.Types.{
  Return, Listing, DutchOrder, invalid_amount, invalid_config, same_token, order_not_fillable,
  listing_not_active, ask_above_max, below_min_received,
}
use stellar_rfq.Rfq.Storage.{Storage, World, config, take_id, set_listing}
use stellar_rfq.Rfq.Price.{mul_div}
use stellar_rfq.Rfq.Checks.{not_paused, check_fee}
use stellar_rfq.Rfq.Tokens.{deliver, pay}

unfoldable pub check_listing_amounts : DutchOrder → Return (Unit {0})
check_listing_amounts o =
    fail_if
      (leb_ℤ o.taker_amount (pos 0)
        || leb_ℤ o.min_maker_amount (pos 0)
        || ltb_ℤ o.start_maker_amount o.min_maker_amount)
      invalid_amount

-- With no decay window the ask rests on the floor from the first second.
unfoldable pub check_curve : DutchOrder → ℕ → Return (Unit {0})
check_curve o decay_seconds =
    fail_if (decay_seconds == 0 && not (eqb_ℤ o.start_maker_amount o.min_maker_amount))
      invalid_config

-- The terms in proportion to what was escrowed.
unfoldable pub rescale : DutchOrder → ℤ → Return DutchOrder
rescale o escrowed = if eqb_ℤ escrowed o.taker_amount then ok o else (do
  start ← mul_div o.start_maker_amount escrowed o.taker_amount
  floor ← mul_div o.min_maker_amount escrowed o.taker_amount
  fail_if (leb_ℤ floor (pos 0)) invalid_amount
  ok (record o { start_maker_amount = start; min_maker_amount = floor; taker_amount = escrowed }))

-- The listing if it is active.
unfoldable pub if_active : Option Listing → Return Listing
if_active none = err listing_not_active
if_active (some l) = if l.active then ok l else err listing_not_active

unfoldable pub active_listing : Storage → ℕ → Return Listing
unfolding if_active
active_listing s id = if_active (s.listing id)

module _ {T : Type 0} (h : Host T) where
  unfoldable pub check_listing : Storage → DutchOrder → ℕ → Return (Unit {0})
  unfolding not_paused check_listing_amounts check_curve check_fee
  check_listing s o decay_seconds = do
    not_paused s
    fail_if (o.maker_token == o.taker_token) same_token
    fail_if (not (o.expiry == 0) && leb o.expiry h.timestamp) order_not_fillable
    check_listing_amounts o
    check_curve o decay_seconds
    check_fee s o.fee_bps

  unfoldable pub ask : Listing → Return ℤ
  ask l = do
    let start = l.order.start_maker_amount
    let floor = l.order.min_maker_amount
    elapsed ← sub_uint h.timestamp l.created_at
    if l.decay_seconds == 0 || leb l.decay_seconds elapsed then ok floor else (do
      drop ← sub_i128 start floor
      decayed ← mul_div drop (pos elapsed) (pos l.decay_seconds)
      sub_i128 start decayed)

  unfoldable pub current_ask : World T → ℕ → Return ℤ
  unfolding ask active_listing
  current_ask w id = do listing ← active_listing w.store id; ask listing

  unfoldable pub create_dutch_order : World T → Address → DutchOrder → Return (ℕ × World T)
  create_dutch_order w seller order = do
    require_auth h seller
    cfg ← config w.store
    check_listing w.store order cfg.decay_seconds
    (escrowed, x) ← deliver h w.ext order.taker_token seller h.me order.taker_amount
    terms ← rescale order escrowed
    (id, s) ← take_id w.store
    ok (
      id,
      record {
        store = set_listing s id (record {
          order = terms;
          seller = seller;
          created_at = h.timestamp;
          decay_seconds = cfg.decay_seconds;
          active = true;
        });
        ext = x;
      },
    )

  unfoldable pub fill_dutch_order : World T → ℕ → Address → ℤ → Return (FillResult × World T)
  fill_dutch_order w id buyer max_maker_amount = do
    require_auth h buyer
    not_paused w.store
    listing ← active_listing w.store id
    fail_if (not (listing.order.expiry == 0) && ltb listing.order.expiry h.timestamp)
        order_not_fillable
    check_fee w.store listing.order.fee_bps
    maker_amount ← ask listing
    fail_if (leb_ℤ maker_amount (pos 0)) invalid_amount
    fail_if (ltb_ℤ max_maker_amount maker_amount) ask_above_max
    fee ← mul_div maker_amount (pos listing.order.fee_bps) bps
    x1 ← or_trap (h.transfer w.ext listing.order.taker_token h.me buyer listing.order.taker_amount)
    net ← sub_i128 maker_amount fee
    (received, x2) ←
        pay h x1 listing.order.maker_token buyer listing.seller listing.order.fee_recipient net fee
    fail_if (ltb_ℤ received net) below_min_received
    ok (
      record { taker_filled = listing.order.taker_amount; maker_filled = maker_amount; fee = fee },
      record { store = set_listing w.store id (record listing { active = false }); ext = x2 },
    )

  unfoldable pub cancel_dutch_order : World T → ℕ → Return (World T)
  cancel_dutch_order w id = do
    listing ← active_listing w.store id
    require_auth h listing.seller
    x ←
        or_trap (
          h.transfer w.ext listing.order.taker_token h.me listing.seller listing.order.taker_amount)
    ok (record { store = set_listing w.store id (record listing { active = false }); ext = x })
