-- ===== src/Rfq/Sales.antt =====
-- contracts/rfq/src/lib.rs: what `fill_dutch_order` and `cancel_dutch_order` have done when they
-- return.
use stellar_rfq.Prelude.{
  ℕ, ◌≤◌, ◌≡◌, ◌⊎◌, inl, inr, refl, sym, true, false, ◌&&◌, not, some, ltb, arith, subst,
  Option-cases,
}
use stellar_rfq.Prelude.Int.{ℤ, pos, ◌+ℤ◌, ◌≤ℤ◌, ◌<ℤ◌, ltb_ℤ, leb_ℤ}
use stellar_rfq.Prelude.Maps.{nat_eq, ◌==◌}
use stellar_rfq.Prelude.Result.{
  ok, bind_then, fail_if, fail_if_ok, or_trap, or_trap_ok, trap_unless_ok,
}
use stellar_rfq.Prelude.Words.{sub_i128}
use stellar_rfq.Math.{bps}
use stellar_rfq.Math.Bounds.{RoundsDown}
use stellar_rfq.Host.{Host, require_auth}
use stellar_rfq.Types.{Address}
use stellar_rfq.Orders.{FillResult}
use stellar_rfq.Rfq.Types.{
  Error, Config, Listing, invalid_amount, order_not_fillable, ask_above_max, below_min_received,
}
use stellar_rfq.Rfq.Storage.{Storage, World, set_listing}
use stellar_rfq.Rfq.Price.{mul_div}
use stellar_rfq.Rfq.Checks.{check_fee, not_paused}
use stellar_rfq.Rfq.Tokens.{pay}
use stellar_rfq.Rfq.Listings.{ask, active_listing, fill_dutch_order, cancel_dutch_order}
use stellar_rfq.Rfq.Guards.{mul_div_ok, check_fee_ok}
use stellar_rfq.Rfq.Measured.{sub_ok, Credited, pay_ok}

pub active_listing_ok :
    (s : Storage) (id : ℕ) {l : Listing}
    → active_listing s id ≡ ok l
    → (s.listing id ≡ some l) × (l.active ≡ true)
unfolding active_listing
active_listing_ok s id {l} e = elim (Option-cases (s.listing id)) [
  | inl missing ↦ absurd (ground arith)
  | inr (found, stored) ↦ ground arith
]

abbrev pub closed : Listing → Listing
closed l = record l { active = false }

module _ {T : Type 0} (h : Host T) where
  -- A listing was sold: it was active and live, the buyer got the whole escrow, the seller was
  -- credited at least the ask less the fee, and the listing is closed.
  pub record Sold (w w' : World T) (id : ℕ) (buyer : Address) (limit : ℤ) (res : FillResult)
      : Type 0 where
    pub listing : Listing
    pub by_buyer : h.authorised buyer ≡ true
    pub unpaused : w.store.paused ≡ false
    pub listed : w.store.listing id ≡ some listing
    pub active : listing.active ≡ true
    pub live : (listing.order.expiry ≡ 0) ⊎ (h.timestamp ≤ listing.order.expiry)
    pub cfg : Config
    pub configured : w.store.cfg ≡ some cfg
    pub fee_in_bounds :
        (cfg.min_fee_bps ≤ listing.order.fee_bps) × (listing.order.fee_bps ≤ cfg.max_fee_bps)
    pub asked : ask h listing ≡ ok res.maker_filled
    pub asked_pos : pos 0 <ℤ res.maker_filled
    pub within : res.maker_filled ≤ℤ limit
    pub fee_is : RoundsDown res.maker_filled (pos listing.order.fee_bps) bps res.fee
    pub between : T
    pub handed :
        h.transfer w.ext listing.order.taker_token h.me buyer listing.order.taker_amount
        ≡ some between
    pub whole : res.taker_filled ≡ listing.order.taker_amount
    pub net : ℤ
    pub net_is : res.maker_filled ≡ res.fee +ℤ net
    pub credited : ℤ
    pub paid : Credited h between w'.ext listing.order.maker_token listing.seller credited
    pub enough : net ≤ℤ credited
    pub stores : w'.store ≡ set_listing w.store id (closed listing)

  not_expired :
      (expiry now : ℕ)
      → (not (expiry == 0) && ltb expiry now) ≡ false
      → (expiry ≡ 0) ⊎ (now ≤ expiry)
  not_expired expiry now e = ground arith

  -- A successful `fill_dutch_order` sells the whole active listing at its current ask, which is
  -- within the buyer's limit: the buyer is sent the escrow, the seller is credited at least the ask
  -- less the fee, and the listing is closed.
  pub fill_dutch_order-Sold :
      (w : World T) (id : ℕ) (buyer : Address) (limit : ℤ) {res : FillResult} {w' : World T}
      → fill_dutch_order h w id buyer limit ≡ ok (res, w')
      → Sold w w' id buyer limit res
  unfolding fill_dutch_order not_paused
  fill_dutch_order-Sold w id buyer limit {res} {w'} e =
      bind_then (require_auth h buyer) _ e λ _ e1 r1. bind_then (not_paused w.store) _ r1 λ _ e2 r2.
        bind_then (active_listing w.store id) _ r2 λ l e3 r3.
          bind_then
            (fail_if (not (l.order.expiry == 0) && ltb l.order.expiry h.timestamp)
              order_not_fillable)
            _ r3
            λ _ e4 r4. bind_then (check_fee w.store l.order.fee_bps) _ r4 λ _ e5 r5.
              bind_then (ask h l) _ r5 λ maker_amount e6 r6.
                bind_then (fail_if (leb_ℤ maker_amount (pos 0)) invalid_amount) _ r6 λ _ e7 r7.
                  bind_then (fail_if (ltb_ℤ limit maker_amount) ask_above_max) _ r7 λ _ e8 r8.
                    bind_then (mul_div maker_amount (pos l.order.fee_bps) bps) _ r8 λ fee e9 r9.
                      bind_then
                        (or_trap
                          (h.transfer w.ext l.order.taker_token h.me buyer l.order.taker_amount))
                        _ r9
                        λ x1 e10 r10. bind_then (sub_i128 maker_amount fee) _ r10 λ net e11 r11.
                          bind_then
                            (pay h x1 l.order.maker_token buyer l.seller l.order.fee_recipient net
                              fee)
                            _ r11
                            λ p e12 r12.
                              bind_then (fail_if (ltb_ℤ p.0 net) below_min_received) _ r12
                                λ _ e13 r13.
                                  let (listed, active) = active_listing_ok w.store id e3 in
                                  let (c, configured, above, below) =
                                    check_fee_ok w.store l.order.fee_bps e5 in
                                  let result : res ≡ record {
                                    taker_filled = l.order.taker_amount;
                                    maker_filled = maker_amount;
                                    fee = fee;
                                  } =
                                    cc in
                                  let world : w' ≡ record {
                                    store = set_listing w.store id (closed l);
                                    ext = p.1;
                                  } =
                                    cc in
                                  subst (λ z. Sold w z id buyer limit res) (sym world)
                                    (subst
                                      (λ z.
                                        Sold w
                                          (record {
                                            store = set_listing w.store id (closed l);
                                            ext = p.1;
                                          })
                                          id buyer limit z)
                                      (sym result)
                                      (record {
                                        listing = l;
                                        by_buyer =
                                            trap_unless_ok {E = Error} (h.authorised buyer) e1;
                                        unpaused = fail_if_ok w.store.paused Error.paused e2;
                                        listed = listed;
                                        active = active;
                                        live =
                                            not_expired l.order.expiry h.timestamp
                                              (fail_if_ok _ order_not_fillable e4);
                                        cfg = c;
                                        configured = configured;
                                        fee_in_bounds = (above, below);
                                        asked = e6;
                                        asked_pos = ground arith;
                                        within = ground arith;
                                        fee_is =
                                            mul_div_ok maker_amount (pos l.order.fee_bps) bps e9;
                                        between = x1;
                                        handed = or_trap_ok {E = Error} _ e10;
                                        whole = refl;
                                        net = net;
                                        net_is = sub_ok maker_amount fee e11;
                                        credited = p.0;
                                        paid =
                                            (pay_ok h x1 l.order.maker_token buyer l.seller
                                              l.order.fee_recipient net fee e12).0;
                                        enough = ground arith;
                                        stores = refl;
                                      }))

  -- A successful `cancel_dutch_order` was authorised by the seller of an active listing: the whole
  -- escrow is sent back to them, and the listing is closed.
  pub cancel_dutch_order_lem :
      (w : World T) (id : ℕ) {w' : World T}
      → cancel_dutch_order h w id ≡ ok w'
      → (l : Listing) × (w.store.listing id ≡ some l)
        × (l.active ≡ true)
        × (h.authorised l.seller ≡ true)
        × (h.transfer w.ext l.order.taker_token h.me l.seller l.order.taker_amount ≡ some w'.ext)
        × (w'.store ≡ set_listing w.store id (closed l))
  unfolding cancel_dutch_order
  cancel_dutch_order_lem w id e = bind_then (active_listing w.store id) _ e λ l e1 r1.
      bind_then (require_auth h l.seller) _ r1 λ _ e2 r2.
        bind_then
          (or_trap (h.transfer w.ext l.order.taker_token h.me l.seller l.order.taker_amount)) _ r2
          λ x e3 r3.
            let (listed, active) = active_listing_ok w.store id e1 in
            (
              l,
              listed,
              active,
              trap_unless_ok {E = Error} (h.authorised l.seller) e2,
              ground (
                arith,
                or_trap_ok {E = Error}
                    (h.transfer w.ext l.order.taker_token h.me l.seller l.order.taker_amount) e3,
              ),
              cc,
            )
