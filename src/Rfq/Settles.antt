-- ===== src/Rfq/Settles.antt =====
-- What every successful fill of a signed order has done, step by step: the facts that the
-- properties of `fill_rfq_order` and `fill_fixed_order` share.
use stellar_rfq.Prelude.{◌≡◌, Option, true, false, arith}
use stellar_rfq.Prelude.Int.{ℤ, pos, ltb_ℤ, ◌≤ℤ◌}
use stellar_rfq.Prelude.Maps.{Bytes}
use stellar_rfq.Prelude.Result.{ok, bind_then, fail_if, fail_if_ok, trap_unless_ok}
use stellar_rfq.Prelude.Words.{sub_i128}
use stellar_rfq.Math.{bps}
use stellar_rfq.Host.{Host, require_auth}
use stellar_rfq.Types.{Address}
use stellar_rfq.Orders.{
  Request, RfqOrder, FixedOrder, Signature, FillResult, rfq_request, fixed_request,
}
use stellar_rfq.Rfq.Types.{Error, Quote, maker_amount_too_high}
use stellar_rfq.Rfq.Storage.{Storage, World}
use stellar_rfq.Rfq.Hash
use stellar_rfq.Rfq.Price.{mul_div}
use stellar_rfq.Rfq.Checks.{validate_common, take_fill, verify, check_floor}
use stellar_rfq.Rfq.Tokens.{deliver, pay}
use stellar_rfq.Rfq.Orders.{quote, fill_rfq_order, fill_fixed_order}

-- The request `r`, bid on by `maker`, was filled by `amount` with the result `res`.
pub record Settles {T : Type 0} (h : Host T) (w w' : World T) (r : Request) (maker : Address)
    (order_hash : Bytes) (taker_signature : Option Signature) (sender : Address) (amount : ℤ)
    (res : FillResult) : Type 0 where
  pub taker : Address
  pub booked : Storage
  pub delivered : ℤ
  pub delivery : T
  pub net : ℤ
  pub received : ℤ
  pub maker_signature : Signature
  pub by_sender : h.authorised sender ≡ true
  pub validated :
      validate_common h w.store r maker taker_signature sender amount ≡ ok (taker, booked)
  pub taken : take_fill booked order_hash r.taker_amount amount ≡ ok w'.store
  pub signed : verify h w'.store maker order_hash maker_signature ≡ ok tt
  pub delivers : deliver h w.ext r.taker_token taker maker amount ≡ ok (delivered, delivery)
  pub nets : sub_i128 {E = Error} res.maker_filled res.fee ≡ ok net
  pub pays :
      pay h delivery r.maker_token maker taker r.fee_recipient net res.fee ≡ ok (received, w'.ext)
  pub floors : check_floor received r.min_received_amount amount r.taker_amount ≡ ok tt
  pub filled : res.taker_filled ≡ amount

-- What the two kinds of order add: how the amount was priced.
pub record SettlesRfq {T : Type 0} (h : Host T) (w w' : World T) (o : RfqOrder)
    (taker_signature : Option Signature) (sender : Address) (amount : ℤ) (res : FillResult)
    : Type 0 where
  pub steps :
      Settles h w w' (rfq_request o) o.maker (Hash.rfq_order h o) taker_signature sender amount res
  pub quoted : Quote
  pub cap : ℤ
  pub quotes : quote h w'.store steps.delivery o steps.delivered ≡ ok quoted
  pub caps : mul_div o.max_maker_amount amount o.taker_amount ≡ ok cap
  pub within_cap : quoted.maker_amount ≤ℤ cap
  pub paid : res.maker_filled ≡ quoted.maker_amount
  pub charged : res.fee ≡ quoted.fee

pub record SettlesFixed {T : Type 0} (h : Host T) (w w' : World T) (o : FixedOrder)
    (taker_signature : Option Signature) (sender : Address) (amount : ℤ) (res : FillResult)
    : Type 0 where
  pub steps :
      Settles h w w'
        (fixed_request o)
        o.maker
        (Hash.fixed_order h o)
        taker_signature
        sender
        amount
        res
  pub scales : mul_div o.maker_amount steps.delivered o.taker_amount ≡ ok res.maker_filled
  pub fees : mul_div res.maker_filled (pos o.fee_bps) bps ≡ ok res.fee

not_above : (a b : ℤ) → ltb_ℤ a b ≡ false → b ≤ℤ a
not_above a b h = ground arith

module _ {T : Type 0} (h : Host T) (w : World T) (maker_signature : Signature)
    (taker_signature : Option Signature) (sender : Address) (amount : ℤ) where
  pub fill_rfq_order-SettlesRfq :
      (o : RfqOrder) {res : FillResult} {w' : World T}
      → fill_rfq_order h w o maker_signature taker_signature sender amount ≡ ok (res, w')
      → SettlesRfq h w w' o taker_signature sender amount res
  unfolding fill_rfq_order rfq_request
  fill_rfq_order-SettlesRfq o e = bind_then (require_auth h sender) _ e λ _ e1 r1.
      bind_then (validate_common h w.store (rfq_request o) o.maker taker_signature sender amount) _
        r1
        λ v e2 r2.
          bind_then (take_fill v.1 (Hash.rfq_order h o) o.taker_amount amount) _ r2 λ s2 e3 r3.
            bind_then (verify h s2 o.maker (Hash.rfq_order h o) maker_signature) _ r3 λ _ e4 r4.
              bind_then (deliver h w.ext o.taker_token v.0 o.maker amount) _ r4 λ d e5 r5.
                bind_then (quote h s2 d.1 o d.0) _ r5 λ q e6 r6.
                  bind_then (mul_div o.max_maker_amount amount o.taker_amount) _ r6 λ cap e7 r7.
                    bind_then (fail_if (ltb_ℤ cap q.maker_amount) maker_amount_too_high) _ r7
                      λ _ e8 r8. bind_then (sub_i128 q.maker_amount q.fee) _ r8 λ net e9 r9.
                        bind_then (pay h d.1 o.maker_token o.maker v.0 o.fee_recipient net q.fee) _
                          r9
                          λ p e10 r10.
                            bind_then (check_floor p.0 o.min_received_amount amount o.taker_amount)
                              _ r10
                              λ _ e11 r11. record {
                                steps = record {
                                  taker = v.0;
                                  booked = v.1;
                                  delivered = d.0;
                                  delivery = d.1;
                                  net = net;
                                  received = p.0;
                                  maker_signature = maker_signature;
                                  by_sender = trap_unless_ok {E = Error} (h.authorised sender) e1;
                                  validated = e2;
                                  taken = cc;
                                  signed = cc;
                                  delivers = e5;
                                  nets = cc;
                                  pays = cc;
                                  floors = cc;
                                  filled = cc;
                                };
                                quoted = q;
                                cap = cap;
                                quotes = cc;
                                caps = e7;
                                within_cap =
                                    not_above cap q.maker_amount
                                      (fail_if_ok _ maker_amount_too_high e8);
                                paid = cc;
                                charged = cc;
                              }

  pub fill_fixed_order-SettlesFixed :
      (o : FixedOrder) {res : FillResult} {w' : World T}
      → fill_fixed_order h w o maker_signature taker_signature sender amount ≡ ok (res, w')
      → SettlesFixed h w w' o taker_signature sender amount res
  unfolding fill_fixed_order fixed_request
  fill_fixed_order-SettlesFixed o e = bind_then (require_auth h sender) _ e λ _ e1 r1.
      bind_then (validate_common h w.store (fixed_request o) o.maker taker_signature sender amount)
        _ r1
        λ v e2 r2.
          bind_then (take_fill v.1 (Hash.fixed_order h o) o.taker_amount amount) _ r2 λ s2 e3 r3.
            bind_then (verify h s2 o.maker (Hash.fixed_order h o) maker_signature) _ r3 λ _ e4 r4.
              bind_then (deliver h w.ext o.taker_token v.0 o.maker amount) _ r4 λ d e5 r5.
                bind_then (mul_div o.maker_amount d.0 o.taker_amount) _ r5 λ maker_amount e6 r6.
                  bind_then (mul_div maker_amount (pos o.fee_bps) bps) _ r6 λ fee e7 r7.
                    bind_then (sub_i128 maker_amount fee) _ r7 λ net e9 r9.
                      bind_then (pay h d.1 o.maker_token o.maker v.0 o.fee_recipient net fee) _ r9
                        λ p e10 r10.
                          bind_then (check_floor p.0 o.min_received_amount amount o.taker_amount) _
                            r10
                            λ _ e11 r11. record {
                              steps = record {
                                taker = v.0;
                                booked = v.1;
                                delivered = d.0;
                                delivery = d.1;
                                net = net;
                                received = p.0;
                                maker_signature = maker_signature;
                                by_sender = trap_unless_ok {E = Error} (h.authorised sender) e1;
                                validated = e2;
                                taken = cc;
                                signed = cc;
                                delivers = e5;
                                nets = cc;
                                pays = cc;
                                floors = cc;
                                filled = cc;
                              };
                              scales = cc;
                              fees = cc;
                            }
