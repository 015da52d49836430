-- ===== src/Rfq/Fill.antt =====
-- contracts/rfq/src/lib.rs: what a successful `fill_rfq_order` or `fill_fixed_order` guarantees to
-- the maker, to the taker and about the books.
use stellar_rfq.Prelude.{◌≡◌, subst, Option}
use stellar_rfq.Prelude.Int.{ℤ, pos, ◌≤ℤ◌}
use stellar_rfq.Prelude.Maps.{bytes_eq}
use stellar_rfq.Prelude.Result.{ok}
use stellar_rfq.Math.{bps}
use stellar_rfq.Math.Bounds.{RoundsDown}
use stellar_rfq.Host.{Host}
use stellar_rfq.Types.{Address}
use stellar_rfq.Orders.{RfqOrder, FixedOrder, Signature, FillResult, rfq_request, fixed_request}
use stellar_rfq.Rfq.Types.{Quote}
use stellar_rfq.Rfq.Storage.{World}
use stellar_rfq.Rfq.Hash
use stellar_rfq.Rfq.Orders.{fill_rfq_order, fill_fixed_order}
use stellar_rfq.Rfq.Settles.{fill_rfq_order-SettlesRfq, fill_fixed_order-SettlesFixed}
use stellar_rfq.Rfq.Guards.{mul_div_ok}
use stellar_rfq.Rfq.Books.{Raises, RequestBooked, order_raised, request_booked}
use stellar_rfq.Rfq.Quotes.{Quoted, quote-Quoted}
use stellar_rfq.Rfq.Agreement.{Agreed, Exchanged, Settles-Agreed, Settles-Exchanged, Settles-Pays}
use stellar_rfq.Rfq.Measured.{Pays}

module _ {T : Type 0} (h : Host T) (w : World T) (maker_signature : Signature)
    (taker_signature : Option Signature) (sender : Address) (amount : ℤ) where
  pub fill_rfq_order-Agreed :
      (o : RfqOrder) {res : FillResult} {w' : World T}
      → fill_rfq_order h w o maker_signature taker_signature sender amount ≡ ok (res, w')
      → Agreed h w.store (rfq_request o) o.maker (Hash.rfq_order h o) taker_signature sender amount
  fill_rfq_order-Agreed o e =
      let t = fill_rfq_order-SettlesRfq h w maker_signature taker_signature sender amount o e in
      Settles-Agreed h w _ (rfq_request o) o.maker (Hash.rfq_order h o) taker_signature sender
        amount _ t.steps

  -- Whatever the token contracts do, a successful RFQ fill sent the input from the taker to the
  -- maker, and raised the taker's measured balance of the maker's token by at least the order's
  -- minimum, in proportion to the part filled and rounded up.
  pub fill_rfq_order-Exchanged :
      (o : RfqOrder) {res : FillResult} {w' : World T}
      → fill_rfq_order h w o maker_signature taker_signature sender amount ≡ ok (res, w')
      → Exchanged h w.ext w'.ext (rfq_request o) o.maker sender amount
  fill_rfq_order-Exchanged o e =
      let t = fill_rfq_order-SettlesRfq h w maker_signature taker_signature sender amount o e in
      Settles-Exchanged h w _ (rfq_request o) o.maker (Hash.rfq_order h o) taker_signature sender
        amount _ t.steps

  -- A successful RFQ fill is booked exactly once against the order and, if the request names a
  -- taker, against the request: each total rises by the amount filled, to no more than the order's
  -- amount, and no other order's or request's total changes.
  pub fill_rfq_order_books :
      (o : RfqOrder) {res : FillResult} {w' : World T}
      → fill_rfq_order h w o maker_signature taker_signature sender amount ≡ ok (res, w')
      → Raises w.store.filled w'.store.filled (Hash.rfq_order h o) amount o.taker_amount
        × RequestBooked w.store w'.store (rfq_request o) (Hash.request h (rfq_request o)) amount
  unfolding rfq_request
  fill_rfq_order_books o e =
      let t = fill_rfq_order-SettlesRfq h w maker_signature taker_signature sender amount o e in
      (
        order_raised h w _ (rfq_request o) o.maker (Hash.rfq_order h o) taker_signature sender
            amount _ t.steps,
        request_booked h w _ (rfq_request o) o.maker (Hash.rfq_order h o) taker_signature sender
            amount _ t.steps,
      )

  -- A successful fixed-price fill gives the same guarantees as an RFQ fill, and the maker owes its
  -- stated amount in proportion to what was delivered, which is what the maker's balance rose by,
  -- up to the amount filled, rounded down; the fee is the order's share of that, rounded down, and
  -- the maker pays the amount less the fee to the taker, then the fee to the order's recipient.
  pub fill_fixed_order-settled :
      (o : FixedOrder) {res : FillResult} {w' : World T}
      → fill_fixed_order h w o maker_signature taker_signature sender amount ≡ ok (res, w')
      → Agreed h w.store
          (fixed_request o)
          o.maker
          (Hash.fixed_order h o)
          taker_signature
          sender
          amount
        × Raises w.store.filled w'.store.filled (Hash.fixed_order h o) amount o.taker_amount
        × RequestBooked w.store w'.store (fixed_request o) (Hash.request h (fixed_request o)) amount
        × (m : Exchanged h w.ext w'.ext (fixed_request o) o.maker sender amount) × RoundsDown
            o.maker_amount m.counted o.taker_amount res.maker_filled
        × RoundsDown res.maker_filled (pos o.fee_bps) bps res.fee
        × Pays h m.between w'.ext o.maker_token o.maker m.taker o.fee_recipient res.maker_filled
            res.fee
  unfolding fixed_request Settles-Exchanged
  fill_fixed_order-settled o {res} {w'} e =
      let r = fixed_request o in
      let hash = Hash.fixed_order h o in
      let t = fill_fixed_order-SettlesFixed h w maker_signature taker_signature sender amount o e in
      let moved =
        Settles-Exchanged h w w' r o.maker hash taker_signature sender amount res t.steps in
      (
        Settles-Agreed h w w' r o.maker hash taker_signature sender amount res t.steps,
        order_raised h w w' r o.maker hash taker_signature sender amount res t.steps,
        request_booked h w w' r o.maker hash taker_signature sender amount res t.steps,
        moved,
        mul_div_ok o.maker_amount t.steps.delivered o.taker_amount t.scales,
        mul_div_ok res.maker_filled (pos o.fee_bps) bps t.fees,
        Settles-Pays h w w' r o.maker hash taker_signature sender amount res t.steps,
      )

  -- A successful RFQ fill pays by the rate model: the input is sent to the maker and what the
  -- maker's balance rose by, up to the amount, is what counts as delivered; the maker's amount is
  -- the quote for just that, on the state after booking and after the delivery; it is at most the
  -- maker's own cap, in proportion to the part filled and rounded down, and the maker pays it: the
  -- amount less the fee to the taker, then the fee to the order's recipient.
  pub fill_rfq_order-Quoted :
      (o : RfqOrder) {res : FillResult} {w' : World T}
      → fill_rfq_order h w o maker_signature taker_signature sender amount ≡ ok (res, w')
      → (m : Exchanged h w.ext w'.ext (rfq_request o) o.maker sender amount) × (q : Quote) × Quoted
          h w'.store m.between o m.counted q
        × Pays h m.between w'.ext o.maker_token o.maker m.taker o.fee_recipient q.maker_amount q.fee
        × (res ≡ record { taker_filled = amount; maker_filled = q.maker_amount; fee = q.fee })
        × (cap : ℤ) × RoundsDown o.max_maker_amount amount o.taker_amount cap
        × (q.maker_amount ≤ℤ cap)
  unfolding Settles-Exchanged rfq_request
  fill_rfq_order-Quoted o {res} {w'} e =
      let t = fill_rfq_order-SettlesRfq h w maker_signature taker_signature sender amount o e in
      let moved =
        Settles-Exchanged h w w' (rfq_request o) o.maker (Hash.rfq_order h o) taker_signature sender
          amount res t.steps in
      (
        moved,
        t.quoted,
        quote-Quoted h w'.store t.steps.delivery o t.steps.delivered t.quotes,
        subst
            (λ a.
              Pays h t.steps.delivery w'.ext o.maker_token o.maker t.steps.taker o.fee_recipient a
                t.quoted.fee)
            t.paid
            (subst
              (λ a.
                Pays h t.steps.delivery w'.ext o.maker_token o.maker t.steps.taker o.fee_recipient
                  res.maker_filled a)
              t.charged
              (Settles-Pays h w w' (rfq_request o) o.maker (Hash.rfq_order h o) taker_signature
                sender amount res t.steps)),
        λ i. record { taker_filled = t.steps.filled i; maker_filled = t.paid i; fee = t.charged i },
        t.cap,
        mul_div_ok o.max_maker_amount amount o.taker_amount t.caps,
        t.within_cap,
      )
