-- ===== src/Rfq/Measured.antt =====
-- contracts/rfq/src/lib.rs: what `deliver`, `pay` and `check_floor` measured, whatever the token
-- contracts do.
use stellar_rfq.Prelude.{◌≡◌, some, arith, false, if◌then◌else◌}
use stellar_rfq.Prelude.Int.{ℤ, pos, ◌+ℤ◌, ◌-ℤ◌, ◌≤ℤ◌, ◌<ℤ◌, ltb_ℤ, leb_ℤ, int_laws}
use stellar_rfq.Prelude.Result.{ok, or_trap, or_trap_ok, fail_if, fail_if_ok, bind_then}
use stellar_rfq.Prelude.Words.{sub_i128, i128_ok, min_ℤ}
use stellar_rfq.Math.Bounds.{RoundsUp}
use stellar_rfq.Host.{Host}
use stellar_rfq.Types.{Address}
use stellar_rfq.Rfq.Types.{Error, invalid_amount}
use stellar_rfq.Rfq.Price.{mul_div_ceil}
use stellar_rfq.Rfq.Checks.{check_floor}
use stellar_rfq.Rfq.Tokens.{deliver, pay, pay_part}
use stellar_rfq.Rfq.Guards.{mul_div_ceil_ok}

pub sub_ok : (a b : ℤ) {r : ℤ} → sub_i128 {E = Error} a b ≡ ok r → a ≡ b +ℤ r
sub_ok a b e = rw ((i128_ok {E = Error} (a -ℤ b) e).0) (omega int_laws)

clamp_lem :
    (amount received : ℤ)
    → pos 0 <ℤ amount
    → leb_ℤ received (pos 0) ≡ false
    → let counted = if ltb_ℤ amount received then amount else received in
      (pos 0 <ℤ counted) × (counted ≤ℤ amount) × (counted ≤ℤ received)
clamp_lem amount received p e = ground arith

module _ {T : Type 0} (h : Host T) where
  -- The holder's balance rose by `credited` between the two states.
  pub record Credited (x x' : T) (tok who : Address) (credited : ℤ) : Type 0 where
    pub before : ℤ
    pub after : ℤ
    pub had : h.balance x tok who ≡ some before
    pub has : h.balance x' tok who ≡ some after
    pub rise : after ≡ before +ℤ credited

  -- A delivery: the amount was sent, something arrived, and that counts, up to the amount.
  pub record Delivered (x x' : T) (tok from to : Address) (amount counted : ℤ) : Type 0 where
    pub sent : h.transfer_from x tok h.me from to amount ≡ some x'
    pub credited : ℤ
    pub measured : Credited x x' tok to credited
    pub counted_is : counted ≡ min_ℤ credited amount
    pub counted_pos : pos 0 <ℤ counted
    pub counted-le-amount : counted ≤ℤ amount
    pub counted-le-credited : counted ≤ℤ credited

  -- The payer owed an amount: the recipient was sent it less the fee, then the fee was sent.
  pub record Pays (x x' : T) (tok payer to fee_to : Address) (owed fee : ℤ) : Type 0 where
    pub net : ℤ
    pub net_is : owed ≡ fee +ℤ net
    pub between : T
    pub sent : pay_part h x tok payer to net ≡ ok between
    pub charged : pay_part h between tok payer fee_to fee ≡ ok x'

  pub deliver_ok :
      (x : T) (tok from to : Address) (amount : ℤ) {counted : ℤ} {x' : T}
      → pos 0 <ℤ amount
      → deliver h x tok from to amount ≡ ok (counted, x')
      → Delivered x x' tok from to amount counted
  unfolding deliver
  deliver_ok x tok from to amount p e = bind_then (or_trap (h.balance x tok to)) _ e λ before e1 r1.
      bind_then (or_trap (h.transfer_from x tok h.me from to amount)) _ r1 λ x1 e2 r2.
        bind_then (or_trap (h.balance x1 tok to)) _ r2 λ after e3 r3.
          bind_then (sub_i128 after before) _ r3 λ received e4 r4.
            bind_then (fail_if (leb_ℤ received (pos 0)) invalid_amount) _ r4 λ _ e5 r5.
              let (positive, at_most, arrived) =
                clamp_lem amount received p
                  (fail_if_ok (leb_ℤ received (pos 0)) invalid_amount e5) in
              record {
                sent =
                    ground (
                      arith,
                      or_trap_ok {E = Error} (h.transfer_from x tok h.me from to amount) e2,
                    );
                credited = received;
                measured = record {
                  before = before;
                  after = after;
                  had = or_trap_ok {E = Error} _ e1;
                  has = ground (arith, or_trap_ok {E = Error} (h.balance x1 tok to) e3);
                  rise = sub_ok after before e4;
                };
                counted_is = ground arith;
                counted_pos = ground (arith, positive);
                counted-le-amount = ground (arith, at_most);
                counted-le-credited = ground (arith, arrived);
              }

  pub check_floor_ok :
      (received least amount total : ℤ)
      → check_floor received least amount total ≡ ok tt
      → (floor : ℤ) × RoundsUp least amount total floor × (floor ≤ℤ received)
  unfolding check_floor
  check_floor_ok received least amount total e =
      bind_then (mul_div_ceil least amount total) _ e
        λ floor e1 r1. (floor, mul_div_ceil_ok least amount total e1, ground arith)

  pub pay_ok :
      (x : T) (tok payer to fee_to : Address) (net fee : ℤ) {credited : ℤ} {x' : T}
      → pay h x tok payer to fee_to net fee ≡ ok (credited, x')
      → Credited x x' tok to credited
        × ((x1 : T) × (pay_part h x tok payer to net ≡ ok x1)
            × (pay_part h x1 tok payer fee_to fee ≡ ok x'))
  unfolding pay
  pay_ok x tok payer to fee_to net fee e =
      bind_then (or_trap (h.balance x tok to)) _ e λ before e1 r1.
        bind_then (pay_part h x tok payer to net) _ r1 λ x1 e2 r2.
          bind_then (pay_part h x1 tok payer fee_to fee) _ r2 λ x2 e3 r3.
            bind_then (or_trap (h.balance x2 tok to)) _ r3 λ after e4 r4.
              bind_then (sub_i128 after before) _ r4 λ received e5 r5. (
                record {
                  before = before;
                  after = after;
                  had = or_trap_ok {E = Error} _ e1;
                  has = ground (arith, or_trap_ok {E = Error} (h.balance x2 tok to) e4);
                  rise = ground (arith, sub_ok after before e5);
                },
                (x1, e2, cc),
              )
