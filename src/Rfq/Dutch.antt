-- ===== src/Rfq/Dutch.antt =====
-- contracts/rfq/src/lib.rs: the ask of a Dutch listing, and what creating, filling and cancelling
-- one does.
use stellar_rfq.Prelude.{
  ℕ, ◌+◌, ◌-◌, ◌≤◌, ◌<◌, ◌≡◌, ◌⊎◌, inl, inr, ◌||◌, leb, arith, subst, Bool-cases,
}
use stellar_rfq.Prelude.Int.{ℤ, pos, pos_part, ◌+ℤ◌, ◌≤ℤ◌, ◌<ℤ◌, eq_of_parts, sum_parts}
use stellar_rfq.Prelude.Maps.{nat_eq, ◌==◌}
use stellar_rfq.Prelude.Result.{ok, bind_then}
use stellar_rfq.Prelude.Words.{sub_i128, sub_uint, sub_uint_ok}
use stellar_rfq.Math.Bounds.{RoundsDown}
use stellar_rfq.Math.Rounding.{RoundsDown_mono, RoundsDown-le}
use stellar_rfq.Host.{Host}
use stellar_rfq.Rfq.Types.{Error, Listing, DutchOrder}
use stellar_rfq.Rfq.Price.{mul_div}
use stellar_rfq.Rfq.Listings.{ask}
use stellar_rfq.Rfq.Guards.{mul_div_ok}
use stellar_rfq.Rfq.Measured.{sub_ok}

-- The terms of a listing that the contract accepts.
pub record IsSound (o : DutchOrder) : Type 0 where
  pub amount_pos : pos 0 <ℤ o.taker_amount
  pub floor_pos : pos 0 <ℤ o.min_maker_amount
  pub floor-le-start : o.min_maker_amount ≤ℤ o.start_maker_amount

nothing_fallen :
    (gap : ℤ) (n d : ℕ) {fallen : ℤ}
    → RoundsDown gap (pos n) (pos d) fallen
    → n ≡ 0
    → pos_part fallen ≡ 0
nothing_fallen gap n d r e = grind arith

module _ {T : Type 0} (h : Host T) where
  -- The ask rests on the floor once the window is over, or has fallen by the elapsed share of the
  -- gap, rounded down.
  abbrev pub Asks : Listing → ℤ → Type 0
  Asks l a =
      (l.created_at ≤ h.timestamp)
      × ((((l.decay_seconds ≡ 0) ⊎ (l.created_at + l.decay_seconds ≤ h.timestamp))
            × (a ≡ l.order.min_maker_amount))
          ⊎ ((h.timestamp < l.created_at + l.decay_seconds)
              × (gap : ℤ) × (fallen : ℤ) × (l.order.start_maker_amount
                  ≡ l.order.min_maker_amount +ℤ gap)
              × (l.order.start_maker_amount ≡ fallen +ℤ a)
              × RoundsDown gap (pos (h.timestamp - l.created_at)) (pos l.decay_seconds) fallen))

  pub ask-Asks : (l : Listing) {a : ℤ} → ask h l ≡ ok a → Asks l a
  unfolding ask
  ask-Asks l {a} e = bind_then (sub_uint h.timestamp l.created_at) _ e λ elapsed e1 r1.
      let (later, _) = sub_uint_ok {E = Error} h.timestamp l.created_at e1 in
      let since : elapsed ≡ h.timestamp - l.created_at = omega arith in
      elim (Bool-cases (l.decay_seconds == 0 || leb l.decay_seconds elapsed)) [
        | inl over ↦ (omega arith, inl (ground arith, ground arith))
        | inr running ↦
            bind_then (sub_i128 l.order.start_maker_amount l.order.min_maker_amount) _
              (rw running at r1)
              λ gap e3 r3.
                bind_then (mul_div gap (pos elapsed) (pos l.decay_seconds)) _ r3 λ fallen e4 r4. (
                  omega arith,
                  inr (
                    ground arith,
                    gap,
                    fallen,
                    sub_ok l.order.start_maker_amount l.order.min_maker_amount e3,
                    sub_ok l.order.start_maker_amount fallen r4,
                    subst (λ n. RoundsDown gap (pos n) (pos l.decay_seconds) fallen) since
                        (mul_div_ok gap (pos elapsed) (pos l.decay_seconds) e4),
                  ),
                )
      ]

  -- The ask of a sound listing, if it can be computed, stays between its floor and its start; it is
  -- the start when the window opens, and the floor from the end of the window on.
  pub ask_bounds :
      (l : Listing) {a : ℤ}
      → IsSound l.order
      → ask h l ≡ ok a
      → (l.order.min_maker_amount ≤ℤ a)
        × (a ≤ℤ l.order.start_maker_amount)
        × (0 < l.decay_seconds → h.timestamp ≡ l.created_at → a ≡ l.order.start_maker_amount)
        × (l.created_at + l.decay_seconds ≤ h.timestamp → a ≡ l.order.min_maker_amount)
  ask_bounds l {a} sound e =
      let start = l.order.start_maker_amount in
      let floor = l.order.min_maker_amount in
      let (later, phase) = ask-Asks l e in
      elim phase [
        | inl (over, rests) ↦ ground (arith, sound.floor-le-start)
        | inr (early, gap, fallen, is_gap, is_fallen, rounded) ↦
            let sums = sum_parts start floor gap is_gap in
            let falls = sum_parts start fallen a is_fallen in
            let part =
              RoundsDown-le gap (pos (h.timestamp - l.created_at)) (pos l.decay_seconds) rounded
                (omega arith) in
            (
              omega (arith, sums, falls, part),
              omega (arith, falls, rounded.q_nonneg),
              λ window now. eq_of_parts a start (
                  omega
                    (arith, falls, rounded.q_nonneg, nothing_fallen gap _ _ rounded (omega arith))),
              λ over. absurd (omega arith),
            )
      ]

-- The ask of a sound listing never rises: what is asked later, if the asks can be computed, is no
-- more.
pub ask_antitone :
    {T : Type 0} (h h' : Host T) (l : Listing) {a a' : ℤ}
    → IsSound l.order
    → h.timestamp ≤ h'.timestamp
    → ask h l ≡ ok a
    → ask h' l ≡ ok a'
    → a' ≤ℤ a
ask_antitone h h' l {a} {a'} sound later e e' =
    let start = l.order.start_maker_amount in
    let floor = l.order.min_maker_amount in
    let low = ask_bounds h l sound e in
    elim ((ask-Asks h' l e').1) [
      | inl (over', rests') ↦ rw rests' (low.0)
      | inr (early', gap', fallen', is_gap', is_fallen', rounded') ↦ elim ((ask-Asks h l e).1) [
        | inl (inl none', rests) ↦ absurd (omega arith)
        | inl (inr over, rests) ↦ absurd (omega arith)
        | inr (early, gap, fallen, is_gap, is_fallen, rounded) ↦
            let s1 = sum_parts start floor gap is_gap in
            let s2 = sum_parts start floor gap' is_gap' in
            let s3 = sum_parts start fallen a is_fallen in
            let s4 = sum_parts start fallen' a' is_fallen' in
            let more =
              RoundsDown_mono gap (pos (h.timestamp - l.created_at)) gap'
                (pos (h'.timestamp - l.created_at)) (pos l.decay_seconds) rounded rounded'
                (omega (arith, s1, s2)) (omega arith) in
            omega (arith, s3, s4, more)
      ]
    ]
