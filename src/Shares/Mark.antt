-- ===== src/Shares/Mark.antt =====
-- crates/shares/src/lib.rs: the high-water mark never falls.
use stellar_rfq.Prelude.{
  ℕ, ◌+◌, ◌*◌, ◌≤◌, ◌<◌, ◌≡◌, refl, ◌⊎◌, inl, inr, true, false, Bool, ◌&&◌, ltb, arith, ap, subst,
  sym, Bool-cases, if◌then◌else◌,
}
use stellar_rfq.Prelude.Int.{
  ℤ, pos, pos_part, neg_part, ◌+ℤ◌, ◌-ℤ◌, ◌≤ℤ◌, ◌<ℤ◌, ltb_ℤ, leb_ℤ, +ℤ_parts, -ℤ_parts,
}
use stellar_rfq.Prelude.Result.{ok, ok_injective, bind_then}
use stellar_rfq.Prelude.Words.{i128_ok, add_i128, sub_i128}
use stellar_rfq.Math.{one, bps}
use stellar_rfq.Math.Bounds.{RoundsDown}
use stellar_rfq.Math.Rounding.{RoundsDown-le}
use stellar_rfq.Shares.{Shares, ShareError, virtual_shares, md, share_price}
use stellar_rfq.Shares.Fees.{Snapshot, fee_on, snapshot}
use stellar_rfq.Shares.Rates.{md_ok}
use stellar_rfq.Shares.Dilution.{keeps_mark}

price_ok :
    (nav supply : ℤ) {q : ℤ}
    → share_price nav supply ≡ ok q
    → RoundsDown (nav +ℤ pos 1) one (supply +ℤ virtual_shares) q
unfolding share_price
price_ok nav supply {q} e = bind_then (add_i128 nav (pos 1)) _ e λ n e1 r1.
    bind_then (add_i128 supply virtual_shares) _ r1 λ s e2 r2.
      subst (λ z. RoundsDown z one (supply +ℤ virtual_shares) q)
        ((i128_ok {E = ShareError} (nav +ℤ pos 1) e1).0)
        (subst (λ z. RoundsDown n one z q)
          ((i128_ok {E = ShareError} (supply +ℤ virtual_shares) e2).0) (md_ok n one s r2))

-- How a fee of some shares came about.
record Charged (nav minted now mark : ℤ) (shares : ℤ) : Type 0 where
  above : ℤ
  gain : ℤ
  fee : ℤ
  above_is : above ≡ now -ℤ mark
  gain_is : RoundsDown above (minted +ℤ virtual_shares) one gain
  fee-le-gain : fee ≤ℤ gain
  fee-le-nav : fee ≤ℤ nav
  shares_are : RoundsDown fee (minted +ℤ virtual_shares) ((nav +ℤ pos 1) -ℤ fee) shares

fee_on_ok :
    (nav minted now mark : ℤ) (fee_bps : ℕ) {shares : ℤ}
    → fee_bps ≤ 10_000
    → fee_on nav minted now mark fee_bps ≡ ok shares
    → (shares ≡ pos 0) ⊎ Charged nav minted now mark shares
unfolding fee_on
fee_on_ok nav minted now mark fee_bps {shares} small e =
    bind_then (sub_i128 now mark) _ e λ above e1 r1.
      bind_then (add_i128 minted virtual_shares) _ r1 λ total e2 r2.
        bind_then (md above total one) _ r2 λ gain e3 r3.
          bind_then (md gain (pos fee_bps) bps) _ r3 λ fee e4 r4.
            let total_is = (i128_ok {E = ShareError} (minted +ℤ virtual_shares) e2).0 in
            elim (Bool-cases (ltb_ℤ (pos 0) fee && leb_ℤ fee nav)) [
              | inr none_due ↦ inl (ground arith)
              | inl due ↦ bind_then (add_i128 nav (pos 1)) _ (rw due at r4) λ assets e5 r5.
                  bind_then (sub_i128 assets fee) _ r5 λ rest e6 r6.
                    let assets_are = (i128_ok {E = ShareError} (nav +ℤ pos 1) e5).0 in
                    let rest_is = (i128_ok {E = ShareError} (assets -ℤ fee) e6).0 in
                    inr (record {
                      above = above;
                      gain = gain;
                      fee = fee;
                      above_is = (i128_ok {E = ShareError} (now -ℤ mark) e1).0;
                      gain_is =
                          subst (λ z. RoundsDown above z one gain) total_is
                            (md_ok above total one e3);
                      fee-le-gain =
                          RoundsDown-le gain (pos fee_bps) bps (md_ok gain (pos fee_bps) bps e4)
                            (omega arith);
                      fee-le-nav = ground arith;
                      shares_are =
                          subst (λ z. RoundsDown fee (minted +ℤ virtual_shares) (z -ℤ fee) shares)
                            assets_are
                            (subst (λ z. RoundsDown fee (minted +ℤ virtual_shares) z shares) rest_is
                              (subst (λ z. RoundsDown fee z rest shares) total_is
                                (md_ok fee total rest r6)));
                    })
            ]

one_sided : (a : ℤ) → (neg_part a ≡ 0) ⊎ (pos_part a ≡ 0)
one_sided a = ground arith

next_price : (now post s u n : ℕ) → now * s ≤ n * u → n * u < post * s + s → now ≤ post
next_price now post s u n p q = grind arith

shares_after :
    (minted f : ℤ)
    → neg_part f ≡ 0
    → neg_part (minted +ℤ virtual_shares) ≡ 0
    → neg_part ((minted +ℤ f) +ℤ virtual_shares) ≡ 0
    → pos_part ((minted +ℤ f) +ℤ virtual_shares) ≡ pos_part (minted +ℤ virtual_shares) + pos_part f
shares_after minted f p q r = omega (
  arith,
  +ℤ_parts minted f,
  +ℤ_parts (minted +ℤ f) virtual_shares,
  +ℤ_parts minted virtual_shares,
)

module _ (nav minted now mark f post : ℤ)
    (before : RoundsDown (nav +ℤ pos 1) one (minted +ℤ virtual_shares) now)
    (after : RoundsDown (nav +ℤ pos 1) one ((minted +ℤ f) +ℤ virtual_shares) post)
    (rise : mark <ℤ now) where
  top_of :
      neg_part f ≡ 0
      → pos_part (nav +ℤ pos 1) * pos_part one
        < pos_part post * (pos_part (minted +ℤ virtual_shares) + pos_part f)
          + (pos_part (minted +ℤ virtual_shares) + pos_part f)
  top_of p =
      subst (λ d. pos_part (nav +ℤ pos 1) * pos_part one < pos_part post * d + d)
        (shares_after minted f p before.d_nonneg after.d_nonneg) after.above

  free_price : f ≡ pos 0 → mark ≤ℤ post
  free_price e =
      let none_new : pos_part f ≡ 0 = ap pos_part e in
      let same : pos_part (minted +ℤ virtual_shares) + pos_part f
          ≡ pos_part (minted +ℤ virtual_shares) =
        omega arith in
      let top =
        subst (λ d. pos_part (nav +ℤ pos 1) * pos_part one < pos_part post * d + d) same
          (top_of (ap neg_part e)) in
      let up = next_price (pos_part now) (pos_part post) _ _ _ before.below top in
      omega (arith, up, before.q_nonneg, after.q_nonneg, rise)

  charged_price : Charged nav minted now mark f → mark ≤ℤ post
  charged_price c = elim (one_sided mark) [
    | inr below ↦ omega (arith, after.q_nonneg)
    | inl nonneg ↦
        let total : pos_part mark + pos_part c.above ≡ pos_part now = omega (
          arith,
          -ℤ_parts now mark,
          ap pos_part c.above_is,
          ap neg_part c.above_is,
          before.q_nonneg,
          nonneg,
          c.gain_is.a_nonneg,
        ) in
        let r = (nav +ℤ pos 1) -ℤ c.fee in
        let split : pos_part (nav +ℤ pos 1) ≡ pos_part r + pos_part c.fee = omega (
          arith,
          -ℤ_parts (nav +ℤ pos 1) c.fee,
          c.shares_are.a_nonneg,
          c.shares_are.d_nonneg,
          before.a_nonneg,
        ) in
        let kept =
          keeps_mark (pos_part mark) (pos_part c.above) (pos_part (minted +ℤ virtual_shares))
            (pos_part c.gain) (pos_part one) (pos_part (nav +ℤ pos 1)) (pos_part c.fee) (pos_part f)
            (pos_part r) (pos_part post)
            (subst
              (λ k.
                k * pos_part (minted +ℤ virtual_shares) ≤ pos_part (nav +ℤ pos 1) * pos_part one)
              (sym total) before.below)
            c.gain_is.below
            (omega (arith, c.fee-le-gain, c.gain_is.q_nonneg, c.shares_are.a_nonneg))
            c.shares_are.below split c.shares_are.d_pos (top_of c.shares_are.q_nonneg) in
        omega (arith, kept, after.q_nonneg)
  ]

fee_if_ok :
    (b : Bool) (nav minted now mark : ℤ) (fee_bps : ℕ) {shares : ℤ}
    → fee_bps ≤ 10_000
    → (if b then fee_on nav minted now mark fee_bps else ok (pos 0)) ≡ ok shares
    → (shares ≡ pos 0) ⊎ Charged nav minted now mark shares
fee_if_ok true nav minted now mark fee_bps small e = fee_on_ok nav minted now mark fee_bps small e
fee_if_ok false nav minted now mark fee_bps small e = inl (ground arith)

-- What a snapshot makes of the mark: with `now` the price before any fee, either it is not above
-- the mark, which stays, and no fee is due; or the mark becomes the price with the fee's shares
-- counted.
pub record Marked (s : Shares) (nav : ℤ) (due : Snapshot) : Type 0 where
  pub now : ℤ
  pub priced : share_price nav s.supply ≡ ok now
  pub same_nav : due.nav ≡ nav
  pub supply_is : due.supply ≡ s.supply +ℤ due.fee_shares
  pub marked :
      ((now ≤ℤ s.hwm) × (due.hwm ≡ s.hwm) × (due.fee_shares ≡ pos 0))
      ⊎ ((s.hwm <ℤ now) × (share_price nav due.supply ≡ ok due.hwm) × (s.hwm ≤ℤ due.hwm))

snapshot-Marked :
    (s : Shares) (nav : ℤ) (fee_bps : ℕ) {due : Snapshot}
    → fee_bps ≤ 10_000
    → snapshot s nav fee_bps ≡ ok due
    → Marked s nav due
unfolding snapshot
snapshot-Marked s nav fee_bps {due} small e = bind_then (share_price nav s.supply) _ e λ now e1 r1.
    let charged = ltb_ℤ s.hwm now && (ltb 0 fee_bps && ltb_ℤ (pos 0) s.supply) in
    bind_then (if charged then fee_on nav s.supply now s.hwm fee_bps else ok (pos 0)) _ r1
      λ fee e2 r2. bind_then (add_i128 s.supply fee) _ r2 λ supply e3 r3.
        bind_then (if ltb_ℤ s.hwm now then share_price nav supply else ok s.hwm) _ r3 λ mark e4 r4.
          let result = ok_injective {E = ShareError} r4 in
          let supply_is = (i128_ok {E = ShareError} (s.supply +ℤ fee) e3).0 in
          subst (Marked s nav) result (record {
            now = now;
            priced = e1;
            same_nav = refl;
            supply_is = supply_is;
            marked = elim (Bool-cases (ltb_ℤ s.hwm now)) [
              | inr low ↦ inl (ground arith, ground arith, ground arith)
              | inl high ↦
                  let at : share_price nav supply ≡ ok mark = rw high at e4 in
                  let price : share_price nav (s.supply +ℤ fee) ≡ ok mark =
                    subst (λ z. share_price nav z ≡ ok mark) supply_is at in
                  let before = price_ok nav s.supply e1 in
                  let after = price_ok nav (s.supply +ℤ fee) price in
                  let rise : s.hwm <ℤ now = ground arith in
                  inr (
                    rise,
                    at,
                    elim (fee_if_ok charged nav s.supply now s.hwm fee_bps small e2) [
                      | inl none_due ↦
                          free_price nav s.supply now s.hwm fee mark before after rise none_due
                      | inr c ↦ charged_price nav s.supply now s.hwm fee mark before after rise c
                    ],
                  )
            ];
          })

Marked-le : (s : Shares) (nav : ℤ) (due : Snapshot) → Marked s nav due → s.hwm ≤ℤ due.hwm
Marked-le s nav due m = elim m.marked [ inl (_, kept, _) ↦ ground arith | inr (_, _, up) ↦ up ]

-- Whatever the value is, and for a fee of at most the whole gain, a snapshot never lowers the high-
-- water mark: when the price before any fee is not above the mark, the mark stays and no fee is
-- due; otherwise the new mark is the price at the value given and the supply with the fee's shares
-- counted, which is still at or above the old one.
pub snapshot_mark :
    (s : Shares) (nav : ℤ) (fee_bps : ℕ) {due : Snapshot}
    → fee_bps ≤ 10_000
    → snapshot s nav fee_bps ≡ ok due
    → (s.hwm ≤ℤ due.hwm) × Marked s nav due
snapshot_mark s nav fee_bps {due} small e =
    let m = snapshot-Marked s nav fee_bps small e in (Marked-le s nav due m, m)
