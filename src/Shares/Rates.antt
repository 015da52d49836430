-- ===== src/Shares/Rates.antt =====
-- crates/shares/src/lib.rs: the fee that is due, the mark, and what a round trip is worth.
use stellar_rfq.Prelude.{
  ℕ, ◌+◌, ◌*◌, ◌≤◌, ◌<◌, ◌≡◌, ◌&&◌, inl, inr, true, false, arith, subst, ltb, if◌then◌else◌, Bool,
  Bool-cases,
}
use stellar_rfq.Prelude.Int.{ℤ, pos, pos_part, ◌≤ℤ◌, ltb_ℤ, leb_ℤ}
use stellar_rfq.Prelude.Result.{ok, bind_then}
use stellar_rfq.Prelude.Words.{add_i128, sub_i128}
use stellar_rfq.Math.{one, bps}
use stellar_rfq.Math.Bounds.{RoundsDown, RoundsUp, mul_div-RoundsDown, mul_div_ceil-RoundsUp}
use stellar_rfq.Shares.{Shares, virtual_shares, md, md_up, share_price}
use stellar_rfq.Shares.Fees.{Snapshot, fee_on, snapshot, to_shares, to_assets}

pub md_ok : (a b d : ℤ) {q : ℤ} → md a b d ≡ ok q → RoundsDown a b d q
unfolding md
md_ok a b d e = mul_div-RoundsDown a b d (ground arith)

pub md_up_ok : (a b d : ℤ) {q : ℤ} → md_up a b d ≡ ok q → RoundsUp a b d q
unfolding md_up
md_up_ok a b d e = mul_div_ceil-RoundsUp a b d (ground arith)

fee_nonneg :
    (nav minted now mark : ℤ) (fee_bps : ℕ) {shares : ℤ}
    → fee_on nav minted now mark fee_bps ≡ ok shares
    → pos 0 ≤ℤ shares
unfolding fee_on
fee_nonneg nav minted now mark fee_bps e = bind_then (sub_i128 now mark) _ e λ above e1 r1.
    bind_then (add_i128 minted virtual_shares) _ r1 λ total e2 r2.
      bind_then (md above total one) _ r2 λ gain e3 r3.
        bind_then (md gain (pos fee_bps) bps) _ r3 λ fee e4 r4.
          elim (Bool-cases (ltb_ℤ (pos 0) fee && leb_ℤ fee nav)) [
            | inl some_fee ↦ bind_then (add_i128 nav (pos 1)) _ (rw some_fee at r4) λ assets e5 r5.
                bind_then (sub_i128 assets fee) _ r5 λ rest e6 r6.
                  let rounded = md_ok fee total rest r6 in omega (arith, rounded.q_nonneg)
            | inr no_fee ↦ ground arith
          ]

fee_if :
    (b : Bool) (nav minted now mark : ℤ) (fee_bps : ℕ) {shares : ℤ}
    → (if b then fee_on nav minted now mark fee_bps else ok (pos 0)) ≡ ok shares
    → pos 0 ≤ℤ shares
fee_if true nav minted now mark fee_bps e = fee_nonneg nav minted now mark fee_bps e
fee_if false nav minted now mark fee_bps e = ground arith

pub due_nonneg :
    (s : Shares) (nav : ℤ) (fee_bps : ℕ) {due : Snapshot}
    → snapshot s nav fee_bps ≡ ok due
    → pos 0 ≤ℤ due.fee_shares
unfolding snapshot
due_nonneg s nav fee_bps {due} e = bind_then (share_price nav s.supply) _ e λ now e1 r1.
    let charged = ltb_ℤ s.hwm now && (ltb 0 fee_bps && ltb_ℤ (pos 0) s.supply) in
    bind_then (if charged then fee_on nav s.supply now s.hwm fee_bps else ok (pos 0)) _ r1
      λ fee e2 r2. bind_then (add_i128 s.supply fee) _ r2 λ supply e3 r3.
        bind_then (if ltb_ℤ s.hwm now then share_price nav supply else ok s.hwm) _ r3 λ mark e4 r4.
          let same : fee ≡ due.fee_shares = cc in
          subst (λ z. pos 0 ≤ℤ z) same (fee_if charged nav s.supply now s.hwm fee_bps e2)

-- There and back, rounded down both times, is never more than the start.
back_le : (a s v n b : ℕ) → s * v ≤ a * n → b * n ≤ s * v → 0 < n → b ≤ a
back_le a s v n b p q r = grind arith

-- Rounded up and then down, it is never less.
back_ge : (s a v n b : ℕ) → s * v ≤ a * n → a * n < b * v + v → s ≤ b
back_ge s a v n b p q = grind arith

-- Converting assets to shares and back, both rounded down, never gains when both succeed: who
-- deposits and redeems against the same snapshot gets at most what it put in.
pub to_assets-to_shares :
    (s : Snapshot) (assets shares back : ℤ)
    → to_shares s assets false ≡ ok shares
    → to_assets s shares false ≡ ok back
    → back ≤ℤ assets
unfolding to_shares to_assets
to_assets-to_shares s assets shares back e e' =
    bind_then (add_i128 s.supply virtual_shares) _ e λ n e1 r1.
      bind_then (add_i128 s.nav (pos 1)) _ r1 λ v e2 r2.
        bind_then (add_i128 s.nav (pos 1)) _ e' λ v' e3 r3.
          bind_then (add_i128 s.supply virtual_shares) _ r3 λ n' e4 r4.
            let there = md_ok assets n v r2 in
            let return = md_ok shares v' n' r4 in
            let same_n : n' ≡ n = cc in
            let same_v : v' ≡ v = cc in
            let again =
              subst (λ z. RoundsDown shares v z back) same_n
                (subst (λ z. RoundsDown shares z n' back) same_v return) in
            let less =
              back_le (pos_part assets) (pos_part shares) (pos_part v) (pos_part n) (pos_part back)
                there.below again.below again.d_pos in
            omega (arith, less, there.a_nonneg, again.q_nonneg)

-- Paying for shares rounds up: when both conversions succeed, the assets asked for some shares buy
-- at least those shares back.
pub to_shares-to_assets :
    (s : Snapshot) (shares assets back : ℤ)
    → to_assets s shares true ≡ ok assets
    → to_shares s assets false ≡ ok back
    → shares ≤ℤ back
unfolding to_shares to_assets
to_shares-to_assets s shares assets back e e' = bind_then (add_i128 s.nav (pos 1)) _ e λ v e1 r1.
    bind_then (add_i128 s.supply virtual_shares) _ r1 λ n e2 r2.
      bind_then (add_i128 s.supply virtual_shares) _ e' λ n' e3 r3.
        bind_then (add_i128 s.nav (pos 1)) _ r3 λ v' e4 r4.
          let there = md_up_ok shares v n r2 in
          let return = md_ok assets n' v' r4 in
          let same_n : n' ≡ n = cc in
          let same_v : v' ≡ v = cc in
          let again =
            subst (λ z. RoundsDown assets n z back) same_v
              (subst (λ z. RoundsDown assets z v' back) same_n return) in
          let less =
            back_ge (pos_part shares) (pos_part assets) (pos_part v) (pos_part n) (pos_part back)
              there.below again.above in
          omega (arith, less, there.a_nonneg, again.q_nonneg)
