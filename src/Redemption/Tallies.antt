-- ===== src/Redemption/Tallies.antt =====
-- contracts/redemption_vault/src/lib.rs: what a successful change of the totals leaves.
use stellar_rfq.Prelude.{
  ℕ, ◌+◌, ◌≡◌, refl, sym, ap, ◌∙◌, some, inl, inr, Bool-cases, Option-cases, arith,
}
use stellar_rfq.Prelude.Int.{pos, ◌≤ℤ◌, ℤ, ◌+ℤ◌, ◌-ℤ◌}
use stellar_rfq.Prelude.Maps.{nat_eq, ◌==◌}
use stellar_rfq.Prelude.Result.{ok, bind_then, ok_injective}
use stellar_rfq.Prelude.Words.{
  u32_max, sub_uint, sub_uint_ok, uint, uint_ok, add_i128, sub_i128, i128_ok,
}
use stellar_rfq.Math.Bounds.{RoundsDown, mul_div-RoundsDown}
use stellar_rfq.Redemption.Types.{Error, Status, status_eq, Batch, Totals}
use stellar_rfq.Redemption.Batches.{find}
use stellar_rfq.Redemption.State.{Vault, batch_of, with_status, md}
use stellar_rfq.Redemption.Holders.{tally_request, tally_cancel, tally_claim}
use stellar_rfq.Redemption.Sending.{tally_sent, tally_out}
use stellar_rfq.Redemption.Settling.{tally_settled, tally_reopened}

pub with_status_ok :
    (v : Vault) (id : ℕ) (status : Status) {b : Batch}
    → with_status v id status ≡ ok b
    → (find v.batches id ≡ some b) × (b.status ≡ status)
unfolding with_status batch_of
with_status_ok v id status {b} e = elim (Option-cases (find v.batches id)) [
  | inl missing ↦ absurd (ground arith)
  | inr (c, found) ↦ elim (Bool-cases (c.status == status)) [
    | inl same ↦
        let here : c ≡ b = ok_injective {E = Error} (ground arith) in
        (
          found ∙ ap some here,
          ap (λ (z : Batch). z.status) (sym here) ∙ (status_eq.same_iff c.status status).0 same,
        )
    | inr differ ↦ absurd (ground arith)
  ]
]

pub md_ok : (a b d : ℤ) {q : ℤ} → md a b d ≡ ok q → RoundsDown a b d q
unfolding md
md_ok a b d e = mul_div-RoundsDown a b d (ground arith)

pub md_nonneg : (a b d : ℤ) {q : ℤ} → md a b d ≡ ok q → pos 0 ≤ℤ q
md_nonneg a b d e = let down = md_ok a b d e in omega (arith, down.q_nonneg)

pub sum_ok : (a b : ℤ) {r : ℤ} → add_i128 {E = Error} a b ≡ ok r → r ≡ a +ℤ b
sum_ok a b e = (i128_ok {E = Error} (a +ℤ b) e).0

pub rest_ok : (a b : ℤ) {r : ℤ} → sub_i128 {E = Error} a b ≡ ok r → r ≡ a -ℤ b
rest_ok a b e = (i128_ok {E = Error} (a -ℤ b) e).0

pub tally_request_ok :
    (units : ℤ) (t : Totals) {t' : Totals}
    → tally_request units t ≡ ok t'
    → t' ≡ record t { pooled = t.pooled +ℤ units }
unfolding tally_request
tally_request_ok units t e =
    bind_then (add_i128 t.pooled units) _ e λ p e1 r1.
      sym (ok_injective r1) ∙ ap (λ z. record t { pooled = z }) (sum_ok t.pooled units e1)

pub tally_cancel_ok :
    (units : ℤ) (t : Totals) {t' : Totals}
    → tally_cancel units t ≡ ok t'
    → t' ≡ record t { pooled = t.pooled -ℤ units }
unfolding tally_cancel
tally_cancel_ok units t e =
    bind_then (sub_i128 t.pooled units) _ e λ p e1 r1.
      sym (ok_injective r1) ∙ ap (λ z. record t { pooled = z }) (rest_ok t.pooled units e1)

pub tally_out_ok :
    (units : ℤ) (t : Totals) {t' : Totals}
    → tally_out units t ≡ ok t'
    → t' ≡ record t { pooled = t.pooled -ℤ units }
unfolding tally_out
tally_out_ok units t e =
    bind_then (sub_i128 t.pooled units) _ e λ p e1 r1.
      sym (ok_injective r1) ∙ ap (λ z. record t { pooled = z }) (rest_ok t.pooled units e1)

pub tally_sent_ok :
    (t : Totals) {t' : Totals} → tally_sent t ≡ ok t' → t' ≡ record t { sent = t.sent + 1 }
unfolding tally_sent
tally_sent_ok t e = bind_then (uint u32_max (t.sent + 1)) _ e λ n e1 r1.
    sym (ok_injective r1)
    ∙ ap (λ z. record t { sent = z }) (uint_ok {E = Error} u32_max (t.sent + 1) e1).0

pub tally_claim_ok :
    (assets units : ℤ) (t : Totals) {t' : Totals}
    → tally_claim assets units t ≡ ok t'
    → t' ≡ record t { proceeds = t.proceeds -ℤ assets; rwa = t.rwa -ℤ units }
unfolding tally_claim
tally_claim_ok assets units t {t'} e = bind_then (sub_i128 t.proceeds assets) _ e λ p e1 r1.
    bind_then (sub_i128 t.rwa units) _ r1 λ r e2 r2.
      rw (sym (ok_injective r2), rest_ok t.proceeds assets e1, rest_ok t.rwa units e2) refl

pub tally_settled_ok :
    (proceeds fee unsent : ℤ) (t : Totals) {t' : Totals}
    → tally_settled proceeds fee unsent t ≡ ok t'
    → (n : ℕ) × (n + 1 ≡ t.sent)
      × (t' ≡ record t {
        proceeds = t.proceeds +ℤ (proceeds -ℤ fee);
        rwa = t.rwa +ℤ unsent;
        sent = n;
      })
unfolding tally_settled
tally_settled_ok proceeds fee unsent t {t'} e = bind_then (sub_i128 proceeds fee) _ e λ net e1 r1.
    bind_then (add_i128 t.proceeds net) _ r1 λ p e2 r2.
      bind_then (add_i128 t.rwa unsent) _ r2 λ r e3 r3.
        bind_then (sub_uint t.sent 1) _ r3 λ n e4 r4. (
          n,
          (sub_uint_ok {E = Error} t.sent 1 e4).0,
          rw
              (
                sym (ok_injective r4),
                sum_ok t.proceeds net e2,
                rest_ok proceeds fee e1,
                sum_ok t.rwa unsent e3,
              )
              refl,
        )

pub tally_reopened_ok :
    (units : ℤ) (t : Totals) {t' : Totals}
    → tally_reopened units t ≡ ok t'
    → (n : ℕ) × (n + 1 ≡ t.sent) × (t' ≡ record t { pooled = t.pooled +ℤ units; sent = n })
unfolding tally_reopened
tally_reopened_ok units t e = bind_then (add_i128 t.pooled units) _ e λ p e1 r1.
    bind_then (sub_uint t.sent 1) _ r1 λ n e2 r2. (
      n,
      (sub_uint_ok {E = Error} t.sent 1 e2).0,
      rw (sym (ok_injective r2), sum_ok t.pooled units e1) refl,
    )
