-- ===== src/Redemption/Floor.antt =====
-- contracts/redemption_vault/src/lib.rs: what the operator must pay in for a batch.
use stellar_rfq.Prelude.{
  ℕ, ◌-◌, ◌*◌, ◌≤◌, ◌≡◌, ◌≢◌, sym, ap, none, some, ◌⊎◌, inl, inr, Bool-cases, arith, ◌||◌,
}
use stellar_rfq.Prelude.Int.{ℤ, pos, pos_part, neg_part, ltb_ℤ, eqb_ℤ, ◌-ℤ◌, ◌≤ℤ◌, ◌<ℤ◌, -ℤ_parts}
use stellar_rfq.Prelude.Maps.{nat_eq}
use stellar_rfq.Prelude.Result.{ok, fail_if, bind_then, ok_injective, or_trap_ok}
use stellar_rfq.Prelude.Words.{sub_i128}
use stellar_rfq.Math
use stellar_rfq.Math.{bps, one}
use stellar_rfq.Math.Bounds.{RoundsUp, mul_div_ceil-RoundsUp}
use stellar_rfq.Host.{Host, require_auth}
use stellar_rfq.Redemption.Types.{
  Error, invalid_amount, wrong_mode, no_price, proceeds_too_low, sent, Settings, Batch, status_eq,
}
use stellar_rfq.Redemption.Batches.{find}
use stellar_rfq.Redemption.Outside.{Outside}
use stellar_rfq.Redemption.State.{Vault, roles, settings, with_status, md_up_twice, nav}
use stellar_rfq.Redemption.Settling.{settle_manual, is_account, floor_price}
use stellar_rfq.Redemption.Tallies.{with_status_ok, rest_ok}

md_up_twice_ok :
    (a b d c e : ℤ) {q : ℤ}
    → md_up_twice a b d c e ≡ ok q
    → (w : ℤ) × RoundsUp a b d w × RoundsUp w c e q
unfolding md_up_twice
md_up_twice_ok a b d c e h =
    bind_then (Math.mul_div_ceil a b d) (λ w. Math.mul_div_ceil w c e) (ground arith)
      λ w e1 r1. (w, mul_div_ceil-RoundsUp a b d e1, mul_div_ceil-RoundsUp w c e r1)

mono : (a b c : ℕ) → a ≤ b → a * c ≤ b * c
mono a b c h = grind arith

swap : (a b c : ℕ) → a * b * c ≡ a * c * b
swap a b c = grind arith

-- Two bounds in a row, over a common scale.
chain : (a b c w f q d e : ℕ) → a * b ≤ w * d → w * c ≤ f * e → f ≤ q → a * b * c ≤ q * e * d
chain a b c w f q d e first second third = omega (
  arith,
  mono (a * b) (w * d) c first,
  swap w d c,
  mono (w * c) (f * e) d second,
  mono (f * e) (q * e) d (mono f q e third),
)

share_parts :
    (share : ℤ) (f : ℕ) → share ≡ bps -ℤ pos f → neg_part share ≡ 0 → pos_part share ≡ 10_000 - f
share_parts share f is nonneg =
    omega (arith, ap pos_part is, ap neg_part is, -ℤ_parts bps (pos f), nonneg)

none_account : (b : Batch) → fail_if (is_account b.account) wrong_mode ≡ ok tt → b.account ≡ none
unfolding is_account
none_account b e = ground arith

module _ {T : Type 0} (h : Host T) (o : Outside T) where
  -- A settlement by hand paid at least the floor: on the units that were redeemed, at the price,
  -- less `floor_bps`.
  pub record AtFloor (v : Vault) (x : T) (id : ℕ) (proceeds returned : ℤ) : Type 0 where
    pub b : Batch
    pub s : Settings
    pub price : ℤ
    pub found : find v.batches id ≡ some b
    pub is_sent : b.status ≡ sent
    pub by_hand : b.account ≡ none
    pub in_force : v.settings_entry ≡ some s
    -- The strike, or the NAV now.
    pub priced :
        ((b.strike ≢ pos 0) × (price ≡ b.strike)) ⊎ ((b.strike ≡ pos 0) × (nav h v x s ≡ ok price))
    pub some_price : pos 0 <ℤ price
    pub part : (pos 0 ≤ℤ returned) × (returned ≤ℤ b.units)
    pub reached :
        pos_part (b.units -ℤ returned) * pos_part price * (10_000 - s.floor_bps)
        ≤ pos_part proceeds * 10_000 * 1_000_000_000_000_000_000

  price_ok :
      (v : Vault) (x : T) (s : Settings) (strike : ℤ) {price : ℤ}
      → floor_price h o v x s strike ≡ ok price
      → ((strike ≢ pos 0) × (price ≡ strike)) ⊎ ((strike ≡ pos 0) × (nav h v x s ≡ ok price))
  unfolding floor_price
  price_ok v x s strike e = elim (Bool-cases (eqb_ℤ strike (pos 0))) [
    | inl zero_strike ↦ inr (ground arith, rw (zero_strike, floor_price) at e)
    | inr struck ↦
        inl (λ p. absurd (ground arith), sym (ok_injective (rw (struck, floor_price) at e)))
  ]

  -- A successful `settle_manual` was for a batch that left by hand and is still out, with a price
  -- that is its strike or, without one, a positive NAV reading; at the oracle's scale the proceeds
  -- are worth at least the units not returned at that price, less `floor_bps`.
  pub settle_manual_floor :
      (v : Vault) (x : T) (id : ℕ) (proceeds returned : ℤ) {v' : Vault} {x' : T}
      → settle_manual h o (v, x) id proceeds returned ≡ ok (v', x')
      → AtFloor v x id proceeds returned
  unfolding settle_manual settings
  settle_manual_floor v x id proceeds returned e = bind_then (roles v) _ e λ r e1 r1.
      bind_then (require_auth h r.operator) _ r1 λ _ _ r2.
        bind_then (with_status v id sent) _ r2 λ b e3 r3.
          bind_then (fail_if (is_account b.account) wrong_mode) _ r3 λ _ e4 r4.
            bind_then
              (fail_if (ltb_ℤ proceeds (pos 0) || ltb_ℤ returned (pos 0) || ltb_ℤ b.units returned)
                invalid_amount)
              _ r4
              λ _ e5 r5. bind_then (settings v) _ r5 λ s e6 r6.
                bind_then (floor_price h o v x s b.strike) _ r6 λ price e7 r7.
                  bind_then (fail_if (eqb_ℤ price (pos 0)) no_price) _ r7 λ _ e8 r8.
                    bind_then (sub_i128 b.units returned) _ r8 λ redeemed e9 r9.
                      bind_then (sub_i128 bps (pos s.floor_bps)) _ r9 λ share e10 r10.
                        bind_then (md_up_twice redeemed price one share bps) _ r10 λ floor e11 r11.
                          bind_then (fail_if (ltb_ℤ proceeds floor) proceeds_too_low) _ r11
                            λ _ e12 r12.
                              let (found, is_sent) = with_status_ok v id sent e3 in
                              let (w, up, up') = md_up_twice_ok redeemed price one share bps e11 in
                              let redeemed_is = rest_ok b.units returned e9 in
                              let share_is = rest_ok bps (pos s.floor_bps) e10 in
                              let share_part : pos_part share ≡ 10_000 - s.floor_bps =
                                share_parts share s.floor_bps share_is up'.b_nonneg in
                              let least : pos_part floor ≤ pos_part proceeds = ground arith in
                              let all =
                                chain (pos_part redeemed) (pos_part price) (pos_part share)
                                  (pos_part w) (pos_part floor) (pos_part proceeds) (pos_part one)
                                  (pos_part bps) up.below up'.below least in
                              record {
                                b = b;
                                s = s;
                                price = price;
                                found = found;
                                is_sent = is_sent;
                                by_hand = none_account b e4;
                                in_force = or_trap_ok {E = Error} v.settings_entry e6;
                                priced = price_ok v x s b.strike e7;
                                some_price = let p = up.b_nonneg in ground arith;
                                part = (ground arith, ground arith);
                                reached = rw (sym redeemed_is, sym share_part) all;
                              }
