-- ===== src/Redemption/Returning.antt =====
-- contracts/redemption_vault/src/lib.rs: a batch coming back from the issuer is a step of the machine.
use stellar_rfq.Prelude.{
  ℕ, ◌+◌, ◌≡◌, refl, sym, ap, subst, Option, none, some, inl, inr, Bool-cases, arith, ◌||◌, List,
  ◌⊎◌, not,
}
use stellar_rfq.Prelude.Int.{ℤ, pos, ltb_ℤ, leb_ℤ, eqb_ℤ, ◌+ℤ◌, ◌-ℤ◌, ◌≤ℤ◌, ◌<ℤ◌}
use stellar_rfq.Prelude.Maps.{update, nat_eq}
use stellar_rfq.Prelude.Result.{ok, fail_if, or_trap, bind_then, ok_injective, or_err_ok}
use stellar_rfq.Prelude.Words.{add_i128, sub_i128}
use stellar_rfq.Math.{bps, one}
use stellar_rfq.Types.{Address}
use stellar_rfq.Host.{Host, require_auth}
use stellar_rfq.Redemption.Types.{
  invalid_amount, wrong_mode, status_eq, sent, settled, Batch, Call, no_price, rwa_moved,
  proceeds_too_low,
}
use stellar_rfq.Redemption.Batches.{find, store}
use stellar_rfq.Redemption.Outside.{Outside}
use stellar_rfq.Redemption.State.{
  Vault, init, roles, settings, with_status, put_batch, md, md_up_twice, nav,
}
use stellar_rfq.Redemption.Calls.{run_calls}
use stellar_rfq.Redemption.Sending.{account_of}
use stellar_rfq.Redemption.Settling.{
  fee_paid, take_back, tally_settled, tally_reopened, is_account, floor_price, paid_back, finish,
  settle, reopen, open_again, settle_manual,
}
use stellar_rfq.Redemption.Tallies.{
  with_status_ok, tally_settled_ok, tally_reopened_ok, sum_ok, rest_ok,
}
use stellar_rfq.Redemption.Machine.{
  Books, books, freed, Step, settling, reopening, returning, hands_back, reopens, settles,
}

account_of_ok : (b : Batch) {a : Address} → account_of b ≡ ok a → b.account ≡ some a
unfolding account_of
account_of_ok b e = or_err_ok b.account wrong_mode e

by_hand :
    (v : Vault) (b : Batch)
    → fail_if (is_account b.account) wrong_mode ≡ ok tt
    → freed v.busy b.account ≡ v.busy
unfolding freed is_account
by_hand v b e = ground arith

module _ {T : Type 0} (h : Host T) (o : Outside T) where
  -- The batch after it is settled.
  abbrev settled_as : Batch → ℤ → ℤ → ℤ → Batch
  settled_as b proceeds fee nav = record b {
    status = settled;
    proceeds = proceeds;
    fee = fee;
    remaining = proceeds -ℤ fee;
    nav_end = nav;
    settled_at = h.timestamp;
  }

  -- The books after a batch is settled.
  abbrev finished : Books → ℕ → Batch → ℤ → ℤ → ℤ → ℕ → Books
  finished k id b proceeds fee nav n = record k {
    batches = store k.batches id (settled_as b proceeds fee nav);
    totals = record k.totals {
      proceeds = k.totals.proceeds +ℤ (proceeds -ℤ fee);
      rwa = k.totals.rwa +ℤ b.unsent;
      sent = n;
    };
  }

  finish_ok :
      (v : Vault) (x : T) (id : ℕ) (b : Batch) (proceeds : ℤ) {v' : Vault} {x' : T}
      → finish h o v x id b proceeds ≡ ok (v', x')
      → (fee : ℤ) × (nav : ℤ) × (n : ℕ) × (n + 1 ≡ v.totals.sent)
        × (books v' ≡ finished (books v) id b proceeds fee nav n)
  unfolding finish books put_batch
  finish_ok v x id b proceeds {v'} e = bind_then (settings v) _ e λ s e1 r1.
      bind_then (md proceeds (pos s.fee_bps) bps) _ r1 λ fee e2 r2.
        bind_then (tally_settled proceeds fee b.unsent v.totals) _ r2 λ t e3 r3.
          bind_then (sub_i128 proceeds fee) _ r3 λ net e4 r4.
            bind_then (nav h v x s) _ r4 λ nav_end e5 r5.
              bind_then (fee_paid h o s v x fee) _ r5 λ x1 e6 r6.
                let end = ap (λ (w : Vault × T). w.0) (sym (ok_injective r6)) in
                let (n, some_sent, t_is) = tally_settled_ok proceeds fee b.unsent v.totals e3 in
                (fee, nav_end, n, some_sent, rw (end, t_is, rest_ok proceeds fee e4) refl)

  settled_Step :
      (k : Books) (id : ℕ) (b : Batch) (proceeds fee unsent nav : ℤ) (n : ℕ)
      (busy : Address → Option ℕ)
      → (find k.batches id ≡ some b) × (b.status ≡ sent)
      → (unsent ≡ b.unsent) ⊎ ((pos 0 ≤ℤ unsent) × (unsent ≤ℤ b.units))
      → busy ≡ freed k.busy b.account
      → n + 1 ≡ k.totals.sent
      → Step k
          (settling id)
          (finished (record k { busy = busy }) id (record b { unsent = unsent }) proceeds fee nav n)
  settled_Step k id b proceeds fee unsent nav n busy (found, is_sent) bound at some_sent =
      subst
        (λ z.
          Step k (settling id)
            (finished (record k { busy = z }) id (record b { unsent = unsent }) proceeds fee nav n))
        (sym at) (settles id b proceeds fee unsent nav h.timestamp n found is_sent bound some_sent)

  freed_Step :
      (v : Vault) (x : T) (id : ℕ) (b : Batch) (account : Address) (proceeds : ℤ) {v' : Vault}
      {x' : T}
      → (find v.batches id ≡ some b) × (b.status ≡ sent)
      → b.account ≡ some account
      → finish h o (record v { busy = update v.busy account none }) x id b proceeds ≡ ok (v', x')
      → Step (books v) (settling id) (books v')
  unfolding books freed
  freed_Step v x id b account proceeds {v'} got at e =
      let v1 = record v { busy = update v.busy account none } in
      let (fee, nav_end, n, some_sent, moved) = finish_ok v1 x id b proceeds e in
      let own : update v.busy account none ≡ freed v.busy b.account = rw at refl in
      subst (Step (books v) (settling id)) (sym moved) (
        settled_Step (books v) id b proceeds fee b.unsent nav_end n (update v.busy account none) got
          (inl refl) own some_sent)

  pub settle-Step :
      (v : Vault) (x : T) (id : ℕ) (calls : List Call) (min_proceeds : ℤ) {v' : Vault} {x' : T}
      → settle h o (v, x) id calls min_proceeds ≡ ok (v', x')
      → Step (books v) (settling id) (books v')
  unfolding settle books freed
  settle-Step v x id calls min_proceeds {v'} e = bind_then (roles v) _ e λ r e1 r1.
      bind_then (require_auth h r.settler) _ r1 λ _ _ r2.
        bind_then (with_status v id sent) _ r2 λ b e3 r3.
          bind_then (account_of b) _ r3 λ account e4 r4. bind_then (init v) _ r4 λ i e5 r5.
            bind_then (or_trap (h.balance x i.rwa h.me)) _ r5 λ held _ r6.
              bind_then (add_i128 held b.unsent) _ r6 λ rwa_before _ r7.
                bind_then (or_trap (h.balance x i.stable h.me)) _ r7 λ stable_before _ r8.
                  bind_then (run_calls h o v x account calls) _ r8 λ x1 _ r9.
                    bind_then (or_trap (o.sweep x1 account i.stable h.me)) _ r9 λ x2 _ r10.
                      bind_then (take_back h o x2 account i.rwa b.unsent) _ r10 λ x3 _ r11.
                        bind_then (or_trap (h.balance x3 i.rwa h.me)) _ r11 λ after _ r12.
                          bind_then (fail_if (not (eqb_ℤ after rwa_before)) rwa_moved) _ r12
                            λ _ _ r13.
                              bind_then (or_trap (h.balance x3 i.stable h.me)) _ r13
                                λ stable_after _ r14.
                                  bind_then (sub_i128 stable_after stable_before) _ r14
                                    λ proceeds _ r15.
                                      bind_then
                                        (fail_if (ltb_ℤ proceeds min_proceeds) proceeds_too_low) _
                                        r15
                                        λ _ _ r16.
                                          freed_Step v x3 id b account proceeds
                                            (with_status_ok v id sent e3) (account_of_ok b e4) r16

  open_again_ok :
      (v : Vault) (x : T) (id : ℕ) (b : Batch) (account : Address) {v' : Vault} {x' : T}
      → (find v.batches id ≡ some b) × (b.status ≡ sent)
      → b.account ≡ some account
      → open_again h o v x id b account ≡ ok (v', x')
      → Step (books v) (reopening id) (books v')
  unfolding open_again books put_batch
  open_again_ok v x id b account {v'} (found, is_sent) at e = bind_then (init v) _ e λ i e1 r1.
      bind_then (or_trap (o.sweep x account i.rwa h.me)) _ r1 λ x1 e2 r2.
        bind_then (tally_reopened b.units v.totals) _ r2 λ t e3 r3.
          let end = ap (λ (w : Vault × T). w.0) (sym (ok_injective r3)) in
          let (n, some_sent, t_is) = tally_reopened_ok b.units v.totals e3 in
          rw (end, t_is) (reopens id b account n found is_sent at some_sent)

  pub reopen-Step :
      (v : Vault) (x : T) (id : ℕ) (calls : List Call) (returned : ℤ) {v' : Vault} {x' : T}
      → reopen h o (v, x) id calls returned ≡ ok (v', x')
      → Step (books v) (reopening id) (books v') ⊎ Step (books v) (returning id returned) (books v')
  unfolding reopen books put_batch
  reopen-Step v x id calls returned {v'} e = bind_then (roles v) _ e λ r e1 r1.
      bind_then (require_auth h r.settler) _ r1 λ _ _ r2.
        bind_then (with_status v id sent) _ r2 λ b e3 r3.
          bind_then (account_of b) _ r3 λ account e4 r4.
            bind_then (add_i128 b.unsent returned) _ r4 λ unsent e5 r5.
              bind_then (fail_if (leb_ℤ returned (pos 0) || ltb_ℤ b.units unsent) invalid_amount) _
                r5
                λ _ e6 r6. bind_then (run_calls h o v x account calls) _ r6 λ x1 _ r7.
                  bind_then (init v) _ r7 λ i _ r8.
                    bind_then (or_trap (h.balance x1 i.rwa account)) _ r8 λ held _ r9.
                      bind_then (fail_if (ltb_ℤ held unsent) invalid_amount) _ r9 λ _ _ r10.
                        let got = with_status_ok v id sent e3 in
                        elim (Bool-cases (eqb_ℤ unsent b.units)) [
                          | inl all ↦ inl (
                              open_again_ok v x1 id b account got (account_of_ok b e4)
                                (rw all at r10))
                          | inr part ↦
                              let end =
                                ap (λ (w : Vault × T). w.0) (sym (ok_injective (rw part at r10))) in
                              let positive : pos 0 <ℤ returned = ground arith in
                              let within : unsent ≤ℤ b.units = ground arith in
                              let is = sum_ok b.unsent returned e5 in
                              inr (
                                rw (end, is)
                                  (hands_back id b returned got.0 got.1 positive (rw is at within)))
                        ]

  pub settle_manual-Step :
      (v : Vault) (x : T) (id : ℕ) (proceeds returned : ℤ) {v' : Vault} {x' : T}
      → settle_manual h o (v, x) id proceeds returned ≡ ok (v', x')
      → Step (books v) (settling id) (books v')
  unfolding settle_manual books freed
  settle_manual-Step v x id proceeds returned {v'} e = bind_then (roles v) _ e λ r e1 r1.
      bind_then (require_auth h r.operator) _ r1 λ _ _ r2.
        bind_then (with_status v id sent) _ r2 λ b e3 r3.
          bind_then (fail_if (is_account b.account) wrong_mode) _ r3 λ _ e4 r4.
            bind_then
              (fail_if (ltb_ℤ proceeds (pos 0) || ltb_ℤ returned (pos 0) || ltb_ℤ b.units returned)
                invalid_amount)
              _ r4
              λ _ e5 r5. bind_then (settings v) _ r5 λ s _ r6.
                bind_then (floor_price h o v x s b.strike) _ r6 λ price _ r7.
                  bind_then (fail_if (eqb_ℤ price (pos 0)) no_price) _ r7 λ _ _ r8.
                    bind_then (sub_i128 b.units returned) _ r8 λ redeemed _ r9.
                      bind_then (sub_i128 bps (pos s.floor_bps)) _ r9 λ share _ r10.
                        bind_then (md_up_twice redeemed price one share bps) _ r10 λ floor _ r11.
                          bind_then (fail_if (ltb_ℤ proceeds floor) proceeds_too_low) _ r11
                            λ _ _ r12. bind_then (init v) _ r12 λ i _ r13.
                              bind_then (or_trap (h.transfer x i.stable r.operator h.me proceeds)) _
                                r13
                                λ x1 _ r14.
                                  bind_then (paid_back h o x1 i.rwa r.operator returned) _ r14
                                    λ x2 _ r15.
                                      let (fee, nav_end, n, some_sent, moved) =
                                        finish_ok v x2 id (record b { unsent = returned }) proceeds
                                          r15 in
                                      subst (Step (books v) (settling id)) (sym moved) (
                                        settled_Step (books v) id b proceeds fee returned nav_end n
                                          v.busy (with_status_ok v id sent e3)
                                          (inr (ground arith, ground arith)) (sym (by_hand v b e4))
                                          some_sent)
