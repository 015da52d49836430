-- ===== src/Redemption/Leaving.antt =====
-- contracts/redemption_vault/src/lib.rs: sending a batch to the issuer is a step of the machine.
use stellar_rfq.Prelude.{
  ◌⊎◌, ℕ, ◌+◌, ◌≡◌, refl, sym, ap, Option, none, some, inl, inr, Bool-cases, Option-cases, arith,
  List, [], ◌∷◌, not,
}
use stellar_rfq.Prelude.Int.{ℤ, pos, ltb_ℤ, leb_ℤ, eqb_ℤ, ◌<ℤ◌}
use stellar_rfq.Prelude.Maps.{update, nat_eq, ◌==◌, ◌!=◌}
use stellar_rfq.Prelude.Result.{ok, fail_if, or_trap, bind_then, ok_injective, or_err_ok}
use stellar_rfq.Prelude.Words.{add_i128}
use stellar_rfq.Types.{Address}
use stellar_rfq.Host.{Host, require_auth}
use stellar_rfq.Redemption.Types.{
  invalid_amount, wrong_status, status_eq, auto, manual, «open», sent, Batch, Call, Settings,
  not_allowed, no_free_account, rwa_moved,
}
use stellar_rfq.Redemption.Batches.{find, store}
use stellar_rfq.Redemption.Outside.{Outside}
use stellar_rfq.Redemption.State.{
  Vault, init, roles, batch_of, with_status, in_mode, put_batch, send, nav,
}
use stellar_rfq.Redemption.Calls.{free_account, first_free, send_from}
use stellar_rfq.Redemption.Sending.{
  tally_sent, tally_out, strike_of, close, account_of, mark_sent, resend, send_batch, redeem_batch,
  contains, withdraw_batch,
}
use stellar_rfq.Redemption.Tallies.{with_status_ok, tally_out_ok, tally_sent_ok}
use stellar_rfq.Redemption.Machine.{
  Books, books, without, Step, sending, resending, leaves_from, leaves_by_hand, resends,
}

close-without : (o : Option ℕ) (id : ℕ) → close o id ≡ without o id
unfolding close without
close-without none id = refl
close-without (some k) id = refl

pub first_free_ok :
    (busy : Address → Option ℕ) (l : List Address) {a : Address}
    → first_free busy l ≡ some a
    → busy a ≡ none
unfolding first_free
first_free_ok busy [] e = absurd (cc)
first_free_ok busy (a ∷ l) e = elim (Option-cases (busy a)) [
  | inl idle ↦ ground arith
  | inr (id, used) ↦ first_free_ok busy l (ground arith)
]

free_account-none : (v : Vault) {a : Address} → free_account v ≡ ok a → v.busy a ≡ none
unfolding free_account
free_account-none v e = first_free_ok v.busy v.accounts (or_err_ok _ no_free_account e)

opened : (b : Batch) → fail_if (b.status != «open») wrong_status ≡ ok tt → b.status ≡ «open»
opened b e = (status_eq.same_iff b.status «open»).0 (ground arith)

module _ {T : Type 0} (h : Host T) (o : Outside T) where
  -- The books after a batch is marked as sent.
  abbrev gone : Books → ℕ → Batch → ℤ → ℤ → Books
  gone k id b start strike = record k {
    batches =
        store k.batches id
          (record b { nav_start = start; strike = strike; status = sent; sent_at = h.timestamp });
    totals = record k.totals { sent = k.totals.sent + 1 };
    open_entry = without k.open_entry id;
  }

  mark_sent_ok :
      (v : Vault) (x : T) (id : ℕ) (b : Batch) (s : Settings) {v' : Vault} {x' : T}
      → mark_sent h o v x id b s ≡ ok (v', x')
      → (start : ℤ) × (strike : ℤ) × (pos 0 <ℤ b.units)
        × (books v' ≡ gone (books v) id b start strike)
  unfolding mark_sent books put_batch
  mark_sent_ok v x id b s {v'} e =
      bind_then (fail_if (leb_ℤ b.units (pos 0)) invalid_amount) _ e λ _ e1 r1.
        bind_then (nav h v x s) _ r1 λ start e2 r2.
          bind_then (strike_of s b.strike start) _ r2 λ strike e3 r3.
            bind_then (tally_sent v.totals) _ r3 λ t e4 r4.
              let end = ap (λ (w : Vault × T). w.0) (sym (ok_injective r4)) in
              (
                start,
                strike,
                ground arith,
                rw (end, tally_sent_ok v.totals e4, close-without v.open_entry id) refl,
              )

  pub resend-Step :
      (v : Vault) (x : T) (id : ℕ) (b : Batch) (spender : Option Address) (calls : List Call)
      {v' : Vault} {x' : T}
      → find v.batches id ≡ some b
      → b.status ≡ sent
      → resend h o v x id b spender calls ≡ ok (v', x')
      → Step (books v) (resending id) (books v')
  unfolding resend books put_batch
  resend-Step v x id b spender calls {v'} found is_sent e =
      bind_then (fail_if (eqb_ℤ b.unsent (pos 0)) invalid_amount) _ e λ _ _ r1.
        bind_then (account_of b) _ r1 λ account e2 r2.
          bind_then (send_from h o v x account b.unsent spender calls) _ r2 λ x1 e3 r3.
            let end = ap (λ (w : Vault × T). w.0) (sym (ok_injective r3)) in
            rw end (resends id b found is_sent)

  send_batch-Step :
      (v : Vault) (x : T) (id : ℕ) (b : Batch) (spender : Option Address) (calls : List Call)
      {v' : Vault} {x' : T}
      → find v.batches id ≡ some b
      → send_batch h o v x id b spender calls ≡ ok (v', x')
      → Step (books v) (sending id) (books v')
  unfolding send_batch books
  send_batch-Step v x id b spender calls {v'} found e =
      bind_then (fail_if (b.status != «open») wrong_status) _ e λ _ e1 r1.
        bind_then (in_mode v auto) _ r1 λ s e2 r2. bind_then (free_account v) _ r2 λ account e3 r3.
          bind_then (init v) _ r3 λ i e4 r4.
            bind_then (or_trap (h.transfer x i.rwa h.me account b.units)) _ r4 λ x1 e5 r5.
              bind_then (send_from h o v x1 account b.units spender calls) _ r5 λ x2 e6 r6.
                bind_then (tally_out b.units v.totals) _ r6 λ t e7 r7.
                  bind_then (or_trap (h.balance x2 i.rwa h.me)) _ r7 λ held e8 r8.
                    bind_then (add_i128 t.pooled t.rwa) _ r8 λ owed e9 r9.
                      bind_then (fail_if (ltb_ℤ held owed) rwa_moved) _ r9 λ _ e10 r10.
                        let v1 = record v { busy = update v.busy account (some id); totals = t } in
                        let (start, strike, some_units, moved) =
                          mark_sent_ok v1 x2 id (record b { account = some account }) s r10 in
                        rw (moved, tally_out_ok b.units v.totals e7)
                          (leaves_from id b account start strike h.timestamp found (opened b e1)
                            some_units (free_account-none v e3))

  pub redeem-Step :
      (v : Vault) (x : T) (id : ℕ) (spender : Option Address) (calls : List Call) {v' : Vault}
      {x' : T}
      → redeem_batch h o (v, x) id spender calls ≡ ok (v', x')
      → Step (books v) (sending id) (books v') ⊎ Step (books v) (resending id) (books v')
  unfolding redeem_batch batch_of
  redeem-Step v x id spender calls e = bind_then (roles v) _ e λ r e1 r1.
      bind_then (require_auth h r.settler) _ r1 λ _ _ r2. bind_then (batch_of v id) _ r2 λ b e3 r3.
        let found = or_err_ok (find v.batches id) wrong_status e3 in
        elim (Bool-cases (b.status == sent)) [
          | inl same ↦ inr (
              resend-Step v x id b spender calls found ((status_eq.same_iff b.status sent).0 same)
                (rw same at r3))
          | inr differ ↦ inl (send_batch-Step v x id b spender calls found (rw differ at r3))
        ]

  pub withdraw-Step :
      (v : Vault) (x : T) (id : ℕ) (to : Address) {v' : Vault} {x' : T}
      → withdraw_batch h o (v, x) id to ≡ ok (v', x')
      → Step (books v) (sending id) (books v')
  unfolding withdraw_batch books
  withdraw-Step v x id to e = bind_then (roles v) _ e λ r e1 r1.
      bind_then (require_auth h r.operator) _ r1 λ _ _ r2.
        bind_then (in_mode v manual) _ r2 λ s e3 r3.
          bind_then (fail_if (not (contains s.destinations to)) not_allowed) _ r3 λ _ _ r4.
            bind_then (with_status v id «open») _ r4 λ b e5 r5. bind_then (init v) _ r5 λ i e6 r6.
              bind_then (send h x i.rwa to b.units) _ r6 λ x1 e7 r7.
                bind_then (tally_out b.units v.totals) _ r7 λ t e8 r8.
                  let (found, is_open) = with_status_ok v id «open» e5 in
                  let (start, strike, some_units, moved) =
                    mark_sent_ok (record v { totals = t }) x1 id b s r8 in
                  rw (moved, tally_out_ok b.units v.totals e8)
                    (leaves_by_hand id b start strike h.timestamp found is_open some_units)
