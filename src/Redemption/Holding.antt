-- ===== src/Redemption/Holding.antt =====
-- contracts/redemption_vault/src/lib.rs: what holders do is a step of the machine.
use stellar_rfq.Prelude.{
  ℕ, ◌+◌, ◌≡◌, sym, ap, subst, none, some, inl, inr, Option-cases, arith, ◌||◌, ◌⊎◌,
}
use stellar_rfq.Prelude.Int.{ℤ, pos, ltb_ℤ, leb_ℤ, ◌+ℤ◌, ◌-ℤ◌, ◌<ℤ◌}
use stellar_rfq.Prelude.Maps.{nat_eq, ◌==◌}
use stellar_rfq.Prelude.Result.{ok, fail_if, or_trap, bind_then, ok_injective}
use stellar_rfq.Prelude.Words.{uint, u64_max, uint_ok, add_i128, sub_i128, i128_ok}
use stellar_rfq.Types.{Address}
use stellar_rfq.Host.{Host, require_auth}
use stellar_rfq.Redemption.Types.{
  Error, invalid_amount, status_eq, «open», settled, Batch, new_batch,
}
use stellar_rfq.Redemption.Batches.{find, store}
use stellar_rfq.Redemption.Outside.{Outside}
use stellar_rfq.Redemption.State.{Vault, init, batch_of, with_status, put_batch, md, send}
use stellar_rfq.Redemption.Holders.{
  open_batch, deploy_ct, request_redeem, cancel, claim, tally_request, tally_cancel, tally_claim,
}
use stellar_rfq.Redemption.Tallies.{
  with_status_ok, tally_request_ok, tally_cancel_ok, tally_claim_ok, md_nonneg,
}
use stellar_rfq.Redemption.Machine.{
  Books, books, Step, joining, leaving, claiming, joins, opens, leaves, claims,
}

module _ {T : Type 0} (h : Host T) (o : Outside T) where
  abbrev Opened : (v v1 : Vault) (id : ℕ) (b : Batch) → Type 0
  Opened v v1 id b =
      (v.open_entry ≡ none)
      × (v.next_entry ≡ some id)
      × (b ≡ new_batch b.ct)
      × (books v1 ≡ record (books v) { next_entry = some (id + 1); open_entry = some id })

  open_batch_ok :
      (v : Vault) (x : T) {id : ℕ} {b : Batch} {v1 : Vault} {x1 : T}
      → open_batch h o v x ≡ ok ((id, b), (v1, x1))
      → ((v.open_entry ≡ some id) × (find v.batches id ≡ some b) × (v1 ≡ v)) ⊎ Opened v v1 id b
  unfolding open_batch batch_of uint books
  open_batch_ok v x e = elim (Option-cases v.open_entry) [
    | inl none_open ↦ elim (Option-cases v.next_entry) [
      | inl missing ↦ absurd (ground arith)
      | inr (id, next) ↦ bind_then (uint u64_max (id + 1)) _ (rw (none_open, next) at e) λ n e1 r1.
          bind_then (deploy_ct h o (record v { next_entry = some n; open_entry = some id }) x id) _
            r1
            λ made e2 r2.
              let is = (uint_ok {E = Error} u64_max (id + 1) e1).0 in
              let same = ok_injective r2 in ground arith
    ]
    | inr (id, is_open) ↦ elim (Option-cases (find v.batches id)) [
      | inl missing ↦ absurd (ground arith)
      | inr (b, found) ↦ ground arith
    ]
  ]

  -- The books after `units` join a batch.
  abbrev joined : Books → ℕ → Batch → ℤ → Books
  joined k id b units = record k {
    batches = store k.batches id (record b { units = b.units +ℤ units });
    totals = record k.totals { pooled = k.totals.pooled +ℤ units };
  }

  pub request-Step :
      (v : Vault) (x : T) (owner : Address) (units : ℤ) (controller : Address) {id : ℕ} {v' : Vault}
      {x' : T}
      → request_redeem h o (v, x) owner units controller ≡ ok (id, (v', x'))
      → Step (books v) (joining units) (books v')
  unfolding request_redeem books put_batch
  request-Step v x owner units controller {v'} e = bind_then (require_auth h owner) _ e λ _ _ r1.
      bind_then (fail_if v.is_paused _) _ r1 λ _ _ r2.
        bind_then (fail_if (leb_ℤ units (pos 0) || controller == h.me) invalid_amount) _ r2
          λ u e3 r3. bind_then (init v) _ r3 λ i e4 r4.
            bind_then (or_trap (h.transfer x i.rwa owner h.me units)) _ r4 λ x1 e5 r5.
              bind_then (open_batch h o v x1) _ r5 λ z e6 r6.
                let ((id, b), (v1, x2)) = z in
                bind_then (add_i128 b.units units) _ r6 λ total e7 r7.
                  bind_then (tally_request units v1.totals) _ r7 λ t e8 r8.
                    bind_then (or_trap (o.mint x2 b.ct controller units)) _ r8 λ x3 e9 r9.
                      let end = ap (λ (w : ℕ × (Vault × T)). w.1.0) (sym (ok_injective r9)) in
                      let total_is = (i128_ok {E = Error} (b.units +ℤ units) e7).0 in
                      let t_is = tally_request_ok units v1.totals e8 in
                      let positive : pos 0 <ℤ units = ground arith in
                      let grown : Books = record (books v) {
                        next_entry = some (id + 1);
                        open_entry = some id;
                      } in
                      rw (end, total_is, t_is)
                        (elim (open_batch_ok v x1 e6) [
                          | inl (is_open, found, same) ↦
                              rw same (joins id b units is_open found positive)
                          | inr (none_open, next, fresh, moved) ↦
                              subst (λ k. Step (books v) (joining units) (joined k id b units))
                                (sym moved)
                                (subst
                                  (λ c. Step (books v) (joining units) (joined grown id c units))
                                  (sym fresh) (opens id b.ct units none_open next positive))
                        ])

  pub cancel-Step :
      (v : Vault) (x : T) (owner : Address) (id : ℕ) (amount : ℤ) (receiver : Address) {v' : Vault}
      {x' : T}
      → cancel h o (v, x) owner id amount receiver ≡ ok (v', x')
      → Step (books v) (leaving id amount) (books v')
  unfolding cancel books put_batch
  cancel-Step v x owner id amount receiver {v'} e = bind_then (require_auth h owner) _ e λ _ _ r1.
      bind_then (with_status v id «open») _ r1 λ b e2 r2.
        bind_then (fail_if (leb_ℤ amount (pos 0) || ltb_ℤ b.units amount) invalid_amount) _ r2
          λ u e3 r3. bind_then (or_trap (o.burn_claim x b.ct owner amount)) _ r3 λ x1 e4 r4.
            bind_then (sub_i128 b.units amount) _ r4 λ left e5 r5.
              bind_then (tally_cancel amount v.totals) _ r5 λ t e6 r6.
                bind_then (init v) _ r6 λ i e7 r7.
                  bind_then (send h x1 i.rwa receiver amount) _ r7 λ x2 e8 r8.
                    let end = ap (λ (w : Vault × T). w.0) (sym (ok_injective r8)) in
                    let left_is = (i128_ok {E = Error} (b.units -ℤ amount) e5).0 in
                    let (found, is_open) = with_status_ok v id «open» e2 in
                    rw (end, left_is, tally_cancel_ok amount v.totals e6)
                      (leaves id b amount found is_open (ground arith) (ground arith))

  pub claim-Step :
      (v : Vault) (x : T) (owner : Address) (id : ℕ) (shares : ℤ) (receiver : Address) {paid : ℤ}
      {v' : Vault} {x' : T}
      → claim h o (v, x) owner id shares receiver ≡ ok (paid, (v', x'))
      → Step (books v) (claiming id) (books v')
  unfolding claim books put_batch
  claim-Step v x owner id shares receiver {v' = v'} e =
      bind_then (require_auth h owner) _ e λ _ _ r1.
        bind_then (with_status v id settled) _ r1 λ b e2 r2.
          bind_then (fail_if (leb_ℤ shares (pos 0)) invalid_amount) _ r2 λ u e3 r3.
            bind_then (or_trap (o.total_supply x b.ct)) _ r3 λ supply e4 r4.
              bind_then (md shares b.remaining supply) _ r4 λ assets e5 r5.
                bind_then (md shares b.unsent supply) _ r5 λ units e6 r6.
                  bind_then (or_trap (o.burn_claim x b.ct owner shares)) _ r6 λ x1 e7 r7.
                    bind_then (sub_i128 b.remaining assets) _ r7 λ remaining e8 r8.
                      bind_then (sub_i128 b.unsent units) _ r8 λ unsent e9 r9.
                        bind_then (tally_claim assets units v.totals) _ r9 λ t e10 r10.
                          bind_then (init v) _ r10 λ i e11 r11.
                            bind_then (send h x1 i.stable receiver assets) _ r11 λ x2 e12 r12.
                              bind_then (send h x2 i.rwa receiver units) _ r12 λ x3 e13 r13.
                                let end =
                                  ap (λ (w : ℤ × (Vault × T)). w.1.0) (sym (ok_injective r13)) in
                                let remaining_is =
                                  (i128_ok {E = Error} (b.remaining -ℤ assets) e8).0 in
                                let unsent_is = (i128_ok {E = Error} (b.unsent -ℤ units) e9).0 in
                                let (found, is_settled) = with_status_ok v id settled e2 in
                                rw
                                  (
                                    end,
                                    remaining_is,
                                    unsent_is,
                                    tally_claim_ok assets units v.totals e10,
                                  )
                                  (claims id b assets units found is_settled
                                    (md_nonneg shares b.remaining supply e5)
                                    (md_nonneg shares b.unsent supply e6))
