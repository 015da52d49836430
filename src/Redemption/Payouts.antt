-- ===== src/Redemption/Payouts.antt =====
-- contracts/redemption_vault/src/lib.rs: what holders are paid, and what the operator must pay in.
use stellar_rfq.Prelude.{ℕ, ◌+◌, ◌*◌, ◌≤◌, ◌<◌, ◌≡◌, sym, ap, subst, ◌∙◌, true, some, arith}
use stellar_rfq.Prelude.Int.{ℤ, pos, leb_ℤ, ◌-ℤ◌, ◌<ℤ◌}
use stellar_rfq.Prelude.Maps.{nat_eq}
use stellar_rfq.Prelude.Result.{
  ok, fail_if, or_trap, trap_unless_ok, bind_then, ok_injective, or_trap_ok,
}
use stellar_rfq.Prelude.Words.{sub_i128}
use stellar_rfq.Math.Bounds.{RoundsDown}
use stellar_rfq.Types.{Address}
use stellar_rfq.Host.{Host, require_auth}
use stellar_rfq.Redemption.Types.{Error, invalid_amount, settled, Init, Batch, status_eq}
use stellar_rfq.Redemption.Batches.{find, find-store}
use stellar_rfq.Redemption.Outside.{Outside}
use stellar_rfq.Redemption.State.{Vault, init, with_status, put_batch, md, send}
use stellar_rfq.Redemption.Holders.{claim, tally_claim}
use stellar_rfq.Redemption.Tallies.{with_status_ok, md_ok, rest_ok}

-- What a claim of `shares` did to the batch, and whom it paid.
pub record Claimed {T : Type 0} (h : Host T) (o : Outside T) (v v' : Vault) (x x' : T)
    (owner : Address) (id : ℕ) (shares : ℤ) (receiver : Address) (assets : ℤ) : Type 0 where
  pub b : Batch
  pub supply : ℤ
  pub units : ℤ
  pub i : Init
  pub burnt : T
  pub paid : T
  pub found : find v.batches id ≡ some b
  pub is_settled : b.status ≡ settled
  pub by_owner : h.authorised owner ≡ true
  pub some_shares : pos 0 <ℤ shares
  pub of_supply : o.total_supply x b.ct ≡ some supply
  -- The share of what is left, rounded down; the last holder takes all.
  pub cash : RoundsDown shares b.remaining supply assets
  pub in_kind : RoundsDown shares b.unsent supply units
  pub last_takes_all : shares ≡ supply → (assets ≡ b.remaining) × (units ≡ b.unsent)
  pub left :
      find v'.batches id
      ≡ some (record b { remaining = b.remaining -ℤ assets; unsent = b.unsent -ℤ units })
  pub tokens : v.init_entry ≡ some i
  pub burns : o.burn_claim x b.ct owner shares ≡ some burnt
  pub pays_stable : send h burnt i.stable receiver assets ≡ ok paid
  pub pays_rwa : send h paid i.rwa receiver units ≡ ok x'

all_of : (a b q : ℤ) → RoundsDown a b a q → q ≡ b
all_of (pos a) (pos b) (pos q) r = ap pos (whole a b q r.d_pos r.below r.above)
  where
    whole : (a b q : ℕ) → 0 < a → q * a ≤ a * b → a * b < q * a + a → q ≡ b
    whole a b q p low high = grind arith
all_of a b q r = absurd (ground arith)

module _ {T : Type 0} (h : Host T) (o : Outside T) where
  -- A successful `claim` was authorised by the owner, on a settled batch and for some shares: it
  -- pays the share of the stable and of the RWA that the batch has left, each rounded down, against
  -- the claim token's supply before the burn, books exactly that, burns the shares and sends both
  -- amounts to the receiver; whoever claims the whole supply takes all that is left.
  pub claim_pays :
      (v : Vault) (x : T) (owner : Address) (id : ℕ) (shares : ℤ) (receiver : Address) {assets : ℤ}
      {v' : Vault} {x' : T}
      → claim h o (v, x) owner id shares receiver ≡ ok (assets, (v', x'))
      → Claimed h o v v' x x' owner id shares receiver assets
  unfolding claim put_batch init
  claim_pays v x owner id shares receiver {assets} {v'} {x'} e =
      bind_then (require_auth h owner) _ e λ _ e1 r1.
        bind_then (with_status v id settled) _ r1 λ b e2 r2.
          bind_then (fail_if (leb_ℤ shares (pos 0)) invalid_amount) _ r2 λ u e3 r3.
            bind_then (or_trap (o.total_supply x b.ct)) _ r3 λ supply e4 r4.
              bind_then (md shares b.remaining supply) _ r4 λ cash e5 r5.
                bind_then (md shares b.unsent supply) _ r5 λ units e6 r6.
                  bind_then (or_trap (o.burn_claim x b.ct owner shares)) _ r6 λ x1 e7 r7.
                    bind_then (sub_i128 b.remaining cash) _ r7 λ remaining e8 r8.
                      bind_then (sub_i128 b.unsent units) _ r8 λ unsent e9 r9.
                        bind_then (tally_claim cash units v.totals) _ r9 λ t e10 r10.
                          bind_then (init v) _ r10 λ i e11 r11.
                            bind_then (send h x1 i.stable receiver cash) _ r11 λ x2 e12 r12.
                              bind_then (send h x2 i.rwa receiver units) _ r12 λ x3 e13 r13.
                                let end = ok_injective r13 in
                                let paid_is : cash ≡ assets =
                                  ap (λ (w : ℤ × (Vault × T)). w.0) end in
                                let v_is = ap (λ (w : ℤ × (Vault × T)). w.1.0) end in
                                let x_is = ap (λ (w : ℤ × (Vault × T)). w.1.1) end in
                                let (found, is_settled) = with_status_ok v id settled e2 in
                                let down = md_ok shares b.remaining supply e5 in
                                let down' = md_ok shares b.unsent supply e6 in
                                subst (λ a. Claimed h o v v' x x' owner id shares receiver a)
                                  paid_is
                                  (record {
                                    b = b;
                                    supply = supply;
                                    units = units;
                                    i = i;
                                    burnt = x1;
                                    paid = x2;
                                    found = found;
                                    is_settled = is_settled;
                                    by_owner = trap_unless_ok {E = Error} (h.authorised owner) e1;
                                    some_shares = ground arith;
                                    of_supply = or_trap_ok {E = Error} (o.total_supply x b.ct) e4;
                                    cash = down;
                                    in_kind = down';
                                    last_takes_all = λ all. (
                                      all_of shares b.remaining cash (
                                          subst (λ d. RoundsDown shares b.remaining d cash)
                                            (sym all) down),
                                      all_of shares b.unsent units (
                                          subst (λ d. RoundsDown shares b.unsent d units) (sym all)
                                            down'),
                                    );
                                    left =
                                        rw
                                          (
                                            sym v_is,
                                            rest_ok b.remaining cash e8,
                                            rest_ok b.unsent units e9,
                                          )
                                          (find-store v.batches id _);
                                    tokens = or_trap_ok {E = Error} v.init_entry e11;
                                    burns =
                                        or_trap_ok {E = Error} (o.burn_claim x b.ct owner shares)
                                          e7;
                                    pays_stable = e12;
                                    pays_rwa = e13 ∙ ap ok x_is;
                                  })
