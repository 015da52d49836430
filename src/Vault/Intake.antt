-- ===== src/Vault/Intake.antt =====
-- contracts/vault/src/lib.rs: what a deposit buys.
use stellar_rfq.Prelude.{◌*◌, ◌≤◌, ◌≡◌, sym, ap, ◌∙◌, subst, true, false, some, arith, not, ◌||◌}
use stellar_rfq.Prelude.Int.{ℤ, pos, pos_part, ◌+ℤ◌, ◌-ℤ◌, ◌≤ℤ◌, ◌<ℤ◌, leb_ℤ}
use stellar_rfq.Prelude.Maps.{nat_eq}
use stellar_rfq.Prelude.Result.{ok, fail_if, bind_then, or_trap, ok_injective, or_trap_ok}
use stellar_rfq.Prelude.Words.{add_i128, sub_i128, i128, i128_ok}
use stellar_rfq.Types.{Address, VaultConfig}
use stellar_rfq.Host.{Host}
use stellar_rfq.Shares
use stellar_rfq.Shares.{admitted, balance, virtual_shares}
use stellar_rfq.Shares.Balances.{put}
use stellar_rfq.Shares.Fees.{Snapshot, to_shares, accrue}
use stellar_rfq.Shares.Moves.{mint_ok}
use stellar_rfq.Shares.Rates.{md_ok}
use stellar_rfq.Vault.{
  Vault, Links, config, idle, gross, accrue_now, lift_shares, Error, invalid_amount,
  not_allowlisted,
}
use stellar_rfq.Vault.Money.{agree, check_cap, enter, pull, credit, deposit}

lift_shares_ok : {A : Type 0} (m : Shares.Return A) {a : A} → lift_shares m ≡ ok a → m ≡ ok a
unfolding lift_shares
lift_shares_ok m e = ground arith

config_ok : (v : Vault) {c : VaultConfig} → config v ≡ ok c → v.config_entry ≡ some c
unfolding config
config_ok v e = or_trap_ok v.config_entry e

to_shares_ok :
    (s : Snapshot) (assets shares : ℤ)
    → to_shares s assets false ≡ ok shares
    → pos_part shares * pos_part (s.nav +ℤ pos 1)
      ≤ pos_part assets * pos_part (s.supply +ℤ virtual_shares)
unfolding to_shares i128
to_shares_ok s assets shares e = bind_then (add_i128 s.supply virtual_shares) _ e λ n e1 r1.
    bind_then (add_i128 s.nav (pos 1)) _ r1 λ v e2 r2.
      let (n_is, _) = i128_ok {E = Shares.ShareError} (s.supply +ℤ virtual_shares) e1 in
      let (v_is, _) = i128_ok {E = Shares.ShareError} (s.nav +ℤ pos 1) e2 in
      rw (sym n_is, sym v_is) (md_ok assets n v r2).below

check_cap_ok :
    (cap nav assets : ℤ) → check_cap cap nav assets ≡ ok tt → pos 0 <ℤ cap → nav +ℤ assets ≤ℤ cap
unfolding check_cap i128
check_cap_ok cap nav assets e p = ground arith

credit_ok :
    (v : Vault) (receiver : Address) (minted : ℤ) {v' : Vault}
    → credit v receiver minted ≡ ok v'
    → (pos 0 <ℤ minted)
      × (v' ≡ record v {
        shares = record v.shares {
          balances = put v.shares.balances receiver (balance v.shares receiver +ℤ minted);
          supply = v.shares.supply +ℤ minted;
        };
      })
unfolding credit
credit_ok v receiver minted e =
    bind_then (fail_if (leb_ℤ minted (pos 0)) invalid_amount) _ e λ _ e1 r1.
      bind_then (lift_shares (Shares.mint v.shares receiver minted)) _ r1 λ s e2 r2.
        let grown = mint_ok v.shares receiver minted (lift_shares_ok _ e2) in
        (ground arith, sym (ok_injective {E = Error} r2) ∙ ap (λ z. record v { shares = z }) grown)

module _ {T : Type 0} (h : Host T) (o : Links T) where
  -- What a deposit of `assets` found and left.
  pub record Deposited (v : Vault) (x : T) (assets : ℤ) (receiver from operator : Address)
      (minted : ℤ) (v' : Vault) (x' : T) : Type 0 where
    pub c : VaultConfig
    pub nav : ℤ
    pub before : ℤ
    pub after : ℤ
    pub due : Snapshot
    pub accrued : Shares.Shares
    pub in_force : v.config_entry ≡ some c
    pub agreed : (h.authorised operator ≡ true) × (h.authorised from ≡ true)
    pub welcome : (admitted h v.shares from ≡ true) × (admitted h v.shares receiver ≡ true)
    pub some_assets : pos 0 <ℤ assets
    -- The fee is minted first, on what the vault was worth before the money came.
    pub worth : gross h o v x ≡ ok nav
    pub fee_first : accrue v.shares nav c.curator_fee_bps c.curator ≡ ok (due, accrued)
    pub within_cap : pos 0 <ℤ c.deposit_cap → due.nav +ℤ assets ≤ℤ c.deposit_cap
    -- The money moved, and the balance before and after is what counts.
    pub paid : h.transfer x c.asset from h.me assets ≡ some x'
    pub held : (h.balance x c.asset h.me ≡ some before) × (h.balance x' c.asset h.me ≡ some after)
    pub fair :
        pos_part minted * pos_part (due.nav +ℤ pos 1)
        ≤ pos_part (after -ℤ before) * pos_part (due.supply +ℤ virtual_shares)
    pub some_shares : pos 0 <ℤ minted
    pub left : v' ≡ record v {
      shares = record accrued {
        balances = put accrued.balances receiver (balance accrued receiver +ℤ minted);
        supply = accrued.supply +ℤ minted;
      };
    }

  accrue_now_ok :
      (v : Vault) (x : T) {s' : Snapshot} {v' : Vault}
      → accrue_now h o v x ≡ ok (s', v')
      → (c : VaultConfig) × (nav : ℤ) × (shares : Shares.Shares) × (v.config_entry ≡ some c)
        × (gross h o v x ≡ ok nav)
        × (accrue v.shares nav c.curator_fee_bps c.curator ≡ ok (s', shares))
        × (v' ≡ record v { shares = shares })
  unfolding accrue_now
  accrue_now_ok v x {s'} {v'} e = bind_then (config v) _ e λ c e1 r1.
      bind_then (gross h o v x) _ r1 λ nav e2 r2.
        bind_then (lift_shares (accrue v.shares nav c.curator_fee_bps c.curator)) _ r2
          λ (s, shares) e3 r3.
            let same = ok_injective {E = Error} r3 in
            let m = accrue v.shares nav c.curator_fee_bps c.curator in
            let acc : m ≡ ok (s', shares) = rw (sym (ap (λ z. z.0) same)) (lift_shares_ok m e3) in
            (c, nav, shares, config_ok v e1, e2, acc, sym (ap (λ z. z.1) same))

  agree_ok :
      (from operator : Address)
      → agree h from operator ≡ ok tt
      → (h.authorised operator ≡ true) × (h.authorised from ≡ true)
  unfolding agree
  agree_ok from operator e = ground arith

  idle_ok :
      (v : Vault) (x : T) {c : VaultConfig} {held : ℤ}
      → v.config_entry ≡ some c
      → idle h v x ≡ ok held
      → h.balance x c.asset h.me ≡ some held
  unfolding idle config
  idle_ok v x {c} f e = or_trap_ok {E = Error} (h.balance x c.asset h.me) (rw f at e)

  pull_ok :
      (v : Vault) (x : T) (from : Address) (assets : ℤ) {c : VaultConfig} {received : ℤ} {x' : T}
      → v.config_entry ≡ some c
      → pull h v x from assets ≡ ok (received, x')
      → (before : ℤ) × (after : ℤ) × (h.transfer x c.asset from h.me assets ≡ some x')
        × (h.balance x c.asset h.me ≡ some before)
        × (h.balance x' c.asset h.me ≡ some after)
        × (received ≡ after -ℤ before)
  unfolding pull idle config
  pull_ok v x from assets {c} {received} {x'} f e = bind_then (idle h v x) _ e λ before e1 r1.
      bind_then (config v) _ r1 λ c' e2 r2.
        bind_then (or_trap (h.transfer x c'.asset from h.me assets)) _ r2 λ x1 e3 r3.
          bind_then (idle h v x1) _ r3 λ after e4 r4.
            bind_then (sub_i128 after before) _ r4 λ difference e5 r5.
              let same : c' ≡ c = cc in
              let arrived : x1 ≡ x' = cc in
              let (is, _) = i128_ok {E = Error} (after -ℤ before) e5 in
              let paid = or_trap_ok {E = Error} (h.transfer x c'.asset from h.me assets) e3 in
              (before, after, cc, idle_ok v x f e1, rw (sym arrived) (idle_ok v x1 f e4), cc)

  -- Whoever enters agreed, is admitted, and keeps the vault within its cap.
  enter_ok :
      (v : Vault) (x : T) (from receiver operator : Address) (assets : ℤ) {s : Snapshot}
      {v1 : Vault}
      → enter h o v x from receiver operator assets ≡ ok (s, v1)
      → ((h.authorised operator ≡ true) × (h.authorised from ≡ true))
        × (pos 0 <ℤ assets)
        × ((admitted h v.shares from ≡ true) × (admitted h v.shares receiver ≡ true))
        × (accrue_now h o v x ≡ ok (s, v1))
        × (c : VaultConfig) × (v1.config_entry ≡ some c)
        × (pos 0 <ℤ c.deposit_cap → s.nav +ℤ assets ≤ℤ c.deposit_cap)
  unfolding enter
  enter_ok v x from receiver operator assets {s} {v1} e =
      bind_then (agree h from operator) _ e λ _ e1 r1.
        bind_then (fail_if (leb_ℤ assets (pos 0)) invalid_amount) _ r1 λ _ e2 r2.
          bind_then
            (fail_if (not (admitted h v.shares from) || not (admitted h v.shares receiver))
              not_allowlisted)
            _ r2
            λ _ e3 r3. bind_then (accrue_now h o v x) _ r3 λ (due, va) e4 r4.
              bind_then (config va) _ r4 λ c e5 r5.
                bind_then (check_cap c.deposit_cap due.nav assets) _ r5 λ _ e6 r6.
                  let same = ok_injective {E = Error} r6 in
                  (
                    agree_ok from operator e1,
                    ground arith,
                    (ground arith, ground arith),
                    rw (sym same) e4,
                    c,
                    rw (sym (ap (λ z. z.1) same)) (config_ok va e5),
                    rw (sym (ap (λ z. z.0) same)) (check_cap_ok c.deposit_cap due.nav assets e6),
                  )

  -- A successful `deposit` into the vault was agreed to by the payer and the operator, both holders
  -- are admitted, and it stays within the cap, if there is one, over the NAV before it; the fee due
  -- on that NAV is minted first and the mark moved, exactly the assets are transferred in, and the
  -- shares minted are more than none and worth no more, at the NAV before the deposit and the
  -- supply after the fee, the virtual shares and asset counted, than what arrived by the vault's
  -- own balance; nothing else in the vault changes.
  pub deposit-Deposited :
      (v : Vault) (x : T) (assets : ℤ) (receiver from operator : Address) {minted : ℤ} {v' : Vault}
      {x' : T}
      → deposit h o (v, x) assets receiver from operator ≡ ok (minted, (v', x'))
      → Deposited v x assets receiver from operator minted v' x'
  unfolding deposit
  deposit-Deposited v x assets receiver from operator {minted} {v'} {x'} e =
      bind_then (enter h o v x from receiver operator assets) _ e λ (s, v1) e1 r1.
        bind_then (pull h v1 x from assets) _ r1 λ (received, x1) e2 r2.
          bind_then (lift_shares (to_shares s received false)) _ r2 λ m e3 r3.
            bind_then (credit v1 receiver m) _ r3 λ v2 e4 r4.
              let (agreed, some_assets, welcome, accrues, c1, f1, cap) =
                enter_ok v x from receiver operator assets e1 in
              let (c, nav, shares, f, g, a, v1_is) = accrue_now_ok v x accrues in
              let same : c1 ≡ c = cc in
              let (before, after, paid, held, held', is) =
                pull_ok v1 x from assets (ap (λ z. z.config_entry) v1_is ∙ f) e2 in
              let (some_shares, v2_is) = credit_ok v1 receiver m e4 in
              subst (λ z. Deposited v x assets receiver from operator z.0 z.1.0 z.1.1)
                (ok_injective {E = Error} r4)
                (record {
                  c = c;
                  nav = nav;
                  before = before;
                  after = after;
                  due = s;
                  accrued = shares;
                  in_force = f;
                  agreed = agreed;
                  welcome = welcome;
                  some_assets = some_assets;
                  worth = g;
                  fee_first = a;
                  within_cap =
                      subst (λ z. pos 0 <ℤ z.deposit_cap → s.nav +ℤ assets ≤ℤ z.deposit_cap) same
                        cap;
                  paid = paid;
                  held = (held, held');
                  fair = rw (sym is) (to_shares_ok s received m (lift_shares_ok _ e3));
                  some_shares = some_shares;
                  left =
                      subst
                        (λ z. v2 ≡ record z {
                          shares = record z.shares {
                            balances =
                                put z.shares.balances receiver (balance z.shares receiver +ℤ m);
                            supply = z.shares.supply +ℤ m;
                          };
                        })
                        v1_is v2_is;
                })
