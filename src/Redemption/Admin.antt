-- ===== src/Redemption/Admin.antt =====
-- contracts/redemption_vault/src/lib.rs: deployment, accounts, governance, and the views that price
-- a claim.
use stellar_rfq.Prelude.{
  ℕ, zero, suc, Bool, true, false, ◌&&◌, ◌||◌, not, Option, none, some, [], ◌∷◌, ◌++◌,
  if◌then◌else◌,
}
use stellar_rfq.Prelude.Int.{ℤ, pos, ◌-ℤ◌, eqb_ℤ}
use stellar_rfq.Prelude.Lists.{length}
use stellar_rfq.Prelude.Maps.{nat_eq, ◌==◌, ◌!=◌}
use stellar_rfq.Prelude.Result.{Result, ok, err, trap, ◌>>=◌, ◌>>◌, fail_if, or_trap}
use stellar_rfq.Prelude.Words.{add_i128, sub_i128}
use stellar_rfq.Math.{bps, one}
use stellar_rfq.Types.{Address, PriceData}
use stellar_rfq.Host.{Host, require_auth}
use stellar_rfq.Timelock
use stellar_rfq.Timelock.{TimelockError, submit, revoke, delay, guardian}
use stellar_rfq.Redemption.Types.{
  from_timelock, batches_in_flight, not_authorized, Return, mode_eq, status_eq, settled, Init,
  Roles, Settings, Change, set_settings, set_roles, skims, set_delay,
}
use stellar_rfq.Redemption.Outside.{Outside}
use stellar_rfq.Redemption.State.{
  Vault, init, roles, settings, batch_of, check_settings, kind, md, send, nav,
}
use stellar_rfq.Redemption.Holders.{salt, account_salt}

unfoldable pub lift : {A : Type 0} → Result TimelockError A → Return A
lift (ok a) = ok a
lift (err e) = err (from_timelock e)
lift trap = trap

unfoldable pub check_change : Change → Return (Unit {0})
check_change (set_settings s) = check_settings s
check_change _ = ok tt

unfoldable pub same_gate : Option Address → Option Address → Bool
same_gate none none = true
same_gate (some a) (some b) = a == b
same_gate _ _ = false

unfoldable pub same_flag : Bool → Bool → Bool
same_flag true b = b
same_flag false b = not b

module _ {T : Type 0} (h : Host T) (o : Outside T) where
  unfoldable pub add_account : Vault × T → Return (Vault × T)
  unfolding init
  add_account (v, x) = do
    i ← init v
    (a, x') ←
        or_trap (o.deploy_account x (salt account_salt (length v.accounts)) i.account_wasm h.me)
    ok (record v { accounts = v.accounts ++ (a ∷ []) }, x')

  unfoldable pub add_each : ℕ → Vault × T → Return (Vault × T)
  unfolding add_account
  add_each zero z = ok z
  add_each (suc n) z = do z' ← add_account z; add_each n z'

  unfoldable pub construct : Vault × T → Init → Roles → Settings → ℕ → Return (Vault × T)
  unfolding check_settings add_account
  construct (v, x) i r s d = do
    check_settings s
    add_account (
      record v {
        timelock = Timelock.init v.timelock d r.guardian;
        init_entry = some i;
        roles_entry = some r;
        settings_entry = some s;
        next_entry = some 1;
      },
      x,
    )

  unfoldable pub add_accounts : Vault × T → ℕ → Return (Vault × T)
  unfolding roles add_each
  add_accounts (v, x) n = do r ← roles v; require_auth h r.admin; add_each n (v, x)

  unfoldable pub account_address : ℕ → Address
  account_address index = o.deployed_address (salt account_salt index)

  unfoldable pub submit_change : Vault → Change → Return (ℕ × Vault)
  unfolding roles check_change
  submit_change v change = do
    r ← roles v
    require_auth h r.admin
    check_change change
    (at, t) ← submit h v.timelock (kind change) change
    ok (at, record v { timelock = t })

  -- A change of the gate reaches the open batch's claim token at once.
  regate : Vault → T → Settings → Settings → Return T
  unfolding batch_of
  regate v x old s = if same_gate s.gate old.gate then ok x else elim v.open_entry [
    | none ↦ ok x
    | some id ↦ do b ← batch_of v id; or_trap (o.set_gate x b.ct s.gate)
  ]

  unfoldable pub apply_settings : Vault → T → Settings → Return (Vault × T)
  unfolding settings regate same_flag
  apply_settings v x s = do
    old ← settings v
    fail_if
        ((s.mode != old.mode || not (same_flag s.strike_at_send old.strike_at_send))
          && (v.totals.sent != 0))
        batches_in_flight
    x' ← regate v x old s
    ok (record v { settings_entry = some s }, x')

  -- What the vault holds of a token beyond what it owes.
  unfoldable pub surplus : Vault → T → Address → Return ℤ
  unfolding init
  surplus v x token = do
    i ← init v
    held ← or_trap (h.balance x token h.me)
    free ← (if token == i.stable then sub_i128 held v.totals.proceeds else ok held)
    if token == i.rwa
        then (do owed ← add_i128 v.totals.pooled v.totals.rwa; sub_i128 free owed)
        else ok free

  unfoldable pub skim : Vault → T → Address → Address → Return T
  unfolding surplus send
  skim v x token to = do amount ← surplus v x token; send h x token to amount

  unfoldable pub apply_change : Vault → T → Change → Return (Vault × T)
  unfolding apply_settings skim
  apply_change v x (set_settings s) = apply_settings v x s
  apply_change v x (set_roles r) = ok (
    record v {
      timelock = Timelock.init v.timelock (delay v.timelock) r.guardian;
      roles_entry = some r;
    },
    x,
  )
  apply_change v x (skims token to) = do x' ← skim v x token to; ok (v, x')
  apply_change v x (set_delay d) = do
    g ← guardian v.timelock
    ok (record v { timelock = Timelock.init v.timelock d g }, x)

  unfoldable pub accept : Vault × T → ℕ → Return (Vault × T)
  unfolding lift apply_change
  accept (v, x) k = do
    (change, t) ← lift (Timelock.take h v.timelock k)
    apply_change (record v { timelock = t }) x change

  unfoldable pub revoke_change : Vault → ℕ → Address → Return Vault
  unfolding roles lift
  revoke_change v k caller = do
    r ← roles v
    t ← lift (revoke h v.timelock k caller r.admin)
    ok (record v { timelock = t })

  unfoldable pub set_paused : Vault → Address → Bool → Return Vault
  unfolding roles
  set_paused v caller paused = do
    require_auth h caller
    r ← roles v
    fail_if ((caller != r.admin) && (caller != r.guardian)) not_authorized
    ok (record v { is_paused = paused })

  unfoldable pub claim_value : Vault → T → ℕ → ℤ → Return ℤ
  unfolding batch_of md settings
  claim_value v x id price = do
    b ← batch_of v id
    if b.status == settled
        then (do
          supply ← or_trap (o.total_supply x b.ct)
          if eqb_ℤ supply (pos 0) then ok (pos 0) else (do
            cash ← md b.remaining one supply
            in_kind ← md b.unsent price supply
            add_i128 cash in_kind))
        else (do
          let p = if eqb_ℤ b.strike (pos 0) then price else b.strike
          s ← settings v
          md p (bps -ℤ pos s.fee_bps) bps)

  unfoldable pub get_price : Vault → T → Address → Address → Return PriceData
  unfolding init settings nav claim_value
  get_price v x base quote = elim (v.ct base) [
    | none ↦ ok (record { price = pos 0; timestamp = h.timestamp })
    | some id ↦ do
      i ← init v
      if quote == i.stable
          then (do
            s ← settings v
            n ← nav h v x s
            p ← claim_value v x id n
            ok (record { price = p; timestamp = h.timestamp }))
          else ok (record { price = pos 0; timestamp = h.timestamp })
  ]
