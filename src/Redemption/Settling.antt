-- ===== src/Redemption/Settling.antt =====
-- contracts/redemption_vault/src/lib.rs: batches that come back from the issuer.
use stellar_rfq.Prelude.{ℕ, Bool, true, false, ◌||◌, not, Option, none, some, List, if◌then◌else◌}
use stellar_rfq.Prelude.Int.{ℤ, pos, ltb_ℤ, leb_ℤ, eqb_ℤ}
use stellar_rfq.Prelude.Maps.{update, nat_eq}
use stellar_rfq.Prelude.Result.{ok, ◌>>=◌, ◌>>◌, fail_if, or_trap}
use stellar_rfq.Prelude.Words.{sub_uint, add_i128, sub_i128}
use stellar_rfq.Math.{bps, one}
use stellar_rfq.Types.{Address}
use stellar_rfq.Host.{Host, require_auth}
use stellar_rfq.Redemption.Types.{
  invalid_amount, wrong_mode, no_price, rwa_moved, proceeds_too_low, Return, status_eq, «open»,
  sent, settled, Settings, Batch, Totals, Call,
}
use stellar_rfq.Redemption.Outside.{Outside}
use stellar_rfq.Redemption.State.{
  Vault, init, roles, settings, with_status, put_batch, md, md_up_twice, send, nav,
}
use stellar_rfq.Redemption.Calls.{run_calls}
use stellar_rfq.Redemption.Sending.{account_of}

unfoldable pub tally_settled : ℤ → ℤ → ℤ → Totals → Return Totals
tally_settled proceeds fee unsent t = do
  net ← sub_i128 proceeds fee
  p ← add_i128 t.proceeds net
  r ← add_i128 t.rwa unsent
  n ← sub_uint t.sent 1
  ok (record t { proceeds = p; rwa = r; sent = n })

unfoldable pub tally_reopened : ℤ → Totals → Return Totals
tally_reopened units t = do
  p ← add_i128 t.pooled units
  n ← sub_uint t.sent 1
  ok (record t { pooled = p; sent = n })

unfoldable pub is_account : Option Address → Bool
is_account none = false
is_account (some _) = true

module _ {T : Type 0} (h : Host T) (o : Outside T) where
  unfoldable pub fee_paid : Settings → Vault → T → ℤ → Return T
  unfolding init send
  fee_paid s v x fee = elim s.fee_recipient [
    | none ↦ ok x
    | some to ↦ elim (ltb_ℤ (pos 0) fee) [
      | true ↦ do i ← init v; send h x i.stable to fee
      | false ↦ ok x
    ]
  ]

  unfoldable pub finish : Vault → T → ℕ → Batch → ℤ → Return (Vault × T)
  unfolding settings md tally_settled nav put_batch fee_paid
  finish v x id b proceeds = do
    s ← settings v
    fee ← md proceeds (pos s.fee_bps) bps
    t ← tally_settled proceeds fee b.unsent v.totals
    net ← sub_i128 proceeds fee
    end ← nav h v x s
    let b' = record b {
      status = settled;
      proceeds = proceeds;
      fee = fee;
      remaining = net;
      nav_end = end;
      settled_at = h.timestamp;
    }
    let v' = put_batch (record v { totals = t }) id b'
    x' ← fee_paid s v x fee
    ok (v', x')

  -- RWA that the issuer handed back goes to the vault.
  unfoldable pub take_back : T → Address → Address → ℤ → Return T
  take_back x account rwa unsent = elim (eqb_ℤ unsent (pos 0)) [
    | true ↦ ok x
    | false ↦
        or_trap (o.execute x account rwa o.transfer_symbol (o.transfer_args account h.me unsent))
  ]

  unfoldable pub settle : Vault × T → ℕ → List Call → ℤ → Return (Vault × T)
  unfolding roles with_status account_of init run_calls take_back finish
  settle (v, x) id calls min_proceeds = do
    r ← roles v
    require_auth h r.settler
    b ← with_status v id sent
    account ← account_of b
    i ← init v
    held ← or_trap (h.balance x i.rwa h.me)
    rwa_before ← add_i128 held b.unsent
    stable_before ← or_trap (h.balance x i.stable h.me)
    x1 ← run_calls h o v x account calls
    x2 ← or_trap (o.sweep x1 account i.stable h.me)
    x3 ← take_back x2 account i.rwa b.unsent
    let v1 = record v { busy = update v.busy account none }
    rwa_after ← or_trap (h.balance x3 i.rwa h.me)
    fail_if (not (eqb_ℤ rwa_after rwa_before)) rwa_moved
    stable_after ← or_trap (h.balance x3 i.stable h.me)
    proceeds ← sub_i128 stable_after stable_before
    fail_if (ltb_ℤ proceeds min_proceeds) proceeds_too_low
    finish v1 x3 id b proceeds

  -- All of the batch is back: it is open again.
  unfoldable pub open_again : Vault → T → ℕ → Batch → Address → Return (Vault × T)
  unfolding init tally_reopened put_batch
  open_again v x id b account = do
    i ← init v
    x' ← or_trap (o.sweep x account i.rwa h.me)
    t ← tally_reopened b.units v.totals
    ok (
      put_batch (record v { busy = update v.busy account none; totals = t }) id
          (record b { status = «open»; account = none; unsent = pos 0; strike = pos 0 }),
      x',
    )

  unfoldable pub reopen : Vault × T → ℕ → List Call → ℤ → Return (Vault × T)
  unfolding roles with_status account_of run_calls init open_again put_batch
  reopen (v, x) id calls returned = do
    r ← roles v
    require_auth h r.settler
    b ← with_status v id sent
    account ← account_of b
    unsent ← add_i128 b.unsent returned
    fail_if (leb_ℤ returned (pos 0) || ltb_ℤ b.units unsent) invalid_amount
    x1 ← run_calls h o v x account calls
    i ← init v
    held ← or_trap (h.balance x1 i.rwa account)
    fail_if (ltb_ℤ held unsent) invalid_amount
    if eqb_ℤ unsent b.units
        then open_again v x1 id b account
        else ok (put_batch v id (record b { unsent = unsent }), x1)

  unfoldable pub floor_price : Vault → T → Settings → ℤ → Return ℤ
  unfolding nav
  floor_price v x s strike = elim (eqb_ℤ strike (pos 0)) [ true ↦ nav h v x s | false ↦ ok strike ]

  -- RWA that the operator returns.
  unfoldable pub paid_back : T → Address → Address → ℤ → Return T
  paid_back x rwa operator returned = elim (eqb_ℤ returned (pos 0)) [
    | true ↦ ok x
    | false ↦ or_trap (h.transfer x rwa operator h.me returned)
  ]

  unfoldable pub settle_manual : Vault × T → ℕ → ℤ → ℤ → Return (Vault × T)
  unfolding roles with_status is_account settings floor_price md_up_twice init paid_back finish
  settle_manual (v, x) id proceeds returned = do
    r ← roles v
    require_auth h r.operator
    b ← with_status v id sent
    fail_if (is_account b.account) wrong_mode
    fail_if (ltb_ℤ proceeds (pos 0) || ltb_ℤ returned (pos 0) || ltb_ℤ b.units returned)
        invalid_amount
    s ← settings v
    price ← floor_price v x s b.strike
    fail_if (eqb_ℤ price (pos 0)) no_price
    redeemed ← sub_i128 b.units returned
    share ← sub_i128 bps (pos s.floor_bps)
    floor ← md_up_twice redeemed price one share bps
    fail_if (ltb_ℤ proceeds floor) proceeds_too_low
    i ← init v
    x1 ← or_trap (h.transfer x i.stable r.operator h.me proceeds)
    x2 ← paid_back x1 i.rwa r.operator returned
    finish v x2 id (record b { unsent = returned }) proceeds
