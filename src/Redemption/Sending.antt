-- ===== src/Redemption/Sending.antt =====
-- contracts/redemption_vault/src/lib.rs: batches that go to the issuer, by the settler (AUTO) or the
-- operator (MANUAL).
use stellar_rfq.Prelude.{
  ℕ, ◌+◌, Bool, true, false, not, Option, none, some, List, [], ◌∷◌, if◌then◌else◌,
}
use stellar_rfq.Prelude.Int.{ℤ, pos, ltb_ℤ, leb_ℤ, eqb_ℤ}
use stellar_rfq.Prelude.Maps.{update, nat_eq, ◌==◌, ◌!=◌}
use stellar_rfq.Prelude.Result.{ok, ◌>>=◌, ◌>>◌, fail_if, or_trap, or_err}
use stellar_rfq.Prelude.Words.{uint, u32_max, add_i128, sub_i128}
use stellar_rfq.Types.{Address}
use stellar_rfq.Host.{Host, require_auth}
use stellar_rfq.Redemption.Types.{
  invalid_amount, wrong_status, wrong_mode, no_price, not_allowed, rwa_moved, Return, auto, manual,
  status_eq, «open», sent, Settings, Batch, Totals, Call,
}
use stellar_rfq.Redemption.Outside.{Outside}
use stellar_rfq.Redemption.State.{
  Vault, init, roles, batch_of, with_status, in_mode, put_batch, send, nav,
}
use stellar_rfq.Redemption.Calls.{free_account, send_from}

unfoldable pub tally_sent : Totals → Return Totals
tally_sent t = do n ← uint u32_max (t.sent + 1); ok (record t { sent = n })

unfoldable pub tally_out : ℤ → Totals → Return Totals
tally_out units t = do p ← sub_i128 t.pooled units; ok (record t { pooled = p })

-- The strike of a batch that leaves at `nav`.
unfoldable pub strike_of : Settings → ℤ → ℤ → Return ℤ
strike_of s old price = elim s.strike_at_send [
  | true ↦ do fail_if (eqb_ℤ price (pos 0)) no_price; ok price
  | false ↦ ok old
]

unfoldable pub close : Option ℕ → ℕ → Option ℕ
close none id = none
close (some k) id = if k == id then none else some k

unfoldable pub account_of : Batch → Return Address
account_of b = or_err b.account wrong_mode

unfoldable pub contains : List Address → Address → Bool
contains [] a = false
contains (d ∷ l) a = if d == a then true else contains l a

module _ {T : Type 0} (h : Host T) (o : Outside T) where
  unfoldable pub mark_sent : Vault → T → ℕ → Batch → Settings → Return (Vault × T)
  unfolding nav strike_of close tally_sent put_batch
  mark_sent v x id b s = do
    fail_if (leb_ℤ b.units (pos 0)) invalid_amount
    start ← nav h v x s
    strike ← strike_of s b.strike start
    t ← tally_sent v.totals
    ok (
      put_batch (record v { open_entry = close v.open_entry id; totals = t }) id
          (record b { nav_start = start; strike = strike; status = sent; sent_at = h.timestamp }),
      x,
    )

  unfoldable pub resend : Vault → T → ℕ → Batch → Option Address → List Call → Return (Vault × T)
  unfolding account_of send_from put_batch
  resend v x id b spender calls = do
    fail_if (eqb_ℤ b.unsent (pos 0)) invalid_amount
    account ← account_of b
    x' ← send_from h o v x account b.unsent spender calls
    ok (put_batch v id (record b { unsent = pos 0 }), x')

  unfoldable pub send_batch :
      Vault → T → ℕ → Batch → Option Address → List Call → Return (Vault × T)
  unfolding in_mode free_account init send_from tally_out mark_sent
  send_batch v x id b spender calls = do
    fail_if (b.status != «open») wrong_status
    s ← in_mode v auto
    account ← free_account v
    i ← init v
    x1 ← or_trap (h.transfer x i.rwa h.me account b.units)
    x2 ← send_from h o v x1 account b.units spender calls
    t ← tally_out b.units v.totals
    let v1 = record v { busy = update v.busy account (some id); totals = t }
    held ← or_trap (h.balance x2 i.rwa h.me)
    owed ← add_i128 t.pooled t.rwa
    fail_if (ltb_ℤ held owed) rwa_moved
    mark_sent v1 x2 id (record b { account = some account }) s

  unfoldable pub redeem_batch : Vault × T → ℕ → Option Address → List Call → Return (Vault × T)
  unfolding roles batch_of resend send_batch
  redeem_batch (v, x) id spender calls = do
    r ← roles v
    require_auth h r.settler
    b ← batch_of v id
    if b.status == sent then resend v x id b spender calls else send_batch v x id b spender calls

  unfoldable pub withdraw_batch : Vault × T → ℕ → Address → Return (Vault × T)
  unfolding roles in_mode contains with_status init send tally_out mark_sent
  withdraw_batch (v, x) id to = do
    r ← roles v
    require_auth h r.operator
    s ← in_mode v manual
    fail_if (not (contains s.destinations to)) not_allowed
    b ← with_status v id «open»
    i ← init v
    x1 ← send h x i.rwa to b.units
    t ← tally_out b.units v.totals
    mark_sent (record v { totals = t }) x1 id b s
