-- ===== src/Crosschain/Admin.antt =====
-- contracts/crosschain_settle/src/lib.rs: deployment and the governed changes.
use stellar_rfq.Prelude.{ℕ, some}
use stellar_rfq.Prelude.Int.{ℤ}
use stellar_rfq.Prelude.Maps.{update, nat_eq}
use stellar_rfq.Prelude.Result.{Result, ok, err, trap, ◌>>=◌, ◌>>◌, or_trap}
use stellar_rfq.Types.{Address}
use stellar_rfq.Host.{Host, require_auth}
use stellar_rfq.Timelock
use stellar_rfq.Timelock.{TimelockError, kind_of, guardian}
use stellar_rfq.Crosschain.Types.{
  from_timelock, Return, Config, Change, set_config, set_peer, set_route, set_vault, set_delay,
  Links,
}
use stellar_rfq.Crosschain.State.{Settle, config, admin}
use stellar_rfq.Crosschain.Transport.{check_route}

unfoldable pub lift : {A : Type 0} → Result TimelockError A → Return A
lift (ok a) = ok a
lift (err e) = err (from_timelock e)
lift trap = trap

-- A route opens only where the bridge carries the token.
unfoldable pub check_change : Settle → Change → Return (Unit {0})
unfolding config check_route
check_change s (set_route chain stable (some remote)) = do c ← config s; check_route c stable
check_change s _ = ok tt

module _ {T : Type 0} (h : Host T) (k : Links T) where
  -- The slot of the timelock in which a change waits.
  unfoldable pub slot : Change → Return ℕ
  slot (set_config _) = ok 0
  slot (set_delay _) = ok 1
  slot (set_peer chain _) = kind_of h (k.peer_key chain)
  slot (set_route chain stable _) = kind_of h (k.route_key chain stable)
  slot (set_vault rwa _) = kind_of h (k.vault_key rwa)

  unfoldable pub construct : Settle × T → Address → Address → ℕ → Config → Return (Settle × T)
  construct (s, x) admin guardian delay c = do
    x' ← or_trap (k.set_delegate x c.bridge.endpoint admin)
    ok (
      record s {
        timelock = Timelock.init s.timelock delay guardian;
        admin_entry = some admin;
        config_entry = some c;
      },
      x',
    )

  unfoldable pub submit_change : Settle → Change → Return (ℕ × Settle)
  unfolding admin check_change slot
  submit_change s change = do
    a ← admin s
    require_auth h a
    check_change s change
    n ← slot change
    (at, t) ← Timelock.submit h s.timelock n change
    ok (at, record s { timelock = t })

  unfoldable pub apply_change : Settle → Change → Return Settle
  apply_change s (set_config c) = ok (record s { config_entry = some c })
  apply_change s (set_peer chain p) = ok (record s { peer = update s.peer chain (some p) })
  apply_change s (set_route chain stable remote) =
      ok (record s { route = update s.route chain (update (s.route chain) stable remote) })
  apply_change s (set_vault rwa vault) = ok (record s { vault = update s.vault rwa vault })
  apply_change s (set_delay d) = do
    g ← guardian s.timelock
    ok (record s { timelock = Timelock.init s.timelock d g })

  unfoldable pub accept : Settle → ℕ → Return Settle
  unfolding lift check_change apply_change
  accept s n = do
    (change, t) ← lift (Timelock.take h s.timelock n)
    let s' = record s { timelock = t }
    check_change s' change
    apply_change s' change

  unfoldable pub revoke_change : Settle → ℕ → Address → Return Settle
  unfolding admin lift
  revoke_change s n caller = do
    a ← admin s
    t ← lift (Timelock.revoke h s.timelock n caller a)
    ok (record s { timelock = t })

  -- Moves XLM out, to rebalance what pays for the way back.
  unfoldable pub sweep : Settle × T → Address → ℤ → Return T
  unfolding admin config
  sweep (s, x) to amount = do
    a ← admin s
    require_auth h a
    c ← config s
    or_trap (h.transfer x c.xlm h.me to amount)
