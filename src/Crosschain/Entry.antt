-- ===== src/Crosschain/Entry.antt =====
-- contracts/crosschain_settle/src: the entry points as data, and histories of calls.
use stellar_rfq.Prelude.{ℕ, List, [], ◌∷◌}
use stellar_rfq.Prelude.Int.{ℤ}
use stellar_rfq.Prelude.Maps.{Bytes}
use stellar_rfq.Prelude.Result.{ok, err, trap, ◌>>=◌}
use stellar_rfq.Types.{Address}
use stellar_rfq.Orders.{Request}
use stellar_rfq.Host.{Host}
use stellar_rfq.Crosschain.Types.{Return, Change, Links, Origin}
use stellar_rfq.Crosschain.Wire.{Bid}
use stellar_rfq.Crosschain.State.{Settle}
use stellar_rfq.Crosschain.Taker.{fill, push, withdraw}
use stellar_rfq.Crosschain.Funds.{lz_receive, lz_compose}
use stellar_rfq.Crosschain.Admin.{submit_change, accept, revoke_change, sweep}

-- The entry points, and what other contracts do between two calls.
pub data Op (T : Type 0) : Type 0 where
  elsewhere : T → Op T
  fills : Request → ℕ → Bid → Bytes → Op T
  pushes : Address → Bytes → Op T
  withdraws : Address → Address → Op T
  receives : Address → Origin → Bytes → Bytes → ℤ → Op T
  composes : Address → Address → Bytes → ℕ → Bytes → ℤ → Op T
  submits : Change → Op T
  accepts : ℕ → Op T
  revokes : ℕ → Address → Op T
  sweeps : Address → ℤ → Op T

module _ {T : Type 0} where
  unfoldable pub apply : Host T → Links T → Op T → Settle × T → Return (Settle × T)
  apply h k (elsewhere x) (s, _) = ok (s, x)
  apply h k (fills r chain bid signature) z = do (_, z') ← fill h k z r chain bid signature; ok z'
  apply h k (pushes caller id) z = do (_, z') ← push h k z caller id; ok z'
  apply h k (withdraws who token) z = withdraw h k z who token
  apply h k (receives executor origin guid message value) z =
      lz_receive h k z executor origin guid message value
  apply h k (composes executor from guid index message value) z =
      lz_compose h k z executor from guid index message value
  apply h k (submits change) (s, x) = do (_, s') ← submit_change h k s change; ok (s', x)
  apply h k (accepts n) (s, x) = do s' ← accept h k s n; ok (s', x)
  apply h k (revokes n caller) (s, x) = do s' ← revoke_change h k s n caller; ok (s', x)
  apply h k (sweeps to amount) (s, x) = do x' ← sweep h k (s, x) to amount; ok (s, x')

  -- A call that fails changes nothing.
  unfoldable pub kept_or : Settle × T → Return (Settle × T) → Settle × T
  kept_or z (ok z') = z'
  kept_or z (err _) = z
  kept_or z trap = z

  -- The state after a history, its latest call first.
  unfoldable pub run : Settle × T → List (Host T × (Links T × Op T)) → Settle × T
  unfolding kept_or
  run z [] = z
  run z ((h, (k, op)) ∷ past) = kept_or (run z past) (apply h k op (run z past))
