-- ===== src/Redemption/Entry.antt =====
-- contracts/redemption_vault/src/lib.rs: the entry points as data, and histories of calls.
use stellar_rfq.Prelude.{ℕ, Bool, List, [], ◌∷◌, Option}
use stellar_rfq.Prelude.Int.{ℤ}
use stellar_rfq.Prelude.Result.{ok, err, trap, ◌>>=◌}
use stellar_rfq.Types.{Address}
use stellar_rfq.Host.{Host}
use stellar_rfq.Redemption.Types.{Return, Change, Call}
use stellar_rfq.Redemption.Outside.{Outside}
use stellar_rfq.Redemption.State.{Vault, kind}
use stellar_rfq.Redemption.Holders.{request_redeem, cancel, claim}
use stellar_rfq.Redemption.Sending.{redeem_batch, withdraw_batch}
use stellar_rfq.Redemption.Settling.{settle, reopen, settle_manual}
use stellar_rfq.Redemption.Admin.{add_accounts, submit_change, accept, revoke_change, set_paused}

-- The entry points, and what other contracts do between two calls.
pub data Op (T : Type 0) : Type 0 where
  elsewhere : T → Op T
  requests : Address → ℤ → Address → Op T
  cancels : Address → ℕ → ℤ → Address → Op T
  claims : Address → ℕ → ℤ → Address → Op T
  redeems : ℕ → Option Address → List Call → Op T
  settles : ℕ → List Call → ℤ → Op T
  reopens : ℕ → List Call → ℤ → Op T
  withdraws : ℕ → Address → Op T
  settles_by_hand : ℕ → ℤ → ℤ → Op T
  adds_accounts : ℕ → Op T
  submits : Change → Op T
  accepts : ℕ → Op T
  revokes : ℕ → Address → Op T
  pauses : Address → Bool → Op T

module _ {T : Type 0} where
  unfoldable pub apply : Host T → Outside T → Op T → Vault × T → Return (Vault × T)
  apply h o (elsewhere x) (v, _) = ok (v, x)
  apply h o (requests owner units controller) z = do
    (_, z') ← request_redeem h o z owner units controller
    ok z'
  apply h o (cancels owner id amount receiver) z = cancel h o z owner id amount receiver
  apply h o (claims owner id shares receiver) z = do
    (_, z') ← claim h o z owner id shares receiver
    ok z'
  apply h o (redeems id spender calls) z = redeem_batch h o z id spender calls
  apply h o (settles id calls least) z = settle h o z id calls least
  apply h o (reopens id calls returned) z = reopen h o z id calls returned
  apply h o (withdraws id to) z = withdraw_batch h o z id to
  apply h o (settles_by_hand id proceeds returned) z = settle_manual h o z id proceeds returned
  apply h o (adds_accounts n) z = add_accounts h o z n
  apply h o (submits change) (v, x) = do (_, v') ← submit_change h o v change; ok (v', x)
  apply h o (accepts kind) z = accept h o z kind
  apply h o (revokes kind caller) (v, x) = do v' ← revoke_change h o v kind caller; ok (v', x)
  apply h o (pauses caller on) (v, x) = do v' ← set_paused h o v caller on; ok (v', x)

  -- A call that fails changes nothing.
  unfoldable pub kept_or : Vault × T → Return (Vault × T) → Vault × T
  kept_or z (ok z') = z'
  kept_or z (err _) = z
  kept_or z trap = z

  -- The state after a history, its latest call first.
  unfoldable pub run : Vault × T → List (Host T × (Outside T × Op T)) → Vault × T
  unfolding kept_or
  run z [] = z
  run z ((h, (o, op)) ∷ past) = kept_or (run z past) (apply h o op (run z past))
