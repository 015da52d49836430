-- ===== src/Vault/Views.antt =====
-- contracts/vault/src/lib.rs: the SEP-56 limits (`max_`) and previews.
use stellar_rfq.Prelude.{true, false, if◌then◌else◌}
use stellar_rfq.Prelude.Int.{ℤ, pos, eqb_ℤ}
use stellar_rfq.Prelude.Result.{ok, ◌>>=◌}
use stellar_rfq.Prelude.Words.{i128_max, sub_i128, max_ℤ, min_ℤ}
use stellar_rfq.Types.{Address}
use stellar_rfq.Host.{Host}
use stellar_rfq.Shares.{admitted, balance}
use stellar_rfq.Shares.Fees.{to_shares, to_assets}
use stellar_rfq.Vault.{Vault, Links, Return, config, snapshot_now, liquidity, lift_shares}

module _ {T : Type 0} (h : Host T) (o : Links T) where
  unfoldable pub total_assets : Vault → T → Return ℤ
  total_assets v x = do s ← snapshot_now h o v x; ok s.nav

  unfoldable pub total_supply : Vault → T → Return ℤ
  total_supply v x = do s ← snapshot_now h o v x; ok s.supply

  -- `convert_to_shares`, and the same call for `preview_deposit`.
  unfoldable pub convert_to_shares : Vault → T → ℤ → Return ℤ
  convert_to_shares v x assets = do s ← snapshot_now h o v x; lift_shares (to_shares s assets false)

  -- `convert_to_assets`, and the same call for `preview_redeem`.
  unfoldable pub convert_to_assets : Vault → T → ℤ → Return ℤ
  convert_to_assets v x shares = do s ← snapshot_now h o v x; lift_shares (to_assets s shares false)

  unfoldable pub preview_mint : Vault → T → ℤ → Return ℤ
  preview_mint v x shares = do s ← snapshot_now h o v x; lift_shares (to_assets s shares true)

  unfoldable pub preview_withdraw : Vault → T → ℤ → Return ℤ
  preview_withdraw v x assets = do s ← snapshot_now h o v x; lift_shares (to_shares s assets true)

  unfoldable pub max_deposit : Vault → T → Address → Return ℤ
  max_deposit v x receiver = do
    c ← config v
    if admitted h v.shares receiver
        then (if eqb_ℤ c.deposit_cap (pos 0) then ok (pos i128_max) else (do
          s ← snapshot_now h o v x
          room ← sub_i128 c.deposit_cap s.nav
          ok (max_ℤ room (pos 0))))
        else ok (pos 0)

  unfoldable pub max_mint : Vault → T → Address → Return ℤ
  max_mint v x receiver = do
    a ← max_deposit v x receiver
    if eqb_ℤ a (pos i128_max)
        then ok a
        else (do s ← snapshot_now h o v x; lift_shares (to_shares s a false))

  unfoldable pub max_withdraw : Vault → T → Address → Return ℤ
  max_withdraw v x owner = do
    s ← snapshot_now h o v x
    worth ← lift_shares (to_assets s (balance v.shares owner) false)
    free ← liquidity h o v x
    ok (min_ℤ worth free)

  unfoldable pub max_redeem : Vault → T → Address → Return ℤ
  max_redeem v x owner = do
    s ← snapshot_now h o v x
    free ← liquidity h o v x
    payable ← lift_shares (to_shares s free false)
    ok (min_ℤ (balance v.shares owner) payable)
