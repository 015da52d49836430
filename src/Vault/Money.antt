-- ===== src/Vault/Money.antt =====
-- contracts/vault/src/lib.rs: deposits and withdrawals.
use stellar_rfq.Prelude.{true, false, not, ◌||◌}
use stellar_rfq.Prelude.Int.{ℤ, pos, ltb_ℤ, leb_ℤ}
use stellar_rfq.Prelude.Maps.{nat_eq, ◌!=◌}
use stellar_rfq.Prelude.Result.{ok, ◌>>=◌, ◌>>◌, fail_if, or_trap}
use stellar_rfq.Prelude.Words.{add_i128, sub_i128}
use stellar_rfq.Types.{Address}
use stellar_rfq.Host.{Host, require_auth}
use stellar_rfq.Shares
use stellar_rfq.Shares.{admitted, spend_allowance, burn}
use stellar_rfq.Shares.Fees.{Snapshot, to_shares, to_assets}
use stellar_rfq.Vault.{
  Vault, Links, Return, invalid_amount, not_allowlisted, deposit_cap_exceeded, config, idle,
  accrue_now, snapshot_now, lift_shares,
}
use stellar_rfq.Vault.Venues.{send}

unfoldable pub credit : Vault → Address → ℤ → Return Vault
credit v receiver minted = do
  fail_if (leb_ℤ minted (pos 0)) invalid_amount
  shares ← lift_shares (Shares.mint v.shares receiver minted)
  ok (record v { shares = shares })

-- 0 means uncapped.
unfoldable pub check_cap : ℤ → ℤ → ℤ → Return (Unit {0})
check_cap cap nav assets = elim (ltb_ℤ (pos 0) cap) [
  | true ↦ do total ← add_i128 nav assets; fail_if (ltb_ℤ cap total) deposit_cap_exceeded
  | false ↦ ok tt
]

module _ {T : Type 0} (h : Host T) where
  -- The payer always consents; an operator acting for them must too.
  unfoldable pub agree : Address → Address → Return (Unit {0})
  agree from operator = do
    require_auth h operator
    elim (operator != from) [ true ↦ require_auth h from | false ↦ ok tt ]

  -- What actually arrived.
  unfoldable pub pull : Vault → T → Address → ℤ → Return (ℤ × T)
  pull v x from assets = do
    before ← idle h v x
    c ← config v
    x' ← or_trap (h.transfer x c.asset from h.me assets)
    after ← idle h v x'
    received ← sub_i128 after before
    ok (received, x')

  -- An operator other than the owner spends the owner's share allowance.
  unfoldable pub spend : Shares.Shares → Address → Address → ℤ → Return Shares.Shares
  spend s owner operator burned = elim (operator != owner) [
    | true ↦ lift_shares (spend_allowance h s owner operator burned)
    | false ↦ ok s
  ]

module _ {T : Type 0} (h : Host T) (o : Links T) where
  unfoldable pub enter : Vault → T → Address → Address → Address → ℤ → Return (Snapshot × Vault)
  unfolding agree check_cap
  enter v x from receiver operator assets = do
    agree h from operator
    fail_if (leb_ℤ assets (pos 0)) invalid_amount
    fail_if (not (admitted h v.shares from) || not (admitted h v.shares receiver)) not_allowlisted
    (s, v') ← accrue_now h o v x
    c ← config v'
    check_cap c.deposit_cap s.nav assets
    ok (s, v')

  unfoldable pub deposit : Vault × T → ℤ → Address → Address → Address → Return (ℤ × (Vault × T))
  unfolding enter pull credit
  deposit (v, x) assets receiver from operator = do
    (s, v1) ← enter v x from receiver operator assets
    (received, x') ← pull h v1 x from assets
    minted ← lift_shares (to_shares s received false)
    v2 ← credit v1 receiver minted
    ok (minted, (v2, x'))

  unfoldable pub mint : Vault × T → ℤ → Address → Address → Address → Return (ℤ × (Vault × T))
  unfolding enter pull credit
  mint (v, x) shares receiver from operator = do
    s ← snapshot_now h o v x
    assets ← lift_shares (to_assets s shares true)
    (s', v1) ← enter v x from receiver operator assets
    (received, x') ← pull h v1 x from assets
    fail_if (ltb_ℤ received assets) invalid_amount
    v2 ← credit v1 receiver shares
    ok (assets, (v2, x'))

  unfoldable pub exit : Vault → T → Address → Address → Address → ℤ → ℤ → Return (Vault × T)
  unfolding spend
  exit v x owner operator receiver burned assets = do
    require_auth h operator
    fail_if (leb_ℤ burned (pos 0) || leb_ℤ assets (pos 0)) invalid_amount
    spent ← spend h v.shares owner operator burned
    left ← lift_shares (burn spent owner burned)
    let v' = record v { shares = left }
    x' ← send h o v' x receiver assets
    ok (v', x')

  unfoldable pub withdraw : Vault × T → ℤ → Address → Address → Address → Return (ℤ × (Vault × T))
  unfolding exit
  withdraw (v, x) assets receiver owner operator = do
    (s, v1) ← accrue_now h o v x
    burned ← lift_shares (to_shares s assets true)
    z ← exit v1 x owner operator receiver burned assets
    ok (burned, z)

  unfoldable pub redeem : Vault × T → ℤ → Address → Address → Address → Return (ℤ × (Vault × T))
  unfolding exit
  redeem (v, x) shares receiver owner operator = do
    (s, v1) ← accrue_now h o v x
    assets ← lift_shares (to_assets s shares false)
    z ← exit v1 x owner operator receiver shares assets
    ok (assets, z)
