-- ===== src/Vault/Curation.antt =====
-- contracts/vault/src/lib.rs: deployment, changes under the timelock, the manager's and the
-- curator's calls.
use stellar_rfq.Prelude.{ℕ, Bool, ◌||◌, some, ltb, if◌then◌else◌}
use stellar_rfq.Prelude.Int.{ℤ, pos, ltb_ℤ}
use stellar_rfq.Prelude.Maps.{Bytes, bytes_eq, ◌!=◌}
use stellar_rfq.Prelude.Result.{ok, err, ◌>>=◌, ◌>>◌, fail_if, or_trap}
use stellar_rfq.Types.{Address, VaultConfig}
use stellar_rfq.Host.{Host, require_auth}
use stellar_rfq.Shares
use stellar_rfq.Timelock
use stellar_rfq.Vault.{
  Vault, Links, Return, Change, curator_fee, deposit_cap, venue, max_curator_fee_bps,
  invalid_config, config, accrue_now, lift_shares, lift_timelock,
}
use stellar_rfq.Vault.Venues.{curator_auth, manager_auth, add_venue}

unfoldable pub kind : Change → ℕ
kind (curator_fee bps) = 0
kind (deposit_cap cap) = 1
kind (venue wasm address) = 2

unfoldable pub check_change : Change → Return (Unit {0})
check_change (curator_fee bps) = fail_if (ltb max_curator_fee_bps bps) invalid_config
check_change _ = ok tt

module _ {T : Type 0} (h : Host T) (o : Links T) where
  unfoldable pub construct : Vault → T → Address → VaultConfig → Return Vault
  construct v x host c = do
    fail_if (ltb_ℤ c.deposit_cap (pos 0) || ltb max_curator_fee_bps c.curator_fee_bps)
        invalid_config
    decimals ← or_trap (o.decimals x c.asset)
    shares ← lift_shares (Shares.init v.shares decimals c.name c.symbol)
    ok (record v {
      shares = shares;
      timelock = Timelock.init v.timelock c.timelock c.guardian;
      host_entry = some host;
      config_entry = some c;
    })

  unfoldable pub submit : Vault → Change → Return (ℕ × Vault)
  unfolding check_change kind
  submit v change = do
    c ← config v
    require_auth h c.curator
    check_change change
    (at, t) ← Timelock.submit h v.timelock (kind change) change
    ok (at, record v { timelock = t })

  -- The vault, the other contracts, and the configuration that is stored at the end.
  unfoldable pub apply_change :
      Vault → T → VaultConfig → Change → Return (Vault × (T × VaultConfig))
  apply_change v x c (curator_fee bps) = do
    (s, v') ← accrue_now h o v x
    ok (v', (x, record c { curator_fee_bps = bps }))
  apply_change v x c (deposit_cap cap) =
      if ltb_ℤ cap (pos 0) then err invalid_config else ok (v, (x, record c { deposit_cap = cap }))
  apply_change v x c (venue wasm address) = do
    (v', x') ← add_venue h o v x c wasm address
    ok (v', (x', c))

  -- Anyone may apply a change once its delay has passed.
  unfoldable pub accept : Vault × T → ℕ → Return (Vault × T)
  unfolding apply_change
  accept (v, x) k = do
    c ← config v
    (change, t) ← lift_timelock (Timelock.take h v.timelock k)
    (v', (x', c')) ← apply_change (record v { timelock = t }) x c change
    ok (record v' { config_entry = some c' }, x')

  unfoldable pub revoke : Vault → ℕ → Address → Return Vault
  revoke v k caller = do
    c ← config v
    t ← lift_timelock (Timelock.revoke h v.timelock k caller c.curator)
    ok (record v { timelock = t })

  unfoldable pub set_manager : Vault → Address → Return Vault
  set_manager v manager = do
    c ← curator_auth h v
    ok (record v { config_entry = some (record c { manager = manager }) })

  unfoldable pub set_allowlist : Vault → Bool → Return Vault
  set_allowlist v enabled = do
    c ← curator_auth h v
    ok (record v { shares = Shares.set_allowlist v.shares enabled })

  unfoldable pub set_member : Vault → Address → Bool → Return Vault
  set_member v who allowed = do
    c ← curator_auth h v
    ok (record v { shares = Shares.set_member v.shares who allowed })

  unfoldable pub freeze : Vault → Address → Bool → Return Vault
  freeze v who frozen = do
    c ← manager_auth h v
    ok (record v { shares = Shares.set_frozen v.shares who frozen })

  unfoldable pub seize : Vault → Address → Address → ℤ → Return Vault
  seize v from to amount = do
    c ← manager_auth h v
    shares ← lift_shares (Shares.seize v.shares from to amount)
    ok (record v { shares = shares })

  -- Only to the code the host has registered.
  unfoldable pub upgrade : Vault → T → Bytes → Return T
  upgrade v x new_wasm_hash = do
    host ← or_trap v.host_entry
    admin ← or_trap (o.host_admin x host)
    require_auth h admin
    wasm ← or_trap (o.vault_wasm x host)
    fail_if (new_wasm_hash != wasm) invalid_config
    or_trap (o.update_wasm x new_wasm_hash)
