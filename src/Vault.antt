-- ===== src/Vault.antt =====
-- contracts/vault/src/lib.rs: the vault's state, the contracts it calls, and what its shares are
-- worth. Shares and timelock are the parts of this library with those names.
pub mod Views
pub mod Venues
pub mod Money
pub mod Curation
pub mod Intake
mod Tests
use stellar_rfq.Prelude.{ℕ, Bool, Option, none, some, List, [], ◌∷◌}
use stellar_rfq.Prelude.Int.{ℤ}
use stellar_rfq.Prelude.Maps.{Bytes}
use stellar_rfq.Prelude.Result.{Result, ok, err, trap, ◌>>=◌, or_trap}
use stellar_rfq.Prelude.Words.{add_i128}
use stellar_rfq.Types.{Address, VaultConfig}
use stellar_rfq.Host.{Host}
use stellar_rfq.Shares.{Shares, ShareError}
use stellar_rfq.Shares.Fees.{Snapshot, snapshot, accrue}
use stellar_rfq.Timelock.{Timelock, TimelockError}

-- `contracts/vault/src/errors.rs`, with the errors of the crates it stands on.
pub data Error : Type 0 where
  invalid_amount invalid_config deposit_cap_exceeded not_allowlisted : Error
  insufficient_liquidity venue_not_found venue_not_empty too_many_venues : Error
  from_shares : ShareError → Error
  from_timelock : TimelockError → Error

abbrev pub Return : Type 0 → Type 0
Return A = Result Error A

abbrev pub max_curator_fee_bps : ℕ
max_curator_fee_bps = 5_000

abbrev pub max_venues : ℕ
max_venues = 8

pub data Change : Type 0 where
  curator_fee : ℕ → Change
  deposit_cap : ℤ → Change
  venue : Bytes → Address → Change

-- One field for each `Key`, and the entries of the crates.
pub record Vault : Type 0 where
  pub host_entry : Option Address
  pub config_entry : Option VaultConfig
  pub venues : List Address
  pub shares : Shares
  pub timelock : Timelock Change

-- What is called besides tokens: venue adapters and the vault host (common/src/interfaces.rs), and
-- the deployer. A call that fails has no result.
pub record Links (T : Type 0) : Type 0 where
  pub total_assets : T → Address → Option ℤ
  pub max_withdraw : T → Address → Option ℤ
  pub supply : T → Address → ℤ → Option (ℤ × T)
  pub withdraw : T → Address → ℤ → Address → Option (ℤ × T)
  pub decimals : T → Address → Option ℕ
  pub host_admin : T → Address → Option Address
  pub vault_wasm : T → Address → Option Bytes
  pub deploy_adapter : T → Address → Address → Bytes → Address → Address → Option (Address × T)
  pub update_wasm : T → Bytes → Option T

unfoldable pub lift_shares : {A : Type 0} → Result ShareError A → Return A
lift_shares (ok a) = ok a
lift_shares (err e) = err (from_shares e)
lift_shares trap = trap

unfoldable pub lift_timelock : {A : Type 0} → Result TimelockError A → Return A
lift_timelock (ok a) = ok a
lift_timelock (err e) = err (from_timelock e)
lift_timelock trap = trap

unfoldable pub config : Vault → Return VaultConfig
config v = or_trap v.config_entry

-- A sum over the venues, in their order.
unfoldable pub add_each : (Address → Option ℤ) → List Address → ℤ → Return ℤ
add_each worth [] total = ok total
add_each worth (a ∷ venues) total = do
  w ← or_trap (worth a)
  more ← add_i128 total w
  add_each worth venues more

module _ {T : Type 0} (h : Host T) where
  unfoldable pub idle : Vault → T → Return ℤ
  unfolding config
  idle v x = do c ← config v; or_trap (h.balance x c.asset h.me)

module _ {T : Type 0} (h : Host T) (o : Links T) where
  unfoldable pub gross : Vault → T → Return ℤ
  unfolding idle add_each
  gross v x = do held ← idle h v x; add_each (o.total_assets x) v.venues held

  -- Payable right now: idle plus what venues can return in this transaction.
  unfoldable pub liquidity : Vault → T → Return ℤ
  unfolding idle add_each
  liquidity v x = do held ← idle h v x; add_each (o.max_withdraw x) v.venues held

  unfoldable pub snapshot_now : Vault → T → Return Snapshot
  unfolding gross config lift_shares
  snapshot_now v x = do
    nav ← gross v x
    c ← config v
    lift_shares (snapshot v.shares nav c.curator_fee_bps)

  unfoldable pub accrue_now : Vault → T → Return (Snapshot × Vault)
  unfolding gross config lift_shares
  accrue_now v x = do
    c ← config v
    nav ← gross v x
    (s, shares) ← lift_shares (accrue v.shares nav c.curator_fee_bps c.curator)
    ok (s, record v { shares = shares })
