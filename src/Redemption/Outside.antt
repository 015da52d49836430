-- ===== src/Redemption/Outside.antt =====
-- What contracts/redemption_vault/src/lib.rs calls besides the host's tokens and oracles: claim
-- tokens, redemption accounts, the call verifier and the deployer (crates/common/src/interfaces.rs).
-- A call that fails has no result.
use stellar_rfq.Prelude.{ℕ, Bool, Option, List}
use stellar_rfq.Prelude.Int.{ℤ}
use stellar_rfq.Prelude.Maps.{Bytes}
use stellar_rfq.Types.{Address}
use stellar_rfq.Redemption.Types.{Symbol, Val}

-- The constructor arguments of a claim token.
pub record CtArgs : Type 0 where
  pub minter : Address
  pub rwa : Address
  pub batch : ℕ
  pub gate : Option Address
  pub name : Bytes
  pub symbol : Bytes

pub record Outside (T : Type 0) : Type 0 where
  -- The claim token at an address.
  pub mint : T → Address → Address → ℤ → Option T
  pub burn_claim : T → Address → Address → ℤ → Option T
  pub set_gate : T → Address → Option Address → Option T
  pub total_supply : T → Address → Option ℤ
  -- `symbol` of a token, in bytes.
  pub token_symbol : T → Address → Option Bytes
  -- `deploy_v2` with this contract as the deployer: the salt, the code and the arguments.
  pub deploy_ct : T → Bytes → Bytes → CtArgs → Option (Address × T)
  pub deploy_account : T → Bytes → Bytes → Address → Option (Address × T)
  pub deployed_address : Bytes → Address
  -- The redemption account at an address.
  pub execute : T → Address → Address → Symbol → List Val → Option T
  pub approve : T → Address → Address → Address → ℤ → Option T
  pub sweep : T → Address → Address → Address → Option T
  -- `verify(verifier, caller, account, target, func, args)`
  pub verify : T → Address → Address → Address → Address → Symbol → List Val → Option Bool
  -- `symbol_short!("transfer")` and the arguments `(from, to, amount)` of a transfer.
  pub transfer_symbol : Symbol
  pub transfer_args : Address → Address → ℤ → List Val
