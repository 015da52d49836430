-- ===== src/Host.antt =====
-- The Soroban host and the contracts that are called from outside: what the code relies on and
-- does not implement. `T` is the state of all other contracts (tokens, oracles), which a call may
-- change. A call that traps has no result.
use stellar_rfq.Prelude.{ℕ, Bool, Option}
use stellar_rfq.Prelude.Int.{ℤ}
use stellar_rfq.Prelude.Maps.{Bytes}
use stellar_rfq.Prelude.Result.{Result, trap_unless}
use stellar_rfq.Types.{Address, PriceData}
use stellar_rfq.Orders.{Request, RfqOrder, FixedOrder}

pub record Host (T : Type 0) : Type 0 where
  -- `env.current_contract_address()`, `env.ledger().timestamp()`, `env.ledger().sequence()`
  pub me : Address
  pub timestamp : ℕ
  pub sequence : ℕ
  -- Whether the address has authorised the call under way (`require_auth`).
  pub authorised : Address → Bool
  -- SEP-41: `balance(token, who)`, `transfer(token, from, to, amount)` and
  -- `transfer_from(token, spender, from, to, amount)`.
  pub balance : T → Address → Address → Option ℤ
  pub transfer : T → Address → Address → Address → ℤ → Option T
  pub transfer_from : T → Address → Address → Address → Address → ℤ → Option T
  -- `try_get_price(oracle, base, quote)`: nothing when the call fails.
  pub get_price : T → Address → Address → Address → Option PriceData
  -- Cryptography and serialisation.
  pub sha256 : Bytes → Bytes
  pub ed25519_verify : Bytes → Bytes → Bytes → Bool
  pub address_xdr : Address → Bytes
  pub request_xdr : Request → Bytes
  pub rfq_order_xdr : RfqOrder → Bytes
  pub fixed_order_xdr : FixedOrder → Bytes

-- `who.require_auth()`
abbrev pub require_auth : {T E : Type 0} → Host T → Address → Result E (Unit {0})
require_auth h who = trap_unless (h.authorised who)
