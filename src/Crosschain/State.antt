-- ===== src/Crosschain/State.antt =====
-- contracts/crosschain_settle/src/lib.rs: the stored state, and the helpers that every entry point
-- shares.
use stellar_rfq.Prelude.{ℕ, ◌^◌, Bool, Option, none, some, if◌then◌else◌}
use stellar_rfq.Prelude.Int.{ℤ, pos, leb_ℤ}
use stellar_rfq.Prelude.Maps.{Bytes, update, nat_eq, bytes_eq, ◌!=◌}
use stellar_rfq.Prelude.Result.{ok, ◌>>=◌, fail_if, or_trap, or_err}
use stellar_rfq.Prelude.Words.{i128, add_i128, sub_uint}
use stellar_rfq.Types.{Address}
use stellar_rfq.Host.{Host}
use stellar_rfq.Timelock.{Timelock}
use stellar_rfq.Crosschain.Types.{
  no_peer, unknown_sender, Return, Config, Peer, Change, Order, Push, Links,
}
use stellar_rfq.Crosschain.Wire.{address_bytes}

-- One field for each `Key`.
pub record Settle : Type 0 where
  pub admin_entry : Option Address
  pub config_entry : Option Config
  pub peer : ℕ → Option Peer
  pub route : ℕ → Address → Option Bytes
  pub vault : Address → Option Address
  pub order : Bytes → Option Order
  pub filled : Bytes → Bool
  pub used : Bytes → Bool
  pub push_of : Bytes → Option Push
  pub owed : Address → Address → ℤ
  pub timelock : Timelock Change

unfoldable pub config : Settle → Return Config
config s = or_trap s.config_entry

unfoldable pub admin : Settle → Return Address
admin s = or_trap s.admin_entry

unfoldable pub peer_of : Settle → ℕ → Return Peer
peer_of s chain = or_err (s.peer chain) no_peer

unfoldable pub check_peer : Settle → ℕ → Bytes → Return (Unit {0})
unfolding peer_of
check_peer s chain sender = do p ← peer_of s chain; fail_if (p.addr != sender) unknown_sender

unfoldable pub set_owed : Settle → Address → Address → ℤ → Settle
set_owed s to token v = record s { owed = update s.owed to (update (s.owed to) token v) }

module _ {T : Type 0} (h : Host T) (k : Links T) where
  -- Units of a token per unit on the wire, which has 6 decimals.
  unfoldable pub unit : T → Address → Return ℤ
  unit x token = do d ← or_trap (k.decimals x token); n ← sub_uint d 6; i128 (pos (10 ^ n))

  unfoldable pub address : Bytes → Bool → Return Address
  address key contract = or_trap (k.address_of (address_bytes key contract))

  -- Pays a token, or owes it for `withdraw` if the receiver cannot take it yet.
  unfoldable pub send_or_hold : Settle × T → Address → Address → ℤ → Return (Settle × T)
  unfolding set_owed
  send_or_hold (s, x) token to amount =
      if leb_ℤ amount (pos 0) then ok (s, x) else elim (h.transfer x token h.me to amount) [
        | some x' ↦ ok (s, x')
        | none ↦ do total ← add_i128 (s.owed to token) amount; ok (set_owed s to token total, x)
      ]
