-- ===== src/Timelock.antt =====
-- crates/common/src/timelock.rs: submit, wait, accept, with a guardian who can revoke. `C` is the
-- contract's own type of changes, so a stored change always decodes.
pub mod Delay
mod Tests
use stellar_rfq.Prelude.{
  ℕ, ◌+◌, ◌*◌, ◌^◌, Bool, true, false, ◌&&◌, Option, none, some, ltb, if◌then◌else◌, List, [], ◌∷◌,
}
use Prim.Native.Nat.{bit_or}
use stellar_rfq.Prelude.Maps.{update, nat_eq, ◌!=◌, Bytes}
use stellar_rfq.Prelude.Result.{Result, ok, err, trap, ◌>>=◌, ◌>>◌, fail_if, or_trap, or_err}
use stellar_rfq.Prelude.Words.{u64_max, uint}
use stellar_rfq.Types.{Address}
use stellar_rfq.Host.{Host, require_auth}

pub data TimelockError : Type 0 where
  no_pending not_ready not_guardian : TimelockError

-- The entries under `TimelockKey`. A change waits with the time from which it can be accepted.
pub record Timelock (C : Type 0) : Type 0 where
  pub delay_entry : Option ℕ
  pub guardian_entry : Option Address
  pub waiting : ℕ → Option (C × ℕ)

unfoldable pub init : {C : Type 0} → Timelock C → ℕ → Address → Timelock C
init t d g = record t { delay_entry = some d; guardian_entry = some g }

pub delay : {C : Type 0} → Timelock C → ℕ
delay t = elim t.delay_entry [ none ↦ 0 | some d ↦ d ]

unfoldable pub guardian : {C E : Type 0} → Timelock C → Result E Address
guardian t = or_trap t.guardian_entry

-- `kind_of`: the first four bytes of the hash of the key, big-endian, with the high bit set.
first_word : Bytes → Option ℕ
first_word (a ∷ b ∷ c ∷ d ∷ rest) =
    some (bit_or (a * 2 ^ 24 + b * 2 ^ 16 + c * 2 ^ 8 + d) 0x8000_0000)
first_word _ = none

unfoldable pub kind_of : {T E : Type 0} → Host T → Bytes → Result E ℕ
unfolding first_word
kind_of h key = or_trap (first_word (h.sha256 key))

module _ {T C : Type 0} (h : Host T) where
  -- The time from which the change can be accepted, and the store with it waiting.
  unfoldable pub submit : {E : Type 0} → Timelock C → ℕ → C → Result E (ℕ × Timelock C)
  unfolding delay
  submit t kind change = do
    valid_at ← uint u64_max (h.timestamp + delay t)
    ok (valid_at, record t { waiting = update t.waiting kind (some (change, valid_at)) })

  unfoldable pub take : Timelock C → ℕ → Result TimelockError (C × Timelock C)
  take t kind = do
    (change, valid_at) ← or_err (t.waiting kind) no_pending
    fail_if (ltb h.timestamp valid_at) not_ready
    ok (change, record t { waiting = update t.waiting kind none })

  unfoldable pub revoke : Timelock C → ℕ → Address → Address → Result TimelockError (Timelock C)
  unfolding guardian
  revoke t kind caller admin = do
    require_auth h caller
    g ← elim (caller != admin) [ true ↦ guardian t | false ↦ ok admin ]
    fail_if (caller != admin && caller != g) not_guardian
    ok (record t { waiting = update t.waiting kind none })
