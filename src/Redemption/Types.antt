-- ===== src/Redemption/Types.antt =====
-- contracts/redemption_vault/src/lib.rs: the stored types. Symbols and call arguments are kept as
-- their serialised bytes.
use stellar_rfq.Prelude.{ℕ, Bool, true, false, Option, none, List, ◌≡◌, ◌↔◌, refl}
use stellar_rfq.Prelude.Int.{ℤ, pos}
use stellar_rfq.Prelude.Maps.{Bytes, Comparable}
use stellar_rfq.Prelude.Result.{Result}
use stellar_rfq.Types.{Address}
use stellar_rfq.Timelock.{TimelockError}

pub data Error : Type 0 where
  invalid_amount wrong_status wrong_mode no_price not_allowed issuer_took_wrong_amount : Error
  rwa_moved proceeds_too_low call_not_verified no_free_account batches_in_flight : Error
  invalid_settings paused not_authorized : Error
  -- An error of the timelock, which panics on its own.
  from_timelock : TimelockError → Error

abbrev pub Return {ℓ} : Type ℓ → Type ℓ
Return A = Result Error A

pub data Mode : Type 0 where
  auto manual : Mode

pub data Status : Type 0 where
  «open» sent settled : Status

abbrev same_mode : Mode → Mode → Bool
same_mode auto auto = true
same_mode manual manual = true
same_mode _ _ = false

pub same_mode_iff : (a b : Mode) → (same_mode a b ≡ true) ↔ (a ≡ b)
same_mode_iff auto auto = (λ _. refl, λ _. refl)
same_mode_iff auto manual = (λ e. absurd (cc), λ e. absurd (cc))
same_mode_iff manual auto = (λ e. absurd (cc), λ e. absurd (cc))
same_mode_iff manual manual = (λ _. refl, λ _. refl)

instance abbrev pub mode_eq : Comparable Mode
mode_eq = record { same = same_mode; same_iff = same_mode_iff }

abbrev same_status : Status → Status → Bool
same_status «open» «open» = true
same_status sent sent = true
same_status settled settled = true
same_status _ _ = false

pub same_status_iff : (a b : Status) → (same_status a b ≡ true) ↔ (a ≡ b)
same_status_iff «open» «open» = (λ _. refl, λ _. refl)
same_status_iff «open» sent = (λ e. absurd (cc), λ e. absurd (cc))
same_status_iff «open» settled = (λ e. absurd (cc), λ e. absurd (cc))
same_status_iff sent «open» = (λ e. absurd (cc), λ e. absurd (cc))
same_status_iff sent sent = (λ _. refl, λ _. refl)
same_status_iff sent settled = (λ e. absurd (cc), λ e. absurd (cc))
same_status_iff settled «open» = (λ e. absurd (cc), λ e. absurd (cc))
same_status_iff settled sent = (λ e. absurd (cc), λ e. absurd (cc))
same_status_iff settled settled = (λ _. refl, λ _. refl)

instance abbrev pub status_eq : Comparable Status
status_eq = record { same = same_status; same_iff = same_status_iff }

pub record Init : Type 0 where
  pub rwa : Address
  pub stable : Address
  pub ct_wasm : Bytes
  pub account_wasm : Bytes

pub record Roles : Type 0 where
  pub admin : Address
  pub guardian : Address
  pub settler : Address
  pub operator : Address

pub record Settings : Type 0 where
  pub mode : Mode
  pub strike_at_send : Bool
  pub verifier : Option Address
  pub gate : Option Address
  pub oracle : Option Address
  pub max_age : ℕ
  pub fee_bps : ℕ
  pub fee_recipient : Option Address
  pub floor_bps : ℕ
  pub destinations : List Address

pub data Change : Type 0 where
  set_settings : Settings → Change
  set_roles : Roles → Change
  skims : (token to : Address) → Change
  set_delay : ℕ → Change

pub record Batch : Type 0 where
  pub status : Status
  pub ct : Address
  pub account : Option Address
  pub units : ℤ
  pub unsent : ℤ
  pub proceeds : ℤ
  pub fee : ℤ
  pub remaining : ℤ
  pub strike : ℤ
  pub nav_start : ℤ
  pub nav_end : ℤ
  pub sent_at : ℕ
  pub settled_at : ℕ

pub record Totals : Type 0 where
  pub pooled : ℤ
  pub proceeds : ℤ
  pub rwa : ℤ
  pub sent : ℕ

abbrev pub Symbol : Type 0
Symbol = Bytes

abbrev pub Val : Type 0
Val = Bytes

pub record Call : Type 0 where
  pub target : Address
  pub func : Symbol
  pub args : List Val

abbrev pub max_fee_bps : ℕ
max_fee_bps = 2_000

-- The batch that `open` starts with.
abbrev pub new_batch : Address → Batch
new_batch c = record {
  status = «open»;
  ct = c;
  account = none;
  units = pos 0;
  unsent = pos 0;
  proceeds = pos 0;
  fee = pos 0;
  remaining = pos 0;
  strike = pos 0;
  nav_start = pos 0;
  nav_end = pos 0;
  sent_at = 0;
  settled_at = 0;
}
