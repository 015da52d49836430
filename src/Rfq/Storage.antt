-- ===== src/Rfq/Storage.antt =====
-- contracts/rfq/src/storage.rs: one field for each `DataKey`. An entry that the source reads with
-- `unwrap_or` starts at that default; one that it unwraps is optional. Times to live are not
-- modelled: an entry stays until it is removed.
use stellar_rfq.Prelude.{ℕ, ◌+◌, Bool, true, false, Option, none, some, []}
use stellar_rfq.Prelude.Int.{ℤ, pos}
use stellar_rfq.Prelude.Maps.{Bytes, update, nat_eq, bytes_eq}
use stellar_rfq.Prelude.Result.{ok, ◌>>=◌, or_trap}
use stellar_rfq.Prelude.Words.{u64_max, uint}
use stellar_rfq.Types.{Address, Schedule}
use stellar_rfq.Rfq.Types.{Return, Config, Reference, OracleCfg, PushedPrice, Listing}

pub record Storage : Type 0 where
  pub admin_entry : Option Address
  pub cfg : Option Config
  pub ref : Option Reference
  pub paused : Bool
  pub next_id : ℕ
  pub keeper : Address → Bool
  pub sched : Address → Option Schedule
  pub oracle : Address → Address → Option OracleCfg
  pub fallback : Address → Option PushedPrice
  pub filled : Bytes → ℤ
  pub request_filled : Bytes → ℤ
  pub salt_cancelled : Address → ℕ → Bool
  pub signer : Address → Bytes → Bool
  pub listing : ℕ → Option Listing
  -- The hash of the contract's code, which the host keeps for it.
  pub wasm_hash : Bytes

-- Nothing stored yet.
abbrev pub empty : Storage
empty = record {
  admin_entry = none;
  cfg = none;
  ref = none;
  paused = false;
  next_id = 1;
  keeper = λ _. false;
  sched = λ _. none;
  oracle = λ _ _. none;
  fallback = λ _. none;
  filled = λ _. pos 0;
  request_filled = λ _. pos 0;
  salt_cancelled = λ _ _. false;
  signer = λ _ _. false;
  listing = λ _. none;
  wasm_hash = [];
}

-- The contract's storage and the state of the other contracts, between calls.
pub record World (T : Type 0) : Type 0 where
  pub store : Storage
  pub ext : T

abbrev pub admin : Storage → Return Address
admin s = or_trap s.admin_entry

abbrev pub config : Storage → Return Config
config s = or_trap s.cfg

abbrev pub reference : Storage → Return Reference
reference s = or_trap s.ref

-- `next_id`: the id that is handed out, and the storage with the next one.
unfoldable pub take_id : Storage → Return (ℕ × Storage)
take_id s = do next ← uint u64_max (s.next_id + 1); ok (s.next_id, record s { next_id = next })

unfoldable pub set_keeper : Storage → Address → Bool → Storage
set_keeper s who v = record s { keeper = update s.keeper who v }

unfoldable pub set_schedule : Storage → Address → Schedule → Storage
set_schedule s asset v = record s { sched = update s.sched asset (some v) }

unfoldable pub set_oracle : Storage → Address → Address → Option OracleCfg → Storage
set_oracle s base quote v = record s {
  oracle = update s.oracle base (update (s.oracle base) quote v);
}

unfoldable pub set_fallback : Storage → Address → PushedPrice → Storage
set_fallback s asset v = record s { fallback = update s.fallback asset (some v) }

unfoldable pub set_filled : Storage → Bytes → ℤ → Storage
set_filled s hash v = record s { filled = update s.filled hash v }

unfoldable pub set_request_filled : Storage → Bytes → ℤ → Storage
set_request_filled s hash v = record s { request_filled = update s.request_filled hash v }

unfoldable pub set_salt_cancelled : Storage → Address → ℕ → Storage
set_salt_cancelled s who salt = record s {
  salt_cancelled = update s.salt_cancelled who (update (s.salt_cancelled who) salt true);
}

unfoldable pub set_signer : Storage → Address → Bytes → Bool → Storage
set_signer s maker key v = record s {
  signer = update s.signer maker (update (s.signer maker) key v);
}

unfoldable pub set_listing : Storage → ℕ → Listing → Storage
set_listing s id l = record s { listing = update s.listing id (some l) }
