-- ===== src/Rfq/Frames.antt =====
-- contracts/rfq/src/lib.rs: what each entry point leaves alone.
use stellar_rfq.Prelude.{ℕ, ◌≤◌, ◌≡◌, ◌⊎◌, inl, inr, true, Bool, some, Option, arith}
use stellar_rfq.Prelude.Int.{ℤ}
use stellar_rfq.Prelude.Maps.{Bytes, nat_eq, bytes_eq, update}
use stellar_rfq.Prelude.Result.{Result, ok}
use stellar_rfq.Host.{Host}
use stellar_rfq.Types.{Address, Schedule}
use stellar_rfq.Rfq.Types.{Error, Config, OracleCfg}
use stellar_rfq.Rfq.Storage.{
  Storage, set_keeper, set_oracle, set_schedule, set_fallback, set_signer, set_salt_cancelled,
}
use stellar_rfq.Rfq.Admin.{
  initialize, upgrade, set_config, set_reference, allow_keeper, set_paused, configure_oracle,
  schedule_asset, push_price, register_order_signer, cancel_salt, initial_config,
}

-- The entry points that touch the contract's storage alone.
pub data Setting : Type 0 where
  initializes : Address → Address → Setting
  upgrades : Bytes → Setting
  configures : Config → Setting
  references : Address → Setting
  keeps : Address → Bool → Setting
  pauses : Bool → Setting
  prices_by : Address → Address → Option OracleCfg → Setting
  schedules : Address → Address → Schedule → Setting
  pushes : Address → Address → ℤ → Setting
  registers : Address → Bytes → Bool → Setting
  cancels_salt : Address → Address → ℕ → Setting

module _ {T : Type 0} (h : Host T) where
  pub apply : Setting → Storage → Result Error Storage
  apply (initializes who asset) s = initialize h s who asset
  apply (upgrades hash) s = upgrade h s hash
  apply (configures c) s = set_config h s c
  apply (references asset) s = set_reference h s asset
  apply (keeps who allowed) s = allow_keeper h s who allowed
  apply (pauses on) s = set_paused h s on
  apply (prices_by base quote cfg) s = configure_oracle h s base quote cfg
  apply (schedules caller asset schedule) s = schedule_asset h s caller asset schedule
  apply (pushes caller asset price) s = push_price h s caller asset price
  apply (registers maker key allowed) s = register_order_signer h s maker key allowed
  apply (cancels_salt caller who salt) s = cancel_salt h s caller who salt

-- The configuration that a setting leaves is the one before, or one whose fees are in bounds.
abbrev pub FeesBounded : Config → Type 0
FeesBounded c =
    (c.min_fee_bps ≤ c.max_fee_bps) × (c.max_fee_bps ≤ 2_000) × (c.max_deviation_bps ≤ 10_000)

abbrev pub Frame : Storage → Storage → Type 0
Frame s s' =
    (s'.filled ≡ s.filled)
    × (s'.request_filled ≡ s.request_filled)
    × (s'.listing ≡ s.listing)
    × (s'.next_id ≡ s.next_id)
    × ((s'.cfg ≡ s.cfg) ⊎ ((c : Config) × (s'.cfg ≡ some c) × FeesBounded c))

pub frame :
    {T : Type 0} (h : Host T) (op : Setting) (s : Storage) {s' : Storage}
    → apply h op s ≡ ok s'
    → Frame s s'
unfolding apply initialize upgrade set_config set_reference allow_keeper set_paused configure_oracle
    schedule_asset push_price register_order_signer cancel_salt set_keeper set_oracle set_schedule
    set_fallback set_signer set_salt_cancelled
frame h (initializes who asset) s e = (
  ground arith,
  ground arith,
  ground arith,
  ground arith,
  inr (initial_config, ground arith, ground arith),
)
frame h (upgrades hash) s e =
    (ground arith, ground arith, ground arith, ground arith, inl (ground arith))
frame h (configures c) s e =
    (ground arith, ground arith, ground arith, ground arith, inr (c, ground arith, ground arith))
frame h (references asset) s e =
    (ground arith, ground arith, ground arith, ground arith, inl (ground arith))
frame h (keeps who allowed) s e =
    (ground arith, ground arith, ground arith, ground arith, inl (ground arith))
frame h (pauses on) s e =
    (ground arith, ground arith, ground arith, ground arith, inl (ground arith))
frame h (prices_by base quote cfg) s e =
    (ground arith, ground arith, ground arith, ground arith, inl (ground arith))
frame h (schedules caller asset schedule) s e =
    (ground arith, ground arith, ground arith, ground arith, inl (ground arith))
frame h (pushes caller asset price) s e =
    (ground arith, ground arith, ground arith, ground arith, inl (ground arith))
frame h (registers maker key allowed) s e =
    (ground arith, ground arith, ground arith, ground arith, inl (ground arith))
frame h (cancels_salt caller who salt) s e =
    (ground arith, ground arith, ground arith, ground arith, inl (ground arith))

pub salt_set :
    (f : Address → ℕ → Bool) (a : Address) (n : ℕ) (who : Address) (salt : ℕ)
    → f who salt ≡ true
    → update f a (update (f a) n true) who salt ≡ true
salt_set f a n who salt e = ground arith

pub salts_frame :
    {T : Type 0} (h : Host T) (op : Setting) (s : Storage) {s' : Storage}
    → apply h op s ≡ ok s'
    → (s'.salt_cancelled ≡ s.salt_cancelled)
      ⊎ ((who : Address) × (salt : ℕ) × (s' ≡ set_salt_cancelled s who salt))
unfolding apply initialize upgrade set_config set_reference allow_keeper set_paused configure_oracle
    schedule_asset push_price register_order_signer cancel_salt set_keeper set_oracle set_schedule
    set_fallback set_signer
salts_frame h (cancels_salt caller who salt) s e = inr (who, salt, ground arith)
salts_frame h (initializes who asset) s e = inl (ground arith)
salts_frame h (upgrades hash) s e = inl (ground arith)
salts_frame h (configures c) s e = inl (ground arith)
salts_frame h (references asset) s e = inl (ground arith)
salts_frame h (keeps who allowed) s e = inl (ground arith)
salts_frame h (pauses on) s e = inl (ground arith)
salts_frame h (prices_by base quote cfg) s e = inl (ground arith)
salts_frame h (schedules caller asset schedule) s e = inl (ground arith)
salts_frame h (pushes caller asset price) s e = inl (ground arith)
salts_frame h (registers maker key allowed) s e = inl (ground arith)
