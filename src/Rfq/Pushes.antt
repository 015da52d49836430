-- ===== src/Rfq/Pushes.antt =====
-- contracts/rfq/src/lib.rs: who may push a price, how often and how far.
use Prim.Native.Nat.{min, max}
use stellar_rfq.Prelude.{◌+◌, ◌≤◌, ◌≡◌, ◌⊎◌, inl, inr, true, false, Bool, some, arith, Bool-cases}
use stellar_rfq.Prelude.Int.{ℤ, pos, pos_part, neg_part, ◌-ℤ◌, ◌≤ℤ◌}
use stellar_rfq.Prelude.Maps.{nat_eq, ◌==◌}
use stellar_rfq.Prelude.Result.{ok, bind_then, or_trap_ok}
use stellar_rfq.Prelude.Words.{u64_max}
use stellar_rfq.Math.{bps}
use stellar_rfq.Math.Bounds.{RoundsDown}
use stellar_rfq.Host.{Host, require_auth}
use stellar_rfq.Types.{Address}
use stellar_rfq.Rfq.Types.{Error, Config, PushedPrice, Reference}
use stellar_rfq.Rfq.Storage.{Storage, admin}
use stellar_rfq.Rfq.Admin.{keeper_auth}

-- The size of a move, as a share of the price before it in basis points, rounded down, is within the
-- configured bound, unless that is switched off.
pub MovesWithin : Config → ℤ → ℤ → Type 0
MovesWithin c before after =
    (c.max_deviation_bps ≡ 0)
    ⊎ ((moved : ℤ) × RoundsDown (pos (pos_part (after -ℤ before) + neg_part (after -ℤ before))) bps
          before moved
        × (moved ≤ℤ pos c.max_deviation_bps))

module _ {T : Type 0} (h : Host T) where
  -- The caller is the admin or a keeper, and has authorised the call.
  abbrev pub KeptBy : Storage → Address → Bool → Type 0
  KeptBy s caller is_admin =
      (h.authorised caller ≡ true)
      × (((is_admin ≡ true) × (s.admin_entry ≡ some caller))
          ⊎ ((is_admin ≡ false) × (s.keeper caller ≡ true)))

  pub keeper_auth_ok :
      (s : Storage) (caller : Address) {is_admin : Bool}
      → keeper_auth h s caller ≡ ok is_admin
      → KeptBy s caller is_admin
  unfolding keeper_auth
  keeper_auth_ok s caller {is_admin} e = bind_then (require_auth h caller) _ e λ _ e1 r1.
      bind_then (admin s) _ r1 λ a e2 r2.
        let found = or_trap_ok {E = Error} s.admin_entry e2 in
        elim (Bool-cases (caller == a)) [
          | inl same ↦ (ground arith, inl (ground arith, ground arith))
          | inr other ↦ (ground arith, inr (ground arith, ground arith))
        ]

  -- What stands in the way of a push: the last price, if it is of this epoch.
  abbrev pub Follows : Storage → Reference → PushedPrice → ℤ → Bool → Type 0
  Follows s r prev price is_admin =
      prev.epoch ≡ r.epoch
      → (c : Config) × (s.cfg ≡ some c)
        × MovesWithin c prev.price price
        × (is_admin ≡ false
            → min (prev.updated_at + max c.min_push_interval 1) u64_max ≤ h.timestamp)
