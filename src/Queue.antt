-- ===== src/Queue.antt =====
-- contracts/queue/src/lib.rs: the withdrawal queue of one facility.
pub mod Payments
pub mod Order
pub mod Service
pub mod Turns
mod Tests
use stellar_rfq.Prelude.{
  zero, suc, ℕ, ◌+◌, ◌-◌, Bool, true, false, Option, none, some, ltb, if◌then◌else◌,
}
use stellar_rfq.Prelude.Int.{ℤ, pos, ltb_ℤ, leb_ℤ, eqb_ℤ}
use stellar_rfq.Prelude.Maps.{update, nat_eq}
use stellar_rfq.Prelude.Result.{Result, ok, ◌>>=◌, ◌>>◌, fail_if, or_trap, or_err}
use stellar_rfq.Prelude.Words.{sub_i128, min_ℤ, uint, u32_max, u64_max}
use stellar_rfq.Types.{Address, QueueConfig}
use stellar_rfq.Host.{Host, require_auth}

pub data QueueError : Type 0 where
  invalid_amount not_found : QueueError

abbrev pub Return : Type 0 → Type 0
Return A = Result QueueError A

pub record Position : Type 0 where
  pub owner : Address
  pub receiver : Address
  pub shares : ℤ

-- One field for each `Key`. `head` is the next position to serve, `tail` the next id to hand out.
pub record Queue : Type 0 where
  pub cfg : Option QueueConfig
  pub head : ℕ
  pub tail : ℕ
  pub position : ℕ → Option Position

-- The facility that is called: `FacilityFns`, at an address. A call that fails has no result.
pub record Facility (T : Type 0) : Type 0 where
  pub convert_to_assets : T → Address → ℤ → Option ℤ
  pub convert_to_shares : T → Address → ℤ → Option ℤ
  pub max_withdraw : T → Address → Address → Option ℤ
  pub redeem : T → Address → ℤ → Address → Address → Address → Option (ℤ × T)

-- What the loop of `process` works on.
pub record Round (T : Type 0) : Type 0 where
  pub queue : Queue
  pub available : ℤ
  pub served : ℕ
  pub ext : T

unfoldable pub construct : Queue → QueueConfig → Queue
construct q config = record q { cfg = some config }

module _ {T : Type 0} (h : Host T) (f : Facility T) where
  unfoldable pub request : Queue × T → Address → Address → ℤ → Return (ℕ × (Queue × T))
  request (q, x) owner receiver shares = do
    require_auth h owner
    fail_if (leb_ℤ shares (pos 0)) invalid_amount
    config ← or_trap q.cfg
    x' ← or_trap (h.transfer x config.facility owner h.me shares)
    next ← uint u64_max (q.tail + 1)
    ok (
      q.tail,
      (
        record q {
          position =
              update q.position q.tail
                (some (record { owner = owner; receiver = receiver; shares = shares }));
          tail = next;
        },
        x',
      ),
    )

  unfoldable pub cancel : Queue × T → ℕ → Return (Queue × T)
  cancel (q, x) id = do
    p ← or_err (q.position id) not_found
    require_auth h p.owner
    config ← or_trap q.cfg
    x' ← or_trap (h.transfer x config.facility h.me p.owner p.shares)
    ok (record q { position = update q.position id none }, x')

  -- Serves the position at the head with what is available; whether the loop goes on.
  unfoldable pub serve : Address → Round T → Position → Return (Round T × Bool)
  serve facility r p = if leb_ℤ r.available (pos 0) then ok (r, false) else (do
    worth ← or_trap (f.convert_to_assets r.ext facility p.shares)
    shares ←
        (if leb_ℤ worth r.available then ok p.shares else (do
          s ← or_trap (f.convert_to_shares r.ext facility r.available)
          ok (min_ℤ s p.shares)))
    if eqb_ℤ shares (pos 0) then ok (r, false) else (do
      (paid, x) ← or_trap (f.redeem r.ext facility shares p.receiver h.me h.me)
      available ← sub_i128 r.available paid
      left ← sub_i128 p.shares shares
      served ← uint u32_max (r.served + 1)
      let q = r.queue
      if ltb_ℤ (pos 0) left
          then ok (
            record {
              queue = record q {
                position = update q.position q.head (some (record p { shares = left }));
              };
              available = available;
              served = served;
              ext = x;
            },
            false,
          )
          else (do
            head ← uint u64_max (q.head + 1)
            ok (
              record {
                queue = record q { position = update q.position q.head none; head = head };
                available = available;
                served = served;
                ext = x;
              },
              true,
            ))))

  -- One turn of the loop. A cancelled position is skipped.
  unfoldable pub turn : Address → ℕ → Round T → Return (Round T × Bool)
  unfolding serve
  turn facility max r =
      if ltb r.served max
      then elim (r.queue.position r.queue.head) [
        | none ↦ do
          head ← uint u64_max (r.queue.head + 1)
          ok (record r { queue = record r.queue { head = head } }, true)
        | some p ↦ serve facility r p
      ]
      else ok (r, false)

  -- The loop, for as many positions as lie between the head and the tail.
  unfoldable pub rounds : ℕ → Address → ℕ → Round T → Return (Round T)
  unfolding turn
  rounds zero facility max r = ok r
  rounds (suc n) facility max r = do
    (r', more) ← turn facility max r
    elim more [ true ↦ rounds n facility max r' | false ↦ ok r' ]

  -- The number of positions served, and what is left.
  unfoldable pub process : Queue × T → ℕ → Return (ℕ × (Queue × T))
  unfolding rounds
  process (q, x) max = do
    config ← or_trap q.cfg
    available ← or_trap (f.max_withdraw x config.facility h.me)
    r ←
        rounds (q.tail - q.head) config.facility max
          (record { queue = q; available = available; served = 0; ext = x })
    ok (r.served, (r.queue, r.ext))
