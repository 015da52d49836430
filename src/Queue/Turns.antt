-- ===== src/Queue/Turns.antt =====
-- contracts/queue/src/lib.rs: a turn of the loop of `process`.
use stellar_rfq.Prelude.{
  ℕ, ◌+◌, ◌≤◌, ◌<◌, ◌≡◌, ◌≢◌, ◌⊎◌, inl, inr, refl, true, false, Bool, some, none, arith, subst,
  Option-cases, Bool-cases, ltb, if◌then◌else◌,
}
use stellar_rfq.Prelude.Int.{
  ℤ, pos, ◌+ℤ◌, ◌-ℤ◌, ◌≤ℤ◌, ◌<ℤ◌, ltb_ℤ, leb_ℤ, eqb_ℤ, int_laws, eq_of_parts, sum_parts,
}
use stellar_rfq.Prelude.Maps.{nat_eq, update, update_self, update_ne}
use stellar_rfq.Prelude.Result.{ok_injective, ok, err, trap, bind_then, or_trap, or_trap_ok, ◌>>=◌}
use stellar_rfq.Prelude.Words.{uint_ok, i128_ok, uint, u32_max, u64_max, sub_i128, min_ℤ}
use stellar_rfq.Types.{Address}
use stellar_rfq.Host.{Host}
use stellar_rfq.Queue.Payments.{Did}
use stellar_rfq.Queue.{QueueError, Queue, Position, Facility, Round, serve, turn, Return}

-- The head moved past a position that is gone, and nothing else was touched.
pub record Passed (q q' : Queue) : Type 0 where
  pub next_head : q'.head ≡ q.head + 1
  pub same_tail : q'.tail ≡ q.tail
  pub gone : q'.position q.head ≡ none
  pub others : (id : ℕ) → q.head ≢ id → q'.position id ≡ q.position id

-- What is at an id is as before, or was served in part and still has shares.
abbrev pub Waits : Queue → Queue → ℕ → Type 0
Waits q q' id =
    (q'.position id ≡ q.position id)
    ⊎ ((p : Position) × (left : ℤ) × (q.position id ≡ some p)
        × (pos 0 <ℤ left)
        × (q'.position id ≡ some (record p { shares = left })))

-- The head stayed, and nothing behind it was touched.
pub record Stayed (q q' : Queue) : Type 0 where
  pub same_head : q'.head ≡ q.head
  pub same_tail : q'.tail ≡ q.tail
  pub waits : Waits q q' q.head
  pub others : (id : ℕ) → q.head ≢ id → q'.position id ≡ q.position id

pub Stayed-refl : (q : Queue) → Stayed q q
Stayed-refl q = record {
  same_head = refl;
  same_tail = refl;
  waits = inl refl;
  others = λ id d. refl;
}

-- What a turn did, by whether the loop goes on.
unfoldable pub Turned : Bool → Queue → Queue → Type 0
Turned true q q' = Passed q q'
Turned false q q' = Stayed q q'

removed :
    (q : Queue) (head : ℕ)
    → head ≡ q.head + 1
    → Passed q (record q { position = update q.position q.head none; head = head })
removed q head e = record {
  next_head = e;
  same_tail = refl;
  gone = update_self q.position q.head none;
  others = λ id d. update_ne q.position q.head id none d;
}

reduced :
    (q : Queue) (p : Position) (left : ℤ)
    → q.position q.head ≡ some p
    → pos 0 <ℤ left
    → Stayed q
        (record q { position = update q.position q.head (some (record p { shares = left })) })
reduced q p left found positive = record {
  same_head = refl;
  same_tail = refl;
  waits =
      inr (
        p,
        left,
        found,
        positive,
        update_self q.position q.head (some (record p { shares = left })),
      );
  others = λ id d. update_ne q.position q.head id (some (record p { shares = left })) d;
}

-- What is left of a position, and when it was served in full.
split_of : (a b : ℤ) {left : ℤ} → sub_i128 {E = QueueError} a b ≡ ok left → a ≡ b +ℤ left
split_of a b e = rw ((i128_ok {E = QueueError} (a -ℤ b) e).0) (omega int_laws)

all_of : (a b left : ℤ) → a ≡ b +ℤ left → ltb_ℤ (pos 0) left ≡ false → b ≤ℤ a → b ≡ a
all_of a b left e none_left le =
    let not_pos : left ≤ℤ pos 0 = ground arith in
    eq_of_parts b a (omega (arith, sum_parts a b left e, not_pos, le))

at_most :
    (worth available : ℤ) (all : ℤ) (m : Return ℤ) {shares : ℤ}
    → (if leb_ℤ worth available then ok all else (do s ← m; ok (min_ℤ s all))) ≡ ok shares
    → shares ≤ℤ all
at_most worth available all (ok s) e = ground arith
at_most worth available all (err x) e = ground arith
at_most worth available all trap e = ground arith

module _ {T : Type 0} (h : Host T) (f : Facility T) (facility : Address) where
  -- What a turn promises of where it ends.
  unfoldable pub Turns : Round T → Round T × Bool → Type 0
  Turns r z =
      Turned z.1 r.queue z.0.queue × (z.0.served ≤ r.served + 1) × Did h f facility z.1 r z.0

  ends :
      (r : Round T) {v w : Round T × Bool}
      → ◌≡◌ {A = Return (Round T × Bool)} (ok v) (ok w)
      → Turns r v
      → Turns r w
  ends r e t = subst (Turns r) (ok_injective e) t

  served_ok :
      (r : Round T) (served : ℕ)
      → uint {E = QueueError} u32_max (r.served + 1) ≡ ok served
      → served ≤ r.served + 1
  served_ok r served e = omega (arith, (uint_ok {E = QueueError} u32_max (r.served + 1) e).0)

  idle : (r : Round T) → Turns r (r, false)
  unfolding Turns Turned Did
  idle r = (Stayed-refl r.queue, omega arith, (0, inl (refl, refl, refl), omega arith))

  serve-Turns :
      (r : Round T) (p : Position) {z : Round T × Bool}
      → r.queue.position r.queue.head ≡ some p
      → serve h f facility r p ≡ ok z
      → Turns r z
  unfolding serve Turns Turned Did
  serve-Turns r p {z} found e = elim (Bool-cases (leb_ℤ r.available (pos 0))) [
    | inl nothing ↦ ends r (rw nothing at e) (idle r)
    | inr funds ↦
        bind_then (or_trap (f.convert_to_assets r.ext facility p.shares)) _ (rw funds at e)
          λ worth e1 r1.
            bind_then
              (if leb_ℤ worth r.available then ok p.shares else (do
                s ← or_trap (f.convert_to_shares r.ext facility r.available)
                ok (min_ℤ s p.shares)))
              _ r1
              λ shares e2 r2. elim (Bool-cases (eqb_ℤ shares (pos 0))) [
                | inl too_little ↦ ends r (rw too_little at r2) (idle r)
                | inr enough ↦
                    bind_then (or_trap (f.redeem r.ext facility shares p.receiver h.me h.me)) _
                      (rw enough at r2)
                      λ paid e3 r3. bind_then (sub_i128 r.available paid.0) _ r3 λ available e4 r4.
                        bind_then (sub_i128 p.shares shares) _ r4 λ left e5 r5.
                          bind_then (uint u32_max (r.served + 1)) _ r5 λ served e6 r6.
                            elim (Bool-cases (ltb_ℤ (pos 0) left)) [
                              | inl part ↦ ends r (rw part at r6) (
                                reduced r.queue p left found (ground arith),
                                served_ok r served e6,
                                (
                                  1,
                                  inr (
                                    refl,
                                    record {
                                      p = p;
                                      shares = shares;
                                      left = left;
                                      found = found;
                                      redeems = (paid.0, or_trap_ok {E = QueueError} _ e3);
                                      split = split_of p.shares shares e5;
                                      some_left = ground arith;
                                      waits =
                                          update_self r.queue.position r.queue.head
                                            (some (record p { shares = left }));
                                    },
                                  ),
                                  (uint_ok {E = QueueError} u32_max (r.served + 1) e6).0,
                                ),
                              )
                              | inr whole ↦
                                  bind_then (uint u64_max (r.queue.head + 1)) _ (rw whole at r6)
                                    λ head e7 r7. ends r r7 (
                                      removed r.queue head (
                                          (uint_ok {E = QueueError} u64_max (r.queue.head + 1)
                                            e7).0),
                                      served_ok r served e6,
                                      inr (
                                        p,
                                        found,
                                        (
                                          paid.0,
                                          subst
                                              (λ n.
                                                f.redeem r.ext facility n p.receiver h.me h.me
                                                ≡ some paid)
                                              (all_of p.shares shares left
                                                (split_of p.shares shares e5) whole
                                                (at_most worth r.available p.shares
                                                  (or_trap (
                                                    f.convert_to_shares r.ext facility r.available))
                                                  e2))
                                              (or_trap_ok {E = QueueError} _ e3),
                                        ),
                                        (uint_ok {E = QueueError} u32_max (r.served + 1) e6).0,
                                      ),
                                    )
                            ]
              ]
  ]

  skipped :
      (r : Round T) (head : ℕ)
      → r.queue.position r.queue.head ≡ none
      → head ≡ r.queue.head + 1
      → Turns r (record r { queue = record r.queue { head = head } }, true)
  unfolding Turns Turned Did
  skipped r head missing e = (
    record { next_head = e; same_tail = refl; gone = missing; others = λ id d. refl },
    omega arith,
    inl (missing, refl, refl),
  )

  turned :
      (max : ℕ) (r : Round T) {z : Round T × Bool}
      → turn h f facility max r ≡ ok z
      → ltb r.served max ≡ true
      → Turns r z
  unfolding turn
  turned max r {z} e room = elim (Option-cases (r.queue.position r.queue.head)) [
    | inl missing ↦
        bind_then (uint u64_max (r.queue.head + 1)) _ (rw (room, missing) at e) λ head e1 r1.
          ends r r1
            (skipped r head missing ((uint_ok {E = QueueError} u64_max (r.queue.head + 1) e1).0))
    | inr (p, found) ↦ serve-Turns r p found (rw (room, found) at e)
  ]

  -- A turn of the loop serves one position at most, and none once the limit is reached.
  pub turn-Turns :
      (max : ℕ) (r : Round T) {z : Round T × Bool}
      → turn h f facility max r ≡ ok z
      → r.served ≤ max
      → Turns r z × (z.0.served ≤ max)
  unfolding turn Turns
  turn-Turns max r {z} e within = elim (Bool-cases (ltb r.served max)) [
    | inl room ↦
        let done = turned max r e room in
        let below : r.served < max = ground arith in (done, omega (arith, done.1))
    | inr full ↦
        let stopped = ok_injective (rw full at e) in
        (
          subst (Turns r) stopped (idle r),
          subst (λ (w : Round T × Bool). w.0.served ≤ max) stopped within,
        )
  ]
