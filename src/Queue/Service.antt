-- ===== src/Queue/Service.antt =====
-- contracts/queue/src/lib.rs: whom `process` serves.
use stellar_rfq.Prelude.{
  ℕ, zero, suc, ◌+◌, ◌-◌, ◌≤◌, ◌<◌, ◌≡◌, ◌⊎◌, inl, inr, refl, some, true, false, Bool, none, arith,
  ap, subst, sym, ◌∙◌,
}
use stellar_rfq.Prelude.Maps.{nat_eq}
use stellar_rfq.Prelude.Result.{ok_injective, ok, bind_then, or_trap, or_trap_ok}
use stellar_rfq.Types.{Address, QueueConfig}
use stellar_rfq.Host.{Host}
use stellar_rfq.Queue.{QueueError, Queue, Facility, Round, turn, rounds, process}
use stellar_rfq.Queue.Payments.{Line, Stops, Did, Serves, Serves-stop, Serves-next}
use stellar_rfq.Queue.Turns.{Passed, Stayed, Waits, Stayed-refl, Turned, Turns, turn-Turns}

-- All that `process` may do: the head moves forward over positions that are gone, those behind the
-- new head are as they were, and so is the one at it, or it was served in part.
pub record Advances (q q' : Queue) : Type 0 where
  pub same_tail : q'.tail ≡ q.tail
  pub forward : q.head ≤ q'.head
  pub gone : (id : ℕ) → q.head ≤ id → id < q'.head → q'.position id ≡ none
  pub before : (id : ℕ) → id < q.head → q'.position id ≡ q.position id
  pub behind : (id : ℕ) → q'.head < id → q'.position id ≡ q.position id
  pub at_head : Waits q q' q'.head

eq_or_lt : (a b : ℕ) → a ≤ b → (a ≡ b) ⊎ (a < b)
eq_or_lt a b p = ground arith

module _ {T : Type 0} (h : Host T) (f : Facility T) (facility : Address) where
  stays : (r r' : Round T) → Stayed r.queue r'.queue → Advances r.queue r'.queue
  stays r r' t = record {
    same_tail = t.same_tail;
    forward = omega arith;
    gone = λ id low high. absurd (omega arith);
    before = λ id low. t.others id (λ e. absurd (omega arith));
    behind = λ id high. t.others id (λ e. absurd (omega arith));
    at_head = subst (Waits r.queue r'.queue) (sym t.same_head) t.waits;
  }

  passes :
      (r m r' : Round T)
      → Passed r.queue m.queue
      → Advances m.queue r'.queue
      → Advances r.queue r'.queue
  passes r m r' t a =
      let kept = λ (id : ℕ) (high : r.queue.head < id). t.others id (λ e. absurd (omega arith)) in
      record {
        same_tail = a.same_tail ∙ t.same_tail;
        forward = omega arith;
        gone = λ id low high. elim (eq_or_lt r.queue.head id low) [
          | inl same ↦
              subst (λ n. r'.queue.position n ≡ none) same
                (a.before r.queue.head (omega arith) ∙ t.gone)
          | inr above ↦ a.gone id (omega arith) high
        ];
        before = λ id low. a.before id (omega arith) ∙ t.others id (λ e. absurd (omega arith));
        behind = λ id high. a.behind id high ∙ kept id (omega arith);
        at_head =
            let same = kept r'.queue.head (omega arith) in
            elim a.at_head [
              | inl e ↦ inl (e ∙ same)
              | inr (p, left, found, positive, now) ↦ inr (p, left, sym same ∙ found, positive, now)
            ];
      }

  Ran : ℕ → ℕ → Round T → Round T → Type 0
  Ran n max r r' =
      Advances r.queue r'.queue
      × (r'.served ≤ max)
      × (r'.queue.head ≤ r.queue.head + n)
      × Serves h f facility r r'

  after_turn :
      (n max : ℕ) (r m : Round T) (more : Bool) {r' : Round T}
      → (elim more [ true ↦ rounds h f n facility max m | false ↦ ok m ]) ≡ ok r'
      → Turned more r.queue m.queue
      → Did h f facility more r m
      → m.served ≤ max
      → (rounds h f n facility max m ≡ ok r' → Ran n max m r')
      → Ran (suc n) max r r'
  unfolding Turned Ran
  after_turn n max r m true {r'} e t did below ih =
      let (a, served, far, rest) = ih e in
      let kept = λ (id : ℕ) (high : r.queue.head < id). t.others id (λ e. absurd (omega arith)) in
      (
        passes r m r' t a,
        served,
        omega (arith, far, t.next_head),
        Serves-next h f facility r m r' (omega (arith, t.next_head)) a.forward kept did rest,
      )
  after_turn n max r m false e t did below ih =
      subst (Ran (suc n) max r) (ok_injective e) (
        stays r m t,
        below,
        omega (arith, t.same_head),
        Serves-stop h f facility r m t.same_head did,
      )

  rounds-Advances :
      (n max : ℕ) (r : Round T) {r' : Round T}
      → rounds h f n facility max r ≡ ok r'
      → r.served ≤ max
      → Ran n max r r'
  unfolding rounds Ran Turns Did
  rounds-Advances zero max r e within = subst (Ran zero max r) (ok_injective e) (
    stays r r (Stayed-refl r.queue),
    within,
    omega arith,
    Serves-stop h f facility r r refl (0, inl (refl, refl, refl), omega arith),
  )
  rounds-Advances (suc n) max r e within = bind_then (turn h f facility max r) _ e λ z e1 r1.
      let (t, below) = turn-Turns h f facility max r e1 within in
      after_turn n max r z.0 z.1 r1 t.0 t.2 below (λ e'. rounds-Advances n max z.0 e' below)

module _ {T : Type 0} (h : Host T) (f : Facility T) where
  -- What `process` redeemed: in the order of their ids, from the old head to the new one, every
  -- position that was not cancelled, in full; and perhaps the one at the new head, in part.
  pub record Served (q q' : Queue) (n : ℕ) (x x' : T) : Type 0 where
    pub config : QueueConfig
    pub in_force : q.cfg ≡ some config
    pub whole : ℕ
    pub partly : ℕ
    pub between : T
    pub line : Line h f config.facility q.position q'.head between q.head whole x
    pub stops : Stops h f config.facility q q' q'.head partly between x'
    pub counts : n ≡ whole + partly

  -- First come, first served: from bounds in order, `process` serves no more than it was asked to,
  -- never passes the tail, and goes through the ids one after the other: each it passes was empty,
  -- as it was cancelled, or held a position that the facility redeems in full to its receiver, and
  -- is empty now; the one at the new head is as it was, or is then redeemed in part and waits with
  -- exactly the shares left; none behind it has changed, and the redemptions are as many as the
  -- count returned and all that changes the other contracts.
  pub process-Advances :
      (q : Queue) (x : T) (max : ℕ) {n : ℕ} {q' : Queue} {x' : T}
      → q.head ≤ q.tail
      → process h f (q, x) max ≡ ok (n, (q', x'))
      → Advances q q' × (n ≤ max) × (q'.head ≤ q'.tail) × Served q q' n x x'
  unfolding process Ran
  process-Advances q x max {n} {q'} {x'} ordered e = bind_then (or_trap q.cfg) _ e λ config e1 r1.
      bind_then (or_trap (f.max_withdraw x config.facility h.me)) _ r1 λ available e2 r2.
        let start : Round T = record { queue = q; available = available; served = 0; ext = x } in
        bind_then (rounds h f (q.tail - q.head) config.facility max start) _ r2 λ r e3 r3.
          let (a, served, far, serves) =
            rounds-Advances h f config.facility (q.tail - q.head) max start e3 (omega arith) in
          let result = ok_injective r3 in
          let same_queue : r.queue ≡ q' = ap (λ z. z.1.0) result in
          let same_count : r.served ≡ n = ap (λ z. z.0) result in
          let within : r.queue.head ≤ r.queue.tail = omega (arith, far, a.same_tail) in
          (
            subst (Advances q) same_queue a,
            subst (λ k. k ≤ max) same_count served,
            subst (λ (z : Queue). z.head ≤ z.tail) same_queue within,
            subst (λ z. Served q z.1.0 z.0 x z.1.1) result
                (record {
                  config = config;
                  in_force = or_trap_ok {E = QueueError} q.cfg e1;
                  whole = serves.whole;
                  partly = serves.partly;
                  between = serves.between;
                  line = serves.line;
                  stops = serves.stops;
                  counts = omega (arith, serves.counts);
                }),
          )
