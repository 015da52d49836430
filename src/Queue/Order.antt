-- ===== src/Queue/Order.antt =====
-- contracts/queue/src/lib.rs: what holds of the queue after any calls.
use stellar_rfq.Prelude.{
  ℕ, ◌+◌, ◌≤◌, ◌<◌, ◌≡◌, ◌⊎◌, inl, inr, refl, List, [], ◌∷◌, Option, some, none, arith, subst, sym,
  ◌∙◌,
}
use stellar_rfq.Prelude.Int.{ℤ, pos, ◌<ℤ◌}
use stellar_rfq.Prelude.Maps.{nat_eq, update}
use stellar_rfq.Prelude.Result.{ok, err, trap, bind_then, ok_injective, ◌>>=◌}
use stellar_rfq.Prelude.Words.{uint}
use stellar_rfq.Types.{Address}
use stellar_rfq.Host.{Host}
use stellar_rfq.Queue.{Queue, Position, Facility, request, cancel, process, Return}
use stellar_rfq.Queue.Service.{Advances, process-Advances}
use stellar_rfq.Queue.Turns.{Waits}

pub data Op : Type 0 where
  requests : Address → Address → ℤ → Op
  cancels : ℕ → Op
  processes : ℕ → Op

-- Only the ids from the head on and below the tail may hold a position, and each that does has
-- shares.
pub record IsValid (q : Queue) : Type 0 where
  pub ordered : q.head ≤ q.tail
  pub past : (id : ℕ) → id < q.head → q.position id ≡ none
  pub future : (id : ℕ) → q.tail ≤ id → q.position id ≡ none
  pub waiting : (id : ℕ) (p : Position) → q.position id ≡ some p → pos 0 <ℤ p.shares

three_ways : (a b : ℕ) → (a < b) ⊎ ((a ≡ b) ⊎ (b < a))
three_ways a b = ground arith

some-ne-none : (o : Option Position) {p : Position} → o ≡ some p → o ≡ none → ⊥
some-ne-none o e e' = ground arith

past_of :
    (q q' : Queue) → Advances q q' → IsValid q → (id : ℕ) → id < q'.head → q'.position id ≡ none
past_of q q' a v id low = elim (three_ways id q.head) [
  | inl below ↦ a.before id below ∙ v.past id below
  | inr rest ↦ a.gone id (elim rest [ inl same ↦ omega arith | inr above ↦ omega arith ]) low
]

-- What waits at an id had shares before, and has some now.
Waits-positive :
    (q q' : Queue) (id : ℕ)
    → Waits q q' id
    → IsValid q
    → (p : Position) → q'.position id ≡ some p
    → pos 0 <ℤ p.shares
Waits-positive q q' id (inl kept) v p e = v.waiting id p (sym kept ∙ e)
Waits-positive q q' id (inr (p0, left, found, positive, now)) v p e =
    let same : record p0 { shares = left } ≡ p = some_injective (sym now ∙ e) in
    subst (λ (z : Position). pos 0 <ℤ z.shares) same positive
  where
    some_injective : {a b : Position} → some a ≡ some b → a ≡ b
    some_injective e = cc

Waits-none : (q q' : Queue) (id : ℕ) → Waits q q' id → q.position id ≡ none → q'.position id ≡ none
Waits-none q q' id (inl kept) e = kept ∙ e
Waits-none q q' id (inr (p0, left, found, _, _)) e = absurd (some-ne-none (q.position id) found e)

Advances-IsValid : (q q' : Queue) → Advances q q' → q'.head ≤ q'.tail → IsValid q → IsValid q'
Advances-IsValid q q' a within v = record {
  ordered = within;
  past = past_of q q' a v;
  future = λ id high. elim (three_ways q'.head id) [
    | inl above ↦ a.behind id above ∙ v.future id (omega arith)
    | inr (inl same) ↦
        Waits-none q q' id (subst (Waits q q') same a.at_head) (v.future id (omega arith))
    | inr (inr below) ↦ absurd (omega arith)
  ];
  waiting = λ id p found. elim (three_ways q'.head id) [
    | inl above ↦ v.waiting id p (sym (a.behind id above) ∙ found)
    | inr (inl same) ↦ Waits-positive q q' id (subst (Waits q q') same a.at_head) v p found
    | inr (inr below) ↦ absurd (some-ne-none (q'.position id) found (past_of q q' a v id below))
  ];
}

added-IsValid :
    (q : Queue) (p : Position)
    → pos 0 <ℤ p.shares
    → IsValid q
    → IsValid (record q { position = update q.position q.tail (some p); tail = q.tail + 1 })
added-IsValid q p positive v = record {
  ordered = omega (arith, v.ordered);
  past = λ id low. ground (arith, v.past id, v.ordered);
  future = λ id high. ground (arith, v.future id);
  waiting = λ id p' found. ground (arith, v.waiting id p', positive);
}

dropped-IsValid :
    (q : Queue) (id : ℕ) → IsValid q → IsValid (record q { position = update q.position id none })
dropped-IsValid q id v = record {
  ordered = v.ordered;
  past = λ i low. ground (arith, v.past i);
  future = λ i high. ground (arith, v.future i);
  waiting = λ i p found. ground (arith, v.waiting i p);
}

module _ {T : Type 0} (h : Host T) (f : Facility T) where
  -- The queue after a call, and the state of the other contracts.
  unfoldable pub apply : Op → Queue × T → Return (Queue × T)
  apply (requests owner receiver shares) s = do (_, s') ← request h f s owner receiver shares; ok s'
  apply (cancels id) s = cancel h f s id
  apply (processes max) s = do (_, s') ← process h f s max; ok s'

  apply-IsValid :
      (op : Op) (q : Queue) (x : T) {z : Queue × T}
      → apply op (q, x) ≡ ok z
      → IsValid q
      → IsValid z.0
  unfolding apply request cancel uint
  apply-IsValid (requests owner receiver shares) q x {z} e v =
      let result : z.0 ≡ record q {
        position =
            update q.position q.tail
              (some (record { owner = owner; receiver = receiver; shares = shares }));
        tail = q.tail + 1;
      } =
        ground arith in
      let positive : pos 0 <ℤ shares = ground arith in
      subst IsValid (sym result) (added-IsValid q _ positive v)
  apply-IsValid (cancels id) q x {z} e v =
      let result : z.0 ≡ record q { position = update q.position id none } = ground arith in
      subst IsValid (sym result) (dropped-IsValid q id v)
  apply-IsValid (processes max) q x {z} e v = bind_then (process h f (q, x) max) _ e λ r e1 r1.
      let (a, _, within, _) = process-Advances h f q x max v.ordered e1 in
      subst (λ (w : Queue × T). IsValid w.0) (ok_injective r1) (Advances-IsValid q r.1.0 a within v)

-- Calls by anyone, the latest first; one that fails changes nothing.
kept_or : {T : Type 0} → Queue × T → Return (Queue × T) → Queue × T
kept_or s (ok s') = s'
kept_or s (err e) = s
kept_or s trap = s

unfoldable pub run : {T : Type 0} → List (Host T × (Facility T × Op)) → Queue × T → Queue × T
unfolding kept_or
run [] s = s
run ((h, (f, op)) ∷ past) s = kept_or (run past s) (apply h f op (run past s))

kept-IsValid :
    {T : Type 0} (h : Host T) (f : Facility T) (op : Op) (s : Queue × T) (r : Return (Queue × T))
    → apply h f op s ≡ r
    → IsValid s.0
    → IsValid (kept_or s r).0
unfolding kept_or
kept-IsValid h f op (q, x) (ok s') e v = apply-IsValid h f op q x e v
kept-IsValid h f op s (err _) e v = v
kept-IsValid h f op s trap e v = v

-- After any calls on a valid queue, whether they fail or not and whatever the facility does, the
-- head is not past the tail, only the ids between them may hold a position, and each that does has
-- shares.
pub run-keeps_order :
    {T : Type 0} (past : List (Host T × (Facility T × Op))) (s : Queue × T)
    → IsValid s.0
    → IsValid (run past s).0
unfolding run
run-keeps_order [] s v = v
run-keeps_order ((h, (f, op)) ∷ past) s v =
    kept-IsValid h f op (run past s) (apply h f op (run past s)) refl (run-keeps_order past s v)
