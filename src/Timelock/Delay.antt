-- ===== src/Timelock/Delay.antt =====
-- What crates/common/src/timelock.rs promises: no change is applied before its delay, at most
-- once, and never after it was revoked.
use stellar_rfq.Prelude.{
  ℕ, ◌+◌, ◌≤◌, ◌≡◌, ◌≢◌, refl, ◌∙◌, true, some, none, List, [], ◌∷◌, ltb, arith, Option-cases,
  if◌then◌else◌, ◌⊎◌, inl, inr,
}
use stellar_rfq.Prelude.Maps.{update, nat_eq}
use stellar_rfq.Prelude.Result.{Result, ok, err}
use stellar_rfq.Prelude.Words.{uint}
use stellar_rfq.Types.{Address}
use stellar_rfq.Host.{Host}
use stellar_rfq.Timelock.{
  Timelock, TimelockError, no_pending, not_ready, init, delay, guardian, submit, take, revoke,
}

-- The entry points that a contract builds on the timelock.
pub data Op (C : Type 0) : Type 0 where
  inits : ℕ → Address → Op C
  submits : ℕ → C → Op C
  takes : ℕ → Op C
  revokes : ℕ → Address → Address → Op C

abbrev pub Past : Type 0 → Type 0 → Type 0
Past T C = List (Host T × Op C)

-- The call is not under this kind.
unfoldable pub Elsewhere : {C : Type 0} → ℕ → Op C → Type 0
Elsewhere kind (inits d g) = Unit {0}
Elsewhere kind (submits k c) = k ≢ kind
Elsewhere kind (takes k) = k ≢ kind
Elsewhere kind (revokes k caller admin) = k ≢ kind

-- A call that fails leaves the store as it was.
after : {A C E : Type 0} → Timelock C → Result E (A × Timelock C) → Timelock C
after t (ok (_, t')) = t'
after t _ = t

after_revoke : {C E : Type 0} → Timelock C → Result E (Timelock C) → Timelock C
after_revoke t (ok t') = t'
after_revoke t _ = t

module _ {T C : Type 0} where
  unfoldable pub apply : Host T → Op C → Timelock C → Timelock C
  unfolding init after after_revoke
  apply h (inits d g) t = init t d g
  apply h (submits kind c) t = after t (submit h {E = TimelockError} t kind c)
  apply h (takes kind) t = after t (take h t kind)
  apply h (revokes kind caller admin) t = after_revoke t (revoke h t kind caller admin)

  -- The store after a history, its latest call first.
  unfoldable pub run : Timelock C → Past T C → Timelock C
  run t [] = t
  run t ((h, op) ∷ past) = apply h op (run t past)

  -- In the history, `c` was submitted under `kind`, and `at` is that moment plus the delay that
  -- then held.
  pub data Submitted (t : Timelock C) (kind : ℕ) (c : C) (at : ℕ) : Past T C → Type 0 where
    latest :
        (h : Host T) (past : Past T C)
        → at ≡ h.timestamp + delay (run t past)
        → Submitted t kind c at ((h, submits kind c) ∷ past)
    earlier :
        (h : Host T) (op : Op C) (past : Past T C)
        → Submitted t kind c at past
        → Submitted t kind c at ((h, op) ∷ past)

  -- What one call does to the entry that waits under a kind.
  apply_waiting :
      (h : Host T) (op : Op C) (t : Timelock C) (kind : ℕ) (c : C) (at : ℕ)
      → (apply h op t).waiting kind ≡ some (c, at)
      → (t.waiting kind ≡ some (c, at)) ⊎ ((op ≡ submits kind c) × (at ≡ h.timestamp + delay t))
  unfolding apply submit take revoke uint guardian after after_revoke
  apply_waiting h (inits d g) t kind c at e = inl e
  apply_waiting h (submits k c') t kind c at e = ground arith
  apply_waiting h (takes k) t kind c at e = ground arith
  apply_waiting h (revokes k caller admin) t kind c at e = ground arith

  waiting-Submitted :
      (t : Timelock C) (past : Past T C) (kind : ℕ) (c : C) (at : ℕ)
      → ((k : ℕ) → t.waiting k ≡ none)
      → (run t past).waiting kind ≡ some (c, at)
      → Submitted t kind c at past
  unfolding run
  waiting-Submitted t [] kind c at fresh e = absurd (ground (arith, fresh kind))
  waiting-Submitted t ((h, op) ∷ past) kind c at fresh e =
      elim (apply_waiting h op (run t past) kind c at e) [
        | inl old ↦ earlier h op past (waiting-Submitted t past kind c at fresh old)
        | inr (new, date) ↦ rw new (latest h past date)
      ]

  taken :
      (h : Host T) (t : Timelock C) (kind : ℕ) (c : C) {t' : Timelock C}
      → take h t kind ≡ ok (c, t')
      → (at : ℕ) × (t.waiting kind ≡ some (c, at))
        × (at ≤ h.timestamp)
        × (take h t' kind ≡ err no_pending)
  unfolding take
  taken h t kind c e = elim (Option-cases (t.waiting kind)) [
    | inl missing ↦ absurd (ground arith)
    | inr ((_, at), found) ↦ (at, ground arith, ground arith, ground arith)
  ]

  -- Whatever calls came before, if nothing waited at first: a change that `take` hands out was
  -- submitted under that kind, and the delay that held at its submission has passed; taking it
  -- leaves nothing waiting there.
  pub take_waited :
      (h : Host T) (t : Timelock C) (past : Past T C) (kind : ℕ) (c : C) {t' : Timelock C}
      → ((k : ℕ) → t.waiting k ≡ none)
      → take h (run t past) kind ≡ ok (c, t')
      → (at : ℕ) × Submitted t kind c at past
        × (at ≤ h.timestamp)
        × (take h t' kind ≡ err no_pending)
  unfolding take
  take_waited h t past kind c fresh e =
      let (at, found, due, gone) = taken h (run t past) kind c e in
      (at, waiting-Submitted t past kind c at fresh found, due, gone)

  unfoldable pub AllElsewhere : ℕ → Past T C → Type 0
  unfolding Elsewhere
  AllElsewhere kind [] = Unit {0}
  AllElsewhere kind ((h, op) ∷ past) = Elsewhere kind op × AllElsewhere kind past

  apply-Elsewhere :
      (h : Host T) (op : Op C) (t : Timelock C) (kind : ℕ)
      → Elsewhere kind op
      → (apply h op t).waiting kind ≡ t.waiting kind
  unfolding apply submit take revoke uint guardian after after_revoke Elsewhere
  apply-Elsewhere h (inits d g) t kind e = refl
  apply-Elsewhere h (submits k c) t kind e = ground arith
  apply-Elsewhere h (takes k) t kind e = ground arith
  apply-Elsewhere h (revokes k caller admin) t kind e = ground arith

  run-AllElsewhere :
      (t : Timelock C) (past : Past T C) (kind : ℕ)
      → AllElsewhere kind past
      → (run t past).waiting kind ≡ t.waiting kind
  unfolding run AllElsewhere
  run-AllElsewhere t [] kind e = refl
  run-AllElsewhere t ((h, op) ∷ past) kind (e, es) =
      apply-Elsewhere h op (run t past) kind e ∙ run-AllElsewhere t past kind es

  take_at :
      (later : Host T) (t : Timelock C) (kind : ℕ) (c : C) (at : ℕ)
      → t.waiting kind ≡ some (c, at)
      → take later t kind ≡ (
          if ltb later.timestamp at
          then err not_ready
          else ok (c, record t { waiting = update t.waiting kind none }))
  unfolding take
  take_at later t kind c at e = ground arith

  -- A submission sets the time to now plus the delay and leaves what waits under other kinds alone;
  -- after any later calls of which none is under its kind, the change can be taken if and only if
  -- its time has come, and taking it removes it and nothing else.
  pub submit-take :
      {E : Type 0} (h later : Host T) (t : Timelock C) (kind : ℕ) (c : C) {at : ℕ} {t' : Timelock C}
      (past : Past T C)
      → AllElsewhere kind past
      → submit h {E = E} t kind c ≡ ok (at, t')
      → (at ≡ h.timestamp + delay t)
        × (take later (run t' past) kind ≡ (
            if ltb later.timestamp at
            then err not_ready
            else ok (c, record (run t' past) { waiting = update (run t' past).waiting kind none })))
        × ((other : ℕ) → kind ≢ other → t'.waiting other ≡ t.waiting other)
  unfolding submit take uint
  submit-take h later t kind c {at} {t'} past es e =
      let kept = run-AllElsewhere t' past kind es in
      let booked : t'.waiting kind ≡ some (c, at) = ground arith in
      (ground arith, take_at later (run t' past) kind c at (kept ∙ booked), λ other d. ground arith)

  -- Only the guardian or the admin revokes, with their authorisation, and what was revoked is not
  -- there to be taken.
  pub revoke-take :
      (h later : Host T) (t : Timelock C) (kind : ℕ) (caller admin : Address) {t' : Timelock C}
      → revoke h t kind caller admin ≡ ok t'
      → ((caller ≡ admin) ⊎ (t.guardian_entry ≡ some caller))
        × (h.authorised caller ≡ true)
        × (take later t' kind ≡ err no_pending)
  unfolding revoke take guardian
  revoke-take h later t kind caller admin e = ground arith
