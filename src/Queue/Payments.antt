-- ===== src/Queue/Payments.antt =====
-- contracts/queue/src/lib.rs: what `process` redeems, and for whom.
use stellar_rfq.Prelude.{
  ℕ, suc, ◌+◌, ◌≤◌, ◌≡◌, ◌⊎◌, inl, inr, true, false, Bool, Option, some, none, arith, sym, subst,
  ◌<◌, ◌∙◌,
}
use stellar_rfq.Prelude.Int.{ℤ, pos, ◌+ℤ◌, ◌<ℤ◌}
use stellar_rfq.Types.{Address}
use stellar_rfq.Host.{Host}
use stellar_rfq.Queue.{Queue, Position, Facility, Round}

module _ {T : Type 0} (h : Host T) (f : Facility T) (facility : Address) where
  -- The queue redeems its shares to the receiver of the position.
  abbrev pub Redeems : T → T → Position → ℤ → Type 0
  Redeems x x' p shares =
      (paid : ℤ) × (f.redeem x facility shares p.receiver h.me h.me ≡ some (paid, x'))

  -- Along the ids from `a` to `b`: each holds nothing, as it was cancelled, or a position that is
  -- redeemed in full, one after the other; `n` are redeemed, which takes the other contracts from
  -- `x` to `x'`.
  pub data Line (at : ℕ → Option Position) (b : ℕ) (x' : T) : ℕ → ℕ → T → Type 0 where
    done : Line at b x' b 0 x'
    skip : (a n : ℕ) (x : T) → at a ≡ none → Line at b x' (suc a) n x → Line at b x' a n x
    full :
        (a n : ℕ) (x x1 : T) (p : Position)
        → at a ≡ some p
        → Redeems x x1 p p.shares
        → Line at b x' (suc a) n x1
        → Line at b x' a (suc n) x

  -- A position is redeemed in part, and waits with the shares that are left.
  pub record Part (q q' : Queue) (id : ℕ) (x x' : T) : Type 0 where
    pub p : Position
    pub shares : ℤ
    pub left : ℤ
    pub found : q.position id ≡ some p
    pub redeems : Redeems x x' p shares
    pub split : p.shares ≡ shares +ℤ left
    pub some_left : pos 0 <ℤ left
    pub waits : q'.position id ≡ some (record p { shares = left })

  -- Where the service stops: nothing more happens, or the position there is redeemed in part.
  abbrev pub Stops : Queue → Queue → ℕ → ℕ → T → T → Type 0
  Stops q q' id n x x' =
      ((n ≡ 0) × (x ≡ x') × (q'.position id ≡ q.position id)) ⊎ ((n ≡ 1) × Part q q' id x x')

  -- What one turn redeems, by whether the loop goes on.
  unfoldable pub Did : Bool → Round T → Round T → Type 0
  Did true r r' =
      ((r.queue.position r.queue.head ≡ none) × (r.ext ≡ r'.ext) × (r'.served ≡ r.served))
      ⊎ ((p : Position) × (r.queue.position r.queue.head ≡ some p)
          × Redeems r.ext r'.ext p p.shares
          × (r'.served ≡ r.served + 1))
  Did false r r' =
      (n : ℕ) × Stops r.queue r'.queue r.queue.head n r.ext r'.ext × (r'.served ≡ r.served + n)

  pub Line-same :
      (at at' : ℕ → Option Position) {b : ℕ} {x' : T} {a n : ℕ} {x : T}
      → ((id : ℕ) → a ≤ id → at' id ≡ at id)
      → Line at b x' a n x
      → Line at' b x' a n x
  Line-same at at' same done = done
  Line-same at at' same (skip a n x missing rest) =
      skip a n x (same a (omega arith) ∙ missing)
        (Line-same at at' (λ id high. same id (omega arith)) rest)
  Line-same at at' same (full a n x x1 p found paid rest) =
      full a n x x1 p (same a (omega arith) ∙ found) paid
        (Line-same at at' (λ id high. same id (omega arith)) rest)

  -- The whole service from one round to another.
  pub record Serves (r r' : Round T) : Type 0 where
    pub whole : ℕ
    pub partly : ℕ
    pub between : T
    pub line : Line r.queue.position r'.queue.head between r.queue.head whole r.ext
    pub stops : Stops r.queue r'.queue r'.queue.head partly between r'.ext
    pub counts : r'.served ≡ r.served + whole + partly

  pub Stops-same :
      (q m q' : Queue) (id n : ℕ) (x x' : T)
      → m.position id ≡ q.position id
      → Stops m q' id n x x'
      → Stops q q' id n x x'
  Stops-same q m q' id n x x' same (inl (none_more, still, kept)) =
      inl (none_more, still, kept ∙ same)
  Stops-same q m q' id n x x' same (inr (one_more, part)) = inr (
    one_more,
    record {
      p = part.p;
      shares = part.shares;
      left = part.left;
      found = sym same ∙ part.found;
      redeems = part.redeems;
      split = part.split;
      some_left = part.some_left;
      waits = part.waits;
    },
  )

  -- A turn after which the loop stops.
  pub Serves-stop : (r r' : Round T) → r'.queue.head ≡ r.queue.head → Did false r r' → Serves r r'
  unfolding Did
  Serves-stop r r' same (n, stops, counts) = record {
    whole = 0;
    partly = n;
    between = r.ext;
    line = subst (λ b. Line r.queue.position b r.ext r.queue.head 0 r.ext) (sym same) done;
    stops = subst (λ id. Stops r.queue r'.queue id n r.ext r'.ext) (sym same) stops;
    counts = omega (arith, counts);
  }

  -- A turn after which it goes on, and the rest.
  pub Serves-next :
      (r m r' : Round T)
      → m.queue.head ≡ suc r.queue.head
      → m.queue.head ≤ r'.queue.head
      → ((id : ℕ) → r.queue.head < id → m.queue.position id ≡ r.queue.position id)
      → Did true r m
      → Serves m r'
      → Serves r r'
  unfolding Did
  Serves-next r m r' next forward kept did t =
      let line : Line r.queue.position r'.queue.head t.between (suc r.queue.head) t.whole m.ext =
        subst (λ a. Line r.queue.position r'.queue.head t.between a t.whole m.ext) next
          (Line-same m.queue.position r.queue.position (λ id high. sym (kept id (omega arith)))
            t.line) in
      let stops =
        Stops-same r.queue m.queue r'.queue r'.queue.head t.partly t.between r'.ext
          (kept r'.queue.head (omega arith)) t.stops in
      elim did [
        | inl (missing, still, count) ↦ record {
          whole = t.whole;
          partly = t.partly;
          between = t.between;
          line = skip r.queue.head t.whole r.ext missing (
              subst
                (λ x. Line r.queue.position r'.queue.head t.between (suc r.queue.head) t.whole x)
                (sym still) line);
          stops = stops;
          counts = omega (arith, count, t.counts);
        }
        | inr (p, found, redeemed, count) ↦ record {
          whole = suc t.whole;
          partly = t.partly;
          between = t.between;
          line = full r.queue.head t.whole r.ext m.ext p found redeemed line;
          stops = stops;
          counts = omega (arith, count, t.counts);
        }
      ]
