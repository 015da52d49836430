-- ===== src/Redemption/Valid.antt =====
-- contracts/redemption_vault/src/lib.rs: when the books are in order, and how storing one batch keeps
-- them so.
use stellar_rfq.Prelude.{
  ℕ, ◌≤◌, ◌<◌, ◌≡◌, ◌≢◌, sym, ap, subst, ◌∙◌, Option, none, some, inl, inr, ◌⊎◌, Bool-cases, arith,
  ◌==◌, ==_iff,
}
use stellar_rfq.Prelude.Int.{ℤ, pos, pos_part, neg_part, ◌+ℤ◌, ◌≤ℤ◌, +ℤ_parts, eq_of_parts}
use stellar_rfq.Types.{Address}
use stellar_rfq.Redemption.Types.{«open», sent, settled, Batch, Totals}
use stellar_rfq.Redemption.Batches.{
  Batches, find, store, sum, weight, find-store, find-store-ne, sum-store,
}
use stellar_rfq.Redemption.Machine.{Books}

-- What a batch contributes to each of the totals.
unfoldable pub pooled_of : Batch → ℤ
pooled_of b = elim b.status [ «open» ↦ b.units | sent ↦ pos 0 | settled ↦ pos 0 ]

unfoldable pub proceeds_of : Batch → ℤ
proceeds_of b = elim b.status [ «open» ↦ pos 0 | sent ↦ pos 0 | settled ↦ b.remaining ]

unfoldable pub rwa_of : Batch → ℤ
rwa_of b = elim b.status [ «open» ↦ pos 0 | sent ↦ pos 0 | settled ↦ b.unsent ]

unfoldable pub sent_of : Batch → ℤ
sent_of b = elim b.status [ «open» ↦ pos 0 | sent ↦ pos 1 | settled ↦ pos 0 ]

pub record IsLawful (b : Batch) : Type 0 where
  pub units_nonneg : pos 0 ≤ℤ b.units
  pub away : b.status ≡ sent → (pos 0 ≤ℤ b.unsent) × (b.unsent ≤ℤ b.units)
  pub here : b.status ≡ «open» → (b.account ≡ none) × (b.unsent ≡ pos 0)

-- The totals are the sums over the batches; the open batch is open; ids are handed out once; every
-- batch is lawful; and a batch that is with the issuer has its account to itself.
pub record IsValid (k : Books) : Type 0 where
  pub pooled : k.totals.pooled ≡ sum pooled_of k.batches
  pub proceeds : k.totals.proceeds ≡ sum proceeds_of k.batches
  pub rwa : k.totals.rwa ≡ sum rwa_of k.batches
  pub counted : pos k.totals.sent ≡ sum sent_of k.batches
  pub current :
      (id : ℕ)
      → k.open_entry ≡ some id
      → (b : Batch) × (find k.batches id ≡ some b) × (b.status ≡ «open»)
  pub fresh : (n id : ℕ) → k.next_entry ≡ some n → n ≤ id → find k.batches id ≡ none
  pub lawful : (id : ℕ) (b : Batch) → find k.batches id ≡ some b → IsLawful b
  pub held :
      (id : ℕ) (b : Batch) (a : Address)
      → find k.batches id ≡ some b
      → b.status ≡ sent
      → b.account ≡ some a
      → k.busy a ≡ some id

-- The totals move as the batch does.
pub record Moved (t t' : Totals) (old : Option Batch) (new : Batch) : Type 0 where
  pub pooled : t'.pooled +ℤ weight pooled_of old ≡ t.pooled +ℤ pooled_of new
  pub proceeds : t'.proceeds +ℤ weight proceeds_of old ≡ t.proceeds +ℤ proceeds_of new
  pub rwa : t'.rwa +ℤ weight rwa_of old ≡ t.rwa +ℤ rwa_of new
  pub counted : pos t'.sent +ℤ weight sent_of old ≡ pos t.sent +ℤ sent_of new

cancel_right : (a b c d x : ℤ) → a +ℤ c ≡ x +ℤ d → b +ℤ c ≡ x +ℤ d → a ≡ b
cancel_right a b c d x p q =
    eq_of_parts a b
      (omega (arith, +ℤ_parts a c, +ℤ_parts b c, ap pos_part (p ∙ sym q), ap neg_part (p ∙ sym q)))

sum_moved :
    (f : Batch → ℤ) (l : Batches) (id : ℕ) (b : Batch) (t t' : ℤ)
    → t ≡ sum f l
    → t' +ℤ weight f (find l id) ≡ t +ℤ f b
    → t' ≡ sum f (store l id b)
sum_moved f l id b t t' is moved =
    cancel_right t' (sum f (store l id b)) (weight f (find l id)) (f b) (sum f l)
      (moved ∙ ap (λ z. z +ℤ f b) is) (sum-store f l id b)

at_or_apart : (a b : ℕ) → (a ≡ b) ⊎ (a ≢ b)
at_or_apart a b = elim (Bool-cases (a == b)) [
  | inl same ↦ inl ((==_iff a b).0 same)
  | inr differ ↦ inr (λ e. absurd (ground arith))
]

-- What is found after a batch is stored is that batch, or was there before at another id.
found_after :
    (l : Batches) (id other : ℕ) (b c : Batch)
    → find (store l id b) other ≡ some c
    → ((id ≡ other) × (b ≡ c)) ⊎ ((id ≢ other) × (find l other ≡ some c))
found_after l id other b c e = elim (at_or_apart id other) [
  | inl same ↦
      let there : find (store l id b) other ≡ some b =
        subst (λ j. find (store l id b) j ≡ some b) same (find-store l id b) in
      inl (same, cc)
  | inr apart ↦ inr (apart, sym (find-store-ne l id other b apart) ∙ e)
]

pub store-IsValid :
    (k : Books) (id : ℕ) (b : Batch) (t : Totals) (o n : Option ℕ) (busy : Address → Option ℕ)
    → IsValid k
    → Moved k.totals t (find k.batches id) b
    → IsLawful b
    → ((other : ℕ)
        → o ≡ some other
        → ((id ≡ other) × (b.status ≡ «open»)) ⊎ ((id ≢ other) × (k.open_entry ≡ some other)))
    → ((next : ℕ)
        → n ≡ some next
        → (id < next) × ((old : ℕ) × (k.next_entry ≡ some old) × (old ≤ next)))
    → ((a : Address) → b.status ≡ sent → b.account ≡ some a → busy a ≡ some id)
    → ((a : Address) (other : ℕ) → id ≢ other → k.busy a ≡ some other → busy a ≡ some other)
    → IsValid (record {
      batches = store k.batches id b;
      totals = t;
      open_entry = o;
      next_entry = n;
      busy = busy;
    })
store-IsValid k id b t o n busy v moved law cur ids own others = record {
  pooled = sum_moved pooled_of k.batches id b k.totals.pooled t.pooled v.pooled moved.pooled;
  proceeds =
      sum_moved proceeds_of k.batches id b k.totals.proceeds t.proceeds v.proceeds moved.proceeds;
  rwa = sum_moved rwa_of k.batches id b k.totals.rwa t.rwa v.rwa moved.rwa;
  counted =
      sum_moved sent_of k.batches id b (pos k.totals.sent) (pos t.sent) v.counted moved.counted;
  current = λ other is_open. elim (cur other is_open) [
    | inl (same, status) ↦ (
      b,
      subst (λ j. find (store k.batches id b) j ≡ some b) same (find-store k.batches id b),
      status,
    )
    | inr (apart, was_open) ↦
        let (c, found, status) = v.current other was_open in
        (c, find-store-ne k.batches id other b apart ∙ found, status)
  ];
  fresh = λ next other is_next low.
      let (below, (old, was_next, before)) = ids next is_next in
      let apart : id ≢ other = λ e. absurd (omega (arith, e)) in
      find-store-ne k.batches id other b apart ∙ v.fresh old other was_next (omega arith);
  lawful = λ other c found. elim (found_after k.batches id other b c found) [
    | inl (_, same) ↦ subst IsLawful same law
    | inr (_, before) ↦ v.lawful other c before
  ];
  held = λ other c a found status account. elim (found_after k.batches id other b c found) [
    | inl (same, new) ↦
        let mine =
          own a (ap (λ (z : Batch). z.status) new ∙ status)
            (ap (λ (z : Batch). z.account) new ∙ account) in
        mine ∙ ap some same
    | inr (apart, before) ↦ others a other apart (v.held other c a before status account)
  ];
}
