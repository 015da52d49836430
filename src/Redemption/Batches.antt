-- ===== src/Redemption/Batches.antt =====
-- contracts/redemption_vault/src/lib.rs: the entries `Key::Batch(id)`, as a list so that they can be
-- added up.
use stellar_rfq.Prelude.{
  ℕ, sym, ap, ◌∙◌, ◌≡◌, ◌≢◌, List, [], ◌∷◌, Option, none, some, arith, inl, inr, Bool-cases,
  if◌then◌else◌, ◌==◌,
}
use stellar_rfq.Prelude.Int.{ℤ, pos, ◌+ℤ◌, int_laws}
use stellar_rfq.Redemption.Types.{Batch}

abbrev pub Batches : Type 0
Batches = List (ℕ × Batch)

unfoldable pub find : Batches → ℕ → Option Batch
find [] id = none
find ((k, b) ∷ l) id = if k == id then some b else find l id

unfoldable pub store : Batches → ℕ → Batch → Batches
store [] id b = (id, b) ∷ []
store ((k, old) ∷ l) id b = if k == id then (k, b) ∷ l else (k, old) ∷ store l id b

-- The sum of `f` over all batches.
unfoldable pub sum : (Batch → ℤ) → Batches → ℤ
sum f [] = pos 0
sum f ((k, b) ∷ l) = f b +ℤ sum f l

unfoldable pub weight : (Batch → ℤ) → Option Batch → ℤ
weight f none = pos 0
weight f (some b) = f b

pub find-store : (l : Batches) (id : ℕ) (b : Batch) → find (store l id b) id ≡ some b
unfolding find store
find-store [] id b = ground arith
find-store ((k, old) ∷ l) id b = ground (arith, find-store l id b)

pub find-store-ne :
    (l : Batches) (id other : ℕ) (b : Batch) → id ≢ other → find (store l id b) other ≡ find l other
unfolding find store
find-store-ne [] id other b d = ground arith
find-store-ne ((k, old) ∷ l) id other b d = ground (arith, find-store-ne l id other b d)

assoc : (a b c : ℤ) → (a +ℤ b) +ℤ c ≡ a +ℤ (b +ℤ c)
assoc a b c = omega int_laws

carry : (a t t' g v : ℤ) → t' +ℤ g ≡ t +ℤ v → (a +ℤ t') +ℤ g ≡ (a +ℤ t) +ℤ v
carry a t t' g v e = assoc a t' g ∙ ap (λ z. a +ℤ z) e ∙ sym (assoc a t v)

-- Storing a batch moves the sum by as much as it moves the batch.
pub sum-store :
    (f : Batch → ℤ) (l : Batches) (id : ℕ) (b : Batch)
    → sum f (store l id b) +ℤ weight f (find l id) ≡ sum f l +ℤ f b
unfolding find store sum weight
sum-store f [] id b = omega int_laws
sum-store f ((k, old) ∷ l) id b = elim (Bool-cases (k == id)) [
  | inl same ↦ rw same (omega int_laws)
  | inr differ ↦ rw differ (
      carry (f old) (sum f l) (sum f (store l id b)) (weight f (find l id)) (f b)
        (sum-store f l id b))
]
