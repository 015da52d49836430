-- ===== src/Redemption/Changes.antt =====
-- contracts/redemption_vault/src/lib.rs: what a change of one batch needs to keep the books in order.
use stellar_rfq.Prelude.{
  ltb, ltb→lt, ℕ, ◌≤◌, ◌<◌, ◌≡◌, ◌≢◌, sym, ap, subst, ◌∙◌, Option, none, some, inl, inr, ◌⊎◌,
  Bool-cases, arith, ◌==◌, ==_iff,
}
use stellar_rfq.Prelude.Maps.{nat_eq}
use stellar_rfq.Types.{Address}
use stellar_rfq.Redemption.Types.{Status, «open», sent, settled, Batch, Totals}
use stellar_rfq.Redemption.Batches.{Batches, find, store}
use stellar_rfq.Redemption.Machine.{Books, without}
use stellar_rfq.Redemption.Valid.{IsValid, IsLawful, Moved, store-IsValid}

pub open_ne_sent : ◌≢◌ {A = Status} «open» sent
open_ne_sent e = absurd (cc)

pub settled_ne_sent : ◌≢◌ {A = Status} settled sent
settled_ne_sent e = absurd (cc)

pub settled_ne_open : ◌≢◌ {A = Status} settled «open»
settled_ne_open e = absurd (cc)

pub same_batch :
    (l : Batches) (id : ℕ) (b c : Batch) → find l id ≡ some b → find l id ≡ some c → b ≡ c
same_batch l id b c p q = cc

pub open-status :
    (k : Books) (id : ℕ) (b : Batch)
    → IsValid k
    → k.open_entry ≡ some id
    → find k.batches id ≡ some b
    → b.status ≡ «open»
open-status k id b v is_open found =
    let (c, there, status) = v.current id is_open in
    ap (λ (z : Batch). z.status) (same_batch k.batches id b c found there) ∙ status

-- The open batch after a step that does not change which it is.
pub still_current :
    (k : Books) (id : ℕ) (status : Status)
    → IsValid k
    → (b : Batch) → find k.batches id ≡ some b
    → (b.status ≡ «open» → status ≡ «open»)
    → (other : ℕ) → k.open_entry ≡ some other
    → ((id ≡ other) × (status ≡ «open»)) ⊎ ((id ≢ other) × (k.open_entry ≡ some other))
still_current k id status v b found keeps other e = elim (Bool-cases (id == other)) [
  | inl same ↦
      let here : id ≡ other = (==_iff id other).0 same in
      let found' = subst (λ j. find k.batches j ≡ some b) here found in
      inl (here, keeps (open-status k other b v e found'))
  | inr differ ↦ inr (λ p. absurd (ground arith), e)
]

pub some_ne_none : (b : Batch) → some b ≢ none
some_ne_none b e = absurd (cc)

-- The next id, after a step that hands out none.
pub still_next :
    (k : Books) (id : ℕ) (b : Batch)
    → IsValid k
    → find k.batches id ≡ some b
    → (next : ℕ) → k.next_entry ≡ some next
    → (id < next) × ((old : ℕ) × (k.next_entry ≡ some old) × (old ≤ next))
still_next k id b v found next e = elim (Bool-cases (ltb id next)) [
  | inl low ↦ (ltb→lt id next low, (next, e, omega arith))
  | inr high ↦
      let nothing = v.fresh next id e (ground arith) in
      absurd (some_ne_none b (sym found ∙ nothing))
]

-- A change of a batch that is there.
pub change-IsValid :
    (k : Books) (id : ℕ) (b c : Batch) (t : Totals) (o : Option ℕ) (busy : Address → Option ℕ)
    → IsValid k
    → find k.batches id ≡ some b
    → Moved k.totals t (find k.batches id) c
    → IsLawful c
    → ((other : ℕ)
        → o ≡ some other
        → ((id ≡ other) × (c.status ≡ «open»)) ⊎ ((id ≢ other) × (k.open_entry ≡ some other)))
    → ((a : Address) → c.status ≡ sent → c.account ≡ some a → busy a ≡ some id)
    → ((a : Address) (other : ℕ) → id ≢ other → k.busy a ≡ some other → busy a ≡ some other)
    → IsValid (record k { batches = store k.batches id c; totals = t; open_entry = o; busy = busy })
change-IsValid k id b c t o busy v found moved law cur own others =
    store-IsValid k id c t o k.next_entry busy v moved law cur (still_next k id b v found) own
      others

pub without_ok :
    (o : Option ℕ) (id other : ℕ) → without o id ≡ some other → (id ≢ other) × (o ≡ some other)
unfolding without
without_ok none id other e = absurd (cc)
without_ok (some k) id other e = (λ p. absurd (ground arith), ground arith)
