-- ===== src/Crosschain/Moves.antt =====
-- contracts/crosschain_settle/src/lib.rs: what a call may do to the orders in flight.
use stellar_rfq.Prelude.{
  ◌≡◌, ◌≢◌, sym, ap, subst, ◌∙◌, Bool, true, false, Option, none, some, ◌⊎◌, inl, inr, Bool-cases,
}
use stellar_rfq.Prelude.Maps.{
  Bytes, update, bytes_eq, bytes_beq, bytes_beq_iff, update_self, update_ne,
}
use stellar_rfq.Crosschain.Types.{Order}
use stellar_rfq.Crosschain.State.{Settle}

-- An order is opened once, for an id that was not filled; it is settled, or it is returned. A bid
-- that was paid stays used.
pub data Moves (s s' : Settle) : Type 0 where
  rests : s'.order ≡ s.order → s'.filled ≡ s.filled → s'.used ≡ s.used → Moves s s'
  opens :
      (id : Bytes) (o : Order)
      → s.filled id ≡ false
      → s'.order ≡ update s.order id (some o)
      → s'.filled ≡ update s.filled id true
      → s'.used ≡ s.used
      → Moves s s'
  settles :
      (id : Bytes) (o : Order)
      → s.order id ≡ some o
      → s'.order ≡ update s.order id none
      → s'.filled ≡ s.filled
      → s'.used ≡ s.used
      → Moves s s'
  returns :
      (id : Bytes) (o : Order)
      → s.order id ≡ some o
      → s'.order ≡ update s.order id none
      → s'.filled ≡ update s.filled id false
      → s'.used ≡ s.used
      → Moves s s'
  pays :
      (hash : Bytes)
      → s.used hash ≡ false
      → s'.order ≡ s.order
      → s'.filled ≡ s.filled
      → s'.used ≡ update s.used hash true
      → Moves s s'

-- Every order in flight is marked as filled.
pub record IsValid (s : Settle) : Type 0 where
  pub marked : (id : Bytes) (o : Order) → s.order id ≡ some o → s.filled id ≡ true

-- The order was settled: it is gone, and its request cannot be filled again.
abbrev pub IsClosed : Settle → Bytes → Type 0
IsClosed s id = (s.order id ≡ none) × (s.filled id ≡ true)

same_or_apart : (a b : Bytes) → (a ≡ b) ⊎ (a ≢ b)
same_or_apart a b = elim (Bool-cases (bytes_beq a b)) [
  | inl same ↦ inl ((bytes_beq_iff a b).0 same)
  | inr differ ↦ inr (λ e. absurd (ne ((bytes_beq_iff a b).1 e) differ))
]
  where
    ne : {b : Bool} → b ≡ true → b ≢ false
    ne p q = absurd (cc)

module _ {V : Type 0} (f g : Bytes → V) (id : Bytes) (v : V) (is : g ≡ update f id v) where
  changed_at : g id ≡ v
  changed_at = ap (λ m. m id) is ∙ update_self f id v

  changed_ne : (other : Bytes) → id ≢ other → g other ≡ f other
  changed_ne other apart = ap (λ m. m other) is ∙ update_ne f id other v apart

none_ne_some : (o : Order) → ◌≢◌ {A = Option Order} none (some o)
none_ne_some o e = absurd (cc)

true_ne_false : ◌≢◌ {A = Bool} true false
true_ne_false e = absurd (cc)

pub Moves-IsValid : {s s' : Settle} → Moves s s' → IsValid s → IsValid s'
Moves-IsValid {s} {s'} (rests p q r) v = record {
  marked = λ id o e. ap (λ m. m id) q ∙ v.marked id o (ap (λ m. m id) (sym p) ∙ e);
}
Moves-IsValid {s} {s'} (opens id o free p q r) v = record {
  marked = λ other w e. elim (same_or_apart id other) [
    | inl same ↦ subst (λ j. s'.filled j ≡ true) same (changed_at s.filled s'.filled id true q)
    | inr apart ↦
        changed_ne s.filled s'.filled id true q other apart
        ∙ v.marked other w (sym (changed_ne s.order s'.order id (some o) p other apart) ∙ e)
  ];
}
Moves-IsValid {s} {s'} (settles id o found p q r) v = record {
  marked = λ other w e. elim (same_or_apart id other) [
    | inl same ↦
        let gone = subst (λ j. s'.order j ≡ none) same (changed_at s.order s'.order id none p) in
        absurd (none_ne_some w (sym gone ∙ e))
    | inr apart ↦
        ap (λ m. m other) q
        ∙ v.marked other w (sym (changed_ne s.order s'.order id none p other apart) ∙ e)
  ];
}
Moves-IsValid {s} {s'} (returns id o found p q r) v = record {
  marked = λ other w e. elim (same_or_apart id other) [
    | inl same ↦
        let gone = subst (λ j. s'.order j ≡ none) same (changed_at s.order s'.order id none p) in
        absurd (none_ne_some w (sym gone ∙ e))
    | inr apart ↦
        changed_ne s.filled s'.filled id false q other apart
        ∙ v.marked other w (sym (changed_ne s.order s'.order id none p other apart) ∙ e)
  ];
}
Moves-IsValid {s} {s'} (pays hash free p q r) v = record {
  marked = λ id o e. ap (λ m. m id) q ∙ v.marked id o (ap (λ m. m id) (sym p) ∙ e);
}

pub Moves-IsClosed : {s s' : Settle} → Moves s s' → (id : Bytes) → IsClosed s id → IsClosed s' id
Moves-IsClosed (rests p q r) id (gone, marked) =
    (ap (λ m. m id) p ∙ gone, ap (λ m. m id) q ∙ marked)
Moves-IsClosed {s} {s'} (opens id o free p q r) other (gone, marked) =
    elim (same_or_apart id other) [
      | inl same ↦ absurd (true_ne_false (sym marked ∙ subst (λ j. s.filled j ≡ false) same free))
      | inr apart ↦ (
        changed_ne s.order s'.order id (some o) p other apart ∙ gone,
        changed_ne s.filled s'.filled id true q other apart ∙ marked,
      )
    ]
Moves-IsClosed {s} {s'} (settles id o found p q r) other (gone, marked) =
    elim (same_or_apart id other) [
      | inl same ↦ absurd (none_ne_some o (sym gone ∙ subst (λ j. s.order j ≡ some o) same found))
      | inr apart ↦
          (changed_ne s.order s'.order id none p other apart ∙ gone, ap (λ m. m other) q ∙ marked)
    ]
Moves-IsClosed {s} {s'} (returns id o found p q r) other (gone, marked) =
    elim (same_or_apart id other) [
      | inl same ↦ absurd (none_ne_some o (sym gone ∙ subst (λ j. s.order j ≡ some o) same found))
      | inr apart ↦ (
        changed_ne s.order s'.order id none p other apart ∙ gone,
        changed_ne s.filled s'.filled id false q other apart ∙ marked,
      )
    ]
Moves-IsClosed (pays hash free p q r) id (gone, marked) =
    (ap (λ m. m id) p ∙ gone, ap (λ m. m id) q ∙ marked)

-- A used bid stays used.
pub Moves-used :
    {s s' : Settle} → Moves s s' → (hash : Bytes) → s.used hash ≡ true → s'.used hash ≡ true
Moves-used (rests p q r) hash e = ap (λ m. m hash) r ∙ e
Moves-used (opens id o free p q r) hash e = ap (λ m. m hash) r ∙ e
Moves-used (settles id o found p q r) hash e = ap (λ m. m hash) r ∙ e
Moves-used (returns id o found p q r) hash e = ap (λ m. m hash) r ∙ e
Moves-used {s} {s'} (pays id free p q r) hash e = elim (same_or_apart id hash) [
  | inl same ↦ subst (λ j. s'.used j ≡ true) same (changed_at s.used s'.used id true r)
  | inr apart ↦ changed_ne s.used s'.used id true r hash apart ∙ e
]
