-- ===== src/Shares/Supply.antt =====
-- crates/shares/src/lib.rs: the supply is the sum of all balances, and no balance is negative, after
-- any operations.
use stellar_rfq.Prelude.{
  ℕ, ◌≡◌, ◌≢◌, inl, inr, refl, Bool, List, [], ◌∷◌, arith, ap, subst, sym, ◌∙◌, Bool-cases, ◌==◌,
  ==_iff,
}
use stellar_rfq.Prelude.Int.{
  ℤ, pos, pos_part, neg_part, ◌+ℤ◌, ◌-ℤ◌, ◌≤ℤ◌, +ℤ_parts, -ℤ_parts, eq_of_parts, int_laws,
}
use stellar_rfq.Prelude.Result.{ok, err, trap, ◌>>=◌, bind_then}
use stellar_rfq.Types.{Address}
use stellar_rfq.Host.{Host}
use stellar_rfq.Shares.{
  Shares, Return, balance, mint, burn, transfer, seize, approve, spend_allowance, set_allowlist,
  set_member, set_frozen,
}
use stellar_rfq.Shares.Balances.{Entries, get, put, total, get-put, get-put-ne, total-put}
use stellar_rfq.Shares.Fees.{snapshot, accrue}
use stellar_rfq.Shares.Rates.{due_nonneg}
use stellar_rfq.Shares.Moves.{Moved, mint_ok, burn_ok, seize_ok, transfer_ok, spend_ok}

-- The issuer's operations and the holders'. An issuer never mints a negative amount.
pub data Op : Type 0 where
  mints : (to : Address) (amount : ℤ) → pos 0 ≤ℤ amount → Op
  burns : Address → ℤ → Op
  transfers : Address → Address → ℤ → Op
  seizes : Address → Address → ℤ → Op
  approves : Address → Address → ℤ → ℕ → Op
  spends : Address → Address → ℤ → Op
  allowlists : Bool → Op
  admits : Address → Bool → Op
  freezes : Address → Bool → Op
  accrues : ℤ → ℕ → Address → Op

pub record IsValid (s : Shares) : Type 0 where
  pub backed : s.supply ≡ total s.balances
  pub nonneg : (who : Address) → pos 0 ≤ℤ balance s who

cancel_add : (x g t a : ℤ) → x +ℤ g ≡ t +ℤ (g +ℤ a) → x ≡ t +ℤ a
cancel_add x g t a e = eq_of_parts x (t +ℤ a) (
    omega (
      arith,
      +ℤ_parts x g,
      +ℤ_parts t (g +ℤ a),
      +ℤ_parts g a,
      +ℤ_parts t a,
      ap pos_part e,
      ap neg_part e,
    ))

cancel_sub : (x g t a : ℤ) → x +ℤ g ≡ t +ℤ (g -ℤ a) → x ≡ t -ℤ a
cancel_sub x g t a e = eq_of_parts x (t -ℤ a) (
    omega (
      arith,
      +ℤ_parts x g,
      +ℤ_parts t (g -ℤ a),
      -ℤ_parts g a,
      -ℤ_parts t a,
      ap pos_part e,
      ap neg_part e,
    ))

total_add :
    (l : Entries) (who : Address) (a : ℤ) → total (put l who (get l who +ℤ a)) ≡ total l +ℤ a
total_add l who a = cancel_add _ (get l who) (total l) a (total-put l who (get l who +ℤ a))

total_sub :
    (l : Entries) (who : Address) (a : ℤ) → total (put l who (get l who -ℤ a)) ≡ total l -ℤ a
total_sub l who a = cancel_sub _ (get l who) (total l) a (total-put l who (get l who -ℤ a))

put_nonneg :
    (l : Entries) (who : Address) (v : ℤ)
    → pos 0 ≤ℤ v
    → ((other : Address) → pos 0 ≤ℤ get l other)
    → (other : Address) → pos 0 ≤ℤ get (put l who v) other
put_nonneg l who v p q other = elim (Bool-cases (who == other)) [
  | inl same ↦
      let here : who ≡ other = (==_iff who other).0 same in
      subst (λ w. pos 0 ≤ℤ get (put l who v) w) here (rw (get-put l who v) p)
  | inr differ ↦
      let apart : who ≢ other = λ e. absurd (ground arith) in
      rw (get-put-ne l who other v apart) (q other)
]

sum_nonneg : (a b : ℤ) → pos 0 ≤ℤ a → pos 0 ≤ℤ b → pos 0 ≤ℤ a +ℤ b
sum_nonneg a b p q = omega (arith, +ℤ_parts a b)

rest_nonneg : (a b : ℤ) → b ≤ℤ a → pos 0 ≤ℤ a -ℤ b
rest_nonneg a b p = omega (arith, -ℤ_parts a b)

there_and_back : (a b : ℤ) → (a -ℤ b) +ℤ b ≡ a
there_and_back a b = omega int_laws

mint-IsValid :
    (s : Shares) (to : Address) (amount : ℤ) {s' : Shares}
    → pos 0 ≤ℤ amount
    → mint s to amount ≡ ok s'
    → IsValid s
    → IsValid s'
mint-IsValid s to amount p e v = subst IsValid (sym (mint_ok s to amount e)) (record {
  backed = ap (λ z. z +ℤ amount) v.backed ∙ sym (total_add s.balances to amount);
  nonneg = put_nonneg s.balances to _ (sum_nonneg _ _ (v.nonneg to) p) v.nonneg;
})

burn-IsValid :
    (s : Shares) (from : Address) (amount : ℤ) {s' : Shares}
    → burn s from amount ≡ ok s'
    → IsValid s
    → IsValid s'
burn-IsValid s from amount e v =
    let (_, covered, _, after) = burn_ok s from amount e in
    subst IsValid (sym after) (record {
      backed = ap (λ z. z -ℤ amount) v.backed ∙ sym (total_sub s.balances from amount);
      nonneg = put_nonneg s.balances from _ (rest_nonneg _ _ covered) v.nonneg;
    })

Moved-IsValid :
    (s s' : Shares) (from to : Address) (amount : ℤ)
    → Moved s s' from to amount
    → IsValid s
    → IsValid s'
Moved-IsValid s s' from to amount m v =
    let mid = put s.balances from (balance s from -ℤ amount) in
    let mid_nonneg = put_nonneg s.balances from _ (rest_nonneg _ _ m.covered) v.nonneg in
    subst IsValid (sym m.moved) (record {
      backed =
          v.backed
          ∙ sym (there_and_back (total s.balances) amount)
          ∙ sym (ap (λ z. z +ℤ amount) (total_sub s.balances from amount))
          ∙ sym (total_add mid to amount);
      nonneg = put_nonneg mid to _ (sum_nonneg _ _ (mid_nonneg to) m.amount_nonneg) mid_nonneg;
    })

-- A failed operation changes nothing.
kept_or : Shares → Return Shares → Shares
kept_or s (ok s') = s'
kept_or s _ = s

same_books :
    (s s' : Shares) → s'.supply ≡ s.supply → s'.balances ≡ s.balances → IsValid s → IsValid s'
same_books s s' p q v = record {
  backed = p ∙ v.backed ∙ ap total (sym q);
  nonneg = λ who. subst (λ l. pos 0 ≤ℤ get l who) (sym q) (v.nonneg who);
}

module _ {T : Type 0} where
  unfoldable pub apply : Host T → Op → Shares → Return Shares
  apply h (mints to amount _) s = mint s to amount
  apply h (burns from amount) s = burn s from amount
  apply h (transfers from to amount) s = transfer h s from to amount
  apply h (seizes from to amount) s = seize s from to amount
  apply h (approves from spender amount until) s = approve h s from spender amount until
  apply h (spends from spender amount) s = spend_allowance h s from spender amount
  apply h (allowlists on) s = ok (set_allowlist s on)
  apply h (admits who allowed) s = ok (set_member s who allowed)
  apply h (freezes who frozen) s = ok (set_frozen s who frozen)
  apply h (accrues nav fee_bps curator) s = do (_, s') ← accrue s nav fee_bps curator; ok s'

  -- The latest operation comes first.
  unfoldable pub run : List (Host T × Op) → Shares → Shares
  unfolding kept_or
  run [] s = s
  run ((h, op) ∷ past) s = kept_or (run past s) (apply h op (run past s))

  apply-IsValid :
      (h : Host T) (op : Op) (s : Shares) {s' : Shares}
      → apply h op s ≡ ok s'
      → IsValid s
      → IsValid s'
  unfolding apply set_allowlist set_member set_frozen approve accrue
  apply-IsValid h (mints to amount p) s e v = mint-IsValid s to amount p e v
  apply-IsValid h (burns from amount) s e v = burn-IsValid s from amount e v
  apply-IsValid h (transfers from to amount) s {s'} e v =
      Moved-IsValid s s' from to amount ((transfer_ok h s from to amount e).0) v
  apply-IsValid h (seizes from to amount) s {s'} e v =
      Moved-IsValid s s' from to amount (seize_ok s from to amount e) v
  apply-IsValid h (approves from spender amount until) s {s'} e v =
      same_books s s' (ground arith) (ground arith) v
  apply-IsValid h (spends from spender amount) s {s'} e v =
      let (_, _, _, spent) = spend_ok h s from spender amount e in
      same_books s s' (ap (λ (z : Shares). z.supply) spent) (ap (λ (z : Shares). z.balances) spent)
        v
  apply-IsValid h (allowlists on) s {s'} e v = same_books s s' (ground arith) (ground arith) v
  apply-IsValid h (admits who allowed) s {s'} e v = same_books s s' (ground arith) (ground arith) v
  apply-IsValid h (freezes who frozen) s {s'} e v = same_books s s' (ground arith) (ground arith) v
  apply-IsValid h (accrues nav fee_bps curator) s {s'} e v =
      bind_then (accrue s nav fee_bps curator) _ e λ p e1 r1.
        bind_then (snapshot s nav fee_bps) _ e1 λ due e2 r2.
          bind_then (mint s curator due.fee_shares) _ r2 λ m e3 r3.
            let minted = mint-IsValid s curator due.fee_shares (due_nonneg s nav fee_bps e2) e3 v in
            same_books m s' (ground arith) (ground arith) minted

  kept-IsValid :
      (h : Host T) (op : Op) (s : Shares) (r : Return Shares)
      → apply h op s ≡ r
      → IsValid s
      → IsValid (kept_or s r)
  unfolding kept_or
  kept-IsValid h op s (ok s') e v = apply-IsValid h op s e v
  kept-IsValid h op s (err _) e v = v
  kept-IsValid h op s trap e v = v

  -- From a valid state and after any operations, in any order and whether they fail or not, of
  -- which none mints a negative amount, the supply is still the sum of all balances, and no balance
  -- is negative.
  pub run-IsValid : (past : List (Host T × Op)) (s : Shares) → IsValid s → IsValid (run past s)
  unfolding run kept_or
  run-IsValid [] s v = v
  run-IsValid ((h, op) ∷ past) s v =
      kept-IsValid h op (run past s) (apply h op (run past s)) refl (run-IsValid past s v)
