-- ===== src/Shares/Moves.antt =====
-- crates/shares/src/lib.rs: what each operation does to the balances.
use stellar_rfq.Prelude.{
  ◌≡◌, ◌≢◌, ◌⊎◌, inl, inr, subst, Option, true, false, some, arith, ap, sym, ◌∙◌, Option-cases,
  Bool-cases, leb,
}
use stellar_rfq.Prelude.Int.{ℤ, pos, ◌+ℤ◌, ◌-ℤ◌, ◌≤ℤ◌}
use stellar_rfq.Prelude.Maps.{nat_eq, update, ◌==◌}
use stellar_rfq.Prelude.Result.{ok, bind_then, trap_unless_ok}
use stellar_rfq.Prelude.Words.{i128}
use stellar_rfq.Types.{Address}
use stellar_rfq.Host.{Host, require_auth}
use stellar_rfq.Shares.{
  live_amount, Shares, Allowance, ShareError, balance, mint, burn, transfer, seize, admitted,
  allowance, spend_allowance,
}
use stellar_rfq.Shares.Balances.{get, put, get-put, get-put-ne}
use stellar_rfq.Shares.Token.{transfer_from}

-- Shares went from one holder, who had that many, to another; nothing else changed.
pub record Moved (s s' : Shares) (from to : Address) (amount : ℤ) : Type 0 where
  pub amount_nonneg : pos 0 ≤ℤ amount
  pub covered : amount ≤ℤ balance s from
  pub moved : s' ≡ record s {
    balances =
        put
          (put s.balances from (balance s from -ℤ amount))
          to
          (get (put s.balances from (balance s from -ℤ amount)) to +ℤ amount);
  }

pub mint_ok :
    (s : Shares) (to : Address) (amount : ℤ) {s' : Shares}
    → mint s to amount ≡ ok s'
    → s' ≡ record s {
      balances = put s.balances to (balance s to +ℤ amount);
      supply = s.supply +ℤ amount;
    }
unfolding mint i128
mint_ok s to amount e = ground arith

pub burn_ok :
    (s : Shares) (from : Address) (amount : ℤ) {s' : Shares}
    → burn s from amount ≡ ok s'
    → (pos 0 ≤ℤ amount)
      × (amount ≤ℤ balance s from)
      × (s.frozen from ≡ false)
      × (s' ≡ record s {
        balances = put s.balances from (balance s from -ℤ amount);
        supply = s.supply -ℤ amount;
      })
unfolding burn i128
burn_ok s from amount e = (ground arith, ground arith, ground arith, ground arith)

pub seize_ok :
    (s : Shares) (from to : Address) (amount : ℤ) {s' : Shares}
    → seize s from to amount ≡ ok s'
    → Moved s s' from to amount
unfolding seize i128
seize_ok s from to amount e = record {
  amount_nonneg = ground arith;
  covered = ground arith;
  moved = ground arith;
}

module _ {T : Type 0} (h : Host T) where
  pub transfer_ok :
      (s : Shares) (from to : Address) (amount : ℤ) {s' : Shares}
      → transfer h s from to amount ≡ ok s'
      → Moved s s' from to amount
        × (admitted h s to ≡ true)
        × (s.frozen to ≡ false)
        × (s.frozen from ≡ false)
  unfolding transfer i128
  transfer_ok s from to amount e = (
    record { amount_nonneg = ground arith; covered = ground arith; moved = ground arith },
    ground arith,
    ground arith,
    ground arith,
  )

  pub spend_ok :
      (s : Shares) (from spender : Address) (amount : ℤ) {s' : Shares}
      → spend_allowance h s from spender amount ≡ ok s'
      → (v : Allowance) × (s.allowances from spender ≡ some v)
        × (amount ≤ℤ allowance h s from spender)
        × (s' ≡ record s {
          allowances = update s.allowances from (
              update
                (s.allowances from)
                spender
                (some (record v { amount = allowance h s from spender -ℤ amount })));
        })
  unfolding spend_allowance i128
  spend_ok s from spender amount e = elim (Option-cases (s.allowances from spender)) [
    | inl missing ↦ absurd (ground arith)
    | inr (v, found) ↦ (v, found, ground arith, ground arith)
  ]

-- What two different holders hold after a move, and everyone else.
pub record Settled (s s' : Shares) (from to : Address) (amount : ℤ) : Type 0 where
  pub gave : balance s' from ≡ balance s from -ℤ amount
  pub got : balance s' to ≡ balance s to +ℤ amount
  pub others : (who : Address) → from ≢ who → to ≢ who → balance s' who ≡ balance s who
  pub supply_kept : s'.supply ≡ s.supply

Moved-Settled :
    (s s' : Shares) (from to : Address) (amount : ℤ)
    → from ≢ to
    → Moved s s' from to amount
    → Settled s s' from to amount
Moved-Settled s s' from to amount differ m =
    let left = balance s from -ℤ amount in
    let mid = put s.balances from left in
    let after = ap (λ (z : Shares). z.balances) m.moved in
    let at = λ (who : Address). ap (λ l. get l who) after in
    record {
      gave =
          at from ∙ get-put-ne mid to from _ (λ e. differ (sym e)) ∙ get-put s.balances from left;
      got =
          at to
          ∙ get-put mid to _
          ∙ ap (λ v. v +ℤ amount) (get-put-ne s.balances from to left differ);
      others = λ who not_from not_to.
          at who ∙ get-put-ne mid to who _ not_to ∙ get-put-ne s.balances from who left not_from;
      supply_kept = ap (λ (z : Shares). z.supply) m.moved;
    }

module _ {T : Type 0} (h : Host T) where
  -- A successful transfer between two holders moves exactly the amount, which the sender had, and
  -- touches no other balance nor the supply; the recipient is admitted, and neither is frozen.
  pub transfer-Settled :
      (s : Shares) (from to : Address) (amount : ℤ) {s' : Shares}
      → from ≢ to
      → transfer h s from to amount ≡ ok s'
      → Settled s s' from to amount
        × (pos 0 ≤ℤ amount)
        × (amount ≤ℤ balance s from)
        × (admitted h s to ≡ true)
        × (s.frozen to ≡ false)
        × (s.frozen from ≡ false)
  transfer-Settled s from to amount {s'} differ e =
      let (m, admits, thaw_to, thaw_from) = transfer_ok h s from to amount e in
      (
        Moved-Settled s s' from to amount differ m,
        m.amount_nonneg,
        m.covered,
        admits,
        thaw_to,
        thaw_from,
      )

  left_over :
      (s : Shares) (from spender : Address) (amount : ℤ) (v : Allowance)
      → s.allowances from spender ≡ some v
      → pos 0 ≤ℤ amount
      → amount ≤ℤ allowance h s from spender
      → live_amount h (
          update s.allowances from
            (update
              (s.allowances from)
              spender
              (some (record v { amount = allowance h s from spender -ℤ amount })))
            from
            spender)
        ≡ allowance h s from spender -ℤ amount
  unfolding allowance live_amount ◌-ℤ◌
  left_over s from spender amount v found p enough =
      elim (Bool-cases (leb h.sequence v.expiration_ledger)) [
        | inl live ↦ ground arith
        | inr late ↦ ground arith
      ]

  kept_allowances :
      (s : Shares) (from spender : Address) (v : Option Allowance) (owner other : Address)
      → (from ≢ owner) ⊎ (spender ≢ other)
      → update s.allowances from (update (s.allowances from) spender v) owner other
        ≡ s.allowances owner other
  kept_allowances s from spender v owner other d = elim (Bool-cases (from == owner)) [
    | inl same ↦ ground arith
    | inr differ ↦ ground arith
  ]

  -- A successful `transfer_from` was authorised by the spender and covered by an allowance that has
  -- not expired, leaves that allowance less by the amount and every other one as it was; otherwise
  -- it is a transfer between two holders: exactly the amount moves, which the owner had, no other
  -- balance nor the supply changes, the recipient is admitted, and neither holder is frozen.
  pub transfer_from-Settled :
      (s : Shares) (spender from to : Address) (amount : ℤ) {s' : Shares}
      → from ≢ to
      → transfer_from h s spender from to amount ≡ ok s'
      → Settled s s' from to amount
        × (pos 0 ≤ℤ amount)
        × (amount ≤ℤ balance s from)
        × (admitted h s to ≡ true)
        × (s.frozen to ≡ false)
        × (s.frozen from ≡ false)
        × (h.authorised spender ≡ true)
        × (amount ≤ℤ allowance h s from spender)
        × (allowance h s' from spender ≡ allowance h s from spender -ℤ amount)
        × ((owner other : Address)
            → (from ≢ owner) ⊎ (spender ≢ other)
            → s'.allowances owner other ≡ s.allowances owner other)
  unfolding transfer_from allowance admitted
  transfer_from-Settled s spender from to amount {s'} differ e =
      bind_then (require_auth h spender) _ e λ _ e1 r1.
        bind_then (spend_allowance h s from spender amount) _ r1 λ mid e2 r2.
          let (v, found, enough, spent) = spend_ok h s from spender amount e2 in
          let (m, admits, thaw_to, thaw_from) = transfer_ok h mid from to amount r2 in
          let t = Moved-Settled mid s' from to amount differ m in
          let same_balances = ap (λ (z : Shares). z.balances) spent in
          let same_frozen = λ (who : Address). sym (ap (λ (z : Shares). z.frozen who) spent) in
          (
            record {
              gave = t.gave ∙ ap (λ l. get l from -ℤ amount) same_balances;
              got = t.got ∙ ap (λ l. get l to +ℤ amount) same_balances;
              others = λ who a b. t.others who a b ∙ ap (λ l. get l who) same_balances;
              supply_kept = t.supply_kept ∙ ap (λ (z : Shares). z.supply) spent;
            },
            m.amount_nonneg,
            subst (λ (z : Shares). amount ≤ℤ balance z from) spent m.covered,
            sym (ap (λ (z : Shares). admitted h z to) spent) ∙ admits,
            same_frozen to ∙ thaw_to,
            same_frozen from ∙ thaw_from,
            trap_unless_ok {E = ShareError} (h.authorised spender) e1,
            enough,
            ap (λ (z : Shares). live_amount h (z.allowances from spender)) m.moved
                ∙ ap (λ (z : Shares). live_amount h (z.allowances from spender)) spent
                ∙ left_over s from spender amount v found m.amount_nonneg enough,
            λ owner other d.
                ap (λ (z : Shares). z.allowances owner other) m.moved
                ∙ ap (λ (z : Shares). z.allowances owner other) spent
                ∙ kept_allowances s from spender _ owner other d,
          )
