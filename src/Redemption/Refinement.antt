-- ===== src/Redemption/Refinement.antt =====
-- contracts/redemption_vault/src/lib.rs: every entry point is a step of the machine.
use stellar_rfq.Prelude.{refl, ◌⊎◌, inl, inr, zero, suc, ℕ, ◌≡◌, sym, ap, subst, ◌∙◌, Bool, arith}
use stellar_rfq.Prelude.Result.{ok, bind_then, ok_injective}
use stellar_rfq.Types.{Address}
use stellar_rfq.Host.{Host, require_auth}
use stellar_rfq.Timelock
use stellar_rfq.Timelock.{submit, revoke}
use stellar_rfq.Redemption.Types.{Change, set_settings, set_roles, skims, set_delay}
use stellar_rfq.Redemption.Outside.{Outside}
use stellar_rfq.Redemption.State.{Vault, kind, roles}
use stellar_rfq.Redemption.Holders.{request_redeem, claim}
use stellar_rfq.Redemption.Admin.{
  lift, check_change, add_account, add_each, add_accounts, submit_change, accept, apply_change,
  apply_settings, skim, revoke_change, set_paused,
}
use stellar_rfq.Redemption.Machine.{
  books, Step, Event, rests, resting, joining, leaving, sending, resending, reopening, settling,
  claiming, returning,
}
use stellar_rfq.Redemption.Holding.{request-Step, cancel-Step, claim-Step}
use stellar_rfq.Redemption.Leaving.{redeem-Step, withdraw-Step}
use stellar_rfq.Redemption.Returning.{settle-Step, reopen-Step, settle_manual-Step}
use stellar_rfq.Redemption.Entry.{
  Op, elsewhere, requests, cancels, claims, redeems, settles, reopens, withdraws, settles_by_hand,
  adds_accounts, submits, accepts, revokes, pauses, apply,
}

-- What an entry point may do: an identifier and an amount that the caller names are those of the
-- batch and of the event.
unfoldable pub Allows : {T : Type 0} → Op T → Event → Type 0
Allows (elsewhere _) ev = ev ≡ resting
Allows (requests owner units controller) ev = ev ≡ joining units
Allows (cancels owner id amount receiver) ev = ev ≡ leaving id amount
Allows (claims owner id shares receiver) ev = ev ≡ claiming id
Allows (redeems id spender calls) ev = (ev ≡ sending id) ⊎ (ev ≡ resending id)
Allows (settles id calls least) ev = ev ≡ settling id
Allows (reopens id calls returned) ev = (ev ≡ reopening id) ⊎ (ev ≡ returning id returned)
Allows (withdraws id to) ev = ev ≡ sending id
Allows (settles_by_hand id proceeds returned) ev = ev ≡ settling id
Allows (adds_accounts n) ev = ev ≡ resting
Allows (submits change) ev = ev ≡ resting
Allows (accepts k) ev = ev ≡ resting
Allows (revokes k caller) ev = ev ≡ resting
Allows (pauses caller on) ev = ev ≡ resting

still : (v v' : Vault) → books v' ≡ books v → Step (books v) resting (books v')
still v v' e = subst (Step (books v) resting) (sym e) rests

module _ {T : Type 0} (h : Host T) (o : Outside T) where
  pub add_account-books :
      (v : Vault) (x : T) {v' : Vault} {x' : T}
      → add_account h o (v, x) ≡ ok (v', x')
      → books v' ≡ books v
  unfolding add_account books
  add_account-books v x e = ground arith

  add_each-books :
      (n : ℕ) (v : Vault) (x : T) {v' : Vault} {x' : T}
      → add_each h o n (v, x) ≡ ok (v', x')
      → books v' ≡ books v
  unfolding add_each
  add_each-books zero v x e = ap (λ (w : Vault × T). books w.0) (sym (ok_injective e))
  add_each-books (suc n) v x e =
      bind_then (add_account h o (v, x)) _ e
        λ z e1 r1. add_each-books n z.0 z.1 r1 ∙ add_account-books v x e1

  apply_change-books :
      (v : Vault) (x : T) (change : Change) {v' : Vault} {x' : T}
      → apply_change h o v x change ≡ ok (v', x')
      → books v' ≡ books v
  unfolding apply_change apply_settings books
  apply_change-books v x (set_settings s) e = ground arith
  apply_change-books v x (set_roles r) e = ap (λ (w : Vault × T). books w.0) (sym (ok_injective e))
  apply_change-books v x (skims token to) e =
      bind_then (skim h o v x token to) _ e
        λ x1 e1 r1. ap (λ (w : Vault × T). books w.0) (sym (ok_injective r1))
  apply_change-books v x (set_delay d) e = ground arith

  submit_change-books :
      (v : Vault) (change : Change) {p : ℕ × Vault}
      → submit_change h o v change ≡ ok p
      → books p.1 ≡ books v
  unfolding submit_change books
  submit_change-books v change e = bind_then (roles v) _ e λ r e1 r1.
      bind_then (require_auth h r.admin) _ r1 λ _ e2 r2.
        bind_then (check_change change) _ r2 λ _ e3 r3.
          bind_then (submit h v.timelock (kind change) change) _ r3
            λ t e4 r4. ap (λ (w : ℕ × Vault). books w.1) (sym (ok_injective r4))

  revoke_change-books :
      (v : Vault) (k : ℕ) (caller : Address) {v' : Vault}
      → revoke_change h o v k caller ≡ ok v'
      → books v' ≡ books v
  unfolding revoke_change books
  revoke_change-books v k caller e = bind_then (roles v) _ e λ r e1 r1.
      bind_then (lift (revoke h v.timelock k caller r.admin)) _ r1
        λ t e2 r2. ap books (sym (ok_injective r2))

  set_paused-books :
      (v : Vault) (caller : Address) (on : Bool) {v' : Vault}
      → set_paused h o v caller on ≡ ok v'
      → books v' ≡ books v
  unfolding set_paused books
  set_paused-books v caller on e = ground arith

  -- Every successful call of an entry point of the redemption vault, whatever the contracts it
  -- calls do, is one step of the batch machine, and one that this entry point may take: a request
  -- puts its units into the open batch or opens the next one, `cancel` takes its amount out of the
  -- open batch it names, `redeem_batch` and `withdraw_batch` send the batch they name (from an
  -- account that was free, or by hand) or send again what came back, `settle` and `settle_manual`
  -- settle it, `reopen` books what came back or opens it again, `claim` takes from it once settled;
  -- all other calls leave the books as they are.
  pub apply-Step :
      (op : Op T) (v : Vault) (x : T) {v' : Vault} {x' : T}
      → apply h o op (v, x) ≡ ok (v', x')
      → (ev : Event) × Allows op ev × Step (books v) ev (books v')
  unfolding apply accept add_accounts books Allows
  apply-Step (elsewhere _) v x {v'} e =
      (resting, refl, (still v v' (ap (λ (w : Vault × T). books w.0) (sym (ok_injective e)))))
  apply-Step (requests owner units controller) v x {v'} e = (
    joining units,
    refl,
    (bind_then (request_redeem h o (v, x) owner units controller) _ e λ p e1 r1.
        subst (λ w. Step (books v) (joining units) (books w))
          (ap (λ (w : Vault × T). w.0) (ok_injective r1))
          (request-Step h o v x owner units controller e1)),
  )
  apply-Step (cancels owner id amount receiver) v x e =
      (leaving id amount, refl, (cancel-Step h o v x owner id amount receiver e))
  apply-Step (claims owner id shares receiver) v x {v'} e = (
    claiming id,
    refl,
    (bind_then (claim h o (v, x) owner id shares receiver) _ e λ p e1 r1.
        subst (λ w. Step (books v) (claiming id) (books w))
          (ap (λ (w : Vault × T). w.0) (ok_injective r1))
          (claim-Step h o v x owner id shares receiver e1)),
  )
  apply-Step (redeems id spender calls) v x e = elim (redeem-Step h o v x id spender calls e) [
    | inl sends ↦ (sending id, inl refl, sends)
    | inr again ↦ (resending id, inr refl, again)
  ]
  apply-Step (settles id calls least) v x e =
      (settling id, refl, (settle-Step h o v x id calls least e))
  apply-Step (reopens id calls returned) v x e = elim (reopen-Step h o v x id calls returned e) [
    | inl whole ↦ (reopening id, inl refl, whole)
    | inr part ↦ (returning id returned, inr refl, part)
  ]
  apply-Step (withdraws id to) v x e = (sending id, refl, (withdraw-Step h o v x id to e))
  apply-Step (settles_by_hand id proceeds returned) v x e =
      (settling id, refl, (settle_manual-Step h o v x id proceeds returned e))
  apply-Step (adds_accounts n) v x {v'} e = (
    resting,
    refl,
    (bind_then (roles v) _ e λ r e1 r1.
        bind_then (require_auth h r.admin) _ r1 λ _ e2 r2. still v v' (add_each-books n v x r2)),
  )
  apply-Step (submits change) v x {v'} e = (
    resting,
    refl,
    (bind_then (submit_change h o v change) _ e λ p e1 r1. still v v' (
        ap (λ (w : Vault × T). books w.0) (sym (ok_injective r1))
        ∙ submit_change-books v change e1)),
  )
  apply-Step (accepts k) v x {v'} e = (
    resting,
    refl,
    (bind_then (lift (Timelock.take h v.timelock k)) _ e
        λ p e1 r1. still v v' (apply_change-books (record v { timelock = p.1 }) x p.0 r1)),
  )
  apply-Step (revokes k caller) v x {v'} e = (
    resting,
    refl,
    (bind_then (revoke_change h o v k caller) _ e λ w e1 r1. still v v' (
        ap (λ (z : Vault × T). books z.0) (sym (ok_injective r1))
        ∙ revoke_change-books v k caller e1)),
  )
  apply-Step (pauses caller on) v x {v'} e = (
    resting,
    refl,
    (bind_then (set_paused h o v caller on) _ e λ w e1 r1. still v v' (
        ap (λ (z : Vault × T). books z.0) (sym (ok_injective r1))
        ∙ set_paused-books v caller on e1)),
  )
