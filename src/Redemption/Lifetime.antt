-- ===== src/Redemption/Lifetime.antt =====
-- contracts/redemption_vault/src/lib.rs: the books through the life of the contract.
use stellar_rfq.Prelude.{ℕ, ◌≡◌, refl, sym, subst, List, [], ◌∷◌, none, some}
use stellar_rfq.Prelude.Int.{pos}
use stellar_rfq.Prelude.Result.{ok, err, trap, bind_then}
use stellar_rfq.Host.{Host}
use stellar_rfq.Timelock
use stellar_rfq.Timelock.{submit, revoke}
use stellar_rfq.Redemption.Types.{Return, Init, Roles, Settings}
use stellar_rfq.Redemption.Outside.{Outside}
use stellar_rfq.Redemption.State.{Vault, check_settings}
use stellar_rfq.Redemption.Admin.{construct}
use stellar_rfq.Redemption.Machine.{Books, books}
use stellar_rfq.Redemption.Batches.{find, sum}
use stellar_rfq.Redemption.Valid.{IsValid}
use stellar_rfq.Redemption.Keeps.{Step-IsValid}
use stellar_rfq.Redemption.Entry.{Op, apply, kept_or, run}
use stellar_rfq.Redemption.Refinement.{apply-Step, add_account-books}

-- The books of a contract that is yet to be deployed.
abbrev pub no_books : Books
no_books = record {
  batches = [];
  totals = record { pooled = pos 0; proceeds = pos 0; rwa = pos 0; sent = 0 };
  open_entry = none;
  next_entry = none;
  busy = λ a. none;
}

first-IsValid : IsValid (record no_books { next_entry = some 1 })
unfolding sum find
first-IsValid = record {
  pooled = refl;
  proceeds = refl;
  rwa = refl;
  counted = refl;
  current = λ id e. absurd (cc);
  fresh = λ n id e low. refl;
  lawful = λ id b e. absurd (cc);
  held = λ id b a e. absurd (cc);
}

module _ {T : Type 0} where
  kept-IsValid :
      (h : Host T) (o : Outside T) (op : Op T) (z : Vault × T) (r : Return (Vault × T))
      → apply h o op z ≡ r
      → IsValid (books z.0)
      → IsValid (books (kept_or z r).0)
  unfolding kept_or
  kept-IsValid h o op (v, x) (ok (v', x')) e valid = Step-IsValid (apply-Step h o op v x e).2 valid
  kept-IsValid h o op z (err _) e valid = valid
  kept-IsValid h o op z trap e valid = valid

  -- After any history of calls the books are in order if they were.
  pub run-IsValid :
      (z : Vault × T) (past : List (Host T × (Outside T × Op T)))
      → IsValid (books z.0)
      → IsValid (books (run z past).0)
  unfolding run
  run-IsValid z [] valid = valid
  run-IsValid z ((h, (o, op)) ∷ past) valid =
      kept-IsValid h o op (run z past) (apply h o op (run z past)) refl (run-IsValid z past valid)

  construct-books :
      (h : Host T) (o : Outside T) (v : Vault) (x : T) (i : Init) (r : Roles) (s : Settings) (d : ℕ)
      {v' : Vault} {x' : T}
      → construct h o (v, x) i r s d ≡ ok (v', x')
      → books v' ≡ record (books v) { next_entry = some 1 }
  unfolding construct books
  construct-books h o v x i r s d e = bind_then (check_settings s) _ e λ _ e1 r1.
      add_account-books h o
        (record v {
          timelock = Timelock.init v.timelock d r.guardian;
          init_entry = some i;
          roles_entry = some r;
          settings_entry = some s;
          next_entry = some 1;
        })
        x r1

  -- From the deployment of a redemption vault with empty books, through any calls, whether they
  -- fail or not and whatever other contracts do between them: the totals are the sums over the
  -- batches (units of the open ones, proceeds and RWA left of the settled ones, the number that is
  -- with the issuer), the batch that takes requests is open, no id was handed out that is still to
  -- come, what the issuer handed back is no more than the batch, and every batch that is with the
  -- issuer has its account to itself.
  pub deployed-IsValid :
      (h : Host T) (o : Outside T) (v : Vault) (x : T) (i : Init) (r : Roles) (s : Settings) (d : ℕ)
      (past : List (Host T × (Outside T × Op T))) {z : Vault × T}
      → books v ≡ no_books
      → construct h o (v, x) i r s d ≡ ok z
      → IsValid (books (run z past).0)
  deployed-IsValid h o v x i r s d past {z} blank e = run-IsValid z past (
      subst IsValid (sym (construct-books h o v x i r s d e))
        (subst (λ k. IsValid (record k { next_entry = some 1 })) (sym blank) first-IsValid))
