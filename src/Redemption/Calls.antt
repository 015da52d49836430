-- ===== src/Redemption/Calls.antt =====
-- contracts/redemption_vault/src/lib.rs: calls that run from a redemption account.
use stellar_rfq.Prelude.{
  ℕ, Bool, true, false, ◌||◌, not, Option, none, some, List, [], ◌∷◌, if◌then◌else◌,
}
use stellar_rfq.Prelude.Int.{ℤ, pos, eqb_ℤ}
use stellar_rfq.Prelude.Maps.{nat_eq, ◌==◌}
use stellar_rfq.Prelude.Result.{ok, ◌>>=◌, ◌>>◌, fail_if, or_trap, or_err}
use stellar_rfq.Prelude.Words.{sub_i128}
use stellar_rfq.Types.{Address}
use stellar_rfq.Host.{Host}
use stellar_rfq.Redemption.Types.{
  issuer_took_wrong_amount, call_not_verified, no_free_account, Return, status_eq, Call,
}
use stellar_rfq.Redemption.Outside.{Outside}
use stellar_rfq.Redemption.State.{Vault, init, settings}

abbrev pub is_some : Option ℕ → Bool
is_some none = false
is_some (some _) = true

unfoldable pub first_free : (Address → Option ℕ) → List Address → Option Address
first_free busy [] = none
first_free busy (a ∷ l) = if is_some (busy a) then first_free busy l else some a

unfoldable pub free_account : Vault → Return Address
unfolding first_free
free_account v = or_err (first_free v.busy v.accounts) no_free_account

module _ {T : Type 0} (h : Host T) (o : Outside T) where
  -- One call, from the account, and only as the verifier allows.
  unfoldable pub run_call : Vault → T → Address → Address → Address → Call → Return T
  run_call v x stable verifier account c = do
    let forbidden =
        c.target == stable || c.target == account || c.target == h.me || is_some (v.ct c.target)
    fail_if forbidden call_not_verified
    allowed ← or_trap (o.verify x verifier h.me account c.target c.func c.args)
    fail_if (not allowed) call_not_verified
    or_trap (o.execute x account c.target c.func c.args)

  run_each : Vault → T → Address → Address → Address → List Call → Return T
  unfolding run_call
  run_each v x stable verifier account [] = ok x
  run_each v x stable verifier account (c ∷ calls) = do
    x' ← run_call v x stable verifier account c
    run_each v x' stable verifier account calls

  unfoldable pub run_calls : Vault → T → Address → List Call → Return T
  unfolding init settings run_each
  run_calls v x account calls = do
    i ← init v
    s ← settings v
    verifier ← or_err s.verifier call_not_verified
    run_each v x i.stable verifier account calls

  allow : T → Address → Address → Option Address → ℤ → Return T
  allow x account token none amount = ok x
  allow x account token (some spender) amount = or_trap (o.approve x account token spender amount)

  unfoldable pub send_from : Vault → T → Address → ℤ → Option Address → List Call → Return T
  unfolding init run_calls allow
  send_from v x account amount spender calls = do
    i ← init v
    before ← or_trap (h.balance x i.rwa account)
    x1 ← allow x account i.rwa spender amount
    x2 ← run_calls v x1 account calls
    x3 ← allow x2 account i.rwa spender (pos 0)
    after ← or_trap (h.balance x3 i.rwa account)
    taken ← sub_i128 before after
    fail_if (not (eqb_ℤ taken amount)) issuer_took_wrong_amount
    ok x3
