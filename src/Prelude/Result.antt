-- ===== src/Prelude/Result.antt =====
-- What a contract call returns: a value, one of the contract's own errors (`panic_with_error!`),
-- or a trap of the host (an overflow, a missing authorisation, an `unwrap` of nothing, a failed
-- cross-contract call). Either failure rolls the whole invocation back, so neither carries a state.
use mathlib.Core.Path.{◌≡◌, refl}
use mathlib.Core.Bool.{Bool, true, false}
use mathlib.Core.Option.{Option, none, some}

pub data Result {ℓ} (E : Type 0) (A : Type ℓ) : Type ℓ where
  ok : A → Result E A
  err : E → Result E A
  trap : Result E A

infixl 5 ◌>>=◌ ◌>>◌
abbrev pub ◌>>=◌ {ℓ κ} :
    {E : Type 0} {A : Type ℓ} {B : Type κ} → Result E A → (A → Result E B) → Result E B
trap >>= f = trap
err e >>= f = err e
ok a >>= f = f a

abbrev pub ◌>>◌ {ℓ κ} :
    {E : Type 0} {A : Type ℓ} {B : Type κ} → Result E A → Result E B → Result E B
m >> k = m >>= λ _. k

module _ {E : Type 0} where
  -- `if c { panic_with_error!(e) }`
  abbrev pub fail_if : Bool → E → Result E (Unit {0})
  fail_if true e = err e
  fail_if false e = ok tt

  -- What the host aborts on unless `c` holds.
  abbrev pub trap_unless : Bool → Result E (Unit {0})
  trap_unless true = ok tt
  trap_unless false = trap

  -- `unwrap`, or a cross-contract call that may fail.
  abbrev pub or_trap {ℓ} : {A : Type ℓ} → Option A → Result E A
  or_trap none = trap
  or_trap (some a) = ok a

  -- `unwrap_or_else(|| panic_with_error!(e))`
  abbrev pub or_err {ℓ} : {A : Type ℓ} → Option A → E → Result E A
  or_err none e = err e
  or_err (some a) e = ok a

  -- A successful chain has a successful first part; a proof about a long chain names the parts as
  -- it goes.
  pub bind_then {ℓ κ μ} :
      {A : Type ℓ} {B : Type κ} {P : Type μ} (m : Result E A) (f : A → Result E B) {b : B}
      → (m >>= f) ≡ ok b
      → ((a : A) → m ≡ ok a → f a ≡ ok b → P)
      → P
  bind_then (ok a) f h k = k a refl h
  bind_then (err e) f h k = absurd (cc)
  bind_then trap f h k = absurd (cc)

  pub ok_injective {ℓ} : {A : Type ℓ} {a b : A} → ◌≡◌ {A = Result E A} (ok a) (ok b) → a ≡ b
  ok_injective h = cc

  pub fail_if_ok : (c : Bool) (e : E) → fail_if c e ≡ ok tt → c ≡ false
  fail_if_ok true e h = cc
  fail_if_ok false e h = refl

  pub trap_unless_ok : (c : Bool) → trap_unless c ≡ ok tt → c ≡ true
  trap_unless_ok true h = refl
  trap_unless_ok false h = cc

  pub or_trap_ok {ℓ} : {A : Type ℓ} (o : Option A) {a : A} → or_trap o ≡ ok a → o ≡ some a
  or_trap_ok none h = cc
  or_trap_ok (some a) h = cc

  pub or_err_ok {ℓ} : {A : Type ℓ} (o : Option A) (e : E) {a : A} → or_err o e ≡ ok a → o ≡ some a
  or_err_ok none e h = cc
  or_err_ok (some a) e h = cc
