-- ===== src/Shares.antt =====
-- crates/shares/src/lib.rs: share accounting, for the vault's shares and the facility's. Balances are
-- a list of entries, so that they can be added up; an address without an entry holds nothing.
pub mod Balances
pub mod Fees
pub mod Token
pub mod Supply
pub mod Moves
pub mod Rates
pub mod Dilution
pub mod Mark
mod Tests
use stellar_rfq.Prelude.{
  ℕ, ◌+◌, Bool, true, false, ◌&&◌, ◌||◌, not, Option, none, some, ltb, leb, if◌then◌else◌,
}
use stellar_rfq.Prelude.Int.{ℤ, pos, ltb_ℤ, leb_ℤ}
use stellar_rfq.Prelude.Maps.{Bytes, update, nat_eq, ◌==◌}
use stellar_rfq.Prelude.Result.{Result, ok, err, trap, ◌>>=◌, ◌>>◌, fail_if, or_trap}
use stellar_rfq.Prelude.Words.{add_i128, sub_i128, u32_max, uint}
use stellar_rfq.Math
use stellar_rfq.Math.{MathError, one}
use stellar_rfq.Types.{Address}
use stellar_rfq.Host.{Host}
use Balances.{Entries, get, put}

abbrev pub virtual_shares : ℤ
virtual_shares = pos 1_000_000

abbrev decimals_offset : ℕ
decimals_offset = 6

pub data ShareError : Type 0 where
  invalid_amount insufficient_balance insufficient_allowance not_allowlisted : ShareError
  frozen_holder share_overflow : ShareError

abbrev pub Return : Type 0 → Type 0
Return A = Result ShareError A

pub record Meta : Type 0 where
  pub decimals : ℕ
  pub name : Bytes
  pub symbol : Bytes

pub record Allowance : Type 0 where
  pub amount : ℤ
  pub expiration_ledger : ℕ

-- One field for each `ShareKey`.
pub record Shares : Type 0 where
  pub meta_entry : Option Meta
  pub supply : ℤ
  pub hwm : ℤ
  pub allowlist : Bool
  pub balances : Entries
  pub allowances : Address → Address → Option Allowance
  pub member : Address → Bool
  pub frozen : Address → Bool

checked : Result MathError ℤ → Return ℤ
checked (ok v) = ok v
checked (err MathError.domain) = err invalid_amount
checked (err MathError.overflow) = err share_overflow
checked trap = trap

unfoldable pub md : ℤ → ℤ → ℤ → Return ℤ
unfolding checked
md a b d = checked (Math.mul_div a b d)

unfoldable pub md_up : ℤ → ℤ → ℤ → Return ℤ
unfolding checked
md_up a b d = checked (Math.mul_div_ceil a b d)

unfoldable pub share_price : ℤ → ℤ → Return ℤ
share_price nav supply = do
  assets ← add_i128 nav (pos 1)
  shares ← add_i128 supply virtual_shares
  md assets one shares

unfoldable pub init_meta : Shares → ℕ → Bytes → Bytes → Shares
init_meta s decimals name symbol = record s {
  meta_entry = some (record { decimals = decimals; name = name; symbol = symbol });
}

unfoldable pub init : Shares → ℕ → Bytes → Bytes → Return Shares
unfolding init_meta
init s asset_decimals name symbol = do
  decimals ← uint u32_max (asset_decimals + decimals_offset)
  price ← share_price (pos 0) (pos 0)
  ok (record (init_meta s decimals name symbol) { hwm = price })

abbrev pub balance : Shares → Address → ℤ
balance s who = get s.balances who

set_balance : Shares → Address → ℤ → Shares
set_balance s who v = record s { balances = put s.balances who v }

unfoldable pub mint : Shares → Address → ℤ → Return Shares
unfolding set_balance
mint s to amount = do
  held ← add_i128 (balance s to) amount
  supply ← add_i128 s.supply amount
  ok (record (set_balance s to held) { supply = supply })

debit : Shares → Address → ℤ → Return Shares
unfolding set_balance
debit s from amount = do
  fail_if (ltb_ℤ amount (pos 0)) invalid_amount
  fail_if (s.frozen from) frozen_holder
  fail_if (ltb_ℤ (balance s from) amount) insufficient_balance
  left ← sub_i128 (balance s from) amount
  ok (set_balance s from left)

unfoldable pub burn : Shares → Address → ℤ → Return Shares
unfolding debit set_balance
burn s from amount = do
  s' ← debit s from amount
  supply ← sub_i128 s'.supply amount
  ok (record s' { supply = supply })

-- Compliance: a holder's shares are moved whether it is frozen or not.
unfoldable pub seize : Shares → Address → Address → ℤ → Return Shares
unfolding set_balance
seize s from to amount = do
  let held = balance s from
  fail_if (leb_ℤ amount (pos 0) || ltb_ℤ held amount) insufficient_balance
  left ← sub_i128 held amount
  let s' = set_balance s from left
  total ← add_i128 (balance s' to) amount
  ok (set_balance s' to total)

unfoldable pub set_allowlist : Shares → Bool → Shares
set_allowlist s enabled = record s { allowlist = enabled }

unfoldable pub set_member : Shares → Address → Bool → Shares
set_member s who allowed = record s { member = update s.member who allowed }

unfoldable pub set_frozen : Shares → Address → Bool → Shares
set_frozen s who frozen = record s { frozen = update s.frozen who frozen }

module _ {T : Type 0} (h : Host T) where
  -- With the allowlist on, only members and the issuer itself hold shares.
  unfoldable pub admitted : Shares → Address → Bool
  admitted s who = not s.allowlist || (who == h.me || s.member who)

  unfoldable pub transfer : Shares → Address → Address → ℤ → Return Shares
  unfolding admitted debit set_balance
  transfer s from to amount = do
    fail_if (not (admitted s to)) not_allowlisted
    fail_if (s.frozen to) frozen_holder
    s' ← debit s from amount
    total ← add_i128 (balance s' to) amount
    ok (set_balance s' to total)

  live_amount : Option Allowance → ℤ
  live_amount none = pos 0
  live_amount (some a) = if leb h.sequence a.expiration_ledger then a.amount else pos 0

  unfoldable pub allowance : Shares → Address → Address → ℤ
  unfolding live_amount
  allowance s from spender = live_amount (s.allowances from spender)

  set_allowance : Shares → Address → Address → Allowance → Shares
  set_allowance s from spender v = record s {
    allowances = update s.allowances from (update (s.allowances from) spender (some v));
  }

  unfoldable pub approve : Shares → Address → Address → ℤ → ℕ → Return Shares
  unfolding set_allowance
  approve s from spender amount expiration_ledger = do
    fail_if (ltb_ℤ amount (pos 0) || (ltb_ℤ (pos 0) amount && ltb expiration_ledger h.sequence))
        invalid_amount
    ok (
        set_allowance s from spender
          (record { amount = amount; expiration_ledger = expiration_ledger }))

  unfoldable pub spend_allowance : Shares → Address → Address → ℤ → Return Shares
  unfolding allowance set_allowance
  spend_allowance s from spender amount = do
    let left = allowance s from spender
    fail_if (ltb_ℤ left amount) insufficient_allowance
    v ← or_trap (s.allowances from spender)
    rest ← sub_i128 left amount
    ok (set_allowance s from spender (record v { amount = rest }))
