-- ===== src/Rfq/Tokens.antt =====
-- contracts/rfq/src/lib.rs: `deliver` and `pay`, the two ways in which tokens move. Both measure
-- what was credited.
use stellar_rfq.Prelude.{if◌then◌else◌}
use stellar_rfq.Prelude.Int.{ℤ, pos, ltb_ℤ, leb_ℤ}
use stellar_rfq.Prelude.Result.{ok, ◌>>=◌, ◌>>◌, or_trap, fail_if}
use stellar_rfq.Prelude.Words.{sub_i128}
use stellar_rfq.Types.{Address}
use stellar_rfq.Host.{Host}
use stellar_rfq.Rfq.Types.{Return, invalid_amount}

module _ {T : Type 0} (h : Host T) where
  -- What `to` was credited, clamped to `amount`, and the state of the tokens after it.
  unfoldable pub deliver : T → Address → Address → Address → ℤ → Return (ℤ × T)
  deliver x tok from to amount = do
    before ← or_trap (h.balance x tok to)
    x' ← or_trap (h.transfer_from x tok h.me from to amount)
    after ← or_trap (h.balance x' tok to)
    received ← sub_i128 after before
    fail_if (leb_ℤ received (pos 0)) invalid_amount
    ok (if ltb_ℤ amount received then amount else received, x')

  -- `if amount > 0 { transfer_from(...) }`
  unfoldable pub pay_part : T → Address → Address → Address → ℤ → Return T
  pay_part x tok payer to amount =
      if ltb_ℤ (pos 0) amount then or_trap (h.transfer_from x tok h.me payer to amount) else ok x

  -- What `to` was credited by the two transfers.
  unfoldable pub pay : T → Address → Address → Address → Address → ℤ → ℤ → Return (ℤ × T)
  pay x tok payer to fee_to net fee = do
    before ← or_trap (h.balance x tok to)
    x1 ← pay_part x tok payer to net
    x2 ← pay_part x1 tok payer fee_to fee
    after ← or_trap (h.balance x2 tok to)
    credited ← sub_i128 after before
    ok (credited, x2)
