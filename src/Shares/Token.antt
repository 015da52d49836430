-- ===== src/Shares/Token.antt =====
-- crates/shares/src/lib.rs: the entry points that `share_token!` writes for an issuer.
use stellar_rfq.Prelude.{ℕ}
use stellar_rfq.Prelude.Int.{ℤ}
use stellar_rfq.Prelude.Result.{◌>>=◌, ◌>>◌}
use stellar_rfq.Types.{Address}
use stellar_rfq.Host.{Host, require_auth}
use stellar_rfq.Shares.{Shares, Return, transfer, burn, approve, spend_allowance}

module _ {T : Type 0} (h : Host T) where
  unfoldable pub token_approve : Shares → Address → Address → ℤ → ℕ → Return Shares
  token_approve s from spender amount expiration_ledger = do
    require_auth h from
    approve h s from spender amount expiration_ledger

  unfoldable pub token_transfer : Shares → Address → Address → ℤ → Return Shares
  token_transfer s from to amount = do require_auth h from; transfer h s from to amount

  unfoldable pub transfer_from : Shares → Address → Address → Address → ℤ → Return Shares
  transfer_from s spender from to amount = do
    require_auth h spender
    s' ← spend_allowance h s from spender amount
    transfer h s' from to amount

  unfoldable pub token_burn : Shares → Address → ℤ → Return Shares
  token_burn s from amount = do require_auth h from; burn s from amount

  unfoldable pub burn_from : Shares → Address → Address → ℤ → Return Shares
  burn_from s spender from amount = do
    require_auth h spender
    s' ← spend_allowance h s from spender amount
    burn s' from amount
