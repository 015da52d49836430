-- ===== src/Shares/Tests.antt =====
-- Shares at work.
use stellar_rfq.Prelude.{◌≡◌, ◌≢◌, ◌⊎◌, refl, true, false, none, some, List, [], ◌∷◌, arith}
use stellar_rfq.Prelude.Int.{pos, ◌+ℤ◌, ◌-ℤ◌, ◌≤ℤ◌}
use stellar_rfq.Prelude.Result.{ok, err, trap}
use stellar_rfq.Prelude.Words.{i128}
use stellar_rfq.Math
use stellar_rfq.Host.{Host}
use stellar_rfq.Types.{Address}
use stellar_rfq.Shares.{
  Shares, balance, transfer, admitted, allowance, spend_allowance, seize, set_frozen, Return, md,
  md_up,
}
use stellar_rfq.Shares.Balances.{get, put, total}
use stellar_rfq.Shares.Fees.{Snapshot, to_shares, to_assets}
use stellar_rfq.Shares.Token.{transfer_from}
use stellar_rfq.Shares.Moves.{Settled, transfer-Settled, transfer_from-Settled}
use stellar_rfq.Shares.Supply.{Op, transfers, seizes, freezes, IsValid, run, apply, run-IsValid}
use stellar_rfq.Shares.Mark.{Marked, snapshot_mark}
use stellar_rfq.Shares.Fees.{snapshot, fee_on}
use stellar_rfq.Shares.{share_price}
use stellar_rfq.Shares.Rates.{to_assets-to_shares, to_shares-to_assets}
use stellar_rfq.Rfq.Example.{Balances, host}

abbrev shares : Shares
shares = record {
  meta_entry = none;
  supply = pos 1_100;
  hwm = pos 1_000_000_000_000;
  allowlist = false;
  balances = (10, pos 1_000) ∷ (11, pos 100) ∷ [];
  allowances = λ from spender. some (record { amount = pos 300; expiration_ledger = 5 });
  member = λ who. false;
  frozen = λ who. false;
}

abbrev after_transfer : Shares
after_transfer = record shares { balances = (10, pos 750) ∷ (11, pos 350) ∷ [] }

transfer_run : transfer host shares 10 11 (pos 250) ≡ ok after_transfer
unfolding transfer get i128 ◌-ℤ◌ ◌+ℤ◌ put
transfer_run = refl

transfer-Settled_example :
    Settled shares after_transfer 10 11 (pos 250)
    × (pos 0 ≤ℤ pos 250)
    × (pos 250 ≤ℤ balance shares 10)
    × (admitted host shares 11 ≡ true)
    × (shares.frozen 11 ≡ false)
    × (shares.frozen 10 ≡ false)
transfer-Settled_example =
    transfer-Settled host shares 10 11 (pos 250) {s' = after_transfer} (omega arith) transfer_run

-- What an operation returned, once it is known to have returned something.
abbrev result_of : Return Shares → Shares
result_of (ok s) = s
result_of (err e) = shares
result_of trap = shares

abbrev spent : Shares
spent = result_of (transfer_from host shares 12 10 11 (pos 250))

spent_run : transfer_from host shares 12 10 11 (pos 250) ≡ ok spent
unfolding transfer_from spend_allowance allowance transfer get i128 ◌-ℤ◌ ◌+ℤ◌ put
spent_run = refl

transfer_from-Settled_example :
    Settled shares spent 10 11 (pos 250)
    × (pos 0 ≤ℤ pos 250)
    × (pos 250 ≤ℤ balance shares 10)
    × (admitted host shares 11 ≡ true)
    × (shares.frozen 11 ≡ false)
    × (shares.frozen 10 ≡ false)
    × (host.authorised 12 ≡ true)
    × (pos 250 ≤ℤ allowance host shares 10 12)
    × (allowance host spent 10 12 ≡ allowance host shares 10 12 -ℤ pos 250)
    × ((owner other : Address)
        → (10 ≢ owner) ⊎ (12 ≢ other)
        → spent.allowances owner other ≡ shares.allowances owner other)
transfer_from-Settled_example =
    transfer_from-Settled host shares 12 10 11 (pos 250) {s' = spent} (omega arith) spent_run

shares_nonneg : (who : Address) → pos 0 ≤ℤ balance shares who
unfolding get
shares_nonneg who = ground arith

shares-IsValid : IsValid shares
unfolding total ◌+ℤ◌
shares-IsValid = record { backed = refl; nonneg = shares_nonneg }

-- Holder 11 is frozen, then tries to move its shares, which fails; then its shares are seized.
abbrev past : List (Host Balances × Op)
past =
    (host, seizes 11 10 (pos 100)) ∷ (host, transfers 11 10 (pos 50)) ∷ (host, freezes 11 true) ∷ []

run-IsValid_example : IsValid (run past shares)
run-IsValid_example = run-IsValid past shares shares-IsValid

seized_run : balance (run past shares) 10 ≡ pos 1_100
unfolding run apply seize set_frozen transfer get put i128 ◌-ℤ◌ ◌+ℤ◌
seized_run = refl

-- Assets worth 2_000_000 against 1_000_000 shares and the virtual ones.
abbrev issuer : Snapshot
issuer = record { nav = pos 2_000_000; supply = pos 1_000_000; fee_shares = pos 0; hwm = pos 0 }

bought : to_shares issuer (pos 1_001) false ≡ ok (pos 1_000)
unfolding to_shares i128 ◌+ℤ◌ md Math.mul_div
bought = refl

redeemed : to_assets issuer (pos 1_000) false ≡ ok (pos 1_000)
unfolding to_assets i128 ◌+ℤ◌ md Math.mul_div
redeemed = refl

asked : to_assets issuer (pos 1_000) true ≡ ok (pos 1_001)
unfolding to_assets i128 ◌+ℤ◌ md_up Math.mul_div_ceil
asked = refl

to_assets-to_shares_example : pos 1_000 ≤ℤ pos 1_001
to_assets-to_shares_example =
    to_assets-to_shares issuer (pos 1_001) (pos 1_000) (pos 1_000) bought redeemed

to_shares-to_assets_example : pos 1_000 ≤ℤ pos 1_000
to_shares-to_assets_example =
    to_shares-to_assets issuer (pos 1_000) (pos 1_001) (pos 1_000) asked bought

-- The value has doubled; a tenth of the gain is due.
abbrev grown : Shares
grown = record shares { supply = pos 1_000_000; hwm = pos 1_000_000_000_000_000_000 }

abbrev due_now : Return Snapshot → Snapshot
due_now (ok d) = d
due_now (err e) = issuer
due_now trap = issuer

abbrev due : Snapshot
due = due_now (snapshot grown (pos 4_000_000) 1_000)

due_run : snapshot grown (pos 4_000_000) 1_000 ≡ ok due
unfolding snapshot fee_on share_price md Math.mul_div i128 ◌+ℤ◌ ◌-ℤ◌
due_run = refl

snapshot_mark_example :
    (pos 1_000_000_000_000_000_000 ≤ℤ due.hwm) × Marked grown (pos 4_000_000) due
snapshot_mark_example = snapshot_mark grown (pos 4_000_000) 1_000 {due = due} (omega arith) due_run
