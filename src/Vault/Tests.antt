-- ===== src/Vault/Tests.antt =====
-- A vault with one venue, and a deposit into it.
use stellar_rfq.Shares.Balances.{put, get}
use stellar_rfq.Math.{mul_div}
use stellar_rfq.Shares.Fees.{accrue, to_shares, snapshot}
use stellar_rfq.Prelude.Words.{i128}
use stellar_rfq.Prelude.{◌≡◌, refl, false, none, some, [], ◌∷◌, if◌then◌else◌}
use stellar_rfq.Prelude.Int.{ℤ, pos, ◌+ℤ◌, ◌-ℤ◌}
use stellar_rfq.Prelude.Maps.{nat_eq, ◌==◌}
use stellar_rfq.Prelude.Result.{ok, err, trap}
use stellar_rfq.Rfq.Example.{Balances, host, moves, dollar, settlement, maker, taker}
use stellar_rfq.Shares
use stellar_rfq.Vault.{accrue_now, config, Vault, Links, Return, venue_not_found, invalid_config}
use stellar_rfq.Vault.Venues.{set_venue_order}
use stellar_rfq.Vault.Money.{deposit}
use stellar_rfq.Vault.Intake.{Deposited, deposit-Deposited}

-- A venue is an account that pays out all it has.
abbrev links : Links Balances
links = record {
  total_assets = λ x at. some (x dollar at);
  max_withdraw = λ x at. some (x dollar at);
  supply = λ x at amount. some (amount, x);
  withdraw = λ x at amount to. some (amount, moves x dollar at to amount);
  decimals = λ x token. some 7;
  host_admin = λ x at. some 30;
  vault_wasm = λ x at. some [];
  deploy_adapter = λ x at me wasm asset venue. some (41, x);
  update_wasm = λ x wasm. some x;
}

-- The vault has 600 dollars, its venues 300 and 100, and the taker 5,000.
abbrev holdings : Balances
holdings token who =
    if who == settlement
    then pos 600
    else if who == 40
    then pos 300
    else if who == 41
    then pos 100
    else pos 5_000

abbrev shares : Shares.Shares
shares = record {
  meta_entry = none;
  supply = pos 1_000_000_000;
  hwm = pos 1_000_000_000_000;
  allowlist = false;
  balances = (10, pos 1_000_000_000) ∷ [];
  allowances = λ from spender. none;
  member = λ who. false;
  frozen = λ who. false;
}

abbrev vault : Vault
vault = record {
  host_entry = some 50;
  config_entry = some (record {
    asset = dollar;
    curator = 60;
    manager = 61;
    guardian = 62;
    name = [];
    symbol = [];
    deposit_cap = pos 2_000;
    curator_fee_bps = 1_000;
    timelock = 100;
  });
  venues = 40 ∷ 41 ∷ [];
  shares = shares;
  timelock = record { delay_entry = some 100; guardian_entry = some 62; waiting = λ k. none };
}

swapped_run :
    set_venue_order host vault (41 ∷ 40 ∷ []) ≡ ok (record vault { venues = 41 ∷ 40 ∷ [] })
unfolding set_venue_order config
swapped_run = refl

twice_refused : set_venue_order host vault (41 ∷ 41 ∷ []) ≡ err invalid_config
unfolding set_venue_order config
twice_refused = refl

stranger_refused : set_venue_order host vault (41 ∷ 42 ∷ []) ≡ err venue_not_found
unfolding set_venue_order config
stranger_refused = refl

abbrev result_of : Return (ℤ × (Vault × Balances)) → ℤ × (Vault × Balances)
result_of (ok z) = z
result_of (err e) = (pos 0, (vault, holdings))
result_of trap = (pos 0, (vault, holdings))

abbrev after : ℤ × (Vault × Balances)
after = result_of (deposit host links (vault, holdings) (pos 900) taker taker maker)

deposit_run :
    deposit host links (vault, holdings) (pos 900) taker taker maker
    ≡ ok (after.0, (after.1.0, after.1.1))
unfolding deposit Shares.admitted accrue_now i128 ◌+ℤ◌ accrue snapshot Shares.share_price Shares.md
    mul_div Shares.mint get ◌-ℤ◌ to_shares put
deposit_run = refl

minted_run : after.0 ≡ pos 900_000_000
unfolding deposit Shares.admitted accrue_now i128 ◌+ℤ◌ accrue snapshot Shares.share_price Shares.md
    mul_div Shares.mint get ◌-ℤ◌ to_shares put
minted_run = refl

deposit-Deposited_example :
    Deposited host links vault holdings (pos 900) taker taker maker after.0 after.1.0 after.1.1
deposit-Deposited_example =
    deposit-Deposited host links vault holdings (pos 900) taker taker maker {minted = after.0}
      {v' = after.1.0} {x' = after.1.1} deposit_run
