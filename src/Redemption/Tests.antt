-- ===== src/Redemption/Tests.antt =====
-- The redemption vault at work: a batch that is redeemed by hand, and claimed.
use stellar_rfq.Prelude.Maps.{update, nat_eq}
use stellar_rfq.Types.{Address}
use stellar_rfq.Math.{mul_div_ceil, mul_div}
use stellar_rfq.Prelude.Words.{uint, sub_uint, i128}
use stellar_rfq.Redemption.Sending.{withdraw_batch}
use stellar_rfq.Redemption.Batches.{store, find}
use stellar_rfq.Prelude.{◌≡◌, refl, true, false, none, some, List, [], ◌∷◌}
use stellar_rfq.Prelude.Int.{ℤ, pos, ◌+ℤ◌, ◌-ℤ◌}
use stellar_rfq.Prelude.Maps.{nat_eq}
use stellar_rfq.Prelude.Result.{ok, err, trap}
use stellar_rfq.Host.{Host}
use stellar_rfq.Rfq.Example.{Balances, host}
use stellar_rfq.Redemption.Types.{
  Return, Init, Roles, Settings, manual, new_batch, sent, settled, proceeds_too_low,
}
use stellar_rfq.Redemption.Outside.{Outside}
use stellar_rfq.Redemption.State.{Vault}
use stellar_rfq.Redemption.Holders.{request_redeem, claim}
use stellar_rfq.Redemption.Settling.{settle_manual}
use stellar_rfq.Redemption.Admin.{construct}
use stellar_rfq.Redemption.Machine.{books, Step, Event}
use stellar_rfq.Redemption.Entry.{Op, requests, claims, withdraws, settles_by_hand, apply, run}
use stellar_rfq.Redemption.Refinement.{Allows, apply-Step}
use stellar_rfq.Redemption.Valid.{IsValid}
use stellar_rfq.Redemption.Lifetime.{no_books, deployed-IsValid}
use stellar_rfq.Redemption.Payouts.{Claimed, claim_pays}
use stellar_rfq.Redemption.Floor.{AtFloor, settle_manual_floor}

-- `a` of a token goes from one holder to another.
moved : Balances → Address → Address → Address → ℤ → Balances
unfolding ◌+ℤ◌ ◌-ℤ◌
moved x tok from to a =
    let paid = update (x tok) from (x tok from -ℤ a) in update x tok (update paid to (paid to +ℤ a))

-- The supply of a token is kept as the balance of account 0; a batch's claim token is at 100.
abbrev world : Outside Balances
world = record {
  mint = λ x ct to a. some (moved (moved x ct 9 0 a) ct 9 to a);
  burn_claim = λ x ct from a. some (moved (moved x ct from 9 a) ct 0 9 a);
  set_gate = λ x ct gate. some x;
  total_supply = λ x ct. some (x ct 0);
  token_symbol = λ x tok. some (70 ∷ 78 ∷ 68 ∷ []);
  deploy_ct = λ x salt code args. some (100, x);
  deploy_account = λ x salt code owner. some (60, x);
  deployed_address = λ salt. 60;
  execute = λ x account target func args. some x;
  approve = λ x account tok spender a. some x;
  sweep = λ x account tok to. some x;
  verify = λ x verifier me account target func args. some true;
  transfer_symbol = [];
  transfer_args = λ from to a. [];
}

abbrev nothing : Balances
nothing = λ tok who. pos 0

abbrev blank : Vault
blank = record {
  init_entry = none;
  roles_entry = none;
  settings_entry = none;
  totals = record { pooled = pos 0; proceeds = pos 0; rwa = pos 0; sent = 0 };
  is_paused = false;
  open_entry = none;
  next_entry = none;
  accounts = [];
  batches = [];
  busy = λ a. none;
  ct = λ a. none;
  timelock = record { delay_entry = none; guardian_entry = none; waiting = λ k. none };
}

abbrev tokens : Init
tokens = record { rwa = 21; stable = 20; ct_wasm = []; account_wasm = [] }

abbrev parties : Roles
parties = record { admin = 2; guardian = 3; settler = 4; operator = 5 }

-- Struck at send, with a fee of one per cent.
abbrev terms : Settings
terms = record {
  mode = manual;
  strike_at_send = true;
  verifier = none;
  gate = none;
  oracle = some 30;
  max_age = 1_000;
  fee_bps = 100;
  fee_recipient = some 12;
  floor_bps = 50;
  destinations = 50 ∷ [];
}

abbrev state_of : Return (Vault × Balances) → Vault × Balances
state_of (ok z) = z
state_of (err e) = (blank, nothing)
state_of trap = (blank, nothing)

abbrev deployed : Vault × Balances
deployed = state_of (construct host world (blank, nothing) tokens parties terms 500)

deployed_run : construct host world (blank, nothing) tokens parties terms 500 ≡ ok deployed
unfolding construct
deployed_run = refl

blank-books : books blank ≡ no_books
unfolding books
blank-books = refl

-- 200 units join, leave by hand, are settled at 1.04 each and half is claimed.
abbrev past : List (Host Balances × (Outside Balances × Op Balances))
past =
    (host, (world, claims 11 1 (pos 100) 11))
    ∷ (host, (world, settles_by_hand 1 (pos 209) (pos 0)))
    ∷ (host, (world, withdraws 1 50))
    ∷ (host, (world, requests 11 (pos 200) 11))
    ∷ []

deployed-IsValid_example : IsValid (books (run deployed past).0)
deployed-IsValid_example =
    deployed-IsValid host world blank nothing tokens parties terms 500 past {z = deployed}
      blank-books deployed_run

-- Nothing is left with the issuer after that history.
none_away : (run deployed past).0.totals.sent ≡ 0
unfolding run apply claim find settle_manual withdraw_batch request_redeem construct uint i128 ◌+ℤ◌
    store ◌-ℤ◌ mul_div_ceil mul_div sub_uint moved
none_away = refl

abbrev requested : Vault × Balances
requested = state_of (apply host world (requests 11 (pos 200) 11) deployed)

requested_run : apply host world (requests 11 (pos 200) 11) deployed ≡ ok (requested.0, requested.1)
unfolding apply request_redeem construct uint i128 ◌+ℤ◌
requested_run = refl

apply-Step_example :
    (ev : Event) × Allows {T = Balances} (requests 11 (pos 200) 11) ev
    × Step (books deployed.0) ev (books requested.0)
apply-Step_example =
    apply-Step host world (requests 11 (pos 200) 11) deployed.0 deployed.1 {v' = requested.0}
      {x' = requested.1} requested_run

-- 200 units are with the issuer, at a strike of 1.05.
abbrev away : Vault
away = record blank {
  init_entry = some tokens;
  roles_entry = some parties;
  settings_entry = some terms;
  totals = record { pooled = pos 0; proceeds = pos 0; rwa = pos 0; sent = 1 };
  batches =
      (
        1,
        record (new_batch 100) {
          status = sent;
          units = pos 200;
          strike = pos 1_050_000_000_000_000_000;
        },
      )
      ∷ [];
}

abbrev back : Vault × Balances
back = state_of (settle_manual host world (away, nothing) 1 (pos 209) (pos 0))

back_run : settle_manual host world (away, nothing) 1 (pos 209) (pos 0) ≡ ok (back.0, back.1)
unfolding settle_manual find i128 ◌-ℤ◌ mul_div_ceil mul_div ◌+ℤ◌ sub_uint uint
back_run = refl

settle_manual_floor_example : AtFloor host world away nothing 1 (pos 209) (pos 0)
settle_manual_floor_example =
    settle_manual_floor host world away nothing 1 (pos 209) (pos 0) {v' = back.0} {x' = back.1}
      back_run

-- One less is refused.
too_little : settle_manual host world (away, nothing) 1 (pos 208) (pos 0) ≡ err proceeds_too_low
unfolding settle_manual find i128 ◌-ℤ◌ mul_div_ceil
too_little = refl

-- 207 of the stable are left for 200 claims.
abbrev payable : Vault
payable = record blank {
  init_entry = some tokens;
  totals = record { pooled = pos 0; proceeds = pos 207; rwa = pos 0; sent = 0 };
  batches =
      (1, record (new_batch 100) { status = settled; units = pos 200; remaining = pos 207 }) ∷ [];
}

abbrev held : Balances
held = moved (moved nothing 100 9 0 (pos 200)) 100 9 11 (pos 200)

abbrev result_of : Return (ℤ × (Vault × Balances)) → ℤ × (Vault × Balances)
result_of (ok z) = z
result_of (err e) = (pos 0, (blank, nothing))
result_of trap = (pos 0, (blank, nothing))

abbrev claimed : ℤ × (Vault × Balances)
claimed = result_of (claim host world (payable, held) 11 1 (pos 100) 11)

claimed_run :
    claim host world (payable, held) 11 1 (pos 100) 11 ≡ ok (claimed.0, (claimed.1.0, claimed.1.1))
unfolding claim find mul_div moved i128
claimed_run = refl

claim_pays_example :
    Claimed host world payable claimed.1.0 held claimed.1.1 11 1 (pos 100) 11 claimed.0
claim_pays_example =
    claim_pays host world payable held 11 1 (pos 100) 11 {assets = claimed.0} {v' = claimed.1.0}
      {x' = claimed.1.1} claimed_run

-- Half of 207, rounded down.
claimed_amount : claimed.0 ≡ pos 103
unfolding claim find mul_div moved i128
claimed_amount = refl
