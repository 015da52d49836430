-- ===== src/Timelock/Tests.antt =====
-- The timelock at work.
use stellar_rfq.Prelude.{
  ℕ, ◌+◌, ◌≡◌, ◌≢◌, arith, ◌≤◌, ◌⊎◌, refl, none, some, [], ◌∷◌, ltb, if◌then◌else◌, true,
}
use stellar_rfq.Prelude.Maps.{update, nat_eq}
use stellar_rfq.Prelude.Int.{pos}
use stellar_rfq.Prelude.Result.{ok, err}
use stellar_rfq.Prelude.Words.{uint}
use stellar_rfq.Host.{Host}
use stellar_rfq.Timelock.{
  Timelock, TimelockError, no_pending, not_ready, submit, take, revoke, delay, init, guardian,
}
use stellar_rfq.Timelock.Delay.{
  inits, submits, revokes, Past, AllElsewhere, Elsewhere, apply, run, Submitted, take_waited,
  submit-take, revoke-take,
}

-- A host on which nothing but the clock matters.
abbrev host_at : ℕ → Host ℕ
host_at now = record {
  me = 1;
  timestamp = now;
  sequence = 1;
  authorised = λ _. true;
  balance = λ x tok who. some (pos 0);
  transfer = λ x tok from to amount. some x;
  transfer_from = λ x tok spender from to amount. some x;
  get_price = λ x oracle base quote. none;
  sha256 = λ b. b;
  ed25519_verify = λ key message signature. true;
  address_xdr = λ who. [];
  request_xdr = λ r. [];
  rfq_order_xdr = λ o. [];
  fixed_order_xdr = λ o. [];
}

abbrev fresh : Timelock ℕ
fresh = record { delay_entry = none; guardian_entry = none; waiting = λ _. none }

-- A delay of 500 seconds; change 77 submitted under kind 3 at 1000.
abbrev past : Past ℕ ℕ
past = (host_at 1_000, submits 3 77) ∷ (host_at 0, inits 500 9) ∷ []

abbrev waiting : Timelock ℕ
waiting = record {
  delay_entry = some 500;
  guardian_entry = some 9;
  waiting = update (λ _. none) 3 (some (77, 1_500));
}

abbrev empty_again : Timelock ℕ
empty_again = record waiting { waiting = update waiting.waiting 3 none }

history_reached : run fresh past ≡ waiting
unfolding run apply submit init uint delay
history_reached = refl

change_taken : take (host_at 1_500) (run fresh past) 3 ≡ ok (77, empty_again)
unfolding run apply submit init uint delay take
change_taken = refl

too_early : take (host_at 1_499) waiting 3 ≡ err not_ready
unfolding take
too_early = refl

take_waited_example :
    (at : ℕ) × Submitted fresh 3 77 at past
    × (at ≤ 1_500)
    × (take (host_at 1_500) empty_again 3 ≡ err no_pending)
take_waited_example =
    take_waited (host_at 1_500) fresh past 3 77 {t' = empty_again} (λ k. refl) change_taken

abbrev ready : Timelock ℕ
ready = record { delay_entry = some 500; guardian_entry = some 9; waiting = λ _. none }

submit_run : submit (host_at 1_000) {E = TimelockError} ready 3 77 ≡ ok (1_500, waiting)
unfolding submit uint delay
submit_run = refl

-- Another change comes and goes under kind 4 before this one is looked at.
abbrev meanwhile : Past ℕ ℕ
meanwhile = (host_at 1_300, revokes 4 9 9) ∷ (host_at 1_200, submits 4 78) ∷ []

meanwhile-AllElsewhere : AllElsewhere 3 meanwhile
unfolding AllElsewhere Elsewhere
meanwhile-AllElsewhere = (omega arith, (omega arith, tt))

submit-take_example :
    (1_500 ≡ (host_at 1_000).timestamp + delay ready)
    × (take (host_at 1_600) (run waiting meanwhile) 3 ≡ (
        if ltb 1_600 1_500
        then err not_ready
        else ok (
          77,
          record (run waiting meanwhile) {
            waiting = update (run waiting meanwhile).waiting 3 none;
          },
        )))
    × ((other : ℕ) → 3 ≢ other → waiting.waiting other ≡ ready.waiting other)
submit-take_example =
    submit-take (host_at 1_000) (host_at 1_600) ready 3 77 {at = 1_500} {t' = waiting} meanwhile
      meanwhile-AllElsewhere submit_run

revoke_run : revoke (host_at 1_200) waiting 3 9 2 ≡ ok empty_again
unfolding revoke guardian
revoke_run = refl

revoke-take_example :
    (◌≡◌ {A = ℕ} 9 2 ⊎ (waiting.guardian_entry ≡ some 9))
    × ((host_at 1_200).authorised 9 ≡ true)
    × (take (host_at 1_600) empty_again 3 ≡ err no_pending)
revoke-take_example =
    revoke-take (host_at 1_200) (host_at 1_600) waiting 3 9 2 {t' = empty_again} revoke_run
