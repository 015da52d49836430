-- ===== src/Queue/Tests.antt =====
-- The withdrawal queue at work.
use stellar_rfq.Prelude.{ℕ, ◌≡◌, ◌≤◌, refl, none, some, List, [], ◌∷◌, arith}
use stellar_rfq.Prelude.Int.{pos, ◌-ℤ◌}
use stellar_rfq.Prelude.Maps.{update, nat_eq}
use stellar_rfq.Prelude.Result.{ok, err, trap}
use stellar_rfq.Prelude.Words.{i128, uint}
use stellar_rfq.Host.{Host}
use stellar_rfq.Queue.{Queue, Facility, Return, process, serve, turn, rounds}
use stellar_rfq.Queue.Service.{Advances, Served, process-Advances}
use stellar_rfq.Queue.Order.{Op, requests, cancels, processes, IsValid, run, run-keeps_order}
use stellar_rfq.Rfq.Example.{Balances, host}

-- A facility where a share is worth one unit, and 150 can be paid out.
abbrev facility : Facility Balances
facility = record {
  convert_to_assets = λ x at shares. some shares;
  convert_to_shares = λ x at assets. some assets;
  max_withdraw = λ x at owner. some (pos 150);
  redeem = λ x at shares receiver owner operator. some (shares, x);
}

abbrev nothing : Balances
nothing = λ tok who. pos 0

abbrev empty : Queue
empty = record {
  cfg = some (record { facility = 40; curator = 2 });
  head = 0;
  tail = 0;
  position = λ id. none;
}

empty-IsValid : IsValid empty
empty-IsValid = record {
  ordered = omega arith;
  past = λ id low. refl;
  future = λ id high. refl;
  waiting = λ id p e. cc;
}

-- Three requests of 100 shares, of which the first was cancelled.
abbrev waiting : Queue
waiting = record {
  cfg = some (record { facility = 40; curator = 2 });
  head = 0;
  tail = 3;
  position =
      update (update (λ id. none) 1 (some (record { owner = 11; receiver = 11; shares = pos 100 })))
        2 (some (record { owner = 12; receiver = 12; shares = pos 100 }));
}

abbrev result_of : Return (ℕ × (Queue × Balances)) → ℕ × (Queue × Balances)
result_of (ok z) = z
result_of (err e) = (0, (empty, nothing))
result_of trap = (0, (empty, nothing))

abbrev after : ℕ × (Queue × Balances)
after = result_of (process host facility (waiting, nothing) 5)

process_run : process host facility (waiting, nothing) 5 ≡ ok (after.0, (after.1.0, after.1.1))
unfolding process rounds turn serve uint i128 ◌-ℤ◌
process_run = refl

-- The second position was served in full, the third by half.
served_run : (after.0 ≡ 2) × (after.1.0.head ≡ 2)
unfolding process rounds turn serve uint i128 ◌-ℤ◌
served_run = (refl, refl)

process-Advances_example :
    Advances waiting after.1.0
    × (after.0 ≤ 5)
    × (after.1.0.head ≤ after.1.0.tail)
    × Served host facility waiting after.1.0 after.0 nothing after.1.1
process-Advances_example =
    process-Advances host facility waiting nothing 5 {n = after.0} {q' = after.1.0} {x' = after.1.1}
      (omega arith) process_run

abbrev past : List (Host Balances × (Facility Balances × Op))
past =
    (host, (facility, processes 5))
    ∷ (host, (facility, cancels 0))
    ∷ (host, (facility, requests 12 12 (pos 100)))
    ∷ (host, (facility, requests 11 11 (pos 100)))
    ∷ (host, (facility, requests 10 10 (pos 100)))
    ∷ []

run-keeps_order_example : IsValid (run past (empty, nothing)).0
run-keeps_order_example = run-keeps_order past (empty, nothing) empty-IsValid
