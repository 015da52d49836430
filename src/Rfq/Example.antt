-- ===== src/Rfq/Example.antt =====
-- A small world for the tests: a host with two plain tokens, a maker, a taker and signed orders.
use stellar_rfq.Prelude.{ℕ, true, none, some, [], ◌∷◌, if◌then◌else◌}
use stellar_rfq.Prelude.Int.{ℤ, pos, ◌+ℤ◌, ◌-ℤ◌}
use stellar_rfq.Prelude.Maps.{Bytes, update, nat_eq, ◌==◌}
use stellar_rfq.Prelude.Result.{ok, err, trap}
use stellar_rfq.Types.{Address, rolling}
use stellar_rfq.Orders.{RfqOrder, FixedOrder, Signature, FillResult}
use stellar_rfq.Host.{Host}
use stellar_rfq.Rfq.Types.{Return, Config, DutchOrder}
use stellar_rfq.Rfq.Storage.{Storage, World, empty}

-- Balances, by token and by holder.
abbrev pub Balances : Type 0
Balances = Address → Address → ℤ

abbrev pub settlement : Address
settlement = 1

abbrev pub maker : Address
maker = 10

abbrev pub taker : Address
taker = 11

abbrev pub collector : Address
collector = 12

abbrev pub dollar : Address
dollar = 20

abbrev pub fund : Address
fund = 21

-- The key of account 10 is forty-four bytes less the first twelve, and so on.
abbrev pub key_of : Address → Bytes
key_of who =
    who ∷ 0 ∷ 0 ∷ 0 ∷ 0 ∷ 0 ∷ 0 ∷ 0 ∷ 0 ∷ 0 ∷ 0 ∷ 0 ∷ 0 ∷ 0 ∷ 0 ∷ 0 ∷ 0 ∷ 0 ∷ 0 ∷ 0 ∷ 0 ∷ 0 ∷ 0 ∷ 0
    ∷ 0 ∷ 0 ∷ 0 ∷ 0 ∷ 0 ∷ 0 ∷ 0 ∷ 0 ∷ []

abbrev pub moves : Balances → Address → Address → Address → ℤ → Balances
unfolding ◌+ℤ◌ ◌-ℤ◌
moves x tok from to amount =
    let paid = update (x tok) from (x tok from -ℤ amount) in
    update x tok (update paid to (paid to +ℤ amount))

-- Everyone has authorised the call, and the market trades the fund at 1.05 dollars.
abbrev pub host_at : ℕ → Host Balances
host_at now = record {
  me = settlement;
  timestamp = now;
  sequence = 1;
  authorised = λ _. true;
  balance = λ x tok who. some (x tok who);
  transfer = λ x tok from to amount. some (moves x tok from to amount);
  transfer_from = λ x tok spender from to amount. some (moves x tok from to amount);
  get_price = λ x oracle base quote.
      some (record { price = pos 1_050_000_000_000_000_000; timestamp = 900 });
  sha256 = λ b. b;
  ed25519_verify = λ key message signature. true;
  address_xdr = λ who. 0 ∷ 0 ∷ 0 ∷ 0 ∷ 0 ∷ 0 ∷ 0 ∷ 0 ∷ 0 ∷ 0 ∷ 0 ∷ 0 ∷ key_of who;
  request_xdr = λ r. r.salt ∷ [];
  rfq_order_xdr = λ o. o.salt ∷ [];
  fixed_order_xdr = λ o. o.salt ∷ [];
}

abbrev pub host : Host Balances
host = host_at 1_000

abbrev pub config_now : Config
config_now = record {
  min_fee_bps = 5;
  max_fee_bps = 100;
  fallback_max_age = 3_600;
  max_deviation_bps = 2_000;
  min_push_interval = 300;
  max_shift_seconds = 172_800;
  decay_seconds = 600;
}

-- The fund redeems in a week; the dollar, the reference asset, at once.
abbrev pub store : Storage
store = record empty {
  admin_entry = some 2;
  cfg = some config_now;
  ref = some (record { asset = dollar; epoch = 1 });
  sched = λ a.
      if a == fund
      then some (record {
        mode = rolling;
        rolling_seconds = 604_800;
        next_redemption_at = 0;
        cycle_seconds = 0;
        max_bps_per_day = 500;
      })
      else none;
  oracle = λ a b. if a == fund then some (record { oracle = 30; max_age = 600 }) else none;
}

abbrev pub world : World Balances
world = record { store = store; ext = λ tok who. pos 10_000_000 }

abbrev pub order : RfqOrder
order = record {
  maker_token = dollar;
  taker_token = fund;
  taker_amount = pos 1_000_000;
  min_received_amount = pos 1_040_000;
  fee_bps = 10;
  taker = some taker;
  sender = none;
  fee_recipient = collector;
  expiry = 2_000;
  salt = 7;
  taker_max_bps_per_day = 400;
  maker_bps_per_day = 300;
  max_maker_amount = pos 1_060_000;
  maker = maker;
}

abbrev pub fixed : FixedOrder
fixed = record {
  maker_token = dollar;
  taker_token = fund;
  taker_amount = pos 1_000_000;
  min_received_amount = pos 1_040_000;
  fee_bps = 10;
  taker = some taker;
  sender = some taker;
  fee_recipient = collector;
  expiry = 2_000;
  salt = 8;
  maker_amount = pos 1_045_000;
  maker = maker;
}

abbrev pub dutch : DutchOrder
dutch = record {
  maker_token = dollar;
  taker_token = fund;
  taker_amount = pos 500_000;
  start_maker_amount = pos 530_000;
  min_maker_amount = pos 500_000;
  fee_bps = 10;
  fee_recipient = collector;
  expiry = 3_000;
}

abbrev pub by_maker : Signature
by_maker = record { signer = key_of maker; signature = 1 ∷ [] }

-- What a call returned, once it is known to have returned something.
abbrev pub result_of : {A : Type 0} → Return A → A → A
result_of (ok a) d = a
result_of (err e) d = d
result_of trap d = d

abbrev pub no_fill : FillResult
no_fill = record { taker_filled = pos 0; maker_filled = pos 0; fee = pos 0 }
