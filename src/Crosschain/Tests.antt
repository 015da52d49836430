-- ===== src/Crosschain/Tests.antt =====
-- A fill that is paid on another chain, and the message that asks for it.
use stellar_rfq.Prelude.Words.{sub_uint, i128}
use stellar_rfq.Crosschain.Taker.{opened, fill, order_of}
use stellar_rfq.Prelude.{ℕ, ◌≡◌, refl, true, false, none, some, List, [], ◌∷◌, ◌++◌, arith}
use stellar_rfq.Prelude.Int.{pos, ◌+ℤ◌, ◌-ℤ◌, ◌*ℤ◌}
use stellar_rfq.Prelude.Lists.{drop}
use stellar_rfq.Prelude.Maps.{bytes_beq, Bytes, bytes_eq}
use stellar_rfq.Prelude.Result.{ok, err, trap}
use stellar_rfq.Orders.{Request, rfq}
use stellar_rfq.Host.{Host}
use stellar_rfq.Rfq.Example.{Balances, host}
use stellar_rfq.Crosschain.Types.{Error, Return, Config, Links}
use stellar_rfq.Crosschain.Wire.{
  word_at, Bid, fill_kind, sig_at, fill_message, parse_bid, kind, word, tail, as_i128,
}
use stellar_rfq.Crosschain.State.{Settle}
use stellar_rfq.Crosschain.Funds.{settle_order}
use stellar_rfq.Crosschain.Entry.{apply, Op, fills, withdraws, run}
use stellar_rfq.Crosschain.Moves.{IsClosed}
use stellar_rfq.Crosschain.RoundTrip.{IsBid, fill-parse_bid}
use stellar_rfq.Crosschain.Once.{Refuses, settled_once}

-- A word that ends in a number.
abbrev word_of : ℕ → Bytes
word_of v =
    0 ∷ 0 ∷ 0 ∷ 0 ∷ 0 ∷ 0 ∷ 0 ∷ 0 ∷ 0 ∷ 0 ∷ 0 ∷ 0 ∷ 0 ∷ 0 ∷ 0 ∷ 0 ∷ 0 ∷ 0 ∷ 0 ∷ 0 ∷ 0 ∷ 0 ∷ 0 ∷ 0
    ∷ 0 ∷ 0 ∷ 0 ∷ 0 ∷ 0 ∷ 0 ∷ 0 ∷ v ∷ []

abbrev bid : Bid
bid = record {
  maker = word_of 8;
  maker_is_contract = false;
  stable = word_of 9;
  max_amount = pos 2_000;
  maker_bps_per_day = 300;
  delivery = 0;
  recipient = word_of 11;
  recipient_is_contract = false;
  deadline = 2_000;
  salt = word_of 5;
}

abbrev id : Bytes
id = word_of 7

bid-IsBid : IsBid bid
bid-IsBid = record {
  maker_word = refl;
  stable_word = refl;
  recipient_word = refl;
  salt_word = refl;
  amount_fits = (omega arith, omega arith);
  rate_fits = omega arith;
  delivery_fits = omega arith;
  deadline_fits = omega arith;
}

fill-parse_bid_example :
    (parse_bid {E = Error} (fill_message id (pos 1_050) bid (1 ∷ 2 ∷ [])) ≡ ok (some bid))
    × (kind {E = Error} (fill_message id (pos 1_050) bid (1 ∷ 2 ∷ [])) ≡ ok fill_kind)
    × (word {E = Error} (fill_message id (pos 1_050) bid (1 ∷ 2 ∷ [])) 1 ≡ ok id)
    × ((w : Bytes) × (word {E = Error} (fill_message id (pos 1_050) bid (1 ∷ 2 ∷ [])) 2 ≡ ok w)
        × (as_i128 (tail w) ≡ pos 1_050))
    × (drop sig_at (fill_message id (pos 1_050) bid (1 ∷ 2 ∷ [])) ≡ 1 ∷ 2 ∷ [])
fill-parse_bid_example =
    fill-parse_bid id (pos 1_050) bid (1 ∷ 2 ∷ []) {E = Error}
      (refl, (omega arith, omega arith), bid-IsBid)

-- Contracts that answer every call.
abbrev links : Links Balances
links = record {
  hash_request = λ x at r. some id;
  quote_rfq_order =
      λ x at o a. some (record { maker_amount = pos 1_000; fee = pos 5; horizon_seconds = 0 });
  is_order_signer = λ x at maker signer. some true;
  is_salt_cancelled = λ x at signer salt. some false;
  vault_stable = λ x at. some 20;
  request_redeem = λ x at owner units controller. some (1, x);
  claim = λ x at owner batch shares receiver. some x;
  ct_of = λ x at batch. some 100;
  verifies = λ x at key message signature. true;
  decimals = λ x token. some 7;
  set_delegate = λ x at who. some x;
  endpoint_quote = λ x at p. some (pos 3);
  endpoint_send = λ x at p. some x;
  clear = λ x at origin guid message. some x;
  clear_compose = λ x at from guid index message. some x;
  quote_send = λ x at p. some (pos 4);
  oft_send = λ x at p native. some x;
  address_of = λ b. some 11;
  peer_key = λ chain. chain ∷ [];
  route_key = λ chain token. chain ∷ token ∷ [];
  vault_key = λ rwa. rwa ∷ [];
}

abbrev settings : Config
settings = record {
  rfq = 40;
  verifier = 41;
  xlm = 42;
  tip = pos 1;
  bridge = record { endpoint = 43; ofts = (20, 44) ∷ [] };
}

abbrev start : Settle
start = record {
  admin_entry = some 2;
  config_entry = some settings;
  peer = λ chain. some (record { addr = word_of 1; return_fee = pos 6; options = [] });
  route = λ chain token. some (word_of 9);
  vault = λ rwa. none;
  order = λ j. none;
  filled = λ j. false;
  used = λ j. false;
  push_of = λ j. none;
  owed = λ who token. pos 0;
  timelock = record { delay_entry = none; guardian_entry = none; waiting = λ n. none };
}

abbrev request : Request
request = record {
  maker_token = 20;
  taker_token = 21;
  taker_amount = pos 900;
  min_received_amount = pos 900;
  fee_bps = 10;
  taker = some 11;
  sender = some 1;
  fee_recipient = 12;
  expiry = 2_000;
  salt = 3;
  taker_max_bps_per_day = 400;
  order_type = rfq;
}

abbrev nothing : Balances
nothing = λ token who. pos 0

abbrev before : List (Host Balances × (Links Balances × Op Balances))
before = (host, (links, fills request 2 bid [])) ∷ []

abbrev state_of : Return (Settle × Balances) → Settle × Balances
state_of (ok z) = z
state_of (err e) = (start, nothing)
state_of trap = (start, nothing)

-- PAID for the fill.
abbrev paid : Bytes
paid = word_of 2 ++ id

abbrev settled : Settle × Balances
settled =
    state_of
      (settle_order host links (run (start, nothing) before) settings 2 20 (pos 1_000) paid none 2)

settled-run :
    settle_order host links (run (start, nothing) before) settings 2 20 (pos 1_000) paid none 2
    ≡ ok settled
unfolding settle_order word word_at run apply fill bytes_beq sub_uint i128 ◌*ℤ◌ ◌-ℤ◌ ◌+ℤ◌ opened
    order_of
settled-run = refl

paid_word : word {E = Error} paid 1 ≡ ok id
unfolding word word_at
paid_word = refl

abbrev after : List (Host Balances × (Links Balances × Op Balances))
after = (host, (links, fills request 2 bid [])) ∷ (host, (links, withdraws 11 20)) ∷ []

settled_once_example :
    IsClosed (run settled after).0 id
    × ((h' : Host Balances) (k' : Links Balances) → Refuses h' k' (run settled after) id)
settled_once_example =
    settled_once host links (start, nothing) before after settings 2 20 (pos 1_000) paid none 2 id
      {z = settled} (λ other. refl) paid_word settled-run
