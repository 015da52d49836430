-- ===== src/Crosschain/Taker.antt =====
-- contracts/crosschain_settle/src/lib.rs: the taker's side, who fills a remote maker's bid here.
use stellar_rfq.Prelude.{
  ℕ, suc, ◌/◌, ◌%◌, Bool, true, false, ◌&&◌, ◌||◌, not, Option, none, some, [], ◌∷◌, ltb, leb,
  if◌then◌else◌,
}
use stellar_rfq.Prelude.{◌==◌ as nat_same}
use stellar_rfq.Prelude.Int.{ℤ, pos, negsuc, ◌-ℤ◌, ltb_ℤ}
use stellar_rfq.Prelude.Maps.{Bytes, update, nat_eq, bytes_eq, ◌==◌, ◌!=◌}
use stellar_rfq.Prelude.Result.{ok, ◌>>=◌, ◌>>◌, fail_if, or_trap, or_err}
use stellar_rfq.Prelude.Words.{add_i128, sub_i128, mul_i128}
use stellar_rfq.Types.{Address}
use stellar_rfq.Orders.{Request, RfqOrder, OrderType, rfq, fixed}
use stellar_rfq.Host.{Host, require_auth}
use stellar_rfq.Crosschain.Types.{
  no_route, no_vault, expired, already_filled, invalid_bid, quote_rejected, not_found,
  not_authorized, Return, Config, Order, Quote, Links, deliver_here, redeem_push, cross_deliver,
}
use stellar_rfq.Crosschain.Wire.{Bid, payout, fill_message}
use stellar_rfq.Crosschain.State.{Settle, config, peer_of, unit, address, send_or_hold}
use stellar_rfq.Crosschain.Transport.{send, bridge, bridge_fee}

is_rfq : OrderType → Bool
is_rfq rfq = true
is_rfq fixed = false

is_address : Option Address → Address → Bool
is_address none a = false
is_address (some b) a = b == a

is_word : Option Bytes → Bytes → Bool
is_word none w = false
is_word (some v) w = v == w

-- The word of 32 zeros.
abbrev pub zero_word : Bytes
zero_word =
    0 ∷ 0 ∷ 0 ∷ 0 ∷ 0 ∷ 0 ∷ 0 ∷ 0 ∷ 0 ∷ 0 ∷ 0 ∷ 0 ∷ 0 ∷ 0 ∷ 0 ∷ 0 ∷ 0 ∷ 0 ∷ 0 ∷ 0 ∷ 0 ∷ 0 ∷ 0 ∷ 0
    ∷ 0 ∷ 0 ∷ 0 ∷ 0 ∷ 0 ∷ 0 ∷ 0 ∷ 0 ∷ []

-- `a / b` and `a % b` of an `i128`, which go towards zero; `b` is a power of ten here.
unfoldable pub quotient : ℤ → ℤ → ℤ
quotient (pos a) (pos b) = pos (a / b)
quotient (negsuc a) (pos b) = pos 0 -ℤ pos (suc a / b)
quotient a (negsuc b) = pos 0

unfoldable pub rem : ℤ → ℤ → ℤ
rem (pos a) (pos b) = pos (a % b)
rem (negsuc a) (pos b) = pos 0 -ℤ pos (suc a % b)
rem a (negsuc b) = pos 0

unfoldable pub order_of : Address → ℕ → Request → Bid → Quote → ℤ → Address → Order
order_of taker chain r bid q tip recipient = record {
  taker = taker;
  chain = chain;
  rwa = r.taker_token;
  units = r.taker_amount;
  stable = r.maker_token;
  amount = q.maker_amount;
  fee = q.fee;
  tip = tip;
  fee_recipient = r.fee_recipient;
  delivery = bid.delivery;
  recipient = recipient;
  maker = bid.maker;
  maker_is_contract = bid.maker_is_contract;
}

-- The order is in flight, and its request is filled.
unfoldable pub opened : Settle → Bytes → Order → Settle
opened s id o = record s { filled = update s.filled id true; order = update s.order id (some o) }

module _ {T : Type 0} (h : Host T) (k : Links T) where
  unfoldable pub check_request : Settle → Request → Bytes → Return (Unit {0})
  unfolding is_rfq is_address
  check_request s r id = do
    fail_if (not (is_address r.sender h.me) || not (is_rfq r.order_type)) not_authorized
    fail_if (leb r.expiry h.timestamp) expired
    fail_if (s.filled id) already_filled

  -- Where the RWA of a bid redeems.
  check_vault : Settle → T → Request → Bid → Return (Unit {0})
  check_vault s x r bid = do
    vault ← or_err (s.vault r.taker_token) no_vault
    paid_in ← or_trap (k.vault_stable x vault)
    fail_if (nat_same bid.delivery redeem_push && (paid_in != r.maker_token)) no_vault

  unfoldable pub check_bid : Settle → T → Request → ℕ → Bid → Return (Unit {0})
  unfolding is_word check_vault
  check_bid s x r chain bid = do
    fail_if (ltb bid.deadline h.timestamp) expired
    fail_if (not (is_word (s.route chain r.maker_token) bid.stable)) no_route
    if nat_same bid.delivery cross_deliver
        then or_err (s.route chain r.taker_token) no_route >>= (λ _. ok tt)
        else (do
          fail_if (ltb cross_deliver bid.delivery || bid.recipient == zero_word) invalid_bid
          if nat_same bid.delivery deliver_here then ok tt else check_vault s x r bid)

  unfoldable pub rate_order : Request → Bid → ℤ → RfqOrder
  rate_order r bid cap = record {
    maker_token = r.maker_token;
    taker_token = r.taker_token;
    taker_amount = r.taker_amount;
    min_received_amount = r.min_received_amount;
    fee_bps = r.fee_bps;
    taker = r.taker;
    sender = r.sender;
    fee_recipient = r.fee_recipient;
    expiry = r.expiry;
    salt = r.salt;
    taker_max_bps_per_day = r.taker_max_bps_per_day;
    maker_bps_per_day = bid.maker_bps_per_day;
    max_maker_amount = cap;
    maker = h.me;
  }

  unfoldable pub quote : T → Config → Request → Bid → ℤ → Return Quote
  unfolding unit rate_order
  quote x c r bid tip = do
    u ← unit h k x r.maker_token
    cap ← mul_i128 bid.max_amount u
    q ← or_trap (k.quote_rfq_order x c.rfq (rate_order r bid cap) r.taker_amount)
    if ltb_ℤ cap q.maker_amount then (fail_if true quote_rejected >> ok q) else (do
      net ← sub_i128 q.maker_amount q.fee
      left ← sub_i128 net tip
      fail_if (ltb_ℤ left r.min_received_amount) quote_rejected
      ok q)

  -- The XLM for the way back, and for the RWA's bridge.
  unfoldable pub return_fee : Settle → T → Config → ℕ → Order → Bid → Return ℤ
  unfolding peer_of bridge_fee
  return_fee s x c chain o bid = do
    p ← peer_of s chain
    if nat_same bid.delivery cross_deliver
        then (do
          fee ← bridge_fee h k s x c chain o.rwa o.units (payout bid.maker bid.maker_is_contract)
          add_i128 p.return_fee fee)
        else ok p.return_fee

  unfoldable pub fill : Settle × T → Request → ℕ → Bid → Bytes → Return (Bytes × (Settle × T))
  unfolding config check_request check_bid unit quote address quotient return_fee send
  fill (s, x) r chain bid signature = do
    c ← config s
    taker ← or_err r.taker not_authorized
    require_auth h taker
    id ← or_trap (k.hash_request x c.rfq r)
    check_request s r id
    check_bid s x r chain bid
    u ← unit h k x r.maker_token
    tip ← mul_i128 c.tip u
    q ← quote x c r bid tip
    recipient ← address h k bid.recipient bid.recipient_is_contract
    let o = order_of taker chain r bid q tip recipient
    let s' = opened s id o
    x1 ← or_trap (h.transfer x r.taker_token taker h.me r.taker_amount)
    sum ← add_i128 q.maker_amount u
    above ← sub_i128 sum (pos 1)
    let amount = quotient above u
    xlm ← return_fee s' x1 c chain o bid
    x2 ← or_trap (h.transfer x1 c.xlm taker h.me xlm)
    x3 ← send h k s' x2 c chain (fill_message id amount bid signature) taker
    ok (id, (s', x3))

  -- Claims the proceeds of a batch and sends them to the maker; `caller` pays the bridge.
  unfoldable pub push : Settle × T → Address → Bytes → Return (ℤ × (Settle × T))
  unfolding config send_or_hold unit bridge rem
  push (s, x) caller id = do
    require_auth h caller
    c ← config s
    p ← or_err (s.push_of id) not_found
    let s1 = record s { push_of = update s.push_of id none }
    before ← or_trap (h.balance x p.stable h.me)
    rwa_before ← or_trap (h.balance x p.rwa h.me)
    x1 ← or_trap (k.claim x p.vault h.me p.batch p.units h.me)
    rwa_after ← or_trap (h.balance x1 p.rwa h.me)
    back ← sub_i128 rwa_after rwa_before
    (s2, x2) ← send_or_hold h k (s1, x1) p.rwa p.recipient back
    after ← or_trap (h.balance x2 p.stable h.me)
    paid ← sub_i128 after before
    u ← unit h k x2 p.stable
    amount ← sub_i128 paid (rem paid u)
    x3 ← bridge h k s2 x2 c p.chain p.stable amount (payout p.maker p.maker_is_contract) caller
    ok (amount, (s2, x3))

  unfoldable pub withdraw : Settle × T → Address → Address → Return (Settle × T)
  withdraw (s, x) recipient token = do
    require_auth h recipient
    let amount = s.owed recipient token
    let s' = record s { owed = update s.owed recipient (update (s.owed recipient) token (pos 0)) }
    x' ← or_trap (h.transfer x token h.me recipient amount)
    ok (s', x')
