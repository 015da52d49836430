-- ===== src/Crosschain/Funds.antt =====
-- contracts/crosschain_settle/src/lib.rs and lz.rs: what arrives from the other chains, and the
-- governed changes.
use stellar_rfq.Prelude.{ltb, ℕ, false, ◌&&◌, not, Option, none, some, if◌then◌else◌}
use stellar_rfq.Prelude.{◌==◌ as nat_same}
use stellar_rfq.Prelude.Int.{ℤ, pos, ltb_ℤ}
use stellar_rfq.Prelude.Lists.{length, take, drop}
use stellar_rfq.Prelude.Maps.{Bytes, update, nat_eq, bytes_eq}
use stellar_rfq.Prelude.Result.{ok, ◌>>=◌, ◌>>◌, fail_if, or_trap, or_err, trap_unless}
use stellar_rfq.Prelude.Words.{sub_i128, mul_i128, min_ℤ}
use stellar_rfq.Types.{Address}
use stellar_rfq.Host.{Host, require_auth}
use stellar_rfq.Crosschain.Types.{
  no_vault, not_found, underpaid, unknown_sender, Return, Config, Order, Links, Origin,
  deliver_here, redeem_ct, cross_deliver,
}
use stellar_rfq.Crosschain.Wire.{
  fill_kind, paid_kind, payout_kind, as_i128, from_be, kind, word, word_at, tail, payout,
}
use stellar_rfq.Crosschain.State.{Settle, config, check_peer, unit, address, send_or_hold}
use stellar_rfq.Crosschain.Transport.{bridge, token_in, take_value}
use stellar_rfq.Crosschain.Maker.{on_fill}

unfoldable pub or_else : Option Address → Address → Address
or_else none a = a
or_else (some r) a = r

module _ {T : Type 0} (h : Host T) (k : Links T) where
  -- The RWA of a settled fill goes where the bid said.
  unfoldable pub route_rwa : Settle × T → Config → Bytes → Order → Return (Settle × T)
  unfolding send_or_hold bridge
  route_rwa (s, x) c id o =
      if nat_same o.delivery deliver_here
      then send_or_hold h k (s, x) o.rwa o.recipient o.units
      else (if nat_same o.delivery cross_deliver
          then (do
            x' ← bridge h k s x c o.chain o.rwa o.units (payout o.maker o.maker_is_contract) h.me
            ok (s, x'))
          else (do
            vault ← or_err (s.vault o.rwa) no_vault
            (batch, x1) ← or_trap (k.request_redeem x vault h.me o.units h.me)
            if nat_same o.delivery redeem_ct
                then (do
                  ct ← or_trap (k.ct_of x1 vault batch)
                  send_or_hold h k (s, x1) ct o.recipient o.units)
                else ok (
                  record s {
                    push_of = update s.push_of id (
                        some (record {
                          vault = vault;
                          rwa = o.rwa;
                          recipient = o.recipient;
                          batch = batch;
                          units = o.units;
                          chain = o.chain;
                          stable = o.stable;
                          maker = o.maker;
                          maker_is_contract = o.maker_is_contract;
                        }));
                  },
                  x1,
                )))

  -- What the relayer takes out of a payout.
  unfoldable pub payout_tip : T → Config → Address → ℤ → Option Address → Return ℤ
  unfolding unit
  payout_tip x c token amount none = ok (pos 0)
  payout_tip x c token amount (some _) = do
    u ← unit h k x token
    tip ← mul_i128 c.tip u
    ok (min_ℤ tip amount)

  unfoldable pub pay_out :
      Settle × T → Config → Address → ℤ → Bytes → Option Address → Return (Settle × T)
  unfolding address payout_tip or_else send_or_hold
  pay_out (s, x) c token amount payload relayer = do
    flag ← word payload 2
    key ← word payload 1
    to ← address h k key (not (nat_same (tail flag) 0))
    tip ← payout_tip x c token amount relayer
    (s1, x1) ← send_or_hold h k (s, x) token (or_else relayer to) tip
    rest ← sub_i128 amount tip
    send_or_hold h k (s1, x1) token to rest

  -- The order that a payment is for.
  unfoldable pub paid_order : Settle → Bytes → ℕ → ℕ → Address → Return Order
  paid_order s id kind chain token = do
    o ← or_err (s.order id) not_found
    fail_if (not (nat_same kind paid_kind && nat_same o.chain chain && nat_same o.stable token))
        not_found
    ok o

  unfoldable pub settle_order :
      Settle × T → Config → ℕ → Address → ℤ → Bytes → Option Address → ℕ → Return (Settle × T)
  unfolding paid_order send_or_hold or_else route_rwa
  settle_order (s, x) c chain token amount payload relayer kind = do
    id ← word payload 1
    o ← paid_order s id kind chain token
    fail_if (ltb_ℤ amount o.amount) underpaid
    let s0 = record s { order = update s.order id none }
    net ← sub_i128 amount o.fee
    rest ← sub_i128 net o.tip
    z1 ← send_or_hold h k (s0, x) token o.taker rest
    z2 ← send_or_hold h k z1 token o.fee_recipient o.fee
    z3 ← send_or_hold h k z2 token (or_else relayer o.taker) o.tip
    route_rwa z3 c id o

  unfoldable pub on_funds :
      Settle × T → Config → ℕ → Address → ℤ → Bytes → Option Address → Return (Settle × T)
  unfolding pay_out settle_order
  on_funds z c chain token amount payload relayer = do
    n ← kind payload
    if nat_same n payout_kind
        then pay_out z c token amount payload relayer
        else settle_order z c chain token amount payload relayer n

  unfoldable pub on_fail : Settle × T → ℕ → Bytes → Return (Settle × T)
  unfolding send_or_hold
  on_fail (s, x) chain id = do
    o ← or_err (s.order id) not_found
    fail_if (not (nat_same o.chain chain)) not_found
    let s' = record s { order = update s.order id none; filled = update s.filled id false }
    send_or_hold h k (s', x) o.rwa o.taker o.units

  unfoldable pub lz_receive :
      Settle × T → Address → Origin → Bytes → Bytes → ℤ → Return (Settle × T)
  unfolding config check_peer take_value on_fail on_fill
  lz_receive (s, x) executor origin guid message value = do
    require_auth h executor
    c ← config s
    check_peer s origin.src_eid origin.sender
    x1 ← or_trap (k.clear x c.bridge.endpoint origin guid message)
    x2 ← take_value h k x1 c executor value
    n ← kind message
    if nat_same n fill_kind
        then on_fill h k (s, x2) c origin.src_eid message
        else (do id ← word message 1; on_fail (s, x2) origin.src_eid id)

  unfoldable pub lz_compose :
      Settle × T → Address → Address → Bytes → ℕ → Bytes → ℤ → Return (Settle × T)
  unfolding config token_in take_value check_peer on_funds
  lz_compose (s, x) executor from guid index message value = do
    require_auth h executor
    c ← config s
    token ← or_err (token_in c.bridge.ofts from) unknown_sender
    x1 ← or_trap (k.clear_compose x c.bridge.endpoint from guid index message)
    x2 ← take_value h k x1 c executor value
    trap_unless (not (ltb (length message) 28))
    let eid = from_be 0 (take 4 (drop 8 message))
    let amount = as_i128 (from_be 0 (take 16 (drop 12 message)))
    sender ← word_at message 28
    check_peer s eid sender
    on_funds (s, x2) c eid token amount (drop 60 message) none
