-- ===== src/Crosschain/Receives.antt =====
-- contracts/crosschain_settle/src: what arrives moves the orders in flight by the rules.
use stellar_rfq.Prelude.{
  ◌≢◌, ◌-◌, ℕ, ◌≡◌, refl, ap, subst, ◌∙◌, true, false, not, Option, none, some, inl, inr,
  Bool-cases, Option-cases, arith, ltb,
}
use stellar_rfq.Prelude.{◌==◌ as nat_same}
use stellar_rfq.Prelude.Lists.{length, take, drop}
use stellar_rfq.Prelude.Int.{ℤ}
use stellar_rfq.Prelude.Maps.{Bytes, update, nat_eq, bytes_eq}
use stellar_rfq.Prelude.Result.{
  ok, fail_if, or_trap, or_err, trap_unless, bind_then, ok_injective, or_err_ok,
}
use stellar_rfq.Prelude.Words.{mul_i128}
use stellar_rfq.Types.{Address}
use stellar_rfq.Host.{Host, require_auth}
use stellar_rfq.Crosschain.Types.{Return, not_found, unknown_sender, Config, Links, Origin}
use stellar_rfq.Crosschain.Wire.{
  fail_kind, Bid, word, word_at, kind, parse_bid, tail, paid_kind, payout_kind, fill_kind, about,
  as_i128, from_be, bid_at, sig_at,
}
use stellar_rfq.Crosschain.State.{Settle, config, unit, address, check_peer}
use stellar_rfq.Crosschain.Transport.{bridge, send, token_in, take_value}
use stellar_rfq.Crosschain.Maker.{pull, pay_bid, pay, payable, is_signed, on_fill, bid_hash}
use stellar_rfq.Crosschain.Funds.{on_funds, on_fail, lz_receive, lz_compose}
use stellar_rfq.Crosschain.Moves.{Moves, rests, returns, pays}
use stellar_rfq.Crosschain.Steps.{
  Same, same_end, send_or_hold-Same, pay_out-Same, settle_order-Moves,
}

pub at_rest : (s s' : Settle) → Same s s' → Moves s s'
at_rest s s' (p, q, r) = rests p q r

module _ {T : Type 0} where
  none_is_not : {z : Settle × T} → ◌≢◌ {A = Return (Option (Settle × T))} (ok none) (ok (some z))
  none_is_not e = absurd (cc)

  end_of : {z w : Settle × T} → ◌≡◌ {A = Option (Settle × T)} (some z) (some w) → z.0 ≡ w.0
  end_of e = cc

module _ {T : Type 0} (h : Host T) (k : Links T) where
  on_fail-Moves :
      (s : Settle) (x : T) (chain : ℕ) (id : Bytes) {s' : Settle} {x' : T}
      → on_fail h k (s, x) chain id ≡ ok (s', x')
      → Moves s s'
  unfolding on_fail
  on_fail-Moves s x chain id e = bind_then (or_err (s.order id) not_found) _ e λ o e1 r1.
      bind_then (fail_if (not (nat_same o.chain chain)) not_found) _ r1 λ _ _ r2.
        let s1 = record s { order = update s.order id none; filled = update s.filled id false } in
        let (p, q, r) = send_or_hold-Same h k s1 x o.rwa o.taker o.units r2 in
        returns id o (or_err_ok (s.order id) not_found e1) p q r

  on_funds-Moves :
      (s : Settle) (x : T) (c : Config) (chain : ℕ) (token : Address) (amount : ℤ) (payload : Bytes)
      (relayer : Option Address) {s' : Settle} {x' : T}
      → on_funds h k (s, x) c chain token amount payload relayer ≡ ok (s', x')
      → Moves s s'
  unfolding on_funds
  on_funds-Moves s x c chain token amount payload relayer {s'} e =
      bind_then (kind payload) _ e λ n _ r1. elim (Bool-cases (nat_same n payout_kind)) [
        | inl out ↦
            at_rest s s' (pay_out-Same h k s x c token amount payload relayer (rw out at r1))
        | inr order ↦
            settle_order-Moves h k s x c chain token amount payload relayer n (rw order at r1)
      ]

  unused :
      (s : Settle) (x : T) (c : Config) (chain : ℕ) (bid : Bid) (amount : ℤ) (hash : Bytes)
      (maker stable : Address)
      → payable h k s x c chain bid amount hash maker stable ≡ ok true
      → s.used hash ≡ false
  unfolding payable
  unused s x c chain bid amount hash maker stable e = ground arith

  pull-Moves :
      (s : Settle) (x : T) (c : Config) (chain : ℕ) (id hash : Bytes) (maker stable : Address)
      (local : ℤ) {s' : Settle} {x' : T}
      → s.used hash ≡ false
      → pull h k (s, x) c chain id hash maker stable local ≡ ok (some (s', x'))
      → Moves s s'
  unfolding pull
  pull-Moves s x c chain id hash maker stable local {s'} new e =
      elim (Option-cases (h.transfer_from x stable h.me maker h.me local)) [
        | inl refused ↦ absurd (none_is_not (rw (refused, pull) at e))
        | inr (x1, pulled) ↦
            let s1 = record s { used = update s.used hash true } in
            bind_then (bridge h k s1 x1 c chain stable local (about paid_kind id) h.me) _
              (rw (pulled, pull) at e)
              λ x2 _ r1. subst (Moves s) (end_of (ok_injective r1)) (pays hash new refl refl refl)
      ]

  pay_bid-Moves :
      (s : Settle) (x : T) (c : Config) (chain : ℕ) (message : Bytes) (bid : Bid) {s' : Settle}
      {x' : T}
      → pay_bid h k (s, x) c chain message bid ≡ ok (some (s', x'))
      → Moves s s'
  unfolding pay_bid
  pay_bid-Moves s x c chain message bid e = bind_then (word message 1) _ e λ id _ r1.
      bind_then (word message 2) _ r1 λ w _ r2.
        let amount = as_i128 (tail w) in
        let hash = bid_hash h k id chain (take (sig_at - bid_at) (drop bid_at message)) in
        bind_then (address h k bid.maker bid.maker_is_contract) _ r2 λ maker _ r3.
          bind_then (address h k bid.stable true) _ r3 λ stable _ r4.
            bind_then (payable h k s x c chain bid amount hash maker stable) _ r4 λ good e5 r5.
              elim (Bool-cases good) [
                | inl agreed ↦
                    bind_then (is_signed h k x c maker bid hash (drop sig_at message)) _
                      (rw agreed at r5)
                      λ signed e6 r6. elim (Bool-cases signed) [
                        | inl proper ↦ bind_then (unit h k x stable) _ (rw proper at r6) λ u _ r7.
                            bind_then (mul_i128 amount u) _ r7 λ local _ r8.
                              pull-Moves s x c chain id hash maker stable local
                                (unused s x c chain bid amount hash maker stable
                                  (e5 ∙ ap ok agreed))
                                r8
                        | inr refused ↦ absurd (none_is_not (rw refused at r6))
                      ]
                | inr refused ↦ absurd (none_is_not (rw refused at r5))
              ]

  pub pay-Moves :
      (s : Settle) (x : T) (c : Config) (chain : ℕ) (message : Bytes) {s' : Settle} {x' : T}
      → pay h k (s, x) c chain message ≡ ok (some (s', x'))
      → Moves s s'
  unfolding pay
  pay-Moves s x c chain message e = bind_then (parse_bid message) _ e λ parsed _ r1.
      elim (Option-cases parsed) [
        | inl none_there ↦ absurd (none_is_not (rw none_there at r1))
        | inr (bid, there) ↦ pay_bid-Moves s x c chain message bid (rw there at r1)
      ]

  on_fill-Moves :
      (s : Settle) (x : T) (c : Config) (chain : ℕ) (message : Bytes) {s' : Settle} {x' : T}
      → on_fill h k (s, x) c chain message ≡ ok (s', x')
      → Moves s s'
  unfolding on_fill
  on_fill-Moves s x c chain message {s'} {x'} e =
      bind_then (pay h k (s, x) c chain message) _ e λ paid e1 r1. elim (Option-cases paid) [
        | inl unpaid ↦ bind_then (word message 1) _ (rw unpaid at r1) λ id _ r2.
            bind_then (send h k s x c chain (about fail_kind id) h.me) _ r2
              λ x1 _ r3. at_rest s s' (same_end h k s s s' x1 x' r3 (refl, refl, refl))
        | inr ((s1, x1), is) ↦
            let same : ◌≡◌ {A = Return (Settle × T)} (ok (s1, x1)) (ok (s', x')) = rw is at r1 in
            pay-Moves s x c chain message (e1 ∙ ap ok (is ∙ ap some (ok_injective same)))
      ]

  pub lz_receive-Moves :
      (s : Settle) (x : T) (executor : Address) (origin : Origin) (guid message : Bytes) (value : ℤ)
      {s' : Settle} {x' : T}
      → lz_receive h k (s, x) executor origin guid message value ≡ ok (s', x')
      → Moves s s'
  unfolding lz_receive
  lz_receive-Moves s x executor origin guid message value e =
      bind_then (require_auth h executor) _ e λ _ _ r1. bind_then (config s) _ r1 λ c _ r2.
        bind_then (check_peer s origin.src_eid origin.sender) _ r2 λ _ _ r3.
          bind_then (or_trap (k.clear x c.bridge.endpoint origin guid message)) _ r3 λ x1 _ r4.
            bind_then (take_value h k x1 c executor value) _ r4 λ x2 _ r5.
              bind_then (kind message) _ r5 λ n _ r6. elim (Bool-cases (nat_same n fill_kind)) [
                | inl is_fill ↦ on_fill-Moves s x2 c origin.src_eid message (rw is_fill at r6)
                | inr other ↦
                    bind_then (word message 1) _ (rw other at r6)
                      λ id _ r7. on_fail-Moves s x2 origin.src_eid id r7
              ]

  pub lz_compose-Moves :
      (s : Settle) (x : T) (executor from : Address) (guid : Bytes) (index : ℕ) (message : Bytes)
      (value : ℤ) {s' : Settle} {x' : T}
      → lz_compose h k (s, x) executor from guid index message value ≡ ok (s', x')
      → Moves s s'
  unfolding lz_compose
  lz_compose-Moves s x executor from guid index message value e =
      bind_then (require_auth h executor) _ e λ _ _ r1. bind_then (config s) _ r1 λ c _ r2.
        bind_then (or_err (token_in c.bridge.ofts from) unknown_sender) _ r2 λ token _ r3.
          bind_then (or_trap (k.clear_compose x c.bridge.endpoint from guid index message)) _ r3
            λ x1 _ r4. bind_then (take_value h k x1 c executor value) _ r4 λ x2 _ r5.
              bind_then (trap_unless (not (ltb (length message) 28))) _ r5 λ _ _ r6.
                bind_then (word_at message 28) _ r6 λ sender _ r7.
                  let eid = from_be 0 (take 4 (drop 8 message)) in
                  let amount = as_i128 (from_be 0 (take 16 (drop 12 message))) in
                  bind_then (check_peer s eid sender) _ r7
                    λ _ _ r8. on_funds-Moves s x2 c eid token amount (drop 60 message) none r8
