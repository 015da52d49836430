-- ===== src/Crosschain/Steps.antt =====
-- contracts/crosschain_settle/src: every entry point moves the orders in flight by the rules.
use stellar_rfq.Prelude.{
  ℕ, ◌≡◌, refl, ap, subst, ◌∙◌, false, ◌&&◌, not, Option, none, some, inl, inr, Bool-cases, arith,
}
use stellar_rfq.Prelude.{◌==◌ as nat_same}
use stellar_rfq.Prelude.Int.{ℤ, pos, ltb_ℤ}
use stellar_rfq.Prelude.Maps.{Bytes, update, nat_eq, bytes_eq}
use stellar_rfq.Prelude.Result.{ok, fail_if, or_trap, or_err, bind_then, ok_injective, or_err_ok}
use stellar_rfq.Prelude.Words.{add_i128, sub_i128, mul_i128, i128}
use stellar_rfq.Types.{Address}
use stellar_rfq.Orders.{Request}
use stellar_rfq.Host.{Host, require_auth}
use stellar_rfq.Crosschain.Types.{
  Error, Return, not_found, no_vault, underpaid, not_authorized, Config, Order, Links, deliver_here,
  cross_deliver, redeem_ct,
}
use stellar_rfq.Crosschain.Wire.{fill_message, Bid, word, tail, payout, paid_kind}
use stellar_rfq.Crosschain.State.{Settle, config, unit, address, send_or_hold}
use stellar_rfq.Crosschain.Transport.{bridge, send}
use stellar_rfq.Crosschain.Taker.{
  fill, check_request, check_bid, quote, return_fee, rem, quotient, order_of, opened, push,
}
use stellar_rfq.Crosschain.Funds.{or_else, payout_tip, route_rwa, pay_out, paid_order, settle_order}
use stellar_rfq.Crosschain.Moves.{Moves, opens, settles}

abbrev pub Same : Settle → Settle → Type 0
Same s s' = (s'.order ≡ s.order) × (s'.filled ≡ s.filled) × (s'.used ≡ s.used)

pub same_then : (s s1 s2 : Settle) → Same s s1 → Same s1 s2 → Same s s2
same_then s s1 s2 (p, q, r) (p', q', r') = (p' ∙ p, q' ∙ q, r' ∙ r)

module _ {T : Type 0} (h : Host T) (k : Links T) where
  pub same_end :
      (s s1 s' : Settle) (x1 x' : T)
      → ◌≡◌ {A = Return (Settle × T)} (ok (s1, x1)) (ok (s', x'))
      → Same s s1
      → Same s s'
  same_end s s1 s' x1 x' e p =
      subst (λ w. Same s w) (ap (λ (z : Settle × T). z.0) (ok_injective e)) p

  pub send_or_hold-Same :
      (s : Settle) (x : T) (token to : Address) (amount : ℤ) {s' : Settle} {x' : T}
      → send_or_hold h k (s, x) token to amount ≡ ok (s', x')
      → Same s s'
  unfolding send_or_hold i128
  send_or_hold-Same s x token to amount e = ground arith

  pub route_rwa-Same :
      (s : Settle) (x : T) (c : Config) (id : Bytes) (o : Order) {s' : Settle} {x' : T}
      → route_rwa h k (s, x) c id o ≡ ok (s', x')
      → Same s s'
  unfolding route_rwa
  route_rwa-Same s x c id o {s'} {x'} e = elim (Bool-cases (nat_same o.delivery deliver_here)) [
    | inl here ↦ send_or_hold-Same s x o.rwa o.recipient o.units (rw here at e)
    | inr not_here ↦ elim (Bool-cases (nat_same o.delivery cross_deliver)) [
      | inl cross ↦
          bind_then
            (bridge h k s x c o.chain o.rwa o.units (payout o.maker o.maker_is_contract) h.me) _
            (rw (not_here, cross) at e) λ x1 e1 r1. same_end s s s' x1 x' r1 (refl, refl, refl)
      | inr redeems ↦
          bind_then (or_err (s.vault o.rwa) no_vault) _ (rw (not_here, redeems) at e) λ vault e1 r1.
            bind_then (or_trap (k.request_redeem x vault h.me o.units h.me)) _ r1 λ z e2 r2.
              elim (Bool-cases (nat_same o.delivery redeem_ct)) [
                | inl ct ↦
                    bind_then (or_trap (k.ct_of z.1 vault z.0)) _ (rw ct at r2)
                      λ token e3 r3. send_or_hold-Same s z.1 token o.recipient o.units r3
                | inr push ↦ same_end s _ s' z.1 x' (rw push at r2) (refl, refl, refl)
              ]
    ]
  ]

  pub pay_out-Same :
      (s : Settle) (x : T) (c : Config) (token : Address) (amount : ℤ) (payload : Bytes)
      (relayer : Option Address) {s' : Settle} {x' : T}
      → pay_out h k (s, x) c token amount payload relayer ≡ ok (s', x')
      → Same s s'
  unfolding pay_out
  pay_out-Same s x c token amount payload relayer {s'} e =
      bind_then (word payload 2) _ e λ flag _ r1. bind_then (word payload 1) _ r1 λ key _ r2.
        bind_then (address h k key (not (nat_same (tail flag) 0))) _ r2 λ to _ r3.
          bind_then (payout_tip h k x c token amount relayer) _ r3 λ tip _ r4.
            bind_then (send_or_hold h k (s, x) token (or_else relayer to) tip) _ r4 λ z e5 r5.
              bind_then (sub_i128 amount tip) _ r5 λ rest _ r6.
                same_then s z.0 s' (send_or_hold-Same s x token (or_else relayer to) tip e5)
                  (send_or_hold-Same z.0 z.1 token to rest r6)

  unfilled :
      (s : Settle) (r : Request) (id : Bytes)
      → check_request h k s r id ≡ ok tt
      → s.filled id ≡ false
  unfolding check_request
  unfilled s r id e = ground arith

  pub fill-Moves :
      (s : Settle) (x : T) (r : Request) (chain : ℕ) (bid : Bid) (signature : Bytes) {id : Bytes}
      {s' : Settle} {x' : T}
      → fill h k (s, x) r chain bid signature ≡ ok (id, (s', x'))
      → Moves s s'
  unfolding fill opened
  fill-Moves s x r chain bid signature {s' = s'} e = bind_then (config s) _ e λ c _ r1.
      bind_then (or_err r.taker not_authorized) _ r1 λ taker _ r2.
        bind_then (require_auth h taker) _ r2 λ _ _ r3.
          bind_then (or_trap (k.hash_request x c.rfq r)) _ r3 λ id _ r4.
            bind_then (check_request h k s r id) _ r4 λ _ e5 r5.
              bind_then (check_bid h k s x r chain bid) _ r5 λ _ _ r6.
                bind_then (unit h k x r.maker_token) _ r6 λ u _ r7.
                  bind_then (mul_i128 c.tip u) _ r7 λ tip _ r8.
                    bind_then (quote h k x c r bid tip) _ r8 λ q _ r9.
                      bind_then (address h k bid.recipient bid.recipient_is_contract) _ r9
                        λ to _ r10.
                          bind_then (or_trap (h.transfer x r.taker_token taker h.me r.taker_amount))
                            _ r10
                            λ x1 _ r11. bind_then (add_i128 q.maker_amount u) _ r11 λ sum _ r12.
                              let o = order_of taker chain r bid q tip to in
                              let s1 = opened s id o in
                              bind_then (sub_i128 sum (pos 1)) _ r12 λ above _ r13.
                                bind_then (return_fee h k s1 x1 c chain o bid) _ r13 λ xlm _ r14.
                                  bind_then (or_trap (h.transfer x1 c.xlm taker h.me xlm)) _ r14
                                    λ x2 _ r15.
                                      let message =
                                        fill_message id (quotient above u) bid signature in
                                      bind_then (send h k s1 x2 c chain message taker) _ r15
                                        λ x3 _ r16.
                                          let end =
                                            ap (λ (z : Bytes × (Settle × T)). z.1.0)
                                              (ok_injective r16) in
                                          subst (Moves s) end
                                            (opens id o (unfilled s r id e5) refl refl refl)

  pub push-Same :
      (s : Settle) (x : T) (caller : Address) (id : Bytes) {paid : ℤ} {s' : Settle} {x' : T}
      → push h k (s, x) caller id ≡ ok (paid, (s', x'))
      → Same s s'
  unfolding push
  push-Same s x caller id {s' = s'} e = bind_then (require_auth h caller) _ e λ _ _ r1.
      bind_then (config s) _ r1 λ c _ r2. bind_then (or_err (s.push_of id) not_found) _ r2 λ p _ r3.
        bind_then (or_trap (h.balance x p.stable h.me)) _ r3 λ before _ r4.
          bind_then (or_trap (h.balance x p.rwa h.me)) _ r4 λ rwa_before _ r5.
            bind_then (or_trap (k.claim x p.vault h.me p.batch p.units h.me)) _ r5 λ x1 _ r6.
              bind_then (or_trap (h.balance x1 p.rwa h.me)) _ r6 λ rwa_after _ r7.
                bind_then (sub_i128 rwa_after rwa_before) _ r7 λ back _ r8.
                  bind_then
                    (send_or_hold h k (record s { push_of = update s.push_of id none }, x1) p.rwa
                      p.recipient back)
                    _ r8
                    λ z e9 r9. bind_then (or_trap (h.balance z.1 p.stable h.me)) _ r9 λ after _ r10.
                      bind_then (sub_i128 after before) _ r10 λ paid _ r11.
                        bind_then (unit h k z.1 p.stable) _ r11 λ u _ r12.
                          bind_then (sub_i128 paid (rem paid u)) _ r12 λ amount _ r13.
                            bind_then
                              (bridge h k z.0 z.1 c p.chain p.stable amount
                                (payout p.maker p.maker_is_contract) caller)
                              _ r13
                              λ x3 _ r14.
                                subst (Same s)
                                  (ap (λ (w : ℤ × (Settle × T)). w.1.0) (ok_injective r14))
                                  (send_or_hold-Same
                                    (record s { push_of = update s.push_of id none }) x1 p.rwa
                                    p.recipient back e9)

  paid_order-found :
      (s : Settle) (id : Bytes) (n chain : ℕ) (token : Address) {o : Order}
      → paid_order h k s id n chain token ≡ ok o
      → s.order id ≡ some o
  unfolding paid_order
  paid_order-found s id n chain token e = bind_then (or_err (s.order id) not_found) _ e λ o e1 r1.
      bind_then
        (fail_if (not (nat_same n paid_kind && nat_same o.chain chain && nat_same o.stable token))
          not_found)
        _ r1 λ _ _ r2. or_err_ok (s.order id) not_found e1 ∙ ap some (ok_injective r2)

  pub settle_order_ok :
      (s : Settle) (x : T) (c : Config) (chain : ℕ) (token : Address) (amount : ℤ) (payload : Bytes)
      (relayer : Option Address) (n : ℕ) {s' : Settle} {x' : T}
      → settle_order h k (s, x) c chain token amount payload relayer n ≡ ok (s', x')
      → (id : Bytes) × (o : Order) × (word {E = Error} payload 1 ≡ ok id)
        × (s.order id ≡ some o)
        × (s'.order ≡ update s.order id none)
        × (s'.filled ≡ s.filled)
        × (s'.used ≡ s.used)
  unfolding settle_order
  settle_order_ok s x c chain token amount payload relayer n {s'} e =
      bind_then (word payload 1) _ e λ id e1 r1.
        bind_then (paid_order h k s id n chain token) _ r1 λ o e2 r2.
          bind_then (fail_if (ltb_ℤ amount o.amount) underpaid) _ r2 λ _ _ r3.
            bind_then (sub_i128 amount o.fee) _ r3 λ net _ r4.
              bind_then (sub_i128 net o.tip) _ r4 λ rest _ r5.
                bind_then
                  (send_or_hold h k (record s { order = update s.order id none }, x) token o.taker
                    rest)
                  _ r5
                  λ z1 e6 r6.
                    bind_then (send_or_hold h k z1 token o.fee_recipient o.fee) _ r6 λ z2 e7 r7.
                      bind_then (send_or_hold h k z2 token (or_else relayer o.taker) o.tip) _ r7
                        λ z3 e8 r8.
                          let (p, q, r) =
                            same_then (record s { order = update s.order id none }) z3.0 s'
                              (same_then (record s { order = update s.order id none }) z2.0 z3.0
                                (same_then (record s { order = update s.order id none }) z1.0 z2.0
                                  (send_or_hold-Same (record s { order = update s.order id none }) x
                                    token o.taker rest e6)
                                  (send_or_hold-Same z1.0 z1.1 token o.fee_recipient o.fee e7))
                                (send_or_hold-Same z2.0 z2.1 token (or_else relayer o.taker) o.tip
                                  e8))
                              (route_rwa-Same z3.0 z3.1 c id o r8) in
                          (id, o, e1, paid_order-found s id n chain token e2, p, q, r)

  pub settle_order-Moves :
      (s : Settle) (x : T) (c : Config) (chain : ℕ) (token : Address) (amount : ℤ) (payload : Bytes)
      (relayer : Option Address) (n : ℕ) {s' : Settle} {x' : T}
      → settle_order h k (s, x) c chain token amount payload relayer n ≡ ok (s', x')
      → Moves s s'
  settle_order-Moves s x c chain token amount payload relayer n e =
      let (id, o, _, found, p, q, r) =
        settle_order_ok s x c chain token amount payload relayer n e in
      settles id o found p q r
