-- ===== src/Crosschain/Once.antt =====
-- contracts/crosschain_settle/src: a fill is settled at most once.
use stellar_rfq.Prelude.{
  ◌≢◌, ℕ, ◌≡◌, refl, sym, ap, subst, ◌∙◌, Option, none, some, List, [], ◌∷◌, arith,
}
use stellar_rfq.Prelude.Int.{ℤ}
use stellar_rfq.Prelude.Maps.{Bytes, update, bytes_eq, update_self}
use stellar_rfq.Prelude.Result.{ok, err, trap, bind_then, ok_injective}
use stellar_rfq.Types.{Address}
use stellar_rfq.Host.{Host, require_auth}
use stellar_rfq.Timelock
use stellar_rfq.Timelock.{guardian}
use stellar_rfq.Crosschain.Types.{
  Order, Return, Error, not_found, Config, Change, Links, set_config, set_peer, set_route,
  set_vault, set_delay,
}
use stellar_rfq.Crosschain.Wire.{word}
use stellar_rfq.Crosschain.State.{Settle, admin}
use stellar_rfq.Crosschain.Taker.{fill, push, withdraw}
use stellar_rfq.Crosschain.Funds.{settle_order, on_fail, paid_order}
use stellar_rfq.Crosschain.Admin.{
  slot, submit_change, accept, apply_change, lift, check_change, revoke_change, sweep,
}
use stellar_rfq.Crosschain.Entry.{
  Op, elsewhere, fills, pushes, withdraws, receives, composes, submits, accepts, revokes, sweeps,
  apply, kept_or, run,
}
use stellar_rfq.Crosschain.Moves.{Moves, rests, IsValid, IsClosed, Moves-IsValid, Moves-IsClosed}
use stellar_rfq.Crosschain.Steps.{Same, fill-Moves, push-Same, settle_order_ok}
use stellar_rfq.Crosschain.Receives.{at_rest, lz_receive-Moves, lz_compose-Moves}

kept : (s : Settle) {s1 s' : Settle} → s1 ≡ s' → Same s s1 → Same s s'
kept s e p = subst (Same s) e p

none_in_flight : (s : Settle) → ((id : Bytes) → s.order id ≡ none) → IsValid s
none_in_flight s empty = record { marked = λ id o e. absurd (nothing o (sym (empty id) ∙ e)) }
  where
    nothing : (o : Order) → ◌≢◌ {A = Option Order} none (some o)
    nothing o e = absurd (cc)

module _ {T : Type 0} where
  module _ (h : Host T) (k : Links T) where
    withdraw-Same :
        (s : Settle) (x : T) (who token : Address) {s' : Settle} {x' : T}
        → withdraw h k (s, x) who token ≡ ok (s', x')
        → Same s s'
    unfolding withdraw
    withdraw-Same s x who token e = ground arith

    apply_change-Same :
        (s : Settle) (change : Change) {s' : Settle} → apply_change h k s change ≡ ok s' → Same s s'
    unfolding apply_change
    apply_change-Same s (set_config c) e = kept s (ok_injective e) (refl, refl, refl)
    apply_change-Same s (set_peer chain p) e = kept s (ok_injective e) (refl, refl, refl)
    apply_change-Same s (set_route chain stable remote) e =
        kept s (ok_injective e) (refl, refl, refl)
    apply_change-Same s (set_vault rwa vault) e = kept s (ok_injective e) (refl, refl, refl)
    apply_change-Same s (set_delay d) e =
        bind_then (guardian s.timelock) _ e λ g _ r1. kept s (ok_injective r1) (refl, refl, refl)

    accept-Same : (s : Settle) (n : ℕ) {s' : Settle} → accept h k s n ≡ ok s' → Same s s'
    unfolding accept
    accept-Same s n e = bind_then (lift (Timelock.take h s.timelock n)) _ e λ p _ r1.
        let s1 = record s { timelock = p.1 } in
        bind_then (check_change s1 p.0) _ r1 λ _ _ r2. apply_change-Same s1 p.0 r2

    submit_change-Same :
        (s : Settle) (change : Change) {n : ℕ} {s' : Settle}
        → submit_change h k s change ≡ ok (n, s')
        → Same s s'
    unfolding submit_change
    submit_change-Same s change {s' = s'} e = bind_then (admin s) _ e λ a _ r1.
        bind_then (require_auth h a) _ r1 λ _ _ r2. bind_then (check_change s change) _ r2 λ _ _ r3.
          bind_then (slot h k change) _ r3 λ n _ r4.
            bind_then (Timelock.submit h s.timelock n change) _ r4
              λ t _ r5. kept s (ap (λ (w : ℕ × Settle). w.1) (ok_injective r5)) (refl, refl, refl)

    revoke_change-Same :
        (s : Settle) (n : ℕ) (caller : Address) {s' : Settle}
        → revoke_change h k s n caller ≡ ok s'
        → Same s s'
    unfolding revoke_change
    revoke_change-Same s n caller e = bind_then (admin s) _ e λ a _ r1.
        bind_then (lift (Timelock.revoke h s.timelock n caller a)) _ r1
          λ t _ r2. kept s (ok_injective r2) (refl, refl, refl)

    pub apply-Moves :
        (op : Op T) (s : Settle) (x : T) {s' : Settle} {x' : T}
        → apply h k op (s, x) ≡ ok (s', x')
        → Moves s s'
    unfolding apply
    apply-Moves (elsewhere _) s x {s'} e =
        subst (Moves s) (ap (λ (z : Settle × T). z.0) (ok_injective e)) (rests refl refl refl)
    apply-Moves (fills r chain bid signature) s x e =
        bind_then (fill h k (s, x) r chain bid signature) _ e λ z e1 r1.
          subst (Moves s) (ap (λ (w : Settle × T). w.0) (ok_injective r1))
            (fill-Moves h k s x r chain bid signature e1)
    apply-Moves (pushes caller id) s x e = bind_then (push h k (s, x) caller id) _ e λ z e1 r1.
        subst (Moves s) (ap (λ (w : Settle × T). w.0) (ok_injective r1))
          (at_rest s z.1.0 (push-Same h k s x caller id e1))
    apply-Moves (withdraws who token) s x {s'} e = at_rest s s' (withdraw-Same s x who token e)
    apply-Moves (receives executor origin guid message value) s x e =
        lz_receive-Moves h k s x executor origin guid message value e
    apply-Moves (composes executor from guid index message value) s x e =
        lz_compose-Moves h k s x executor from guid index message value e
    apply-Moves (submits change) s x e = bind_then (submit_change h k s change) _ e λ z e1 r1.
        subst (Moves s) (ap (λ (w : Settle × T). w.0) (ok_injective r1))
          (at_rest s z.1 (submit_change-Same s change e1))
    apply-Moves (accepts n) s x e = bind_then (accept h k s n) _ e λ s1 e1 r1.
        subst (Moves s) (ap (λ (w : Settle × T). w.0) (ok_injective r1))
          (at_rest s s1 (accept-Same s n e1))
    apply-Moves (revokes n caller) s x e = bind_then (revoke_change h k s n caller) _ e λ s1 e1 r1.
        subst (Moves s) (ap (λ (w : Settle × T). w.0) (ok_injective r1))
          (at_rest s s1 (revoke_change-Same s n caller e1))
    apply-Moves (sweeps to amount) s x e = bind_then (sweep h k (s, x) to amount) _ e λ x1 e1 r1.
        subst (Moves s) (ap (λ (w : Settle × T). w.0) (ok_injective r1)) (rests refl refl refl)

  kept-IsClosed :
      (h : Host T) (k : Links T) (op : Op T) (z : Settle × T) (r : Return (Settle × T)) (id : Bytes)
      → apply h k op z ≡ r
      → IsClosed z.0 id
      → IsClosed (kept_or z r).0 id
  unfolding kept_or
  kept-IsClosed h k op (s, x) (ok (s', x')) id e closed =
      Moves-IsClosed (apply-Moves h k op s x e) id closed
  kept-IsClosed h k op z (err _) id e closed = closed
  kept-IsClosed h k op z trap id e closed = closed

  run-IsClosed :
      (z : Settle × T) (past : List (Host T × (Links T × Op T))) (id : Bytes)
      → IsClosed z.0 id
      → IsClosed (run z past).0 id
  unfolding run
  run-IsClosed z [] id closed = closed
  run-IsClosed z ((h, (k, op)) ∷ past) id closed =
      kept-IsClosed h k op (run z past) (apply h k op (run z past)) id refl
        (run-IsClosed z past id closed)

  IsClosed-order :
      (h : Host T) (k : Links T) (s : Settle) (x : T) (c : Config) (chain : ℕ) (token : Address)
      (amount : ℤ) (payload : Bytes) (relayer : Option Address) (n : ℕ) (id : Bytes) {s' : Settle}
      {x' : T}
      → IsValid s
      → word {E = Error} payload 1 ≡ ok id
      → settle_order h k (s, x) c chain token amount payload relayer n ≡ ok (s', x')
      → IsClosed s' id
  IsClosed-order h k s x c chain token amount payload relayer n id {s'} v at e =
      let (own, o, at', found, p, q, _) =
        settle_order_ok h k s x c chain token amount payload relayer n e in
      let same : own ≡ id = ok_injective (sym at' ∙ at) in
      let gone =
        subst (λ j. update s.order own none j ≡ none) same (update_self s.order own none) in
      let was = subst (λ j. s.order j ≡ some o) same found in
      (ap (λ m. m id) p ∙ gone, ap (λ m. m id) q ∙ v.marked id o was)

  -- Neither a payment nor a failure is taken for the fill.
  abbrev pub Refuses : Host T → Links T → Settle × T → Bytes → Type 0
  Refuses h k z id =
      ((chain : ℕ) → on_fail h k z chain id ≡ err not_found)
      × ((c : Config) (chain : ℕ) (token : Address) (amount : ℤ) (payload : Bytes)
            (relayer : Option Address) (n : ℕ)
          → word {E = Error} payload 1 ≡ ok id
          → settle_order h k z c chain token amount payload relayer n ≡ err not_found)

  -- Nothing is paid or returned for an order that is closed.
  IsClosed-Refuses :
      (h : Host T) (k : Links T) (s : Settle) (x : T) (id : Bytes)
      → IsClosed s id
      → Refuses h k (s, x) id
  unfolding on_fail settle_order paid_order
  IsClosed-Refuses h k s x id (gone, marked) =
      (λ chain. rw gone refl, λ c chain token amount payload relayer n at. rw (at, gone) refl)

  kept-IsValid :
      (h : Host T) (k : Links T) (op : Op T) (z : Settle × T) (r : Return (Settle × T))
      → apply h k op z ≡ r
      → IsValid z.0
      → IsValid (kept_or z r).0
  unfolding kept_or
  kept-IsValid h k op (s, x) (ok (s', x')) e v = Moves-IsValid (apply-Moves h k op s x e) v
  kept-IsValid h k op z (err _) e v = v
  kept-IsValid h k op z trap e v = v

  run-IsValid :
      (z : Settle × T) (past : List (Host T × (Links T × Op T)))
      → IsValid z.0
      → IsValid (run z past).0
  unfolding run
  run-IsValid z [] v = v
  run-IsValid z ((h, (k, op)) ∷ past) v =
      kept-IsValid h k op (run z past) (apply h k op (run z past)) refl (run-IsValid z past v)

  -- A cross-chain fill is settled at most once: after any calls from a state with no order in
  -- flight, and whatever the other contracts do, once a payment settles the order under an
  -- identifier, then through any later calls that order stays gone and its request stays filled,
  -- and neither a further payment nor a failure is taken for it.
  pub settled_once :
      (h : Host T) (k : Links T) (start : Settle × T)
      (before after : List (Host T × (Links T × Op T))) (c : Config) (chain : ℕ) (token : Address)
      (amount : ℤ) (payload : Bytes) (relayer : Option Address) (n : ℕ) (id : Bytes)
      {z : Settle × T}
      → ((other : Bytes) → start.0.order other ≡ none)
      → word {E = Error} payload 1 ≡ ok id
      → settle_order h k (run start before) c chain token amount payload relayer n ≡ ok z
      → IsClosed (run z after).0 id
        × ((h' : Host T) (k' : Links T) → Refuses h' k' (run z after) id)
  settled_once h k start before after c chain token amount payload relayer n id {z} empty at e =
      let v = run-IsValid start before (none_in_flight start.0 empty) in
      let (s, x) = run start before in
      let shut = IsClosed-order h k s x c chain token amount payload relayer n id v at e in
      let closed = run-IsClosed z after id shut in
      (closed, λ h' k'. IsClosed-Refuses h' k' (run z after).0 (run z after).1 id closed)
