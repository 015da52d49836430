-- ===== src/Rfq/Creation.antt =====
-- contracts/rfq/src/lib.rs: what `create_dutch_order` has done when it returns.
use stellar_rfq.Prelude.{
  ℕ, ◌+◌, ◌<◌, ◌≡◌, ◌≢◌, ◌⊎◌, inl, inr, refl, sym, true, false, some, arith, subst, ap, Bool-cases,
}
use stellar_rfq.Prelude.Int.{ℤ, pos, ◌<ℤ◌, leb_ℤ, eqb_ℤ, eq_of_parts}
use stellar_rfq.Prelude.Maps.{nat_eq}
use stellar_rfq.Prelude.Result.{ok, bind_then, fail_if, ok_injective, or_trap_ok, trap_unless_ok}
use stellar_rfq.Prelude.Words.{uint}
use stellar_rfq.Math.Bounds.{RoundsDown}
use stellar_rfq.Math.Rounding.{RoundsDown_mono}
use stellar_rfq.Host.{Host, require_auth}
use stellar_rfq.Types.{Address}
use stellar_rfq.Rfq.Types.{Error, Config, DutchOrder, invalid_amount}
use stellar_rfq.Rfq.Storage.{Storage, World, config, set_listing, take_id}
use stellar_rfq.Rfq.Price.{mul_div}
use stellar_rfq.Rfq.Checks.{not_paused}
use stellar_rfq.Rfq.Tokens.{deliver}
use stellar_rfq.Rfq.Listings.{
  check_listing, check_listing_amounts, check_curve, rescale, create_dutch_order,
}
use stellar_rfq.Rfq.Guards.{mul_div_ok}
use stellar_rfq.Rfq.Measured.{Delivered, deliver_ok}
use stellar_rfq.Rfq.Dutch.{IsSound}

pair_parts : {A B : Type 0} {p q : A × B} → p ≡ q → (p.0 ≡ q.0) × (p.1 ≡ q.1)
pair_parts e = (ap (λ z. z.0) e, ap (λ z. z.1) e)

take_id_ok :
    (s : Storage) {n : ℕ × Storage}
    → take_id s ≡ ok n
    → (n.0 ≡ s.next_id) × (n.1 ≡ record s { next_id = s.next_id + 1 })
unfolding take_id uint
take_id_ok s e = ground arith

module _ {T : Type 0} (h : Host T) where
  check_listing_ok :
      (s : Storage) (o : DutchOrder) (decay : ℕ)
      → check_listing h s o decay ≡ ok tt
      → (s.paused ≡ false)
        × (o.maker_token ≢ o.taker_token)
        × IsSound o
        × ((o.expiry ≡ 0) ⊎ (h.timestamp < o.expiry))
  unfolding check_listing not_paused check_listing_amounts check_curve
  check_listing_ok s o decay e = (ground arith, ground arith, ground arith, ground arith)

  -- The terms of a listing, in proportion to what was escrowed for it; all else is as ordered.
  abbrev pub Scales : DutchOrder → DutchOrder → ℤ → Type 0
  Scales o terms escrowed =
      (terms ≡ o)
      ⊎ ((start : ℤ) × (floor : ℤ) × RoundsDown o.start_maker_amount escrowed o.taker_amount start
          × RoundsDown o.min_maker_amount escrowed o.taker_amount floor
          × (terms ≡ record o {
            taker_amount = escrowed;
            start_maker_amount = start;
            min_maker_amount = floor;
          }))

  rescale_ok :
      (o terms : DutchOrder) (escrowed : ℤ)
      → IsSound o
      → pos 0 <ℤ escrowed
      → rescale o escrowed ≡ ok terms
      → (terms.taker_amount ≡ escrowed) × IsSound terms × Scales o terms escrowed
  unfolding rescale
  rescale_ok o terms escrowed sound arrived e = elim (Bool-cases (eqb_ℤ escrowed o.taker_amount)) [
    | inl all ↦
        let same : terms ≡ o = ground arith in
        (rw same (eq_of_parts o.taker_amount escrowed (ground arith)), rw same sound, inl same)
    | inr part ↦
        bind_then (mul_div o.start_maker_amount escrowed o.taker_amount) _ (rw part at e)
          λ start e1 r1.
            bind_then (mul_div o.min_maker_amount escrowed o.taker_amount) _ r1 λ floor e2 r2.
              bind_then (fail_if (leb_ℤ floor (pos 0)) invalid_amount) _ r2 λ _ e3 r3.
                let starts = mul_div_ok o.start_maker_amount escrowed o.taker_amount e1 in
                let floors = mul_div_ok o.min_maker_amount escrowed o.taker_amount e2 in
                let ordered =
                  RoundsDown_mono o.min_maker_amount escrowed o.start_maker_amount escrowed
                    o.taker_amount floors starts sound.floor-le-start (omega arith) in
                let terms_are = ok_injective r3 in
                (
                  ground arith,
                  subst IsSound terms_are (record {
                    amount_pos = arrived;
                    floor_pos = ground arith;
                    floor-le-start = ordered;
                  }),
                  inr (start, floor, starts, floors, sym terms_are),
                )
  ]

  -- A listing was created: under the next id, with the escrow that arrived from the seller as its
  -- amount and its terms in proportion to it.
  pub record Listed (w w' : World T) (seller : Address) (order : DutchOrder) (id : ℕ) : Type 0 where
    pub by_seller : h.authorised seller ≡ true
    pub unpaused : w.store.paused ≡ false
    pub cfg : Config
    pub configured : w.store.cfg ≡ some cfg
    pub tokens_differ : order.maker_token ≢ order.taker_token
    pub sound : IsSound order
    pub escrowed : ℤ
    pub delivered :
        Delivered h w.ext w'.ext order.taker_token seller h.me order.taker_amount escrowed
    pub terms : DutchOrder
    pub holds : terms.taker_amount ≡ escrowed
    pub terms_sound : IsSound terms
    pub scaled : Scales order terms escrowed
    pub is_next : id ≡ w.store.next_id
    pub stores :
        w'.store
        ≡ set_listing
            (record w.store { next_id = w.store.next_id + 1 })
            id
            (record {
              order = terms;
              seller = seller;
              created_at = h.timestamp;
              decay_seconds = cfg.decay_seconds;
              active = true;
            })

  -- A successful `create_dutch_order` escrows what arrives from the seller and lists exactly that,
  -- under a new id, at the configured decay: its terms keep the ordered ones in proportion, and are
  -- sound.
  pub create_dutch_order-Listed :
      (w : World T) (seller : Address) (order : DutchOrder) {id : ℕ} {w' : World T}
      → create_dutch_order h w seller order ≡ ok (id, w')
      → Listed w w' seller order id
  unfolding create_dutch_order
  create_dutch_order-Listed w seller order {id} {w'} e =
      bind_then (require_auth h seller) _ e λ _ e1 r1. bind_then (config w.store) _ r1 λ c e2 r2.
        bind_then (check_listing h w.store order c.decay_seconds) _ r2 λ _ e3 r3.
          bind_then (deliver h w.ext order.taker_token seller h.me order.taker_amount) _ r3
            λ d e4 r4. bind_then (rescale order d.0) _ r4 λ terms e5 r5.
              bind_then (take_id w.store) _ r5 λ n e6 r6.
                let (unpaused, differ, sound, _) =
                  check_listing_ok w.store order c.decay_seconds e3 in
                let delivered =
                  deliver_ok h w.ext order.taker_token seller h.me order.taker_amount
                    sound.amount_pos e4 in
                let (holds, terms_sound, scaled) =
                  rescale_ok order terms d.0 sound delivered.counted_pos e5 in
                let (first, rest) = take_id_ok w.store e6 in
                let (same_id, same_world) = pair_parts (ok_injective r6) in
                subst (λ z. Listed w z seller order id) same_world
                  (subst (λ z. Listed w (made d.1 terms c n) seller order z) same_id
                    (record {
                      by_seller = trap_unless_ok {E = Error} (h.authorised seller) e1;
                      unpaused = unpaused;
                      cfg = c;
                      configured = or_trap_ok {E = Error} w.store.cfg e2;
                      tokens_differ = differ;
                      sound = sound;
                      escrowed = d.0;
                      delivered = delivered;
                      terms = terms;
                      holds = holds;
                      terms_sound = terms_sound;
                      scaled = scaled;
                      is_next = first;
                      stores = rw rest refl;
                    }))
    where
      made : T → DutchOrder → Config → ℕ × Storage → World T
      made x terms c n = record {
        store = set_listing n.1 n.0 (record {
          order = terms;
          seller = seller;
          created_at = h.timestamp;
          decay_seconds = c.decay_seconds;
          active = true;
        });
        ext = x;
      }
