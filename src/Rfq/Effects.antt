-- ===== src/Rfq/Effects.antt =====
-- contracts/rfq/src/lib.rs: how each call changes the storage.
use stellar_rfq.Prelude.{
  ℕ, ◌+◌, ◌≡◌, ◌≢◌, inl, inr, refl, ap, true, some, Option, arith, subst, Bool-cases,
}
use stellar_rfq.Prelude.Int.{ℤ, pos, ◌+ℤ◌, ◌≤ℤ◌, ◌<ℤ◌}
use stellar_rfq.Prelude.Maps.{Bytes, nat_eq, bytes_eq, update}
use stellar_rfq.Prelude.Result.{ok}
use stellar_rfq.Host.{Host}
use stellar_rfq.Types.{Address}
use stellar_rfq.Orders.{Signature, FillResult}
use stellar_rfq.Rfq.Types.{Listing}
use stellar_rfq.Prelude.Int.{sum_parts}
use stellar_rfq.Prelude.Maps.{bytes_beq, bytes_beq_iff}
use stellar_rfq.Orders.{Request}
use stellar_rfq.Rfq.Storage.{set_request_filled, set_filled, set_listing, set_salt_cancelled}
use stellar_rfq.Rfq.Settles.{Settles, fill_rfq_order-SettlesRfq, fill_fixed_order-SettlesFixed}
use stellar_rfq.Rfq.Guards.{Admits, take_fill_ok}
use stellar_rfq.Rfq.Books.{Raises, RequestBooked, validated, order_raised, request_booked}
use stellar_rfq.Rfq.Sales
use stellar_rfq.Rfq.Sales.{fill_dutch_order-Sold, cancel_dutch_order_lem}
use stellar_rfq.Rfq.Creation.{create_dutch_order-Listed}
use stellar_rfq.Rfq.Frames.{Setting, apply, frame, salts_frame, salt_set}
use stellar_rfq.Rfq.Storage.{Storage, World}
use stellar_rfq.Rfq.Steps.{
  Step, Changes, Listings, setting, fills_rfq, fills_fixed, lists, sells, cancels, keeps_listings,
  opened, closes,
}

-- A rise of one entry by a positive amount lowers no entry.
Raises-grows :
    (f g : Bytes → ℤ) (key : Bytes) (amount total : ℤ)
    → pos 0 <ℤ amount
    → Raises f g key amount total
    → (other : Bytes) → f other ≤ℤ g other
Raises-grows f g key amount total p (at_key, _, others) other =
    elim (Bool-cases (bytes_beq key other)) [
      | inl same ↦
          let here : key ≡ other = (bytes_beq_iff key other).0 same in
          subst (λ z. f z ≤ℤ g z) here (grown (f key) (g key) amount p at_key)
      | inr differ ↦
          let apart : key ≢ other = λ e. absurd (ground (arith, (bytes_beq_iff key other).1 e)) in
          rw (others other apart) (omega arith)
    ]
  where
    grown : (a b c : ℤ) → pos 0 <ℤ c → b ≡ a +ℤ c → a ≤ℤ b
    grown a b c p e = omega (arith, sum_parts b a c e)

RequestBooked-grows :
    (s s' : Storage) (r : Request) (hash : Bytes) (amount : ℤ)
    → pos 0 <ℤ amount
    → RequestBooked s s' r hash amount
    → (key : Bytes) → s.request_filled key ≤ℤ s'.request_filled key
RequestBooked-grows s s' r hash amount p (inl (_, same)) key = rw same (omega arith)
RequestBooked-grows s s' r hash amount p (inr (_, raised)) key =
    Raises-grows s.request_filled s'.request_filled hash amount r.taker_amount p raised key

setting-Changes :
    {T : Type 0} (h : Host T) (op : Setting) (s s' : Storage) → apply h op s ≡ ok s' → Changes s s'
unfolding set_salt_cancelled
setting-Changes h op s s' e =
    let (filled, requests, listing, next_id, fees) = frame h op s e in
    record {
      fees = fees;
      listings = keeps_listings listing next_id;
      filled = λ key. rw filled (omega arith);
      requests = λ key. rw requests (omega arith);
      salts = λ who salt on. elim (salts_frame h op s e) [
        | inl kept ↦ rw kept on
        | inr (who', salt', set) ↦ rw set (salt_set s.salt_cancelled who' salt' who salt on)
      ];
    }

-- What a fill leaves alone.
Rest : Storage → Storage → Type 0
Rest s s' =
    (s'.cfg ≡ s.cfg)
    × (s'.listing ≡ s.listing)
    × (s'.next_id ≡ s.next_id)
    × (s'.salt_cancelled ≡ s.salt_cancelled)

Rest-of : (s s' t : Storage) → s' ≡ t → Rest s t → Rest s s'
unfolding Rest
Rest-of s s' t e r = rw e r

Admits-Rest :
    {T : Type 0} (h : Host T) (s : Storage) (r : Request) (sig : Option Signature)
    (sender : Address) (amount : ℤ) (taker : Address) (s' : Storage)
    → Admits h s r sig sender amount taker s'
    → Rest s s'
unfolding set_request_filled Rest
Admits-Rest h s r sig sender amount taker s' (inl (_, _, e)) =
    Rest-of s s' s e (refl, refl, refl, refl)
Admits-Rest h s r sig sender amount taker s' (inr (_, _, _, e, _)) =
    Rest-of s s' _ e (refl, refl, refl, refl)

module _ {T : Type 0} (h : Host T) (w w' : World T) (r : Request) (maker : Address)
    (order_hash : Bytes) (sig : Option Signature) (sender : Address) (amount : ℤ) (res : FillResult)
    (t : Settles h w w' r maker order_hash sig sender amount res) where
  Settles-Rest : Rest w.store w'.store
  unfolding Rest set_filled
  Settles-Rest =
      let v = validated h w w' r maker order_hash sig sender amount res t in
      let (a, b, c, d) = Admits-Rest h w.store r sig sender amount t.taker t.booked v.admitted in
      let stored = (take_fill_ok t.booked order_hash r.taker_amount amount t.taken).0 in
      Rest-of w.store w'.store _ stored (a, b, c, d)

  Settles-Changes : Changes w.store w'.store
  unfolding Rest
  Settles-Changes =
      let v = validated h w w' r maker order_hash sig sender amount res t in
      let (cfg, listing, next_id, salts) = Settles-Rest in
      record {
        fees = inl cfg;
        listings = keeps_listings listing next_id;
        filled =
            Raises-grows w.store.filled w'.store.filled order_hash amount r.taker_amount
              v.terms.amount_pos (order_raised h w w' r maker order_hash sig sender amount res t);
        requests =
            RequestBooked-grows w.store w'.store r _ amount v.terms.amount_pos
              (request_booked h w w' r maker order_hash sig sender amount res t);
        salts = λ who salt on. rw salts on;
      }

-- A call that touches the listings alone.
listing_Changes :
    (s s' : Storage)
    → s'.cfg ≡ s.cfg
    → s'.filled ≡ s.filled
    → s'.request_filled ≡ s.request_filled
    → s'.salt_cancelled ≡ s.salt_cancelled
    → Listings s s'
    → Changes s s'
listing_Changes s s' c f q k l = record {
  fees = inl c;
  listings = l;
  filled = λ key. rw f (omega arith);
  requests = λ key. rw q (omega arith);
  salts = λ who salt on. rw k on;
}

closing :
    (s s' : Storage) (id : ℕ) (l : Listing)
    → s.listing id ≡ some l
    → l.active ≡ true
    → s' ≡ set_listing s id (Sales.closed l)
    → Changes s s'
unfolding set_listing
closing s s' id l found on e =
    listing_Changes s s' (ap (λ (z : Storage). z.cfg) e) (ap (λ (z : Storage). z.filled) e)
      (ap (λ (z : Storage). z.request_filled) e) (ap (λ (z : Storage). z.salt_cancelled) e)
      (closes id l (Sales.closed l) found on (ap (λ (z : Storage). z.listing) e)
        (ap (λ (z : Storage). z.next_id) e))

opening :
    (s s' : Storage) (id : ℕ) (l : Listing)
    → id ≡ s.next_id
    → s' ≡ set_listing (record s { next_id = s.next_id + 1 }) id l
    → Changes s s'
unfolding set_listing
opening s s' id l is_next e =
    listing_Changes s s' (ap (λ (z : Storage). z.cfg) e) (ap (λ (z : Storage). z.filled) e)
      (ap (λ (z : Storage). z.request_filled) e) (ap (λ (z : Storage). z.salt_cancelled) e)
      (opened l
        (subst (λ n. s'.listing ≡ update s.listing n (some l)) is_next
          (ap (λ (z : Storage). z.listing) e))
        (ap (λ (z : Storage). z.next_id) e))

pub Step-Changes : {T : Type 0} (w w' : World T) → Step w w' → Changes w.store w'.store
Step-Changes w w' (setting h op e _) = setting-Changes h op w.store w'.store e
Step-Changes w w' (fills_rfq h o m t sender amount res e) =
    Settles-Changes h w w' _ _ _ t sender amount res
      ((fill_rfq_order-SettlesRfq h w m t sender amount o e).steps)
Step-Changes w w' (fills_fixed h o m t sender amount res e) =
    Settles-Changes h w w' _ _ _ t sender amount res
      ((fill_fixed_order-SettlesFixed h w m t sender amount o e).steps)
Step-Changes w w' (lists h seller o id e) =
    let made = create_dutch_order-Listed h w seller o e in
    opening w.store w'.store id _ made.is_next made.stores
Step-Changes w w' (sells h id buyer limit res e) =
    let sold = fill_dutch_order-Sold h w id buyer limit e in
    closing w.store w'.store id sold.listing sold.listed sold.active sold.stores
Step-Changes w w' (cancels h id e) =
    let (l, found, on, _, _, stores) = cancel_dutch_order_lem h w id e in
    closing w.store w'.store id l found on stores
