-- ===== src/Rfq/Lifetime.antt =====
-- contracts/rfq/src/lib.rs: the contract over its whole life, any call after any other, in any order
-- and by any caller.
use stellar_rfq.Prelude.{ℕ, ◌≡◌, ◌≢◌, refl, ap, ◌∙◌, true, false, some, Option, arith, subst}
use stellar_rfq.Prelude.Int.{ℤ}
use stellar_rfq.Prelude.Maps.{nat_eq, bytes_eq}
use stellar_rfq.Prelude.Result.{ok}
use stellar_rfq.Host.{Host}
use stellar_rfq.Types.{Address}
use stellar_rfq.Orders.{RfqOrder, Signature, FillResult, rfq_request}
use stellar_rfq.Rfq.Types.{Listing}
use stellar_rfq.Rfq.Storage.{set_listing, set_salt_cancelled}
use stellar_rfq.Rfq.Sales
use stellar_rfq.Rfq.Sales.{fill_dutch_order-Sold, cancel_dutch_order_lem}
use stellar_rfq.Rfq.Storage.{Storage, World}
use stellar_rfq.Rfq.Orders.{fill_rfq_order}
use stellar_rfq.Rfq.Listings.{fill_dutch_order, cancel_dutch_order}
use stellar_rfq.Rfq.Admin.{cancel_salt}
use stellar_rfq.Rfq.Steps.{
  Reach, here, next, IsValid, Grows, Changes-IsValid, Changes-Grows, Grows-refl, Grows-trans, sells,
}
use stellar_rfq.Rfq.Effects.{Step-Changes}
use stellar_rfq.Rfq.Listings.{current_ask, active_listing, if_active}
use stellar_rfq.Prelude.Maps.{update_self}
use stellar_rfq.Rfq.Types.{listing_not_active}
use stellar_rfq.Prelude.Result.{err}
use stellar_rfq.Rfq.Fill.{fill_rfq_order-Agreed}

-- From a valid state, any successful calls, in any order, keep the storage valid (fees in bounds,
-- ids not yet given out free); and in that time no fill is given back, no salt comes back into use,
-- and no closed listing changes.
pub Reach-IsValid :
    {T : Type 0} (w w' : World T)
    → Reach w w'
    → IsValid w.store
    → IsValid w'.store × Grows w.store w'.store
Reach-IsValid w w' here v = (v, Grows-refl w.store)
Reach-IsValid w w' (next {v = u} r st) v =
    let (valid, grows) = Reach-IsValid w u r v in
    let d = Step-Changes u w' st in
    (
      Changes-IsValid u.store w'.store d valid,
      Grows-trans w.store u.store w'.store grows (Changes-Grows u.store w'.store d valid),
    )

-- What a listing that is not active allows: nothing.
abbrev pub OffMarket : {T : Type 0} → Host T → World T → ℕ → Type 0
OffMarket {T} h w id =
    (current_ask h w id ≡ err listing_not_active)
    × ((buyer : Address) (limit : ℤ) (r : FillResult × World T)
        → fill_dutch_order h w id buyer limit ≢ ok r)
    × ((z : World T) → cancel_dutch_order h w id ≢ ok z)

off_market :
    {T : Type 0} (h : Host T) (w : World T) (id : ℕ) (l : Listing)
    → w.store.listing id ≡ some l
    → l.active ≡ false
    → OffMarket h w id
unfolding current_ask active_listing if_active
off_market h w id l found off = (
  rw (found, off) refl,
  λ buyer limit r e.
      let sold = fill_dutch_order-Sold h w id buyer limit {res = r.0} {w' = r.1} e in
      absurd (clash sold.listing sold.listed sold.active),
  λ z e.
      let (l', listed, active, _, _, _) = cancel_dutch_order_lem h w id e in
      absurd (clash l' listed active),
)
  where
    clash : (l' : Listing) → w.store.listing id ≡ some l' → l'.active ≡ true → ⊥
    clash l' listed active = ground arith

closed_listing :
    (s : Storage) {t : Storage} (id : ℕ) (l : Listing)
    → t ≡ set_listing s id l
    → t.listing id ≡ some l
unfolding set_listing
closed_listing s {t} id l e =
    ap (λ (z : Storage). z.listing id) e ∙ update_self s.listing id (some l)

-- A listing that was sold from a valid state is gone for good: whatever calls follow, it has no
-- ask, and it is neither filled nor cancelled again.
pub sold_once :
    {T : Type 0} (h : Host T) (w u w' : World T) (id : ℕ) (buyer : Address) (limit : ℤ)
    (res : FillResult)
    → IsValid w.store
    → fill_dutch_order h w id buyer limit ≡ ok (res, u)
    → Reach u w'
    → (later : Host T) → OffMarket later w' id
sold_once h w u w' id buyer limit res v e r later =
    let sold = fill_dutch_order-Sold h w id buyer limit e in
    let valid =
      Changes-IsValid w.store u.store (Step-Changes w u (sells h id buyer limit res e)) v in
    let shut = closed_listing w.store id (Sales.closed sold.listing) sold.stores in
    let found = (Reach-IsValid u w' r valid).1.closed id (Sales.closed sold.listing) shut refl in
    off_market later w' id (Sales.closed sold.listing) found refl

salt_off :
    {T : Type 0} (h : Host T) (s : Storage) (caller who : Address) (salt : ℕ) {t : Storage}
    → cancel_salt h s caller who salt ≡ ok t
    → t.salt_cancelled who salt ≡ true
unfolding cancel_salt set_salt_cancelled
salt_off h s caller who salt e = ground arith

-- A cancelled salt is dead for good: after the cancellation, from a valid state and whatever calls
-- follow, no RFQ order of that maker with that salt is filled.
pub cancelled_for_good :
    {T : Type 0} (h : Host T) (s : Storage) (u w' : World T) (caller who : Address) (salt : ℕ)
    → IsValid u.store
    → cancel_salt h s caller who salt ≡ ok u.store
    → Reach u w'
    → (later : Host T) (o : RfqOrder) (m : Signature) (t : Option Signature) (sender : Address)
      (amount : ℤ) (r : FillResult × World T)
    → o.maker ≡ who
    → o.salt ≡ salt
    → fill_rfq_order later w' o m t sender amount ≢ ok r
unfolding rfq_request
cancelled_for_good h s u w' caller who salt v e r later o m t sender amount (res, w2) by_who
      same_salt done =
    let agreed = fill_rfq_order-Agreed later w' m t sender amount o done in
    let on : u.store.salt_cancelled who salt ≡ true = salt_off h s caller who salt e in
    let still = (Reach-IsValid u w' r v).1.salts who salt on in
    let live = subst (λ a. w'.store.salt_cancelled a o.salt ≡ false) by_who agreed.maker_salt in
    let live' = subst (λ n. w'.store.salt_cancelled who n ≡ false) same_salt live in
    absurd (ground (arith, still, live'))
