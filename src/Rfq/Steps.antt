-- ===== src/Rfq/Steps.antt =====
-- contracts/rfq/src/lib.rs: a step for each successful call, and how a call may change the storage.
use stellar_rfq.Prelude.{
  ℕ, ◌+◌, ◌≤◌, ◌≡◌, ◌⊎◌, inl, inr, sym, ◌∙◌, true, false, some, none, Option, arith,
}
use stellar_rfq.Prelude.Int.{ℤ, ◌≤ℤ◌}
use stellar_rfq.Prelude.Maps.{Bytes, nat_eq, bytes_eq, update}
use stellar_rfq.Prelude.Result.{ok}
use stellar_rfq.Host.{Host}
use stellar_rfq.Types.{Address}
use stellar_rfq.Orders.{RfqOrder, FixedOrder, Signature, FillResult}
use stellar_rfq.Rfq.Types.{Config, Listing, DutchOrder}
use stellar_rfq.Rfq.Frames.{Setting, apply, FeesBounded}
use stellar_rfq.Rfq.Storage.{Storage, World}
use stellar_rfq.Rfq.Orders.{fill_rfq_order, fill_fixed_order}
use stellar_rfq.Rfq.Listings.{create_dutch_order, fill_dutch_order, cancel_dutch_order}

-- One successful call, in some environment. A call that fails changes nothing.
pub data Step {T : Type 0} (w w' : World T) : Type 0 where
  setting :
      (h : Host T) (op : Setting) → apply h op w.store ≡ ok w'.store → w'.ext ≡ w.ext → Step w w'
  fills_rfq :
      (h : Host T) (o : RfqOrder) (m : Signature) (t : Option Signature) (sender : Address)
      (amount : ℤ) (res : FillResult)
      → fill_rfq_order h w o m t sender amount ≡ ok (res, w')
      → Step w w'
  fills_fixed :
      (h : Host T) (o : FixedOrder) (m : Signature) (t : Option Signature) (sender : Address)
      (amount : ℤ) (res : FillResult)
      → fill_fixed_order h w o m t sender amount ≡ ok (res, w')
      → Step w w'
  lists :
      (h : Host T) (seller : Address) (o : DutchOrder) (id : ℕ)
      → create_dutch_order h w seller o ≡ ok (id, w')
      → Step w w'
  sells :
      (h : Host T) (id : ℕ) (buyer : Address) (limit : ℤ) (res : FillResult)
      → fill_dutch_order h w id buyer limit ≡ ok (res, w')
      → Step w w'
  cancels : (h : Host T) (id : ℕ) → cancel_dutch_order h w id ≡ ok w' → Step w w'

-- Calls of this code, one after the other. What another version would do after an upgrade is not
-- said.
pub data Reach {T : Type 0} (w : World T) : World T → Type 0 where
  here : Reach w w
  next : {v u : World T} → Reach w v → Step v u → Reach w u

-- What holds of the storage at all times: the fees are bounded, and the ids not yet given out are
-- free.
pub record IsValid (s : Storage) : Type 0 where
  pub fees : (c : Config) → s.cfg ≡ some c → FeesBounded c
  pub unlisted : (id : ℕ) → s.next_id ≤ id → s.listing id ≡ none

-- What only ever moves one way: a fill is never given back, a cancelled salt stays cancelled, a
-- closed listing stays as it is.
pub record Grows (s s' : Storage) : Type 0 where
  pub filled : (key : Bytes) → s.filled key ≤ℤ s'.filled key
  pub requests : (key : Bytes) → s.request_filled key ≤ℤ s'.request_filled key
  pub salts :
      (who : Address) (salt : ℕ)
      → s.salt_cancelled who salt ≡ true
      → s'.salt_cancelled who salt ≡ true
  pub closed :
      (id : ℕ) (l : Listing) → s.listing id ≡ some l → l.active ≡ false → s'.listing id ≡ some l

-- How one call changes the listings: not at all, by a new one under the next id, or by closing one
-- that was active.
pub data Listings (s s' : Storage) : Type 0 where
  keeps_listings : s'.listing ≡ s.listing → s'.next_id ≡ s.next_id → Listings s s'
  opened :
      (l : Listing)
      → s'.listing ≡ update s.listing s.next_id (some l)
      → s'.next_id ≡ s.next_id + 1
      → Listings s s'
  closes :
      (id : ℕ) (l l' : Listing)
      → s.listing id ≡ some l
      → l.active ≡ true
      → s'.listing ≡ update s.listing id (some l')
      → s'.next_id ≡ s.next_id
      → Listings s s'

pub record Changes (s s' : Storage) : Type 0 where
  pub fees : (s'.cfg ≡ s.cfg) ⊎ ((c : Config) × (s'.cfg ≡ some c) × FeesBounded c)
  pub listings : Listings s s'
  pub filled : (key : Bytes) → s.filled key ≤ℤ s'.filled key
  pub requests : (key : Bytes) → s.request_filled key ≤ℤ s'.request_filled key
  pub salts :
      (who : Address) (salt : ℕ)
      → s.salt_cancelled who salt ≡ true
      → s'.salt_cancelled who salt ≡ true

Listings-unlisted :
    (s s' : Storage) → Listings s s' → IsValid s → (id : ℕ) → s'.next_id ≤ id → s'.listing id ≡ none
Listings-unlisted s s' (keeps_listings e n) v id h = rw e (v.unlisted id (omega arith))
Listings-unlisted s s' (opened l e n) v id h = rw e (ground (arith, v.unlisted id (omega arith)))
Listings-unlisted s s' (closes i l l' p a e n) v id h =
    rw e (ground (arith, v.unlisted id (omega arith)))

pub Changes-IsValid : (s s' : Storage) → Changes s s' → IsValid s → IsValid s'
Changes-IsValid s s' d v = record {
  fees = λ c e. elim d.fees [
    | inl kept ↦ v.fees c (sym kept ∙ e)
    | inr (c', e', bounds) ↦ ground arith
  ];
  unlisted = Listings-unlisted s s' d.listings v;
}

Listings-closed :
    (s s' : Storage)
    → Listings s s'
    → IsValid s
    → (id : ℕ) (l : Listing) → s.listing id ≡ some l
    → l.active ≡ false
    → s'.listing id ≡ some l
Listings-closed s s' (keeps_listings e n) v id l p off = rw e p
Listings-closed s s' (opened new e n) v id l p off = rw e (ground (arith, v.unlisted id))
Listings-closed s s' (closes i l1 l' p1 a e n) v id l p off = rw e (ground arith)

pub Changes-Grows : (s s' : Storage) → Changes s s' → IsValid s → Grows s s'
Changes-Grows s s' d v = record {
  filled = d.filled;
  requests = d.requests;
  salts = d.salts;
  closed = Listings-closed s s' d.listings v;
}

pub Grows-refl : (s : Storage) → Grows s s
Grows-refl s = record {
  filled = λ key. omega arith;
  requests = λ key. omega arith;
  salts = λ who salt on. on;
  closed = λ id l found off. found;
}

pub Grows-trans : (s t u : Storage) → Grows s t → Grows t u → Grows s u
Grows-trans s t u a b = record {
  filled = λ key. omega (arith, a.filled key, b.filled key);
  requests = λ key. omega (arith, a.requests key, b.requests key);
  salts = λ who salt on. b.salts who salt (a.salts who salt on);
  closed = λ id l found off. b.closed id l (a.closed id l found off) off;
}
