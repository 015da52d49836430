-- ===== src/Rfq/Books.antt =====
-- contracts/rfq/src/lib.rs: what a settled order leaves in the books of fills.
use stellar_rfq.Prelude.{◌≡◌, ◌≢◌, ◌⊎◌, inl, inr, ap, ◌∙◌, Option, none, arith}
use stellar_rfq.Prelude.Int.{ℤ, ◌+ℤ◌, ◌≤ℤ◌}
use stellar_rfq.Prelude.Maps.{Bytes, bytes_eq, update, update_self, update_ne}
use stellar_rfq.Host.{Host}
use stellar_rfq.Types.{Address}
use stellar_rfq.Orders.{Request, Signature, FillResult}
use stellar_rfq.Rfq.Storage.{Storage, World, set_filled, set_request_filled}
use stellar_rfq.Rfq.Hash
use stellar_rfq.Rfq.Settles.{Settles}
use stellar_rfq.Rfq.Guards.{Signs, Admits, Validated, validate_common_ok, verify_ok, take_fill_ok}

-- One entry of the books rose by `amount`, to no more than `total`, and no other changed.
abbrev pub Raises : (Bytes → ℤ) → (Bytes → ℤ) → Bytes → ℤ → ℤ → Type 0
Raises before after key amount total =
    (after key ≡ before key +ℤ amount)
    × (after key ≤ℤ total)
    × ((other : Bytes) → key ≢ other → after other ≡ before other)

update-Raises :
    (f g : Bytes → ℤ) (key : Bytes) (amount total : ℤ)
    → f key +ℤ amount ≤ℤ total
    → g ≡ update f key (f key +ℤ amount)
    → Raises f g key amount total
update-Raises f g key amount total within e = rw e (
  update_self f key (f key +ℤ amount),
  rw (update_self f key (f key +ℤ amount)) within,
  λ other differs. update_ne f key other (f key +ℤ amount) differs,
)

-- Admission books the request at most: it leaves the orders' books and the signers alone.
Admits-keeps :
    {T : Type 0} (h : Host T) (s : Storage) (r : Request) (sig : Option Signature)
    (sender : Address) (amount : ℤ) (taker : Address) (s' : Storage)
    → Admits h s r sig sender amount taker s'
    → (s'.filled ≡ s.filled) × (s'.signer ≡ s.signer)
unfolding set_request_filled
Admits-keeps h s r sig sender amount taker s' (inl (_, _, e)) =
    (ap (λ (z : Storage). z.filled) e, ap (λ (z : Storage). z.signer) e)
Admits-keeps h s r sig sender amount taker s' (inr (_, _, _, e, _)) =
    (ap (λ (z : Storage). z.filled) e, ap (λ (z : Storage). z.signer) e)

-- What happened to the request's book: nothing if it names no taker.
abbrev pub RequestBooked : Storage → Storage → Request → Bytes → ℤ → Type 0
RequestBooked s s' r hash amount =
    ((r.taker ≡ none) × (s'.request_filled ≡ s.request_filled))
    ⊎ ((r.taker ≢ none) × Raises s.request_filled s'.request_filled hash amount r.taker_amount)

module _ {T : Type 0} (h : Host T) (w w' : World T) (r : Request) (maker : Address)
    (order_hash : Bytes) (sig : Option Signature) (sender : Address) (amount : ℤ) (res : FillResult)
    (t : Settles h w w' r maker order_hash sig sender amount res) where
  pub validated : Validated h w.store r maker sig sender amount t.taker t.booked
  validated = validate_common_ok h w.store r maker sig sender amount t.validated

  kept : (t.booked.filled ≡ w.store.filled) × (t.booked.signer ≡ w.store.signer)
  kept = Admits-keeps h w.store r sig sender amount t.taker t.booked (validated.admitted)

  stored :
      (w'.store ≡ set_filled t.booked order_hash (t.booked.filled order_hash +ℤ amount))
      × (t.booked.filled order_hash +ℤ amount ≤ℤ r.taker_amount)
  stored = take_fill_ok t.booked order_hash r.taker_amount amount t.taken

  pub order_raised : Raises w.store.filled w'.store.filled order_hash amount r.taker_amount
  unfolding set_filled
  order_raised =
      update-Raises w.store.filled w'.store.filled order_hash amount r.taker_amount
        (rw kept.0 at stored.1) (rw kept.0 at (ap (λ (z : Storage). z.filled) stored.0))

  pub request_booked : RequestBooked w.store w'.store r (Hash.request h r) amount
  unfolding set_request_filled set_filled
  request_booked = request_booked_of (validated.admitted)
    where
      same : w'.store.request_filled ≡ t.booked.request_filled
      same = ap (λ (z : Storage). z.request_filled) stored.0

      request_booked_of :
          Admits h w.store r sig sender amount t.taker t.booked
          → RequestBooked w.store w'.store r (Hash.request h r) amount
      request_booked_of (inl (anyone, _, e)) =
          inl (anyone, same ∙ ap (λ (z : Storage). z.request_filled) e)
      request_booked_of (inr (named, _, _, e, within)) = inr (
        ground arith,
        update-Raises w.store.request_filled w'.store.request_filled (Hash.request h r) amount
            r.taker_amount within (same ∙ ap (λ (z : Storage). z.request_filled) e),
      )

  signers_kept : w'.store.signer ≡ w.store.signer
  unfolding set_filled
  signers_kept = ap (λ (z : Storage). z.signer) stored.0 ∙ kept.1

  pub maker-Signs : Signs h w.store maker order_hash t.maker_signature
  maker-Signs =
      let (valid, by_key) = verify_ok h w'.store maker order_hash t.maker_signature t.signed in
      (valid, elim by_key [ inl own ↦ inl own | inr listed ↦ inr (rw signers_kept at listed) ])
