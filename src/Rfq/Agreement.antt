-- ===== src/Rfq/Agreement.antt =====
-- contracts/rfq/src/lib.rs: what the two parties of a settled order agreed to and got.
use stellar_rfq.Prelude.{◌≡◌, ◌⊎◌, inl, inr, Option, some, none, true, false}
use stellar_rfq.Prelude.Int.{ℤ, ◌≤ℤ◌}
use stellar_rfq.Prelude.Maps.{Bytes, bytes_eq}
use stellar_rfq.Math.Bounds.{RoundsUp}
use stellar_rfq.Host.{Host}
use stellar_rfq.Types.{Address}
use stellar_rfq.Orders.{Request, Signature, FillResult}
use stellar_rfq.Rfq.Storage.{Storage, World}
use stellar_rfq.Rfq.Hash
use stellar_rfq.Rfq.Settles.{Settles}
use stellar_rfq.Rfq.Guards.{Fillable, Signs, Consents, Validated}
use stellar_rfq.Rfq.Measured.{Credited, Delivered, Pays, deliver_ok, pay_ok, sub_ok, check_floor_ok}
use stellar_rfq.Rfq.Books.{validated, maker-Signs}

-- The parties agreed: the contract runs, the order is live and well formed, the maker signed it,
-- and the taker, whoever the order lets that be, sent the call or signed the request; neither had
-- cancelled the salt.
pub record Agreed {T : Type 0} (h : Host T) (s : Storage) (r : Request) (maker : Address)
    (order_hash : Bytes) (sig : Option Signature) (sender : Address) (amount : ℤ) : Type 0 where
  pub fillable : Fillable h s r amount
  pub sent : h.authorised sender ≡ true
  pub sender_allowed : (r.sender ≡ none) ⊎ (r.sender ≡ some sender)
  pub maker_salt : s.salt_cancelled maker r.salt ≡ false
  pub maker_signature : Signature
  pub maker_signs : Signs h s maker order_hash maker_signature
  pub taker_agrees :
      (r.taker ≡ none)
      ⊎ ((taker : Address) × (r.taker ≡ some taker)
          × (s.salt_cancelled taker r.salt ≡ false)
          × Consents h s taker sender (Hash.request h r) sig)

-- Tokens moved as agreed: the maker was sent the input, and the taker, who is the sender unless
-- the request names one, was credited at least the request's floor, in proportion to the part
-- filled and rounded up, out of the maker's tokens.
pub record Exchanged {T : Type 0} (h : Host T) (x x' : T) (r : Request) (maker sender : Address)
    (amount : ℤ) : Type 0 where
  pub taker : Address
  pub taker_is : ((r.taker ≡ none) × (taker ≡ sender)) ⊎ (r.taker ≡ some taker)
  pub between : T
  pub counted : ℤ
  pub delivered : Delivered h x between r.taker_token taker maker amount counted
  pub received : ℤ
  pub credited : Credited h between x' r.maker_token taker received
  pub floor : ℤ
  pub floor_is : RoundsUp r.min_received_amount amount r.taker_amount floor
  pub enough : floor ≤ℤ received

module _ {T : Type 0} (h : Host T) (w w' : World T) (r : Request) (maker : Address)
    (order_hash : Bytes) (sig : Option Signature) (sender : Address) (amount : ℤ) (res : FillResult)
    (t : Settles h w w' r maker order_hash sig sender amount res) where
  pub settles-Validated : Validated h w.store r maker sig sender amount t.taker t.booked
  settles-Validated = validated h w w' r maker order_hash sig sender amount res t

  pub Settles-Agreed : Agreed h w.store r maker order_hash sig sender amount
  Settles-Agreed = record {
    fillable = settles-Validated.terms;
    sent = t.by_sender;
    sender_allowed = settles-Validated.sender_allowed;
    maker_salt = settles-Validated.maker_salt;
    maker_signature = t.maker_signature;
    maker_signs = maker-Signs h w w' r maker order_hash sig sender amount res t;
    taker_agrees = elim settles-Validated.admitted [
      | inl (anyone, _, _) ↦ inl anyone
      | inr (named, salt, consents, _, _) ↦ inr (t.taker, named, salt, consents)
    ];
  }

  unfoldable pub Settles-Exchanged : Exchanged h w.ext w'.ext r maker sender amount
  Settles-Exchanged =
      let (floor, floor_is, enough) =
        check_floor_ok h t.received r.min_received_amount amount r.taker_amount t.floors in
      record {
        taker = t.taker;
        taker_is = elim settles-Validated.admitted [
          | inl (anyone, is_sender, _) ↦ inl (anyone, is_sender)
          | inr (named, _, _, _, _) ↦ inr named
        ];
        between = t.delivery;
        counted = t.delivered;
        delivered =
            deliver_ok h w.ext r.taker_token t.taker maker amount settles-Validated.terms.amount_pos
              t.delivers;
        received = t.received;
        credited =
            (pay_ok h t.delivery r.maker_token maker t.taker r.fee_recipient t.net res.fee
              t.pays).0;
        floor = floor;
        floor_is = floor_is;
        enough = enough;
      }

  -- The maker paid what it owed, out of what the delivery left.
  pub Settles-Pays :
      Pays h t.delivery w'.ext r.maker_token maker t.taker r.fee_recipient res.maker_filled res.fee
  Settles-Pays =
      let (x1, sent, charged) =
        (pay_ok h t.delivery r.maker_token maker t.taker r.fee_recipient t.net res.fee t.pays).1 in
      record {
        net = t.net;
        net_is = sub_ok res.maker_filled res.fee t.nets;
        between = x1;
        sent = sent;
        charged = charged;
      }
