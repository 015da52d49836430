-- ===== src/Rfq/Checks.antt =====
-- contracts/rfq/src/lib.rs: the guards that an order passes before anything moves.
use stellar_rfq.Prelude.{
  ℕ, Bool, false, ◌&&◌, ◌||◌, not, Option, none, some, ltb, leb, if◌then◌else◌, ◌==◌ as nat_beq,
}
use stellar_rfq.Prelude.Int.{ℤ, pos, ltb_ℤ, leb_ℤ}
use stellar_rfq.Prelude.Maps.{Bytes, nat_eq, bytes_eq, ◌==◌, ◌!=◌}
use stellar_rfq.Prelude.Lists.{length, take, drop}
use stellar_rfq.Prelude.Result.{ok, err, ◌>>=◌, ◌>>◌, fail_if, trap_unless}
use stellar_rfq.Prelude.Words.{add_i128}
use stellar_rfq.Types.{Address}
use stellar_rfq.Host.{Host}
use stellar_rfq.Orders.{Request, Signature}
use stellar_rfq.Rfq.Types.{
  Error, Return, order_not_fillable, signer_not_authorized, invalid_amount, fee_out_of_bounds,
  same_token, wrong_sender, salt_is_cancelled, request_overfilled, below_min_received,
}
use stellar_rfq.Rfq.Storage.{Storage, config, set_filled, set_request_filled}
use stellar_rfq.Rfq.Hash
use stellar_rfq.Rfq.Price.{mul_div_ceil}

unfoldable pub check_fee : Storage → ℕ → Return (Unit {0})
check_fee s fee_bps = do
  cfg ← config s
  fail_if (ltb fee_bps cfg.min_fee_bps || ltb cfg.max_fee_bps fee_bps) fee_out_of_bounds

unfoldable pub not_paused : Storage → Return (Unit {0})
not_paused s = fail_if s.paused Error.paused

unfoldable pub check_sender : Request → Address → Return (Unit {0})
check_sender r sender = elim r.sender [
  | none ↦ ok tt
  | some only ↦ fail_if (only != sender) wrong_sender
]

unfoldable pub check_salt : Storage → Address → ℕ → Return (Unit {0})
check_salt s who salt = fail_if (s.salt_cancelled who salt) salt_is_cancelled

-- The amount of the request that is filled so far, raised; no more than the request in all.
unfoldable pub book_request : Storage → Bytes → ℤ → ℤ → Return Storage
book_request s request_hash taker_amount taker_amount_in = do
  filled ← add_i128 (s.request_filled request_hash) taker_amount_in
  fail_if (ltb_ℤ taker_amount filled) request_overfilled
  ok (set_request_filled s request_hash filled)

-- The same of the maker's order.
unfoldable pub take_fill : Storage → Bytes → ℤ → ℤ → Return Storage
take_fill s order_hash taker_amount taker_amount_in = do
  filled ← add_i128 (s.filled order_hash) taker_amount_in
  fail_if (ltb_ℤ taker_amount filled) order_not_fillable
  ok (set_filled s order_hash filled)

-- What arrived is at least the taker's floor, in proportion to the part filled and rounded up.
unfoldable pub check_floor : ℤ → ℤ → ℤ → ℤ → Return (Unit {0})
check_floor received min_received taker_amount_in taker_amount = do
  floor ← mul_div_ceil min_received taker_amount_in taker_amount
  fail_if (ltb_ℤ received floor) below_min_received

-- The key of an account address: bytes 12 to 44 of its serialisation. A contract address is
-- shorter and has none.
unfoldable pub key_of_xdr : Bytes → Option Bytes
key_of_xdr xdr = if nat_beq (length xdr) 44 then some (take 32 (drop 12 xdr)) else none

-- Whether the account's own key is the given one.
unfoldable pub is_own_key : Option Bytes → Bytes → Bool
is_own_key none key = false
is_own_key (some pk) key = pk == key

module _ {T : Type 0} (h : Host T) where
  unfoldable pub account_pubkey : Address → Option Bytes
  unfolding key_of_xdr
  account_pubkey who = key_of_xdr (h.address_xdr who)

  -- A signature over the prefixed hash, by the address's own key or one that it registered.
  unfoldable pub verify : Storage → Address → Bytes → Signature → Return (Unit {0})
  unfolding account_pubkey is_own_key
  verify s maker order_hash sig = do
    trap_unless (h.ed25519_verify sig.signer (Hash.sep53 h order_hash) sig.signature)
    fail_if (not (is_own_key (account_pubkey maker) sig.signer) && not (s.signer maker sig.signer))
        signer_not_authorized

  unfoldable pub check_taker_consent :
      Storage → Address → Address → Bytes → Option Signature → Return (Unit {0})
  unfolding verify
  check_taker_consent s taker sender request_hash taker_signature =
      if taker == sender then ok tt else elim taker_signature [
        | some sig ↦ verify s taker request_hash sig
        | none ↦ err signer_not_authorized
      ]

  unfoldable pub check_terms : Storage → Request → ℤ → Return (Unit {0})
  unfolding not_paused check_fee
  check_terms s r taker_amount_in = do
    not_paused s
    fail_if (r.maker_token == r.taker_token) same_token
    fail_if
        (leb_ℤ taker_amount_in (pos 0)
          || leb_ℤ r.taker_amount (pos 0)
          || leb_ℤ r.min_received_amount (pos 0))
        invalid_amount
    fail_if (leb r.expiry h.timestamp) order_not_fillable
    check_fee s r.fee_bps

  -- The end of `validate_common`, by the taker that the request names.
  unfoldable pub admit :
      Storage
      → Request
      → Option Signature
      → Address
      → ℤ
      → Option Address
      → Return (Address × Storage)
  unfolding check_salt check_taker_consent book_request
  admit s r taker_signature sender taker_amount_in none = ok (sender, s)
  admit s r taker_signature sender taker_amount_in (some taker) = do
    check_salt s taker r.salt
    let request_hash = Hash.request h r
    check_taker_consent s taker sender request_hash taker_signature
    s' ← book_request s request_hash r.taker_amount taker_amount_in
    ok (taker, s')

  -- The taker, and the storage with the request's fill booked. An order that names no taker is
  -- filled by its sender, and its request is not counted.
  unfoldable pub validate_common :
      Storage → Request → Address → Option Signature → Address → ℤ → Return (Address × Storage)
  validate_common s r maker taker_signature sender taker_amount_in = do
    check_terms s r taker_amount_in
    check_sender r sender
    check_salt s maker r.salt
    admit s r taker_signature sender taker_amount_in r.taker
