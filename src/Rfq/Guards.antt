-- ===== src/Rfq/Guards.antt =====
-- What each guard of contracts/rfq/src/lib.rs has checked once it passes.
use stellar_rfq.Prelude.{
  ℕ, ◌≤◌, ◌<◌, ◌≡◌, ◌≢◌, ◌⊎◌, inl, inr, refl, Option, some, none, true, false, arith, ap,
  Option-cases, Bool-cases,
}
use stellar_rfq.Prelude.Int.{ℤ, pos, ◌+ℤ◌, ◌≤ℤ◌, ◌<ℤ◌}
use stellar_rfq.Prelude.Maps.{Bytes, bytes_eq, bytes_beq_iff, nat_eq, ◌==◌}
use stellar_rfq.Prelude.Result.{ok, bind_then, fail_if_ok}
use stellar_rfq.Prelude.Words.{i128}
use stellar_rfq.Math.Bounds.{RoundsDown, RoundsUp, mul_div-RoundsDown, mul_div_ceil-RoundsUp}
use stellar_rfq.Host.{Host}
use stellar_rfq.Types.{Address}
use stellar_rfq.Orders.{Request, Signature}
use stellar_rfq.Rfq.Types.{Config}
use stellar_rfq.Rfq.Storage.{Storage, set_filled, set_request_filled}
use stellar_rfq.Rfq.Hash
use stellar_rfq.Rfq.Price.{mul_div, mul_div_ceil}
use stellar_rfq.Rfq.Checks.{
  check_fee, not_paused, check_sender, check_salt, book_request, take_fill, account_pubkey,
  is_own_key, verify, check_taker_consent, check_terms, admit, validate_common,
}

pub mul_div_ok : (a b d : ℤ) {q : ℤ} → mul_div a b d ≡ ok q → RoundsDown a b d q
unfolding mul_div
mul_div_ok a b d e = mul_div-RoundsDown a b d (ground arith)

pub mul_div_ceil_ok : (a b d : ℤ) {q : ℤ} → mul_div_ceil a b d ≡ ok q → RoundsUp a b d q
unfolding mul_div_ceil
mul_div_ceil_ok a b d e = mul_div_ceil-RoundsUp a b d (ground arith)

pub take_fill_ok :
    (s : Storage) (hash : Bytes) (total amount : ℤ) {s' : Storage}
    → take_fill s hash total amount ≡ ok s'
    → (s' ≡ set_filled s hash (s.filled hash +ℤ amount)) × (s.filled hash +ℤ amount ≤ℤ total)
unfolding take_fill i128
take_fill_ok s hash total amount e = ground arith

pub book_request_ok :
    (s : Storage) (hash : Bytes) (total amount : ℤ) {s' : Storage}
    → book_request s hash total amount ≡ ok s'
    → (s' ≡ set_request_filled s hash (s.request_filled hash +ℤ amount))
      × (s.request_filled hash +ℤ amount ≤ℤ total)
unfolding book_request i128
book_request_ok s hash total amount e = ground arith

-- The fee is within the configured bounds.
pub check_fee_ok :
    (s : Storage) (fee : ℕ)
    → check_fee s fee ≡ ok tt
    → (c : Config) × (s.cfg ≡ some c) × (c.min_fee_bps ≤ fee) × (fee ≤ c.max_fee_bps)
unfolding check_fee
check_fee_ok s fee e = elim (Option-cases s.cfg) [
  | inl missing ↦ absurd (ground arith)
  | inr (c, found) ↦ (c, found, ground arith, ground arith)
]

own_key_ok : (o : Option Bytes) (key : Bytes) → is_own_key o key ≡ true → o ≡ some key
unfolding is_own_key
own_key_ok none key e = cc
own_key_ok (some pk) key e = ap some ((bytes_beq_iff pk key).0 e)

module _ {T : Type 0} (h : Host T) where
  -- A signature that counts for `who`: valid, and by its own key or one that it registered.
  abbrev pub Signs : Storage → Address → Bytes → Signature → Type 0
  Signs s who hash sig =
      (h.ed25519_verify sig.signer (Hash.sep53 h hash) sig.signature ≡ true)
      × ((account_pubkey h who ≡ some sig.signer) ⊎ (s.signer who sig.signer ≡ true))

  pub verify_ok :
      (s : Storage) (who : Address) (hash : Bytes) (sig : Signature)
      → verify h s who hash sig ≡ ok tt
      → Signs s who hash sig
  unfolding verify
  verify_ok s who hash sig e = ground (arith, own_key_ok (account_pubkey h who) sig.signer)

  -- The taker sent the call, or signed the request.
  abbrev pub Consents : Storage → Address → Address → Bytes → Option Signature → Type 0
  Consents s taker sender hash sig =
      (taker ≡ sender) ⊎ ((given : Signature) × (sig ≡ some given) × Signs s taker hash given)

  pub check_taker_consent_ok :
      (s : Storage) (taker sender : Address) (hash : Bytes) (sig : Option Signature)
      → check_taker_consent h s taker sender hash sig ≡ ok tt
      → Consents s taker sender hash sig
  unfolding check_taker_consent
  check_taker_consent_ok s taker sender hash none e = inl (ground arith)
  check_taker_consent_ok s taker sender hash (some sig) e = elim (Bool-cases (taker == sender)) [
    | inl same ↦ inl (ground arith)
    | inr other ↦ inr (sig, refl, verify_ok s taker hash sig (ground arith))
  ]

  -- The terms on which an order is filled.
  pub record Fillable (s : Storage) (r : Request) (amount : ℤ) : Type 0 where
    pub unpaused : s.paused ≡ false
    pub tokens_differ : r.maker_token ≢ r.taker_token
    pub amount_pos : pos 0 <ℤ amount
    pub total_pos : pos 0 <ℤ r.taker_amount
    pub floor_pos : pos 0 <ℤ r.min_received_amount
    pub unexpired : h.timestamp < r.expiry
    pub cfg : Config
    pub configured : s.cfg ≡ some cfg
    pub fee_above : cfg.min_fee_bps ≤ r.fee_bps
    pub fee_below : r.fee_bps ≤ cfg.max_fee_bps

  pub check_terms_ok :
      (s : Storage) (r : Request) (amount : ℤ)
      → check_terms h s r amount ≡ ok tt
      → Fillable s r amount
  unfolding check_terms not_paused check_fee
  check_terms_ok s r amount e = elim (Option-cases s.cfg) [
    | inl missing ↦ absurd (ground arith)
    | inr (c, found) ↦ record {
      unpaused = ground arith;
      tokens_differ = ground arith;
      amount_pos = ground arith;
      total_pos = ground arith;
      floor_pos = ground arith;
      unexpired = ground arith;
      cfg = c;
      configured = found;
      fee_above = ground arith;
      fee_below = ground arith;
    }
  ]

  -- How the taker came to be who they are, and what was booked for it. An order that names no
  -- taker is filled by its sender, and its request is not counted.
  abbrev pub Admits :
      Storage → Request → Option Signature → Address → ℤ → Address → Storage → Type 0
  Admits s r sig sender amount taker s' =
      ((r.taker ≡ none) × (taker ≡ sender) × (s' ≡ s))
      ⊎ ((r.taker ≡ some taker)
          × (s.salt_cancelled taker r.salt ≡ false)
          × Consents s taker sender (Hash.request h r) sig
          × (s'
              ≡ set_request_filled s (Hash.request h r)
                  (s.request_filled (Hash.request h r) +ℤ amount))
          × (s.request_filled (Hash.request h r) +ℤ amount ≤ℤ r.taker_amount))

  pub record Validated (s : Storage) (r : Request) (maker : Address) (sig : Option Signature)
      (sender : Address) (amount : ℤ) (taker : Address) (s' : Storage) : Type 0 where
    pub terms : Fillable s r amount
    pub sender_allowed : (r.sender ≡ none) ⊎ (r.sender ≡ some sender)
    pub maker_salt : s.salt_cancelled maker r.salt ≡ false
    pub admitted : Admits s r sig sender amount taker s'

  check_sender_ok :
      (r : Request) (sender : Address)
      → check_sender r sender ≡ ok tt
      → (r.sender ≡ none) ⊎ (r.sender ≡ some sender)
  unfolding check_sender
  check_sender_ok r sender e = elim (Option-cases r.sender) [
    | inl free ↦ inl free
    | inr (only, named) ↦ inr (ground arith)
  ]

  admit_ok :
      (s : Storage) (r : Request) (sig : Option Signature) (sender : Address) (amount : ℤ)
      (named : Option Address) {taker : Address} {s' : Storage}
      → r.taker ≡ named
      → admit h s r sig sender amount named ≡ ok (taker, s')
      → Admits s r sig sender amount taker s'
  unfolding check_salt admit
  admit_ok s r sig sender amount none n e = inl (n, ground arith, ground arith)
  admit_ok s r sig sender amount (some t) n e = bind_then (check_salt s t r.salt) _ e λ _ e1 r1.
      bind_then (check_taker_consent h s t sender (Hash.request h r) sig) _ r1 λ _ e2 r2.
        bind_then (book_request s (Hash.request h r) r.taker_amount amount) _ r2 λ s1 e3 r3.
          let (stored, within) = book_request_ok s (Hash.request h r) r.taker_amount amount e3 in
          inr (
            ground arith,
            ground arith,
            ground (arith, check_taker_consent_ok s t sender (Hash.request h r) sig e2),
            ground (arith, stored),
            within,
          )

  pub validate_common_ok :
      (s : Storage) (r : Request) (maker : Address) (sig : Option Signature) (sender : Address)
      (amount : ℤ) {taker : Address} {s' : Storage}
      → validate_common h s r maker sig sender amount ≡ ok (taker, s')
      → Validated s r maker sig sender amount taker s'
  unfolding validate_common check_salt
  validate_common_ok s r maker sig sender amount e =
      bind_then (check_terms h s r amount) _ e λ _ e1 r1.
        bind_then (check_sender r sender) _ r1 λ _ e2 r2.
          bind_then (check_salt s maker r.salt) _ r2 λ _ e3 r3. record {
            terms = check_terms_ok s r amount e1;
            sender_allowed = check_sender_ok r sender e2;
            maker_salt = fail_if_ok _ _ e3;
            admitted = admit_ok s r sig sender amount r.taker refl r3;
          }
