-- ===== src/Crosschain/Maker.antt =====
-- contracts/crosschain_settle/src/lib.rs: the maker's side. A FILL is paid from the maker's approval,
-- or answered with FAIL.
use stellar_rfq.Prelude.{
  ℕ, ◌-◌, ◌%◌, ◌^◌, Bool, true, false, ◌&&◌, ◌||◌, not, Option, none, some, ◌++◌, ltb,
  if◌then◌else◌,
}
use stellar_rfq.Prelude.{◌==◌ as nat_same}
use stellar_rfq.Prelude.Int.{ℤ, ltb_ℤ}
use stellar_rfq.Prelude.Lists.{length, take, drop}
use stellar_rfq.Prelude.Maps.{Bytes, update, bytes_eq, ◌==◌}
use stellar_rfq.Prelude.Result.{ok, ◌>>=◌, or_trap}
use stellar_rfq.Prelude.Words.{mul_i128}
use stellar_rfq.Types.{Address}
use stellar_rfq.Host.{Host}
use stellar_rfq.Rfq.Hash
use stellar_rfq.Crosschain.Types.{Return, Config, Links}
use stellar_rfq.Crosschain.Wire.{
  Bid, bid_at, sig_at, fail_kind, paid_kind, as_i128, bid_words, uint, parse_bid, word, tail, about,
}
use stellar_rfq.Crosschain.State.{Settle, unit, address}
use stellar_rfq.Crosschain.Transport.{send, bridge}

is_some : Option Bytes → Bool
is_some none = false
is_some (some _) = true

module _ {T : Type 0} (h : Host T) (k : Links T) where
  unfoldable pub bid_hash : Bytes → ℕ → Bytes → Bytes
  bid_hash request_hash chain words = h.sha256 (request_hash ++ (uint chain ++ words))

  unfoldable pub hash_bid : Bytes → ℕ → Bid → Bytes
  unfolding bid_hash
  hash_bid request_hash taker_chain bid = bid_hash request_hash taker_chain (bid_words bid)

  -- Whether the maker signed the hash, with its own key or one that it registered. `sig` is the
  -- signer's key, then the signature.
  unfoldable pub is_signed : T → Config → Address → Bid → Bytes → Bytes → Return Bool
  is_signed x c maker bid hash sig = if not (nat_same (length sig) 96) then ok false else (do
    let signer = take 32 sig
    let signature = drop 32 sig
    let digest = Hash.sep53 h hash
    let valid = k.verifies x c.verifier signer digest signature
    let own = not bid.maker_is_contract && (bid.maker == signer)
    if not valid
        then ok false
        else (if own then ok true else or_trap (k.is_order_signer x c.rfq maker signer)))

  -- The terms of a FILL that can be paid: the salt of the maker is looked up last.
  unfoldable pub payable :
      Settle → T → Config → ℕ → Bid → ℤ → Bytes → Address → Address → Return Bool
  unfolding is_some
  payable s x c chain bid amount hash maker stable =
      if ltb_ℤ bid.max_amount amount
        || ltb bid.deadline h.timestamp
        || s.used hash
        || not (is_some (s.route chain stable))
      then ok false
      else (do
        cancelled ← or_trap (k.is_salt_cancelled x c.rfq maker (tail bid.salt % 2 ^ 64))
        ok (not cancelled))

  -- The payment of a bid that was checked.
  unfoldable pub pull :
      Settle × T → Config → ℕ → Bytes → Bytes → Address → Address → ℤ → Return (Option (Settle × T))
  unfolding bridge
  pull (s, x) c chain id hash maker stable local =
      elim (h.transfer_from x stable h.me maker h.me local) [
        | none ↦ ok none
        | some x1 ↦ do
          let s' = record s { used = update s.used hash true }
          x2 ← bridge h k s' x1 c chain stable local (about paid_kind id) h.me
          ok (some (s', x2))
      ]

  unfoldable pub pay_bid : Settle × T → Config → ℕ → Bytes → Bid → Return (Option (Settle × T))
  unfolding bid_hash address payable is_signed unit pull
  pay_bid (s, x) c chain message bid = do
    id ← word message 1
    w ← word message 2
    let amount = as_i128 (tail w)
    let hash = bid_hash id chain (take (sig_at - bid_at) (drop bid_at message))
    maker ← address h k bid.maker bid.maker_is_contract
    stable ← address h k bid.stable true
    good ← payable s x c chain bid amount hash maker stable
    if not good then ok none else (do
      signed ← is_signed x c maker bid hash (drop sig_at message)
      if not signed then ok none else (do
        u ← unit h k x stable
        local ← mul_i128 amount u
        pull (s, x) c chain id hash maker stable local))

  -- Nothing is the `Err` of the source: it changes nothing, and the caller sends FAIL.
  unfoldable pub pay : Settle × T → Config → ℕ → Bytes → Return (Option (Settle × T))
  unfolding pay_bid
  pay z c chain message = do
    parsed ← parse_bid message
    elim parsed [ none ↦ ok none | some bid ↦ pay_bid z c chain message bid ]

  -- FILL from the peer on a chain: pays, or sends FAIL.
  unfoldable pub on_fill : Settle × T → Config → ℕ → Bytes → Return (Settle × T)
  unfolding pay send
  on_fill (s, x) c chain message = do
    paid ← pay (s, x) c chain message
    elim paid [
      | some z ↦ ok z
      | none ↦ do
        id ← word message 1
        x' ← send h k s x c chain (about fail_kind id) h.me
        ok (s, x')
    ]
