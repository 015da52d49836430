-- ===== src/Crosschain/Wire.antt =====
-- contracts/crosschain_settle/src/wire.rs: the messages between the contract and its peers, in words
-- of 32 bytes. A number outside a byte string traps the call that reads it.
use stellar_rfq.Prelude.{
  ℕ, zero, suc, ◌+◌, ◌-◌, ◌*◌, ◌/◌, ◌%◌, ◌^◌, Bool, true, false, not, ltb, leb, ◌==◌, if◌then◌else◌,
  Option, none, some, List, [], ◌∷◌, ◌++◌,
}
use stellar_rfq.Prelude.Int.{ℤ, pos, negsuc}
use stellar_rfq.Prelude.Lists.{length, take, drop}
use stellar_rfq.Prelude.Maps.{Bytes}
use stellar_rfq.Prelude.Result.{Result, ok, trap, ◌>>=◌}
use stellar_rfq.Types.{Address}
use stellar_rfq.Host.{Host}

abbrev pub fill_kind : ℕ
fill_kind = 0

abbrev pub fail_kind : ℕ
fail_kind = 1

abbrev pub paid_kind : ℕ
paid_kind = 2

abbrev pub payout_kind : ℕ
payout_kind = 3

abbrev pub bid_at : ℕ
bid_at = 96

abbrev pub sig_at : ℕ
sig_at = 416

pub record Bid : Type 0 where
  pub maker : Bytes
  pub maker_is_contract : Bool
  pub stable : Bytes
  pub max_amount : ℤ
  pub maker_bps_per_day : ℕ
  pub delivery : ℕ
  pub recipient : Bytes
  pub recipient_is_contract : Bool
  pub deadline : ℕ
  pub salt : Bytes

-- `as u128` and `as i128`, in two's complement.
unfoldable pub as_u128 : ℤ → ℕ
as_u128 (pos n) = n
as_u128 (negsuc n) = 2 ^ 128 - n - 1

unfoldable pub as_i128 : ℕ → ℤ
as_i128 v = if ltb v (2 ^ 127) then pos v else negsuc (2 ^ 128 - v - 1)

unfoldable pub bit : Bool → ℕ
bit true = 1
bit false = 0

-- `v` in `n` bytes, big-endian, before `rest`.
unfoldable pub be_bytes : ℕ → ℕ → Bytes → Bytes
be_bytes zero v rest = rest
be_bytes (suc n) v rest = be_bytes n (v / 256) (v % 256 ∷ rest)

unfoldable pub from_be : ℕ → Bytes → ℕ
from_be acc [] = acc
from_be acc (b ∷ l) = from_be (acc * 256 + b) l

unfoldable pub uint : ℕ → Bytes
unfolding be_bytes
uint v = 0 ∷ 0 ∷ 0 ∷ 0 ∷ 0 ∷ 0 ∷ 0 ∷ 0 ∷ 0 ∷ 0 ∷ 0 ∷ 0 ∷ 0 ∷ 0 ∷ 0 ∷ 0 ∷ be_bytes 16 v []

unfoldable pub words : List Bytes → Bytes
words [] = []
words (w ∷ ws) = w ++ words ws

unfoldable pub bid_list : Bid → List Bytes
unfolding uint bit as_u128
bid_list b =
    b.maker
    ∷ uint (bit b.maker_is_contract)
    ∷ b.stable
    ∷ uint (as_u128 b.max_amount)
    ∷ uint b.maker_bps_per_day
    ∷ uint b.delivery
    ∷ b.recipient
    ∷ uint (bit b.recipient_is_contract)
    ∷ uint b.deadline
    ∷ b.salt
    ∷ []

unfoldable pub bid_words : Bid → Bytes
unfolding words bid_list
bid_words b = words (bid_list b)

unfoldable pub fill_message : Bytes → ℤ → Bid → Bytes → Bytes
unfolding words uint as_u128 bid_words
fill_message id amount bid signature =
    words (uint fill_kind ∷ id ∷ uint (as_u128 amount) ∷ []) ++ (bid_words bid ++ signature)

-- FAIL or PAID.
unfoldable pub about : ℕ → Bytes → Bytes
unfolding words uint
about kind id = words (uint kind ∷ id ∷ [])

unfoldable pub payout : Bytes → Bool → Bytes
unfolding words uint bit
payout to to_is_contract = words (uint payout_kind ∷ to ∷ uint (bit to_is_contract) ∷ [])

-- The low 16 bytes of a word.
unfoldable pub tail : Bytes → ℕ
unfolding from_be
tail w = from_be 0 (drop 16 w)

module _ {E : Type 0} where
  unfoldable pub word_at : Bytes → ℕ → Result E Bytes
  word_at m at = if leb (at + 32) (length m) then ok (take 32 (drop at m)) else trap

  unfoldable pub word : Bytes → ℕ → Result E Bytes
  word m i = word_at m (32 * i)

  unfoldable pub kind : Bytes → Result E ℕ
  kind m = do w ← word m 0; ok (tail w % 2 ^ 32)

  unfoldable pub parse_bid : Bytes → Result E (Option Bid)
  parse_bid m =
      if leb sig_at (length m)
      then (do
        maker ← word_at m bid_at
        maker_is_contract ← word_at m (bid_at + 32)
        stable ← word_at m (bid_at + 64)
        max_amount ← word_at m (bid_at + 96)
        maker_bps_per_day ← word_at m (bid_at + 128)
        delivery ← word_at m (bid_at + 160)
        recipient ← word_at m (bid_at + 192)
        recipient_is_contract ← word_at m (bid_at + 224)
        deadline ← word_at m (bid_at + 256)
        salt ← word_at m (bid_at + 288)
        ok (
            some (record {
              maker = maker;
              maker_is_contract = not (tail maker_is_contract == 0);
              stable = stable;
              max_amount = as_i128 (tail max_amount);
              maker_bps_per_day = tail maker_bps_per_day % 2 ^ 32;
              delivery = tail delivery % 2 ^ 32;
              recipient = recipient;
              recipient_is_contract = not (tail recipient_is_contract == 0);
              deadline = tail deadline % 2 ^ 64;
              salt = salt;
            })))
      else ok none

-- The 32 raw bytes behind an address: the end of its XDR.
unfoldable pub key : {T : Type 0} → Host T → Address → Bytes
key h a = let xdr = h.address_xdr a in drop (length xdr - 32) xdr

unfoldable pub is_contract : {T : Type 0} → Host T → Address → Bool
is_contract h a = not (length (h.address_xdr a) == 44)

-- The XDR of the address with a key.
unfoldable pub address_bytes : Bytes → Bool → Bytes
address_bytes k true = 0 ∷ 0 ∷ 0 ∷ 18 ∷ 0 ∷ 0 ∷ 0 ∷ 1 ∷ k
address_bytes k false = 0 ∷ 0 ∷ 0 ∷ 18 ∷ 0 ∷ 0 ∷ 0 ∷ 0 ∷ 0 ∷ 0 ∷ 0 ∷ 0 ∷ k
