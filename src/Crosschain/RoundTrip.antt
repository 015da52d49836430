-- ===== src/Crosschain/RoundTrip.antt =====
-- contracts/crosschain_settle/src/wire.rs: what one side writes, the other side reads.
use stellar_rfq.Prelude.{
  ℕ, ◌*◌, ◌%◌, ◌^◌, ◌≤◌, ◌≡◌, refl, ap, ◌∙◌, true, leb, le→leb, some, List, [], ◌∷◌, ◌++◌, arith,
}
use stellar_rfq.Prelude.Int.{ℤ}
use stellar_rfq.Prelude.Lists.{length, drop}
use stellar_rfq.Prelude.Maps.{Bytes}
use stellar_rfq.Prelude.Result.{ok}
use stellar_rfq.Prelude.Words.{IsI128, u32_max, u64_max}
use stellar_rfq.Crosschain.Wire.{
  Bid, fill_kind, sig_at, as_u128, as_i128, bit, uint, words, bid_list, bid_words, fill_message,
  word_at, word, tail, kind, parse_bid,
}
use stellar_rfq.Crosschain.Layout.{
  drop-words, Words32, as_i128-as_u128, as_u128_low, bit_back, length-uint, length-words, nth,
  tail-uint, word_at-words, words-++, done, more,
}

-- A bid whose fields have the widths of their types.
pub record IsBid (b : Bid) : Type 0 where
  pub maker_word : length b.maker ≡ 32
  pub stable_word : length b.stable ≡ 32
  pub recipient_word : length b.recipient ≡ 32
  pub salt_word : length b.salt ≡ 32
  pub amount_fits : IsI128 b.max_amount
  pub rate_fits : b.maker_bps_per_day ≤ u32_max
  pub delivery_fits : b.delivery ≤ u32_max
  pub deadline_fits : b.deadline ≤ u64_max

abbrev head_list : Bytes → ℤ → List Bytes
head_list id amount = uint fill_kind ∷ id ∷ uint (as_u128 amount) ∷ []

head_words :
    (id : Bytes) (amount : ℤ)
    → length id ≡ 32
    → (ws : List Bytes) → Words32 ws
    → Words32 (head_list id amount ++ ws)
head_words id amount p ws q =
    more _ _ (length-uint fill_kind) (more _ _ p (more _ _ (length-uint (as_u128 amount)) q))

bid_list-Words32 : (b : Bid) → IsBid b → Words32 (bid_list b)
unfolding bid_list
bid_list-Words32 b p = more _ _ p.maker_word (
    more _ _ (length-uint (bit b.maker_is_contract)) (
      more _ _ p.stable_word (
        more _ _ (length-uint (as_u128 b.max_amount)) (
          more _ _ (length-uint (b.maker_bps_per_day)) (
            more _ _ (length-uint (b.delivery)) (
              more _ _ p.recipient_word (
                more _ _ (length-uint (bit b.recipient_is_contract))
                  (more _ _ (length-uint (b.deadline)) (more _ _ p.salt_word done)))))))))

small_back : (v : ℕ) → v ≤ u32_max → tail (uint v) % 2 ^ 32 ≡ v
small_back v p = rw (tail-uint v (omega arith)) (omega arith)

long_back : (v : ℕ) → v ≤ u64_max → tail (uint v) % 2 ^ 64 ≡ v
long_back v p = rw (tail-uint v (omega arith)) (omega arith)

all_words : Bytes → ℤ → Bid → List Bytes
unfolding bid_list
all_words id amount bid = head_list id amount ++ bid_list bid

-- An identifier of one word, an amount and a bid that have the widths of their types.
abbrev pub IsFill : Bytes → ℤ → Bid → Type 0
IsFill id amount bid = (length id ≡ 32) × IsI128 amount × IsBid bid

module _ (id : Bytes) (amount : ℤ) (bid : Bid) (sig : Bytes) where
  all-Words32 : IsFill id amount bid → Words32 (all_words id amount bid)
  unfolding all_words
  all-Words32 (p, _, q) = head_words id amount p (bid_list bid) (bid_list-Words32 bid q)

  message_words : fill_message id amount bid sig ≡ words (all_words id amount bid) ++ sig
  unfolding fill_message bid_words all_words
  message_words = words-++ (head_list id amount) (bid_list bid) sig

  at_word :
      {E : Type 0} (i : ℕ) {w : Bytes}
      → IsFill id amount bid
      → nth (all_words id amount bid) i ≡ some w
      → word_at {E = E} (fill_message id amount bid sig) (32 * i) ≡ ok w
  at_word i p e = rw message_words (word_at-words (all_words id amount bid) sig i (all-Words32 p) e)

  long_enough : IsFill id amount bid → leb sig_at (length (fill_message id amount bid sig)) ≡ true
  unfolding all_words bid_list
  long_enough p = rw message_words (
      le→leb sig_at (length (words (all_words id amount bid) ++ sig))
        (omega (arith, length-words (all_words id amount bid) sig (all-Words32 p))))

  parse_bid-fill :
      {E : Type 0}
      → IsFill id amount bid
      → parse_bid {E = E} (fill_message id amount bid sig) ≡ ok (some bid)
  unfolding parse_bid all_words bid_list nth
  parse_bid-fill p =
      let (_, _, q) = p in
      rw
        (
          long_enough p,
          at_word 3 p refl,
          at_word 4 p refl,
          at_word 5 p refl,
          at_word 6 p refl,
          at_word 7 p refl,
          at_word 8 p refl,
          at_word 9 p refl,
          at_word 10 p refl,
          at_word 11 p refl,
          at_word 12 p refl,
          bit_back bid.maker_is_contract,
          bit_back bid.recipient_is_contract,
          tail-uint (as_u128 bid.max_amount) (as_u128_low bid.max_amount q.amount_fits),
          as_i128-as_u128 bid.max_amount q.amount_fits,
          small_back bid.maker_bps_per_day q.rate_fits,
          small_back bid.delivery q.delivery_fits,
          long_back bid.deadline q.deadline_fits,
        )
        refl

  drop-fill : IsFill id amount bid → drop sig_at (fill_message id amount bid sig) ≡ sig
  unfolding all_words bid_list words
  drop-fill p = rw message_words (drop-words (all_words id amount bid) sig (all-Words32 p))

  -- The FILL message that is written for an identifier of 32 bytes, an amount and a bid whose
  -- fields have the widths of their types is read back exactly, whatever the signature: the bid,
  -- the kind, the identifier, the amount and the signature.
  pub fill-parse_bid :
      {E : Type 0}
      → IsFill id amount bid
      → (parse_bid {E = E} (fill_message id amount bid sig) ≡ ok (some bid))
        × (kind {E = E} (fill_message id amount bid sig) ≡ ok fill_kind)
        × (word {E = E} (fill_message id amount bid sig) 1 ≡ ok id)
        × ((w : Bytes) × (word {E = E} (fill_message id amount bid sig) 2 ≡ ok w)
            × (as_i128 (tail w) ≡ amount))
        × (drop sig_at (fill_message id amount bid sig) ≡ sig)
  unfolding kind word all_words bid_list nth
  fill-parse_bid p =
      let (_, fits, _) = p in
      (
        parse_bid-fill p,
        rw (at_word 0 p refl) (ap ok (small_back fill_kind (omega arith))),
        at_word 1 p refl,
        (
          uint (as_u128 amount),
          at_word 2 p refl,
          ap as_i128 (tail-uint (as_u128 amount) (as_u128_low amount fits))
              ∙ as_i128-as_u128 amount fits,
        ),
        drop-fill p,
      )
