-- ===== src/Crosschain/Layout.antt =====
-- contracts/crosschain_settle/src/wire.rs: words in a message, and numbers in a word.
use stellar_rfq.Prelude.{
  ℕ, zero, suc, ◌+◌, ◌*◌, ◌/◌, ◌%◌, ◌^◌, ◌≤◌, ◌<◌, ◌≡◌, refl, sym, ap, subst, ◌∙◌, Bool, true,
  false, not, le→leb, ◌==◌, Option, none, some, List, [], ◌∷◌, ◌++◌, arith,
}
use stellar_rfq.Prelude.Int.{ℤ, pos, negsuc}
use stellar_rfq.Prelude.Lists.{length, take, drop}
use stellar_rfq.Prelude.Maps.{Bytes}
use stellar_rfq.Prelude.Result.{ok}
use stellar_rfq.Prelude.Words.{IsI128}
use stellar_rfq.Crosschain.Wire.{
  as_u128, as_i128, bit, be_bytes, from_be, uint, words, word_at, tail,
}

pub length-++ : (a b : Bytes) → length (a ++ b) ≡ length a + length b
length-++ [] b = omega arith
length-++ (x ∷ a) b = omega (arith, length-++ a b)

pub ++-assoc : (a b c : Bytes) → (a ++ b) ++ c ≡ a ++ (b ++ c)
++-assoc [] b c = refl
++-assoc (x ∷ a) b c = ap (λ l. x ∷ l) (++-assoc a b c)

pub take-++ : (a b : Bytes) → take (length a) (a ++ b) ≡ a
take-++ [] b = refl
take-++ (x ∷ a) b = ap (λ l. x ∷ l) (take-++ a b)

pub drop-++ : (a b : Bytes) (n : ℕ) → drop (length a + n) (a ++ b) ≡ drop n b
drop-++ [] b n = ap (λ m. drop m b) (omega arith)
drop-++ (x ∷ a) b n =
    let e : suc (length a) + n ≡ suc (length a + n) = omega arith in
    ap (λ m. drop m (x ∷ (a ++ b))) e ∙ drop-++ a b n

pub take_word : (w r : Bytes) → length w ≡ 32 → take 32 (w ++ r) ≡ w
take_word w r p = subst (λ n. take n (w ++ r) ≡ w) p (take-++ w r)

pub drop_word : (w r : Bytes) (n : ℕ) → length w ≡ 32 → drop (32 + n) (w ++ r) ≡ drop n r
drop_word w r n p = subst (λ m. drop (m + n) (w ++ r) ≡ drop n r) p (drop-++ w r n)

-- Every word has 32 bytes.
pub data Words32 : List Bytes → Type 0 where
  done : Words32 []
  more : (w : Bytes) (ws : List Bytes) → length w ≡ 32 → Words32 ws → Words32 (w ∷ ws)

unfoldable pub nth : List Bytes → ℕ → Option Bytes
nth [] i = none
nth (w ∷ ws) zero = some w
nth (w ∷ ws) (suc i) = nth ws i

pub length-words :
    (ws : List Bytes) (rest : Bytes) → Words32 ws → 32 * length ws ≤ length (words ws ++ rest)
unfolding words
length-words [] rest p = omega arith
length-words (w ∷ ws) rest (more _ _ p q) =
    rw (++-assoc w (words ws) rest)
      (omega (arith, length-++ w (words ws ++ rest), length-words ws rest q))

-- The word at its place.
pub slice-words :
    (ws : List Bytes) (rest : Bytes) (i : ℕ) {w : Bytes}
    → Words32 ws
    → nth ws i ≡ some w
    → (take 32 (drop (32 * i) (words ws ++ rest)) ≡ w) × (i < length ws)
unfolding words nth
slice-words [] rest i p e = absurd (cc)
slice-words (w ∷ ws) rest zero (more _ _ p q) e =
    (rw (++-assoc w (words ws) rest) (take_word w (words ws ++ rest) p ∙ cc), omega arith)
slice-words (w ∷ ws) rest (suc i) (more _ _ p q) e =
    let (there, low) = slice-words ws rest i q e in
    let at : 32 * suc i ≡ 32 + 32 * i = omega arith in
    (
      rw (++-assoc w (words ws) rest, at)
          (ap (take 32) (drop_word w (words ws ++ rest) (32 * i) p) ∙ there),
      omega (arith, low),
    )

pub word_at-words :
    {E : Type 0} (ws : List Bytes) (rest : Bytes) (i : ℕ) {w : Bytes}
    → Words32 ws
    → nth ws i ≡ some w
    → word_at {E = E} (words ws ++ rest) (32 * i) ≡ ok w
unfolding word_at
word_at-words ws rest i p e =
    let (there, low) = slice-words ws rest i p e in
    let long = length-words ws rest p in
    rw (le→leb (32 * i + 32) (length (words ws ++ rest)) (omega arith)) (ap ok there)

-- 256 to the power `n`.
pub scale : ℕ → ℕ
scale zero = 1
scale (suc n) = 256 * scale n

pub shifted : (acc m v : ℕ) → (acc * m + v / 256) * 256 + v % 256 ≡ acc * (256 * m) + v
shifted acc m v = grind arith

pub from_be-be_bytes :
    (n acc v : ℕ) (rest : Bytes)
    → v < scale n
    → from_be acc (be_bytes n v rest) ≡ from_be (acc * scale n + v) rest
unfolding from_be be_bytes scale
from_be-be_bytes zero acc v rest low =
    let e : acc ≡ acc * 1 + v = omega arith in ap (λ a. from_be a rest) e
from_be-be_bytes (suc n) acc v rest low =
    from_be-be_bytes n acc (v / 256) (v % 256 ∷ rest) (omega arith)
    ∙ ap (λ a. from_be a rest) (shifted acc (scale n) v)

pub length-be_bytes : (n v : ℕ) (rest : Bytes) → length (be_bytes n v rest) ≡ n + length rest
unfolding be_bytes
length-be_bytes zero v rest = omega arith
length-be_bytes (suc n) v rest = omega (arith, length-be_bytes n (v / 256) (v % 256 ∷ rest))

pub length-uint : (v : ℕ) → length (uint v) ≡ 32
unfolding uint
length-uint v = refl

pub tail-uint : (v : ℕ) → v < 2 ^ 128 → tail (uint v) ≡ v
unfolding tail uint from_be scale
tail-uint v low = from_be-be_bytes 16 0 v [] low ∙ omega arith

pub as_u128_low : (a : ℤ) → IsI128 a → as_u128 a < 2 ^ 128
unfolding as_u128
as_u128_low (pos n) p = omega (arith, p.0)
as_u128_low (negsuc n) p = omega arith

pub as_i128-as_u128 : (a : ℤ) → IsI128 a → as_i128 (as_u128 a) ≡ a
unfolding as_u128 as_i128
as_i128-as_u128 (pos n) p = ground arith
as_i128-as_u128 (negsuc n) p = ground arith

pub bit_back : (b : Bool) → not (tail (uint (bit b)) == 0) ≡ b
unfolding bit
bit_back true = rw (tail-uint 1 (omega arith)) refl
bit_back false = rw (tail-uint 0 (omega arith)) refl

pub words-++ : (a b : List Bytes) (r : Bytes) → words a ++ (words b ++ r) ≡ words (a ++ b) ++ r
unfolding words
words-++ [] b r = refl
words-++ (w ∷ a) b r =
    ++-assoc w (words a) (words b ++ r)
    ∙ ap (λ l. w ++ l) (words-++ a b r)
    ∙ sym (++-assoc w (words (a ++ b)) r)

pub drop-words :
    (ws : List Bytes) (rest : Bytes) → Words32 ws → drop (32 * length ws) (words ws ++ rest) ≡ rest
unfolding words
drop-words [] rest p = refl
drop-words (w ∷ ws) rest (more _ _ p q) =
    let at : 32 * suc (length ws) ≡ 32 + 32 * length ws = omega arith in
    rw (++-assoc w (words ws) rest, at)
      (drop_word w (words ws ++ rest) (32 * length ws) p ∙ drop-words ws rest q)
