-- ===== src/Prelude/Words.antt =====
-- Machine integers with `overflow-checks = true` (Cargo.toml): an operation whose result leaves
-- the type traps. `i128` is an integer, the unsigned types are natural numbers.
use stellar_rfq.Prelude.{ℕ, ◌+◌, ◌-◌, ◌≤◌, ◌≡◌, refl, false, ◌&&◌, arith, leb, if◌then◌else◌}
use stellar_rfq.Prelude.Int.{ℤ, pos, negsuc, pos_part, neg_part, ◌+ℤ◌, ◌-ℤ◌, ◌*ℤ◌, ltb_ℤ}
use stellar_rfq.Prelude.Result.{Result, ok, trap}

-- `i128::MAX`; the least value is -i128_max - 1.
abbrev pub i128_max : ℕ
i128_max = 170141183460469231731687303715884105727

abbrev pub u64_max : ℕ
u64_max = 18446744073709551615

abbrev pub u32_max : ℕ
u32_max = 4294967295

abbrev pub IsI128 : ℤ → Type 0
IsI128 a = (pos_part a ≤ i128_max) × (neg_part a ≤ i128_max + 1)

module _ {E : Type 0} where
  unfoldable pub i128 : ℤ → Result E ℤ
  i128 a = if leb (pos_part a) i128_max && leb (neg_part a) (i128_max + 1) then ok a else trap

  pub i128_ok : (a : ℤ) {r : ℤ} → i128 a ≡ ok r → (r ≡ a) × IsI128 a
  unfolding i128
  i128_ok a h = ground arith

  pub i128-IsI128 : (a : ℤ) → IsI128 a → i128 a ≡ ok a
  unfolding i128
  i128-IsI128 a h = ground arith

  -- A value that an unsigned type with the greatest value `m` holds.
  unfoldable pub uint : ℕ → ℕ → Result E ℕ
  uint m a = if leb a m then ok a else trap

  pub uint_ok : (m a : ℕ) {r : ℕ} → uint m a ≡ ok r → (r ≡ a) × (a ≤ m)
  unfolding uint
  uint_ok m a h = ground arith

  -- `a - b` in an unsigned type.
  unfoldable pub sub_uint : ℕ → ℕ → Result E ℕ
  sub_uint a b = if leb b a then ok (a - b) else trap

  pub sub_uint_ok : (a b : ℕ) {r : ℕ} → sub_uint a b ≡ ok r → (r + b ≡ a) × (b ≤ a)
  unfolding sub_uint
  sub_uint_ok a b h = ground arith

abbrev pub add_i128 : {E : Type 0} → ℤ → ℤ → Result E ℤ
add_i128 a b = i128 (a +ℤ b)

abbrev pub sub_i128 : {E : Type 0} → ℤ → ℤ → Result E ℤ
sub_i128 a b = i128 (a -ℤ b)

abbrev pub mul_i128 : {E : Type 0} → ℤ → ℤ → Result E ℤ
mul_i128 a b = i128 (a *ℤ b)

abbrev pub max_ℤ : ℤ → ℤ → ℤ
max_ℤ a b = if ltb_ℤ a b then b else a

abbrev pub min_ℤ : ℤ → ℤ → ℤ
min_ℤ a b = if ltb_ℤ b a then b else a

-- An integer that is not negative is the number of its positive part.
pub pos-pos_part : (a : ℤ) → ltb_ℤ a (pos 0) ≡ false → a ≡ pos (pos_part a)
pos-pos_part (pos n) h = refl
pos-pos_part (negsuc n) h = absurd (ground arith)
