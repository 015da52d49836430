-- ===== src/Math/Rounding.antt =====
-- How the roundings of crates/common/src/math.rs add up and compare.
use stellar_rfq.Prelude.{ℕ, ◌+◌, ◌*◌, ◌≤◌, ◌<◌, ◌≡◌, subst, arith}
use stellar_rfq.Prelude.Int.{ℤ, pos_part, ◌+ℤ◌, ◌≤ℤ◌, +ℤ_parts}
use stellar_rfq.Math.Bounds.{RoundsDown, RoundsUp}

cancel_lt : (p q d : ℕ) → p * d < q * d + d → p ≤ q
cancel_lt p q d h = grind arith

split_down :
    (a a' b d q q' w : ℕ) → q * d ≤ a * b → q' * d ≤ a' * b → (a + a') * b < w * d + d → q + q' ≤ w
split_down a a' b d q q' w h h' h'' = cancel_lt (q + q') w d (omega (arith, h, h', h''))

split_above : (a b c d w : ℕ) → a ≤ c → c * b < w * d + d → a * b < w * d + d
split_above a b c d w h k = grind arith

split_up :
    (a a' b d q q' w : ℕ) → b * a ≤ q * d → b * a' ≤ q' * d → w * d < b * (a + a') + d → w ≤ q + q'
split_up a a' b d q q' w h h' h'' = cancel_lt w (q + q') d (omega (arith, h, h', h''))

-- Rounded down, more of either factor never gives less.
pub RoundsDown_mono :
    (a b a' b' d : ℤ) {q q' : ℤ}
    → RoundsDown a b d q
    → RoundsDown a' b' d q'
    → a ≤ℤ a'
    → b ≤ℤ b'
    → q ≤ℤ q'
RoundsDown_mono a b a' b' d {q} {q'} r r' p p' = grind (arith, cancel_lt)

-- Two parts rounded down are together no more than a whole that holds them, rounded down.
pub RoundsDown_split :
    (a a' b c d : ℤ) {q q' whole : ℤ}
    → RoundsDown a b d q
    → RoundsDown a' b d q'
    → RoundsDown c b d whole
    → a +ℤ a' ≤ℤ c
    → q +ℤ q' ≤ℤ whole
RoundsDown_split a a' b c d {q} {q'} {whole} r r' r'' fits =
    let total : pos_part a + pos_part a' ≤ pos_part c =
      omega (arith, +ℤ_parts a a', r.a_nonneg, r'.a_nonneg, r''.a_nonneg) in
    let above =
      split_above (pos_part a + pos_part a') (pos_part b) (pos_part c) (pos_part d) (pos_part whole)
        total r''.above in
    let sum =
      split_down (pos_part a) (pos_part a') (pos_part b) (pos_part d) (pos_part q) (pos_part q')
        (pos_part whole) r.below r'.below above in
    omega (arith, sum, +ℤ_parts q q', r.q_nonneg, r'.q_nonneg, r''.q_nonneg)

-- Two parts rounded up are together no less than the whole rounded up.
pub RoundsUp_split :
    (a a' b d : ℤ) {q q' whole : ℤ}
    → RoundsUp b a d q
    → RoundsUp b a' d q'
    → RoundsUp b (a +ℤ a') d whole
    → whole ≤ℤ q +ℤ q'
RoundsUp_split a a' b d {q} {q'} {whole} r r' r'' =
    let total : pos_part (a +ℤ a') ≡ pos_part a + pos_part a' =
      omega (arith, +ℤ_parts a a', r.b_nonneg, r'.b_nonneg, r''.b_nonneg) in
    let above =
      subst (λ n. pos_part whole * pos_part d < pos_part b * n + pos_part d) total r''.above in
    let sum =
      split_up (pos_part a) (pos_part a') (pos_part b) (pos_part d) (pos_part q) (pos_part q')
        (pos_part whole) r.below r'.below above in
    omega (arith, sum, +ℤ_parts q q', r.q_nonneg, r'.q_nonneg, r''.q_nonneg)

-- A share of at most the whole is at most it.
pub RoundsDown-le : (a b d : ℤ) {q : ℤ} → RoundsDown a b d q → b ≤ℤ d → q ≤ℤ a
RoundsDown-le a b d {q} r p = grind (arith, cancel_lt)
