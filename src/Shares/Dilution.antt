-- ===== src/Shares/Dilution.antt =====
-- crates/shares/src/lib.rs: the arithmetic of the performance fee, on the naturals.
use stellar_rfq.Prelude.{ℕ, ◌+◌, ◌*◌, ◌≤◌, ◌<◌, ◌≡◌, arith}

worth_left :
    (mark above s gain u n fee : ℕ)
    → (mark + above) * s ≤ n * u
    → gain * u ≤ above * s
    → fee ≤ gain
    → mark * s + fee * u ≤ n * u
worth_left mark above s gain u n fee p q r = grind arith

dilution : (s f r fee n : ℕ) → f * r ≤ fee * s → n ≡ r + fee → (s + f) * r ≤ s * n
dilution s f r fee n p q = grind arith

shrink : (a b r : ℕ) → 0 < r → a * r ≤ b * r → a ≤ b
shrink a b r p q = grind arith

mono : (c a b : ℕ) → a ≤ b → c * a ≤ c * b
mono c a b p = grind arith

step_up :
    (mark s f r n u : ℕ) → (s + f) * r ≤ s * n → mark * s ≤ r * u → mark * (s + f) * r ≤ u * n * r
step_up mark s f r n u p q =
    let up = mono mark ((s + f) * r) (s * n) p in
    let on = mono n (mark * s) (r * u) q in grind (arith, up, on)

-- On the naturals: diluting by the fee's shares leaves the price at or above the mark.
pub keeps_mark :
    (mark above s gain u n fee f r post : ℕ)
    → (mark + above) * s ≤ n * u
    → gain * u ≤ above * s
    → fee ≤ gain
    → f * r ≤ fee * s
    → n ≡ r + fee
    → 0 < r
    → n * u < post * (s + f) + (s + f)
    → mark ≤ post
keeps_mark mark above s gain u n fee f r post p q le d e pos_r top =
    let left = worth_left mark above s gain u n fee p q le in
    let whole : mark * s ≤ r * u = less_fee mark s fee u n r left e in
    let scaled = step_up mark s f r n u (dilution s f r fee n d e) whole in
    let under = shrink (mark * (s + f)) (u * n) r pos_r scaled in last mark post s f u n under top
  where
    less_fee : (mark s fee u n r : ℕ) → mark * s + fee * u ≤ n * u → n ≡ r + fee → mark * s ≤ r * u
    less_fee mark s fee u n r p e = grind arith

    last :
        (mark post s f u n : ℕ)
        → mark * (s + f) ≤ u * n
        → n * u < post * (s + f) + (s + f)
        → mark ≤ post
    last mark post s f u n p q = cancel mark post (s + f) (grind arith)
      where
        cancel : (a b d : ℕ) → a * d < b * d + d → a ≤ b
        cancel a b d h = grind arith
