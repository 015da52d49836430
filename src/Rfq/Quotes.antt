-- ===== src/Rfq/Quotes.antt =====
-- contracts/rfq/src/lib.rs: the price that `quote` puts on a fill, and the caps that bind it.
use stellar_rfq.Prelude.{ℕ, ◌*◌, ◌≤◌, ◌<◌, ◌≡◌, false, ◌||◌, ltb, arith, subst, ap, sym, ◌∙◌}
use stellar_rfq.Prelude.Int.{
  ℤ, pos, pos_part, neg_part, ◌+ℤ◌, ◌≤ℤ◌, leb_ℤ, +ℤ_parts, int_laws, eq_of_parts,
}
use stellar_rfq.Prelude.Result.{ok, bind_then, fail_if, fail_if_ok, ok_injective}
use stellar_rfq.Prelude.Words.{sub_i128, i128, i128_ok}
use stellar_rfq.Math.{one, bps, denom}
use stellar_rfq.Math.Bounds.{RoundsDown}
use stellar_rfq.Math.Rounding.{RoundsDown_mono, RoundsDown_split}
use stellar_rfq.Host.{Host}
use stellar_rfq.Orders.{RfqOrder}
use stellar_rfq.Rfq.Types.{Error, Quote, bps_per_day_too_high, discount_too_large}
use stellar_rfq.Rfq.Storage.{Storage}
use stellar_rfq.Rfq.Price.{mul_div, horizon, price_of}
use stellar_rfq.Rfq.Orders.{quote}
use stellar_rfq.Rfq.Guards.{mul_div_ok}
use stellar_rfq.Rfq.Measured.{sub_ok}

under_caps :
    (cap limit rate : ℕ) → (ltb cap rate || ltb limit rate) ≡ false → (rate ≤ cap) × (rate ≤ limit)
under_caps cap limit rate e = ground arith

swap_sum : (left : ℤ) (n : ℕ) → denom ≡ pos n +ℤ left → left +ℤ pos n ≡ denom
swap_sum left n e = rw e (omega int_laws)

positive :
    (left : ℤ) (n : ℕ)
    → n < pos_part denom
    → pos_part denom ≡ pos_part (pos n +ℤ left)
    → neg_part denom ≡ neg_part (pos n +ℤ left)
    → 0 < pos_part left
positive left n h p q = omega (arith, +ℤ_parts (pos n) left)

left_lem :
    (n : ℕ) (discount left : ℤ)
    → discount ≡ pos n
    → leb_ℤ denom discount ≡ false
    → denom ≡ discount +ℤ left
    → (left +ℤ pos n ≡ denom) × (0 < pos_part left)
left_lem n discount left e below parts =
    let under : n < pos_part denom = ground arith in
    let sum = rw e at parts in
    (swap_sum left n sum, positive left n under (ap pos_part sum) (ap neg_part sum))

less_summand :
    (a b : ℤ) (m n : ℕ)
    → m ≤ n
    → pos_part (a +ℤ pos m) ≡ pos_part (b +ℤ pos n)
    → neg_part (a +ℤ pos m) ≡ neg_part (b +ℤ pos n)
    → b ≤ℤ a
less_summand a b m n h p q = omega (arith, +ℤ_parts a (pos m), +ℤ_parts b (pos n))

same_summand :
    (a b : ℤ) (n : ℕ)
    → pos_part (a +ℤ pos n) ≡ pos_part (b +ℤ pos n)
    → neg_part (a +ℤ pos n) ≡ neg_part (b +ℤ pos n)
    → a ≡ b
same_summand a b n p q = eq_of_parts a b (omega (arith, +ℤ_parts a (pos n), +ℤ_parts b (pos n)))

equal_of_sums : (a b : ℤ) (n : ℕ) → a +ℤ pos n ≡ denom → b +ℤ pos n ≡ denom → a ≡ b
equal_of_sums a b n p q =
    let sums = p ∙ sym q in same_summand a b n (ap pos_part sums) (ap neg_part sums)

discounts_mono : (a b m n : ℕ) → a ≤ b → m ≡ n → a * m ≤ b * n
discounts_mono a b m n p q = grind arith

less_left : (a b : ℤ) (m n : ℕ) → a +ℤ pos m ≡ denom → b +ℤ pos n ≡ denom → m ≤ n → b ≤ℤ a
less_left a b m n p q h =
    let sums = p ∙ sym q in less_summand a b m n h (ap pos_part sums) (ap neg_part sums)

module _ {T : Type 0} (h : Host T) where
  -- What a quote rests on: the rate is within both ceilings, the discount within the whole, and
  -- the amount is the value at the price less the discount, each step rounded down.
  pub record Quoted (s : Storage) (x : T) (o : RfqOrder) (amount : ℤ) (q : Quote) : Type 0 where
    pub rate_cap : ℕ
    pub horizon_is : horizon h s o.taker_token o.maker_token ≡ ok (q.horizon_seconds, rate_cap)
    pub within_schedule : o.maker_bps_per_day ≤ rate_cap
    pub within_taker : o.maker_bps_per_day ≤ o.taker_max_bps_per_day
    pub price : ℤ
    pub price_is : price_of h s x o.taker_token o.maker_token ≡ ok price
    pub value : ℤ
    pub value_is : RoundsDown amount price one value
    pub left : ℤ
    pub left_is : left +ℤ pos (o.maker_bps_per_day * q.horizon_seconds) ≡ denom
    pub left_pos : 0 < pos_part left
    pub amount_is : RoundsDown value left denom q.maker_amount
    pub fee_is : RoundsDown q.maker_amount (pos o.fee_bps) bps q.fee

  pub quote-Quoted :
      (s : Storage) (x : T) (o : RfqOrder) (amount : ℤ) {q : Quote}
      → quote h s x o amount ≡ ok q
      → Quoted s x o amount q
  unfolding quote
  quote-Quoted s x o amount e = bind_then (horizon h s o.taker_token o.maker_token) _ e λ t e1 r1.
      bind_then
        (fail_if (ltb t.1 o.maker_bps_per_day || ltb o.taker_max_bps_per_day o.maker_bps_per_day)
          bps_per_day_too_high)
        _ r1
        λ _ e2 r2. bind_then (i128 (pos (o.maker_bps_per_day * t.0))) _ r2 λ discount e3 r3.
          bind_then (fail_if (leb_ℤ denom discount) discount_too_large) _ r3 λ _ e4 r4.
            bind_then (price_of h s x o.taker_token o.maker_token) _ r4 λ rate e5 r5.
              bind_then (mul_div amount rate one) _ r5 λ gross e6 r6.
                bind_then (sub_i128 denom discount) _ r6 λ left e7 r7.
                  bind_then (mul_div gross left denom) _ r7 λ maker_amount e8 r8.
                    bind_then (mul_div maker_amount (pos o.fee_bps) bps) _ r8 λ fee e9 r9.
                      let capped =
                        fail_if_ok
                          (ltb t.1 o.maker_bps_per_day
                            || ltb o.taker_max_bps_per_day o.maker_bps_per_day)
                          bps_per_day_too_high e2 in
                      let (left_is, left_pos) =
                        left_lem (o.maker_bps_per_day * t.0) discount left
                          (i128_ok {E = Error} (pos (o.maker_bps_per_day * t.0)) e3).0
                          (fail_if_ok (leb_ℤ denom discount) discount_too_large e4)
                          (sub_ok denom discount e7) in
                      subst (Quoted s x o amount) (ok_injective r9) (record {
                        rate_cap = t.1;
                        horizon_is = e1;
                        within_schedule = (under_caps _ _ _ capped).0;
                        within_taker = (under_caps _ _ _ capped).1;
                        price = rate;
                        price_is = e5;
                        value = gross;
                        value_is = mul_div_ok amount rate one e6;
                        left = left;
                        left_is = left_is;
                        left_pos = left_pos;
                        amount_is = mul_div_ok gross left denom e8;
                        fee_is = mul_div_ok maker_amount (pos o.fee_bps) bps e9;
                      })

  -- Two quotes of one pair in one state share the price and the horizon.
  same_price :
      (s : Storage) (x : T) (o : RfqOrder) (rate : ℕ) (a b : ℤ) {p q : Quote} (t : Quoted s x o a p)
      (t' : Quoted s x (record o { maker_bps_per_day = rate }) b q)
      → (t.price ≡ t'.price) × (p.horizon_seconds ≡ q.horizon_seconds)
  same_price s x o rate a b t t' = (
    ok_injective (sym t.price_is ∙ t'.price_is),
    ap (λ (n : ℕ × ℕ). n.0) (ok_injective (sym t.horizon_is ∙ t'.horizon_is)),
  )

  same_left :
      (s : Storage) (x : T) (o : RfqOrder) (a b : ℤ) {p q : Quote} (t : Quoted s x o a p)
      (t' : Quoted s x o b q)
      → p.horizon_seconds ≡ q.horizon_seconds
      → t.left ≡ t'.left
  same_left s x o a b {p} {q} t t' same =
      equal_of_sums t.left t'.left (o.maker_bps_per_day * p.horizon_seconds) t.left_is
        (subst (λ n. t'.left +ℤ pos (o.maker_bps_per_day * n) ≡ denom) (sym same) t'.left_is)

  -- A bid at a higher rate, in the same state and when both quotes succeed, is never quoted more of
  -- the maker's tokens.
  pub quote_antitone :
      (s : Storage) (x : T) (o : RfqOrder) (rate : ℕ) (amount : ℤ) {q q' : Quote}
      → quote h s x o amount ≡ ok q
      → quote h s x (record o { maker_bps_per_day = rate }) amount ≡ ok q'
      → o.maker_bps_per_day ≤ rate
      → q'.maker_amount ≤ℤ q.maker_amount
  quote_antitone s x o rate amount {q} {q'} e e' more =
      let t = quote-Quoted s x o amount e in
      let t' = quote-Quoted s x (record o { maker_bps_per_day = rate }) amount e' in
      let (price, seconds) = same_price s x o rate amount amount t t' in
      let steeper =
        discounts_mono o.maker_bps_per_day rate q.horizon_seconds q'.horizon_seconds more seconds in
      RoundsDown_mono t'.value t'.left t.value t.left denom t'.amount_is t.amount_is
        (RoundsDown_mono amount t'.price amount t.price one t'.value_is t.value_is (omega arith)
          (subst (λ z. t'.price ≤ℤ z) (sym price) (omega arith)))
        (less_left t.left t'.left _ _ t.left_is t'.left_is steeper)

  -- Splitting a fill never costs the maker more: in the same state, and when all three quotes
  -- succeed, the amounts quoted for two parts are together at most the amount quoted for the whole.
  pub quote_split :
      (s : Storage) (x : T) (o : RfqOrder) (a b : ℤ) {p q whole : Quote}
      → quote h s x o a ≡ ok p
      → quote h s x o b ≡ ok q
      → quote h s x o (a +ℤ b) ≡ ok whole
      → p.maker_amount +ℤ q.maker_amount ≤ℤ whole.maker_amount
  quote_split s x o a b {p} {q} {whole} e e' e'' =
      let t = quote-Quoted s x o a e in
      let t' = quote-Quoted s x o b e' in
      let t'' = quote-Quoted s x o (a +ℤ b) e'' in
      let (price, seconds) = same_price s x o o.maker_bps_per_day (a +ℤ b) a t'' t in
      let (price', seconds') = same_price s x o o.maker_bps_per_day (a +ℤ b) b t'' t' in
      let left = same_left s x o (a +ℤ b) a t'' t seconds in
      let left' = same_left s x o (a +ℤ b) b t'' t' seconds' in
      let values =
        RoundsDown_split a b t''.price (a +ℤ b) one
          (subst (λ z. RoundsDown a z one t.value) (sym price) t.value_is)
          (subst (λ z. RoundsDown b z one t'.value) (sym price') t'.value_is) t''.value_is
          (omega arith) in
      RoundsDown_split t.value t'.value t''.left t''.value denom
        (subst (λ z. RoundsDown t.value z denom p.maker_amount) (sym left) t.amount_is)
        (subst (λ z. RoundsDown t'.value z denom q.maker_amount) (sym left') t'.amount_is)
        t''.amount_is values
