-- ===== src/Rfq/Tests.antt =====
-- Runs of the settlement contract's fills, and the theorems about them at work in a small world.
use stellar_rfq.Prelude.{◌≡◌, refl, none, arith}
use stellar_rfq.Prelude.Int.{ℤ, pos, ◌+ℤ◌, ◌-ℤ◌, ◌≤ℤ◌}
use stellar_rfq.Prelude.Result.{ok}
use stellar_rfq.Prelude.Words.{i128, uint}
use stellar_rfq.Prelude.Maps.{bytes_beq}
use stellar_rfq.Math
use stellar_rfq.Math.{bps}
use stellar_rfq.Math.Bounds.{RoundsDown}
use stellar_rfq.Schedule
use stellar_rfq.Orders.{RfqOrder, FillResult, rfq_request, fixed_request}
use stellar_rfq.Rfq.Types.{Quote}
use stellar_rfq.Rfq.Hash
use stellar_rfq.Rfq.Price.{horizon, price_of, mul_div, mul_div_ceil}
use stellar_rfq.Rfq.Checks.{
  validate_common, check_terms, check_sender, check_salt, admit, take_fill, verify, check_floor,
}
use stellar_rfq.Rfq.Tokens.{deliver, pay, pay_part}
use stellar_rfq.Rfq.Orders.{fill_rfq_order, fill_fixed_order, quote}
use stellar_rfq.Rfq.Storage.{World, set_request_filled, set_filled}
use stellar_rfq.Rfq.Books.{Raises, RequestBooked}
use stellar_rfq.Rfq.Agreement.{Agreed, Exchanged}
use stellar_rfq.Rfq.Quotes.{Quoted, quote_antitone, quote_split}
use stellar_rfq.Rfq.Fill.{
  fill_rfq_order-Exchanged, fill_rfq_order_books, fill_rfq_order-Quoted, fill_fixed_order-settled,
}
use stellar_rfq.Rfq.Measured.{Pays}
use stellar_rfq.Rfq.Steps.{Reach, here, next, fills_rfq}
use stellar_rfq.Rfq.Totals.{total_filled, never_overfilled}
use stellar_rfq.Rfq.Example.{
  Balances, host, world, order, fixed, by_maker, maker, taker, result_of, no_fill,
}

abbrev filled : FillResult × World Balances
filled =
    result_of (fill_rfq_order host world order by_maker none taker (pos 400_000)) (no_fill, world)

fill_run :
    fill_rfq_order host world order by_maker none taker (pos 400_000) ≡ ok (filled.0, filled.1)
unfolding fill_rfq_order quote Hash.rfq_order validate_common check_terms rfq_request check_sender
    check_salt admit i128 ◌+ℤ◌ ◌-ℤ◌ take_fill set_request_filled set_filled verify bytes_beq deliver
    pay pay_part check_floor mul_div mul_div_ceil Hash.request Hash.sep53 Math.mul_div
    Math.mul_div_ceil horizon price_of Schedule.seconds_for uint
fill_run = refl

fill_value :
    filled.0 ≡ record { taker_filled = pos 400_000; maker_filled = pos 419_118; fee = pos 419 }
unfolding fill_rfq_order quote Hash.rfq_order validate_common check_terms rfq_request check_sender
    check_salt admit i128 ◌+ℤ◌ ◌-ℤ◌ take_fill set_request_filled set_filled verify bytes_beq deliver
    pay pay_part check_floor mul_div mul_div_ceil Hash.request Hash.sep53 Math.mul_div
    Math.mul_div_ceil horizon price_of Schedule.seconds_for uint
fill_value = refl

-- The rest of the order, filled later; then nothing is left of it.
abbrev rest : FillResult × World Balances
rest =
    result_of (fill_rfq_order host filled.1 order by_maker none taker (pos 600_000))
      (no_fill, world)

rest_run :
    fill_rfq_order host filled.1 order by_maker none taker (pos 600_000) ≡ ok (rest.0, rest.1)
unfolding fill_rfq_order quote Hash.rfq_order validate_common check_terms rfq_request check_sender
    check_salt admit i128 ◌+ℤ◌ ◌-ℤ◌ take_fill set_request_filled set_filled verify bytes_beq deliver
    pay pay_part check_floor mul_div mul_div_ceil Hash.request Hash.sep53 Math.mul_div
    Math.mul_div_ceil horizon price_of Schedule.seconds_for uint
rest_run = refl

abbrev settled : FillResult × World Balances
settled =
    result_of (fill_fixed_order host world fixed by_maker none taker (pos 250_000)) (no_fill, world)

settled-run :
    fill_fixed_order host world fixed by_maker none taker (pos 250_000) ≡ ok (settled.0, settled.1)
unfolding fill_fixed_order Hash.fixed_order validate_common check_terms fixed_request check_sender
    check_salt admit i128 ◌+ℤ◌ ◌-ℤ◌ take_fill set_request_filled set_filled verify bytes_beq deliver
    pay pay_part check_floor mul_div mul_div_ceil Hash.request Hash.sep53 Math.mul_div
    Math.mul_div_ceil
settled-run = refl

fill_rfq_order-Exchanged_example :
    Exchanged host world.ext (filled.1).ext (rfq_request order) maker taker (pos 400_000)
fill_rfq_order-Exchanged_example =
    fill_rfq_order-Exchanged host world by_maker none taker (pos 400_000) order {res = filled.0}
      {w' = filled.1} fill_run

fill_rfq_order_books_example :
    Raises world.store.filled
      (filled.1).store.filled
      (Hash.rfq_order host order)
      (pos 400_000)
      (pos 1_000_000)
    × RequestBooked world.store
        (filled.1).store
        (rfq_request order)
        (Hash.request host (rfq_request order))
        (pos 400_000)
fill_rfq_order_books_example =
    fill_rfq_order_books host world by_maker none taker (pos 400_000) order {res = filled.0}
      {w' = filled.1} fill_run

fill_rfq_order-Quoted_example :
    (m : Exchanged host world.ext (filled.1).ext (rfq_request order) maker taker (pos 400_000))
    × (q : Quote) × Quoted host (filled.1).store m.between order m.counted q
    × Pays host m.between
        (filled.1).ext
        order.maker_token
        maker
        m.taker
        order.fee_recipient
        q.maker_amount
        q.fee
    × (filled.0 ≡ record { taker_filled = pos 400_000; maker_filled = q.maker_amount; fee = q.fee })
    × (cap : ℤ) × RoundsDown (pos 1_060_000) (pos 400_000) (pos 1_000_000) cap
    × (q.maker_amount ≤ℤ cap)
fill_rfq_order-Quoted_example =
    fill_rfq_order-Quoted host world by_maker none taker (pos 400_000) order {res = filled.0}
      {w' = filled.1} fill_run

fill_fixed_order-settled_example :
    Agreed host world.store
      (fixed_request fixed)
      maker
      (Hash.fixed_order host fixed)
      none
      taker
      (pos 250_000)
    × Raises world.store.filled
        (settled.1).store.filled
        (Hash.fixed_order host fixed)
        (pos 250_000)
        (pos 1_000_000)
    × RequestBooked world.store
        (settled.1).store
        (fixed_request fixed)
        (Hash.request host (fixed_request fixed))
        (pos 250_000)
    × (m : Exchanged host world.ext (settled.1).ext (fixed_request fixed) maker taker (pos 250_000))
    × RoundsDown (pos 1_045_000) m.counted (pos 1_000_000) (settled.0).maker_filled
    × RoundsDown (settled.0).maker_filled (pos 10) bps (settled.0).fee
    × Pays host m.between
        (settled.1).ext
        fixed.maker_token
        maker
        m.taker
        fixed.fee_recipient
        (settled.0).maker_filled
        (settled.0).fee
fill_fixed_order-settled_example =
    fill_fixed_order-settled host world by_maker none taker (pos 250_000) fixed {res = settled.0}
      {w' = settled.1} settled-run

abbrev one_fill : Reach world filled.1
one_fill = next here (fills_rfq host order by_maker none taker (pos 400_000) filled.0 fill_run)

never_overfilled_example :
    total_filled (Hash.rfq_order host order) one_fill +ℤ pos 600_000 ≤ℤ pos 1_000_000
never_overfilled_example =
    never_overfilled host world filled.1 one_fill order by_maker none taker (pos 600_000)
      {res = rest.0} {w' = rest.1} refl rest_run

abbrev quoted : RfqOrder → ℤ → Quote
quoted o amount =
    result_of (quote host world.store world.ext o amount)
      (record { maker_amount = pos 0; fee = pos 0; horizon_seconds = 0 })

quote_400 : quote host world.store world.ext order (pos 400_000) ≡ ok (quoted order (pos 400_000))
unfolding quote mul_div Math.mul_div i128 ◌+ℤ◌ ◌-ℤ◌ horizon price_of Schedule.seconds_for uint
quote_400 = refl

quote_600 : quote host world.store world.ext order (pos 600_000) ≡ ok (quoted order (pos 600_000))
unfolding quote mul_div Math.mul_div i128 ◌+ℤ◌ ◌-ℤ◌ horizon price_of Schedule.seconds_for uint
quote_600 = refl

quote_whole :
    quote host world.store world.ext order (pos 400_000 +ℤ pos 600_000)
    ≡ ok (quoted order (pos 400_000 +ℤ pos 600_000))
unfolding quote mul_div Math.mul_div i128 ◌+ℤ◌ ◌-ℤ◌ horizon price_of Schedule.seconds_for uint
quote_whole = refl

abbrev steeper : RfqOrder
steeper = record order { maker_bps_per_day = 400 }

steep_bid :
    quote host world.store world.ext steeper (pos 400_000) ≡ ok (quoted steeper (pos 400_000))
unfolding quote mul_div Math.mul_div i128 ◌+ℤ◌ ◌-ℤ◌ horizon price_of Schedule.seconds_for uint
steep_bid = refl

quote_antitone_example :
    (quoted steeper (pos 400_000)).maker_amount ≤ℤ (quoted order (pos 400_000)).maker_amount
quote_antitone_example =
    quote_antitone host world.store world.ext order 400 (pos 400_000)
      {q = quoted order (pos 400_000)} {q' = quoted steeper (pos 400_000)} quote_400 steep_bid
      (omega arith)

quote_split_example :
    (quoted order (pos 400_000)).maker_amount +ℤ (quoted order (pos 600_000)).maker_amount
    ≤ℤ (quoted order (pos 400_000 +ℤ pos 600_000)).maker_amount
quote_split_example =
    quote_split host world.store world.ext order (pos 400_000) (pos 600_000)
      {p = quoted order (pos 400_000)} {q = quoted order (pos 600_000)}
      {whole = quoted order (pos 400_000 +ℤ pos 600_000)} quote_400 quote_600 quote_whole
