-- ===== src/Rfq/LifeTests.antt =====
-- Runs of listings and settings, and the theorems about them at work in a small world.
use stellar_rfq.Prelude.{ℕ, ◌+◌, ◌<◌, ◌≡◌, ◌≢◌, refl, none, some, arith, ◌≤◌, true}
use stellar_rfq.Prelude.Int.{pos, ◌+ℤ◌, ◌-ℤ◌, ◌≤ℤ◌}
use stellar_rfq.Prelude.Result.{ok}
use stellar_rfq.Prelude.Words.{i128, uint, sub_uint}
use stellar_rfq.Math
use stellar_rfq.Orders.{FillResult}
use stellar_rfq.Rfq.Types.{Listing}
use stellar_rfq.Rfq.Price.{mul_div}
use stellar_rfq.Rfq.Checks.{check_fee}
use stellar_rfq.Rfq.Tokens.{deliver, pay, pay_part}
use stellar_rfq.Rfq.Orders.{fill_rfq_order}
use stellar_rfq.Rfq.Listings.{
  create_dutch_order, fill_dutch_order, cancel_dutch_order, check_listing, rescale, active_listing,
  ask,
}
use stellar_rfq.Rfq.Admin.{cancel_salt}
use stellar_rfq.Rfq.Storage.{World, take_id, set_listing, set_salt_cancelled}
use stellar_rfq.Rfq.Dutch.{IsSound, ask_bounds, ask_antitone}
use stellar_rfq.Rfq.Sales.{Sold, closed, fill_dutch_order-Sold, cancel_dutch_order_lem}
use stellar_rfq.Rfq.Creation.{Listed, create_dutch_order-Listed}
use stellar_rfq.Rfq.Steps.{IsValid, Grows, Reach, here, next, sells, lists}
use stellar_rfq.Rfq.Lifetime.{Reach-IsValid, OffMarket, sold_once, cancelled_for_good}
use stellar_rfq.Rfq.Example.{
  Balances, host, host_at, store, world, order, dutch, by_maker, maker, taker, result_of, no_fill,
}

store-IsValid : IsValid store
store-IsValid = record { fees = λ c e. ground arith; unlisted = λ id h. refl }

abbrev listed : ℕ × World Balances
listed = result_of (create_dutch_order host world maker dutch) (0, world)

create_run : create_dutch_order host world maker dutch ≡ ok (listed.0, listed.1)
unfolding create_dutch_order check_listing deliver rescale take_id uint i128 ◌+ℤ◌ ◌-ℤ◌
create_run = refl

abbrev listing : Listing
listing = record {
  order = dutch;
  seller = maker;
  created_at = 1_000;
  decay_seconds = 600;
  active = true;
}

listed_as : listed.0 ≡ 1
unfolding create_dutch_order check_listing deliver rescale take_id uint i128 ◌+ℤ◌ ◌-ℤ◌
listed_as = refl

-- Half of the window later the ask has fallen by half of the gap.
ask_run : ask (host_at 1_300) listing ≡ ok (pos 515_000)
unfolding ask sub_uint i128 ◌-ℤ◌ mul_div Math.mul_div
ask_run = refl

ask_at_start : ask host listing ≡ ok (pos 530_000)
unfolding ask sub_uint i128 ◌-ℤ◌ mul_div Math.mul_div
ask_at_start = refl

abbrev sold : FillResult × World Balances
sold = result_of (fill_dutch_order (host_at 1_300) listed.1 1 taker (pos 520_000)) (no_fill, world)

sold_run : fill_dutch_order (host_at 1_300) listed.1 1 taker (pos 520_000) ≡ ok (sold.0, sold.1)
unfolding fill_dutch_order active_listing check_fee ask sub_uint i128 ◌-ℤ◌ ◌+ℤ◌ mul_div Math.mul_div
    pay pay_part create_dutch_order check_listing deliver rescale take_id uint set_listing
sold_run = refl

abbrev returned : World Balances
returned = result_of (cancel_dutch_order (host_at 1_300) listed.1 1) world

returned_run : cancel_dutch_order (host_at 1_300) listed.1 1 ≡ ok returned
unfolding cancel_dutch_order active_listing create_dutch_order check_listing deliver rescale take_id
    uint i128 ◌+ℤ◌ ◌-ℤ◌ set_listing
returned_run = refl

create_dutch_order-Listed_example : Listed host world listed.1 maker dutch listed.0
create_dutch_order-Listed_example =
    create_dutch_order-Listed host world maker dutch {id = listed.0} {w' = listed.1} create_run

fill_dutch_order-Sold_example : Sold (host_at 1_300) listed.1 sold.1 1 taker (pos 520_000) sold.0
fill_dutch_order-Sold_example =
    fill_dutch_order-Sold (host_at 1_300) listed.1 1 taker (pos 520_000) {res = sold.0}
      {w' = sold.1} sold_run

cancel_dutch_order_lem_example :
    (l : Listing) × ((listed.1).store.listing 1 ≡ some l)
    × (l.active ≡ true)
    × ((host_at 1_300).authorised l.seller ≡ true)
    × ((host_at 1_300).transfer (listed.1).ext l.order.taker_token 1 l.seller l.order.taker_amount
        ≡ some returned.ext)
    × (returned.store ≡ set_listing (listed.1).store 1 (closed l))
cancel_dutch_order_lem_example =
    cancel_dutch_order_lem (host_at 1_300) listed.1 1 {w' = returned} returned_run

dutch-IsSound : IsSound dutch
dutch-IsSound = record {
  amount_pos = omega arith;
  floor_pos = omega arith;
  floor-le-start = omega arith;
}

ask_bounds_example :
    (pos 500_000 ≤ℤ pos 515_000)
    × (pos 515_000 ≤ℤ pos 530_000)
    × (0 < listing.decay_seconds
        → (host_at 1_300).timestamp ≡ listing.created_at
        → pos 515_000 ≡ pos 530_000)
    × (listing.created_at + listing.decay_seconds ≤ (host_at 1_300).timestamp
        → pos 515_000 ≡ pos 500_000)
ask_bounds_example = ask_bounds (host_at 1_300) listing {a = pos 515_000} dutch-IsSound ask_run

ask_antitone_example : pos 515_000 ≤ℤ pos 530_000
ask_antitone_example =
    ask_antitone host (host_at 1_300) listing {a = pos 530_000} {a' = pos 515_000} dutch-IsSound
      (omega arith) ask_at_start ask_run

abbrev lists_and_sells : Reach world sold.1
lists_and_sells =
    next (next here (lists host maker dutch listed.0 create_run))
      (sells (host_at 1_300) 1 taker (pos 520_000) sold.0 sold_run)

Reach-IsValid_example : IsValid (sold.1).store × Grows store (sold.1).store
Reach-IsValid_example = Reach-IsValid world sold.1 lists_and_sells store-IsValid

listed-IsValid : IsValid (listed.1).store
listed-IsValid =
    (Reach-IsValid world listed.1 (next here (lists host maker dutch listed.0 create_run))
      store-IsValid).0

sold_once_example : OffMarket (host_at 1_400) sold.1 1
sold_once_example =
    sold_once (host_at 1_300) listed.1 sold.1 sold.1 1 taker (pos 520_000) sold.0 listed-IsValid
      sold_run here (host_at 1_400)

-- The maker cancels the salt of its order.
abbrev without_salt : World Balances
without_salt = record { store = set_salt_cancelled store maker 7; ext = world.ext }

cancel_run : cancel_salt host store maker maker 7 ≡ ok without_salt.store
unfolding cancel_salt set_salt_cancelled
cancel_run = refl

without_salt-IsValid : IsValid without_salt.store
unfolding set_salt_cancelled
without_salt-IsValid = record { fees = λ c e. ground arith; unlisted = λ id h. refl }

cancelled_for_good_example :
    fill_rfq_order host without_salt order by_maker none taker (pos 400_000) ≢ ok (no_fill, world)
cancelled_for_good_example =
    cancelled_for_good host store without_salt without_salt maker maker 7 without_salt-IsValid
      cancel_run here host order by_maker none taker (pos 400_000) (no_fill, world) refl refl
