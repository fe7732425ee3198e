-- ===== src/Tests/Marketplace/Overlap.antt =====
-- Two orders of one user that overlap.
use service_oriented_hw.Common.{arith, ℕ, ◌+◌, ◌≡◌, refl, none, some, [], ◌++◌, count_if}
use service_oriented_hw.Common.Int.{pos, ◌≤ℤ◌}
use service_oriented_hw.Marketplace.Domain.{Uuid, Order}
use service_oriented_hw.Marketplace.Session.{Db, Session, ok, err, Result}
use service_oriented_hw.Marketplace.Orders.Second.{active_orders}
use service_oriented_hw.Marketplace.Supply.{stock_in, supply, IsConsistent}
use service_oriented_hw.Marketplace.Usage.{uses_in, max_in, holds}
use service_oriented_hw.Marketplace.Overlap.{
  create_guards, create_rest, Pending, State, settle, Reach, here, next, pass, settles,
}
use service_oriented_hw.Marketplace.Overlap.Stock.{Reach-supply}
use service_oriented_hw.Marketplace.Overlap.Promos.{Reach-uses}
use service_oriented_hw.Marketplace.Overlap.Stocked.{Reach-not_oversold}
use service_oriented_hw.Marketplace.Overlap.Twice.{overlapping_creates, Passes, Succeeds, idle_at}
use service_oriented_hw.Tests.Marketplace.{
  order_code, first_order, four_teas, two_teas, shop, calm, thousandths,
}
use service_oriented_hw.Tests.Marketplace.Reached.{shop-IsCounted}

overlap_code : Unit {0}
unfolding order_code create_guards create_rest settle
overlap_code = tt

abbrev one_order : Pending
one_order = record { user_id = 60; reqs = four_teas; code = some "SPRING"; env = calm; calls = 3 }

-- The database draws other ids for the other call.
abbrev other_order : Pending
other_order = record {
  user_id = 60;
  reqs = two_teas;
  code = none;
  env = record calm { new_uuid = λ n. 200 + n };
  calls = 3;
}

abbrev result : Pending → Db ℕ → Result (Order ℕ) × Session ℕ
result c d = create_rest c.user_id c.reqs c.code c.env (record { db = d; calls = c.calls })

abbrev made : Result (Order ℕ) × Session ℕ → Order ℕ
made (ok o, s) = o
made (err e, s) = first_order

abbrev after_one : Db ℕ
after_one = (result one_order shop).1.db

abbrev after_both : Db ℕ
after_both = (result other_order after_one).1.db

one_order-Passes : Passes (pos 1) one_order shop
unfolding overlap_code
one_order-Passes = record {
  validated = (omega arith, tt);
  first_call = 0;
  left = record { db = shop; calls = 3 };
  runs = refl;
  same_calls = refl;
}

other_order-Passes : Passes (pos 1) other_order shop
unfolding overlap_code
other_order-Passes = record {
  validated = (omega arith, tt);
  first_call = 0;
  left = record { db = shop; calls = 3 };
  runs = refl;
  same_calls = refl;
}

one_order-Succeeds : Succeeds one_order shop after_one
unfolding overlap_code
one_order-Succeeds = record {
  order = made (result one_order shop);
  calls = (result one_order shop).1.calls;
  runs = refl;
  committed = refl;
}

other_order-Succeeds : Succeeds other_order after_one after_both
unfolding overlap_code
other_order-Succeeds = record {
  order = made (result other_order after_one);
  calls = (result other_order after_one).1.calls;
  runs = refl;
  committed = refl;
}

overlapping_creates_example :
    Reach (pos 1) (idle_at shop) (idle_at after_both) × (active_orders 60 after_both ≡ 2)
overlapping_creates_example =
    overlapping_creates (pos 1) one_order other_order shop after_one after_both refl
      one_order-Passes other_order-Passes one_order-Succeeds other_order-Succeeds

abbrev ended : State ℕ
ended = record { db = settle one_order shop; waiting = [] ++ [] }

one_reached : Reach (pos 1) (idle_at shop) ended
unfolding overlap_code
one_reached =
    next
      (next here
        (pass one_order 0 {s = record { db = shop; calls = 3 }} (omega arith, tt) refl refl))
      (settles [] [] one_order refl)

Reach-supply_example : IsConsistent ended.db × (supply 1 ended.db ≡ supply 1 shop)
Reach-supply_example = Reach-supply (pos 1) (idle_at shop) ended 1 tt one_reached

Reach-uses_example :
    (uses_in 7 ended.db.promo_codes ≡ pos (count_if (holds 7) ended.db.orders))
    × (uses_in 7 ended.db.promo_codes ≤ℤ max_in 7 ended.db.promo_codes)
Reach-uses_example =
    Reach-uses (pos 1) (idle_at shop) ended (λ user_id. 1) 7 shop-IsCounted one_reached

shop_stock : (q : Uuid) → pos 0 ≤ℤ stock_in q shop.products
shop_stock q = ground arith

Reach-not_oversold_example : pos 0 ≤ℤ stock_in 1 ended.db.products
Reach-not_oversold_example = Reach-not_oversold (pos 1) shop ended 1 tt shop_stock tt one_reached
