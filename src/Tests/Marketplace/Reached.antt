-- ===== src/Tests/Marketplace/Reached.antt =====
-- The theorems on the counts of orders and promo codes, and on what requests reach, at concrete
-- inputs.
use service_oriented_hw.Common.{ℕ, ◌≡◌, refl, none, some, List, [], ◌∷◌, ◌++◌, length, arith}
use service_oriented_hw.Common.Int.{pos, ◌-ℤ◌, ◌<ℤ◌}
use service_oriented_hw.Marketplace.Repository.Tx.{at_once}
use service_oriented_hw.Marketplace.Domain.{order_limit_exceeded, Order, OrderItemRequest}
use service_oriented_hw.Marketplace.Session.{Db, Session, ok, err}
use service_oriented_hw.Marketplace.Orders.Usecase.{create, cancel}
use service_oriented_hw.Marketplace.Repository.Orders.{minutes}
use service_oriented_hw.Marketplace.Orders.RateLimit.{create_rate_limited}
use service_oriented_hw.Marketplace.Products.{create as create_a_product, create_row}
use service_oriented_hw.Marketplace.Supply.{IsConsistent}
use service_oriented_hw.Marketplace.Usage.{IsCounted}
use service_oriented_hw.Marketplace.System.{
  create_product, create_order, perform, Reach, here, next,
}
use service_oriented_hw.Marketplace.System.Reachable.{empty_db, Reach-IsSound}
use service_oriented_hw.Tests.Marketplace.{
  order_code, first, first_id, first_order, first_session, four_teas, two_teas, tea, shop, calm,
  opening, thousandths, buyer,
}

pub shop-IsCounted : IsCounted shop
shop-IsCounted = record {
  order_ids = tt;
  promo_ids = (refl, tt);
  uses = λ id. ground arith;
  within = λ id. ground arith;
  single = λ u. omega arith;
}

abbrev placed : Order ℕ
placed = elim first.0 [ ok o ↦ o | err e ↦ first_order ]

first_ok : first ≡ (ok placed, first_session)
unfolding order_code
first_ok = refl

-- The order is canceled, and a second one comes at the same time.
abbrev after_cancel : Session ℕ
after_cancel = (cancel first_id buyer calm first_session).1

log_grown : after_cancel.db.user_operations ≡ first_session.db.user_operations ++ []
unfolding order_code
log_grown = refl

soon : (pos 1_000_000_000_000 -ℤ minutes (pos 1)) <ℤ pos 1_000_000_000_000
unfolding order_code
soon = omega arith

create_rate_limited_example :
    ((create (pos 1) 60 two_teas none calm after_cancel).0 ≡ err order_limit_exceeded)
    × ((create (pos 1) 60 two_teas none calm after_cancel).1.db ≡ after_cancel.db)
create_rate_limited_example =
    create_rate_limited (pos 1) 60 four_teas two_teas (some "SPRING") none calm calm opening
      first_session after_cancel placed [] first_ok log_grown (λ n. refl) soon

-- Tables that are empty, a product, and an order of it.
abbrev empty_shop : Session ℕ
empty_shop = record { db = empty_db; calls = 0 }

abbrev stocked : Session ℕ
stocked = record { db = perform (pos 1) (create_product 50 tea) calm empty_shop; calls = 0 }

abbrev some_tea : List OrderItemRequest
some_tea = record { product_id = 100; quantity = pos 4 } ∷ []

abbrev sold : Db ℕ
sold = perform (pos 1) (create_order 60 some_tea none) calm stocked

sold_one : length sold.orders ≡ 1
unfolding order_code perform create_a_product create_row at_once
sold_one = refl

sold_reached : Reach (pos 1) empty_db sold
sold_reached =
    next (next here (create_product 50 tea) tt calm empty_shop refl refl)
      (create_order 60 some_tea none) tt calm stocked refl refl

Reach-IsSound_example : IsConsistent sold × IsCounted sold
Reach-IsSound_example = Reach-IsSound (pos 1) sold sold_reached
