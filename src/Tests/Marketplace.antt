-- ===== src/Tests/Marketplace.antt =====
-- Runs of marketplace-api on a small database, and the theorems at these inputs. A `float64` is
-- played by a whole number of thousandths.
pub mod Access
pub mod Reached
pub mod Http
pub mod Pages
pub mod Placing
pub mod Observed
pub mod Overlap
use service_oriented_hw.Common.{
  ℕ, ◌+◌, ◌*◌, ◌/◌, ◌≡◌, refl, Bool, true, false, Option, none, some, List, [], ◌∷◌, ltb, arith,
  String, ◌≢◌, ◌⊎◌,
}
use service_oriented_hw.Common.Int.{ℤ, pos, negsuc, pos_part, ◌+ℤ◌, ◌-ℤ◌, ◌*ℤ◌, wrap64, ◌≤ℤ◌}
use service_oriented_hw.Common.Float.{Float64, IsIeee}
use service_oriented_hw.Marketplace.Domain.{
  Uuid, Product, active, Order, OrderItem, OrderItemRequest, PromoCode, percentage, created,
  canceled, UserClaims, user, seller, admin, Error, forbidden, internal, order_limit_exceeded,
}
use service_oriented_hw.Marketplace.Session.{
  Db, Env, Session, CommitReply, acknowledged, Result, ok, err, next_call, ◌>>=◌, query, exec,
  insert, returning, read_clock,
}
use service_oriented_hw.Marketplace.Repository.Orders.{
  rate_limit_check, has_active_order, lock_product, decrease_stock, lock_promo,
  increment_promo_uses, insert_order, insert_order_item, insert_order_items, insert_user_op,
  minutes, get_order_for_update, get_order_items, increase_stock, decrement_promo_uses,
  cancel_order_tx, delete_order_items, update_order_tx, lock_promo_by_id,
}
use service_oriented_hw.Marketplace.Repository.Tx.{with_tx, with_tx_atomic, AllOrNothing, finish}
use service_oriented_hw.Marketplace.Orders.Discount.{
  calc_discount, calc_discount-le-total, calc_discount_percentage_cap,
}
use service_oriented_hw.Marketplace.Orders.Usecase.{
  create, create_body, reserve_items, reserve_from, reserve_item, promo_for, apply_promo,
  or_promo_invalid, place_order, cancel, cancel_body, restore_items, release_promo, update,
  update_body, reprice, keep_promo, drop_promo, amend_order,
}
use service_oriented_hw.Marketplace.Supply.{supply, IsConsistent, stock_in}
use service_oriented_hw.Marketplace.Supply.Create.{create-supply, create_not_oversold}
use service_oriented_hw.Marketplace.Supply.Cancel.{cancel-supply}
use service_oriented_hw.Marketplace.Supply.Update.{update-supply}

instance abbrev pub thousandths : Float64 ℕ
thousandths = record {
  zero = 0;
  hundred = 100_000;
  seven_tenths = 700;
  add = ◌+◌;
  mul = λ a b. a * b / 1000;
  div = λ a b. a * 1000 / b;
  lt = ltb;
  of_int = λ n. pos_part n * 1000;
  decimal_12_2 = λ a. (a + 5) / 10 * 10;
}

thousandths-IsIeee : IsIeee thousandths
thousandths-IsIeee = record { irrefl = λ x. ground arith; shrinks = λ x y low h. ground arith }

abbrev pub tea : Product ℕ
tea = record {
  id = 1;
  name = "tea";
  description = none;
  price = 2500;
  stock = pos 10;
  category = "food";
  status = active;
  seller_id = 50;
  created_at = pos 0;
  updated_at = pos 0;
}

abbrev spring : PromoCode ℕ
spring = record {
  id = 7;
  code = "SPRING";
  discount_type = percentage;
  discount_value = 80_000;
  min_order_amount = 5000;
  max_uses = pos 3;
  current_uses = pos 0;
  valid_from = pos 0;
  valid_until = pos 9_000_000_000_000;
  active = true;
}

abbrev pub shop : Db ℕ
shop = record {
  products = tea ∷ [];
  promo_codes = spring ∷ [];
  orders = [];
  order_items = [];
  user_operations = [];
}

-- Nothing is refused, ids count up from 100, and every reading of the clock is the same.
abbrev pub calm : Env
calm = record {
  refuses = λ n. false;
  new_uuid = λ n. 100 + n;
  clock = λ n. pos 1_000_000_000_000;
  tx_time = pos 1_000_000_000_000;
  commit = acknowledged;
  cut = λ n. none;
}

abbrev pub opening : Session ℕ
opening = record { db = shop; calls = 0 }

abbrev pub four_teas : List OrderItemRequest
four_teas = record { product_id = 1; quantity = pos 4 } ∷ []

abbrev pub buyer : UserClaims
buyer = record { user_id = 60; role = user }

-- The order code, open.
pub order_code : Unit {0}
unfolding create create_body reserve_items reserve_from reserve_item promo_for apply_promo
    or_promo_invalid place_order rate_limit_check has_active_order lock_product decrease_stock
    lock_promo increment_promo_uses insert_order insert_order_item insert_order_items insert_user_op
    minutes with_tx finish ◌>>=◌ query exec insert returning read_clock calc_discount ◌+ℤ◌ ◌-ℤ◌ ◌*ℤ◌
    wrap64 cancel cancel_body restore_items release_promo get_order_for_update get_order_items
    increase_stock decrement_promo_uses cancel_order_tx update update_body reprice keep_promo
    drop_promo amend_order delete_order_items update_order_tx lock_promo_by_id
order_code = tt

abbrev pub first : Result (Order ℕ) × Session ℕ
first = create (pos 1) 60 four_teas (some "SPRING") calm opening

abbrev amounts : Result (Order ℕ) → Option (ℕ × ℕ)
amounts (ok o) = some (o.total_amount, o.discount_amount)
amounts (err e) = none

-- 4 * 2.5 = 10, and 80 percent are cut to 70 percent.
first_amounts : amounts first.0 ≡ some (10_000, 7000)
unfolding order_code
first_amounts = refl

first_stock : stock_in 1 first.1.db.products ≡ pos 6
unfolding order_code
first_stock = refl

create-supply_example : IsConsistent first.1.db × (supply 1 first.1.db ≡ supply 1 shop)
create-supply_example = create-supply (pos 1) 60 four_teas (some "SPRING") calm opening 1 tt

abbrev pub first_id : Uuid
first_id = elim first.0 [ ok o ↦ o.id | err e ↦ 0 ]

abbrev pub first_session : Session ℕ
first_session = first.1

abbrev pub first_order : Order ℕ
first_order = elim first_session.db.orders [
  | [] ↦ record {
    id = 0;
    user_id = 0;
    status = canceled;
    items = [];
    total_amount = 0;
    discount_amount = 0;
    promo_code_id = none;
    created_at = pos 0;
    updated_at = pos 0;
  }
  | (o ∷ os) ↦ o
]

first_session-IsConsistent : IsConsistent first_session.db
unfolding order_code
first_session-IsConsistent = ((refl, refl), tt)

cancel-supply_example :
    IsConsistent (cancel first_id buyer calm first_session).1.db
    × (supply 1 (cancel first_id buyer calm first_session).1.db ≡ supply 1 first_session.db)
cancel-supply_example = cancel-supply first_id buyer calm first_session 1 first_session-IsConsistent

cancel_stock : stock_in 1 (cancel first_id buyer calm first_session).1.db.products ≡ pos 10
unfolding order_code
cancel_stock = refl

abbrev pub two_teas : List OrderItemRequest
two_teas = record { product_id = 1; quantity = pos 2 } ∷ []

update-supply_example :
    IsConsistent (update (pos 1) first_id buyer two_teas calm first_session).1.db
    × (supply 1 (update (pos 1) first_id buyer two_teas calm first_session).1.db
        ≡ supply 1 first_session.db)
update-supply_example =
    update-supply (pos 1) first_id buyer two_teas calm first_session 1 first_session-IsConsistent

update_stock :
    stock_in 1 (update (pos 1) first_id buyer two_teas calm first_session).1.db.products ≡ pos 8
unfolding order_code
update_stock = refl

-- Half price of the two teas that are left, and the promo code stays on.
amounts-update :
    amounts (update (pos 1) first_id buyer two_teas calm first_session).0 ≡ some (5000, 3500)
unfolding order_code
amounts-update = refl

with_tx_atomic_example :
    AllOrNothing
      (create_body (pos 1) 60 four_teas (some "SPRING"))
      calm
      opening
      (with_tx (create_body (pos 1) 60 four_teas (some "SPRING")) calm opening)
with_tx_atomic_example =
    with_tx_atomic (create_body (pos 1) 60 four_teas (some "SPRING")) calm opening

calc_discount-le-total_example : ltb 10_000 (calc_discount spring 10_000) ≡ false
calc_discount-le-total_example = calc_discount-le-total spring 10_000 thousandths-IsIeee refl
