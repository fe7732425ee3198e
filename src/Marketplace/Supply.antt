-- ===== src/Marketplace/Supply.antt =====
-- The supply of a product: its stock with what is held by orders that are not canceled. The order
-- code moves quantities between the two by separate statements on three tables.
pub mod Tables
pub mod Effects
pub mod Reserve
pub mod Rows
pub mod Promo
pub mod Place
pub mod Create
pub mod Withdraw
pub mod Cancel
pub mod Amend
pub mod Update
pub mod Stocked
use service_oriented_hw.Common.{
  ◌≡◌, Bool, true, false, not, Option, none, some, List, [], ◌∷◌, ◌==◌, if◌then◌else◌, All, ◌&&◌,
}
use service_oriented_hw.Common.Int.{ℤ, pos, ◌+ℤ◌, ◌≤ℤ◌}
use service_oriented_hw.Common.Table.{find_by, has_key}
use service_oriented_hw.Marketplace.Domain.{Uuid, Product, Order, OrderItem, canceled}
use service_oriented_hw.Marketplace.Domain.Status.{same_status}
use service_oriented_hw.Marketplace.Session.{Db}
use service_oriented_hw.Marketplace.Repository.Orders.{product_key, order_key}

module _ {V : Type 0} where
  abbrev pub stock_of : Option (Product V) → ℤ
  stock_of none = pos 0
  stock_of (some q) = q.stock

  abbrev pub stock_in : Uuid → List (Product V) → ℤ
  stock_in p products = stock_of (find_by product_key p products)

  -- The quantity of a product in a list of order items.
  abbrev pub ordered : Uuid → List (OrderItem V) → ℤ
  ordered p [] = pos 0
  ordered p (it ∷ its) = if it.product_id == p then it.quantity +ℤ ordered p its else ordered p its

  -- The quantity of an item is not below zero.
  abbrev pub HasUnits : OrderItem V → Type 0
  HasUnits it = pos 0 ≤ℤ it.quantity

  -- The order exists and is not canceled.
  abbrev pub is_open_row : Option (Order V) → Bool
  is_open_row none = false
  is_open_row (some o) = not (same_status o.status canceled)

  abbrev pub is_open : Uuid → List (Order V) → Bool
  is_open id orders = is_open_row (find_by order_key id orders)

  -- The quantity of a product in the items of orders that are open.
  abbrev pub held : Uuid → List (Order V) → List (OrderItem V) → ℤ
  held p orders [] = pos 0
  held p orders (it ∷ its) =
      if it.product_id == p && is_open it.order_id orders
      then it.quantity +ℤ held p orders its
      else held p orders its

  abbrev pub supply : Uuid → Db V → ℤ
  supply p db = stock_in p db.products +ℤ held p db.orders db.order_items

  -- The foreign keys of `order_items`: the order and the product of every item exist.
  abbrev pub HasRows : Db V → OrderItem V → Type 0
  HasRows db it =
      (has_key order_key it.order_id db.orders ≡ true)
      × (has_key product_key it.product_id db.products ≡ true)

  abbrev pub IsConsistent : Db V → Type 0
  IsConsistent db = All (HasRows db) db.order_items
