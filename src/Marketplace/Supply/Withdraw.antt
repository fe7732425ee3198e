-- ===== src/Marketplace/Supply/Withdraw.antt =====
-- An order that is canceled, at the level of the tables.
use mathlib.Core.Path.{subst}
use service_oriented_hw.Common.{
  ◌≡◌, refl, sym, ap, ◌∙◌, true, false, some, ◌==◌, All, All-map, arith, keep_if,
}
use service_oriented_hw.Common.Int.{◌+ℤ◌, int_laws}
use service_oriented_hw.Common.Table.{
  find_by, modify_by, has_key, has_key-modify_by, find_by-modify_by,
}
use service_oriented_hw.Marketplace.Domain.{Uuid, Time, Order, OrderItem, canceled}
use service_oriented_hw.Marketplace.Domain.Status.{cancellable}
use service_oriented_hw.Marketplace.Session.{Db}
use service_oriented_hw.Marketplace.Repository.Orders.{product_key, order_key, belongs_to}
use service_oriented_hw.Marketplace.Supply.{
  stock_in, ordered, is_open, is_open_row, held, supply, HasRows, IsConsistent,
}
use service_oriented_hw.Marketplace.Supply.Tables.{held_split, held_without}
use service_oriented_hw.Marketplace.Supply.Effects.{KeepsOrders}
use service_oriented_hw.Marketplace.Supply.Rows.{OnlyPromos}

module _ {V : Type 0} where
  abbrev pub cancel_row : Time → Order V → Order V
  cancel_row now row = record row { status = canceled; updated_at = now }

  module _ (d : Db V) (o : Order V) (now : Time) (row : find_by order_key o.id d.orders ≡ some o)
      (live : cancellable o.status ≡ true) where
    open_before : is_open o.id d.orders ≡ true
    open_before = ap is_open_row row ∙ ground arith

    closed_after : is_open o.id (modify_by order_key o.id (cancel_row now) d.orders) ≡ false
    closed_after =
        ap is_open_row (find_by-modify_by order_key o.id o.id (cancel_row now) d.orders (λ x. refl))
        ∙ ground arith

    others_after :
        (j : Uuid)
        → (o.id == j) ≡ false
        → is_open j (modify_by order_key o.id (cancel_row now) d.orders) ≡ is_open j d.orders
    others_after j differs =
        ap is_open_row (find_by-modify_by order_key j o.id (cancel_row now) d.orders (λ x. refl))
        ∙ ground arith

    held_after :
        (p : Uuid)
        → held p d.orders d.order_items
          ≡ held p (modify_by order_key o.id (cancel_row now) d.orders) d.order_items
            +ℤ ordered p (keep_if (belongs_to o.id) d.order_items)
    held_after p =
        rw
          (held_without p o.id d.orders (modify_by order_key o.id (cancel_row now) d.orders)
            d.order_items closed_after others_after)
          (held_split p o.id d.orders d.order_items open_before)

  -- The order `o` of `d` is canceled: `d'` when its items are back in the stock and its promo code
  -- is released, `g` when its row is written.
  module _ (d d1 d2 g : Db V) (o : Order V) (now : Time) (sound : IsConsistent d)
      (row : find_by order_key o.id d.orders ≡ some o) (live : cancellable o.status ≡ true)
      (only : KeepsOrders d d1)
      (back : (p : Uuid)
        → stock_in p d1.products
          ≡ stock_in p d.products +ℤ ordered p (keep_if (belongs_to o.id) d.order_items))
      (promos : OnlyPromos d1 d2)
      (written : g
        ≡ record d2 { orders = modify_by order_key o.id (cancel_row now) d2.orders }) where
    g_products : g.products ≡ d1.products
    g_products = ap (λ (x : Db V). x.products) written ∙ promos.products

    g_orders : g.orders ≡ modify_by order_key o.id (cancel_row now) d.orders
    g_orders =
        ap (λ (x : Db V). x.orders) written
        ∙ ap (modify_by order_key o.id (cancel_row now)) (promos.orders ∙ only.orders)

    g_items : g.order_items ≡ d.order_items
    g_items = ap (λ (x : Db V). x.order_items) written ∙ promos.order_items ∙ only.order_items

    canceled_tables :
        (p : Uuid)
        → supply p g
          ≡ stock_in p d1.products
            +ℤ held p (modify_by order_key o.id (cancel_row now) d.orders) d.order_items
    canceled_tables p = λ i. stock_in p (g_products i) +ℤ held p (g_orders i) (g_items i)

    pub canceled_supply : (p : Uuid) → supply p g ≡ supply p d
    canceled_supply p =
        canceled_tables p ∙ rw (back p, held_after d o now row live p) (omega int_laws)

    canceled_rows : (it : OrderItem V) → HasRows d it → HasRows g it
    canceled_rows it (order, product) = (
      subst (λ os. has_key order_key it.order_id os ≡ true) (sym g_orders)
          (has_key-modify_by order_key it.order_id o.id (cancel_row now) d.orders (λ x. refl)
            ∙ order),
      subst (λ ps. has_key product_key it.product_id ps ≡ true) (sym g_products)
          (only.rows it.product_id ∙ product),
    )

    pub canceled-IsConsistent : IsConsistent g
    canceled-IsConsistent =
        subst (λ its. All (HasRows g) its) (sym g_items)
          (All-map (HasRows d) (HasRows g) canceled_rows d.order_items sound)
