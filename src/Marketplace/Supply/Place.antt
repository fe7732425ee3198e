-- ===== src/Marketplace/Supply/Place.antt =====
-- A new order, at the level of the tables: what is taken from the stock goes to its items.
use service_oriented_hw.Common.{
  ◌≡◌, sym, ap, ◌∙◌, true, false, List, [], ◌∷◌, ◌++◌, All, All-append, All-map,
}
use mathlib.Core.Path.{subst}
use service_oriented_hw.Common.Int.{int_laws}
use service_oriented_hw.Common.Float.{Float64}
use service_oriented_hw.Common.Table.{has_key}
use service_oriented_hw.Marketplace.Domain.{Uuid, Time, Order, OrderItem, canceled}
use service_oriented_hw.Marketplace.Domain.Status.{same_status}
use service_oriented_hw.Marketplace.Session.{Db}
use service_oriented_hw.Marketplace.Repository.Orders.{product_key, order_key, order_row}
use service_oriented_hw.Marketplace.Supply.{ordered, is_open, held, supply, HasRows, IsConsistent}
use service_oriented_hw.Marketplace.Supply.Tables.{held-append, held_of_open, held_congr}
use service_oriented_hw.Marketplace.Supply.Effects.{HasProduct}
use service_oriented_hw.Marketplace.Supply.Reserve.{Reserved}
use service_oriented_hw.Marketplace.Supply.Rows.{
  is_open-append, is_open-append_new, has_key-append, has_key-append_new, Inserts, Appends,
}

-- The new order: `d` when the items are reserved and the promo is settled, `d'` with the row of the
-- order, `g` with the rows of its items.
module _ {V : Type 0} ⦃f : Float64 V⦄ where
  module _ (start d d' g : Db V) (items listed : List (OrderItem V)) (o o' : Order V) (now : Time)
      (sound : IsConsistent start) (r : Reserved start d [] items) (i : Inserts o now d d' o')
      (a : Appends o'.id listed d' g) (live : same_status o'.status canceled ≡ false)
      (listed_same : (p : Uuid) → ordered p listed ≡ ordered p items)
      (listed_rows : All (HasProduct d) listed) where
    -- The items of other orders.
    old_rows :
        (its : List (OrderItem V))
        → All (HasRows start) its
        → All (λ it. is_open it.order_id d'.orders ≡ is_open it.order_id start.orders) its
    old_rows [] h = tt
    old_rows (it ∷ its) h = (
      rw (i.written, r.only.orders)
          (is_open-append it.order_id start.orders (order_row o' ∷ []) (h.0).0),
      old_rows its h.1,
    )

    new_open : is_open o'.id d'.orders ≡ true
    new_open = rw i.written (is_open-append_new (order_row o') d.orders i.fresh live)

    same_products : d'.products ≡ d.products
    same_products = ap (λ (x : Db V). x.products) i.written

    same_items : d'.order_items ≡ start.order_items
    same_items = ap (λ (x : Db V). x.order_items) i.written ∙ r.only.order_items

    held_before :
        (p : Uuid) → held p d'.orders d'.order_items ≡ held p start.orders start.order_items
    held_before p =
        rw same_items
          (held_congr p start.orders d'.orders start.order_items (old_rows start.order_items sound))

    held_new : (p : Uuid) → held p d'.orders a.added ≡ ordered p items
    held_new p =
        held_of_open p o'.id d'.orders a.added new_open a.of_order
        ∙ a.same_quantities p
        ∙ listed_same p

    pub placed_supply : (p : Uuid) → supply p g ≡ supply p start
    placed_supply p =
        rw
          (
            a.written,
            held-append p d'.orders d'.order_items a.added,
            held_before p,
            held_new p,
            same_products,
          )
          (grind (int_laws, r.balance p))

    g_orders : g.orders ≡ d.orders ++ order_row o' ∷ []
    g_orders = ap (λ (x : Db V). x.orders) a.written ∙ ap (λ (x : Db V). x.orders) i.written

    pub g_products : g.products ≡ d.products
    g_products = ap (λ (x : Db V). x.products) a.written ∙ same_products

    g_items : g.order_items ≡ start.order_items ++ a.added
    g_items = ap (λ (x : Db V). x.order_items) a.written ∙ ap (λ its. its ++ a.added) same_items

    kept_rows : (it : OrderItem V) → HasRows start it → HasRows g it
    kept_rows it (order, product) = (
      subst (λ os. has_key order_key it.order_id os ≡ true) (sym g_orders)
          (has_key-append it.order_id d.orders (order_row o' ∷ [])
            (subst (λ os. has_key order_key it.order_id os ≡ true) (sym r.only.orders) order)),
      subst (λ ps. has_key product_key it.product_id ps ≡ true) (sym g_products)
          (r.only.rows it.product_id ∙ product),
    )

    order_present : has_key order_key o'.id g.orders ≡ true
    order_present =
        subst (λ os. has_key order_key o'.id os ≡ true) (sym g_orders)
          (has_key-append_new (order_row o') d.orders i.fresh)

    new_rows :
        (its : List (OrderItem V))
        → All (λ it. it.order_id ≡ o'.id) its
        → All (λ it. has_key product_key it.product_id d.products ≡ true) its
        → All (HasRows g) its
    new_rows [] e h = tt
    new_rows (it ∷ its) e h = (
      (
        subst (λ k. has_key order_key k g.orders ≡ true) (sym e.0) order_present,
        subst (λ ps. has_key product_key it.product_id ps ≡ true) (sym g_products) h.0,
      ),
      new_rows its e.1 h.1,
    )

    pub placed-IsConsistent : IsConsistent g
    placed-IsConsistent =
        subst (λ its. All (HasRows g) its) (sym g_items)
          (All-append (HasRows g) start.order_items a.added
            (All-map (HasRows start) (HasRows g) kept_rows start.order_items sound)
            (new_rows a.added a.of_order
              (a.same_products (λ k. has_key product_key k d.products) listed_rows)))
