-- ===== src/Marketplace/Supply/Amend.antt =====
-- An order whose items are exchanged, at the level of the tables.
use mathlib.Core.Path.{subst}
use service_oriented_hw.Common.{
  ◌≡◌, refl, sym, ap, ◌∙◌, true, not, some, List, [], ◌∷◌, ◌++◌, ◌==◌, All, All-append, All-map,
  All-of, All-keep_if, arith, Bool-cases, inl, inr, ==_iff, keep_if,
}
use service_oriented_hw.Common.Int.{ℤ, pos, ◌+ℤ◌, int_laws}
use service_oriented_hw.Common.Table.{
  find_by, modify_by, has_key, has_key-modify_by, find_by-modify_by,
}
use service_oriented_hw.Marketplace.Domain.{Uuid, Time, Order, OrderItem}
use service_oriented_hw.Marketplace.Domain.Status.{same_status}
use service_oriented_hw.Marketplace.Session.{Db}
use service_oriented_hw.Marketplace.Repository.Orders.{product_key, order_key, belongs_to}
use service_oriented_hw.Marketplace.Supply.{
  stock_in, ordered, is_open, is_open_row, held, supply, HasRows, IsConsistent,
}
use service_oriented_hw.Marketplace.Supply.Tables.{held_split}
use service_oriented_hw.Marketplace.Supply.Effects.{KeepsOrders, HasProduct}
use service_oriented_hw.Common.Float.{Float64}
use service_oriented_hw.Marketplace.Domain.{created}
use service_oriented_hw.Marketplace.Repository.Orders.{update_row}
use service_oriented_hw.Marketplace.Supply.Tables.{held-append, held_of_open, held_congr}
use service_oriented_hw.Marketplace.Supply.Reserve.{Reserved}
use service_oriented_hw.Marketplace.Supply.Rows.{Appends}

-- The sums of an exchange: what the old items gave back pays for what the new ones take.
exchange :
    (stock2 stock1 stock held_kept new old : ℤ) {held_new held_old : ℤ}
    → held_new ≡ held_kept +ℤ new
    → stock2 +ℤ new ≡ stock1 +ℤ pos 0
    → stock1 ≡ stock +ℤ old
    → held_old ≡ held_kept +ℤ old
    → stock2 +ℤ held_new ≡ stock +ℤ held_old
exchange stock2 stock1 stock held_kept new old a b c d = grind int_laws

module _ {V : Type 0} ⦃f : Float64 V⦄ where
  -- The order `o` of `d` is amended: `d1` when its old items are back in the stock, `d2` when the
  -- new ones are reserved and the promo is settled, `d4` without the old rows, `d5` with the new
  -- rows, `g` when the row of the order is written.
  module _ (d d1 d2 d4 d5 g : Db V) (o o' : Order V) (now : Time)
      (items listed : List (OrderItem V)) (sound : IsConsistent d)
      (row : find_by order_key o.id d.orders ≡ some o) (live : same_status o.status created ≡ true)
      (same_row : o'.status ≡ o.status) (only : KeepsOrders d d1)
      (back : (p : Uuid)
        → stock_in p d1.products
          ≡ stock_in p d.products +ℤ ordered p (keep_if (belongs_to o.id) d.order_items))
      (r : Reserved d1 d2 [] items)
      (deleted : d4
        ≡ record d2 { order_items = keep_if (λ it. not (belongs_to o.id it)) d2.order_items })
      (a : Appends o.id listed d4 d5)
      (written : g ≡ record d5 { orders = modify_by order_key o.id (update_row o' now) d5.orders })
      (listed_same : (p : Uuid) → ordered p listed ≡ ordered p items)
      (listed_rows : All (HasProduct d2) listed) where
    kept : List (OrderItem V)
    kept = keep_if (λ it. not (belongs_to o.id it)) d.order_items

    g_products : g.products ≡ d2.products
    g_products =
        ap (λ (x : Db V). x.products) written
        ∙ ap (λ (x : Db V). x.products) a.written
        ∙ ap (λ (x : Db V). x.products) deleted

    g_orders : g.orders ≡ modify_by order_key o.id (update_row o' now) d.orders
    g_orders =
        ap (λ (x : Db V). x.orders) written
        ∙ ap (modify_by order_key o.id (update_row o' now)) (
            ap (λ (x : Db V). x.orders) a.written
            ∙ ap (λ (x : Db V). x.orders) deleted
            ∙ r.only.orders
            ∙ only.orders)

    g_items : g.order_items ≡ kept ++ a.added
    unfolding kept
    g_items =
        ap (λ (x : Db V). x.order_items) written
        ∙ ap (λ (x : Db V). x.order_items) a.written
        ∙ ap (λ its. its ++ a.added)
            (ap (λ (x : Db V). x.order_items) deleted
              ∙ ap (keep_if (λ it. not (belongs_to o.id it)))
                  (r.only.order_items ∙ only.order_items))

    open_before : is_open o.id d.orders ≡ true
    open_before = ap is_open_row row ∙ ground arith

    same_open :
        (j : Uuid)
        → is_open j (modify_by order_key o.id (update_row o' now) d.orders) ≡ is_open j d.orders
    same_open j =
        ap is_open_row (find_by-modify_by order_key j o.id (update_row o' now) d.orders (λ x. refl))
        ∙ elim (Bool-cases (o.id == j)) [
          | inl same ↦
              let here =
                subst (λ k. find_by order_key k d.orders ≡ some o) ((==_iff o.id j).0 same) row in
              rw (same, here, same_row)
          | inr differs ↦ rw differs
        ]

    held_kept :
        (p : Uuid)
        → held p (modify_by order_key o.id (update_row o' now) d.orders) (kept ++ a.added)
          ≡ held p d.orders kept +ℤ ordered p items
    held_kept p =
        held_congr p d.orders (modify_by order_key o.id (update_row o' now) d.orders)
          (kept ++ a.added) (All-of _ (λ it. same_open it.order_id) (kept ++ a.added))
        ∙ held-append p d.orders kept a.added
        ∙ ap (λ x. held p d.orders kept +ℤ x)
            (held_of_open p o.id d.orders a.added open_before a.of_order
              ∙ a.same_quantities p
              ∙ listed_same p)

    pub amended_supply : (p : Uuid) → supply p g ≡ supply p d
    unfolding kept
    amended_supply p =
        let tables : supply p g
            ≡ stock_in p d2.products
              +ℤ held p (modify_by order_key o.id (update_row o' now) d.orders) (kept ++ a.added) =
          λ i. stock_in p (g_products i) +ℤ held p (g_orders i) (g_items i) in
        tables
        ∙ exchange (stock_in p d2.products) (stock_in p d1.products) (stock_in p d.products)
            (held p d.orders kept) (ordered p items)
            (ordered p (keep_if (belongs_to o.id) d.order_items)) (held_kept p) (r.balance p)
            (back p) (held_split p o.id d.orders d.order_items open_before)

    amended_rows : (it : OrderItem V) → HasRows d it → HasRows g it
    amended_rows it (order, product) = (
      subst (λ os. has_key order_key it.order_id os ≡ true) (sym g_orders)
          (has_key-modify_by order_key it.order_id o.id (update_row o' now) d.orders (λ x. refl)
            ∙ order),
      subst (λ ps. has_key product_key it.product_id ps ≡ true) (sym g_products)
          (r.only.rows it.product_id ∙ only.rows it.product_id ∙ product),
    )

    order_present : has_key order_key o.id g.orders ≡ true
    order_present =
        subst (λ os. has_key order_key o.id os ≡ true) (sym g_orders)
          (has_key-modify_by order_key o.id o.id (update_row o' now) d.orders (λ x. refl)
            ∙ rw (row, has_key))

    new_rows :
        (its : List (OrderItem V))
        → All (λ it. it.order_id ≡ o.id) its
        → All (λ it. has_key product_key it.product_id d2.products ≡ true) its
        → All (HasRows g) its
    new_rows [] e h = tt
    new_rows (it ∷ its) e h = (
      (
        subst (λ k. has_key order_key k g.orders ≡ true) (sym e.0) order_present,
        subst (λ ps. has_key product_key it.product_id ps ≡ true) (sym g_products) h.0,
      ),
      new_rows its e.1 h.1,
    )

    pub amended-IsConsistent : IsConsistent g
    unfolding kept
    amended-IsConsistent =
        subst (λ its. All (HasRows g) its) (sym g_items)
          (All-append (HasRows g) kept a.added
            (All-keep_if (HasRows g) (λ it. not (belongs_to o.id it)) d.order_items
              (All-map (HasRows d) (HasRows g) amended_rows d.order_items sound))
            (new_rows a.added a.of_order
              (a.same_products (λ k. has_key product_key k d2.products) listed_rows)))
