-- ===== src/Marketplace/Supply/Effects.antt =====
-- What the loops of the order code over products have done when they end without an error.
use service_oriented_hw.Common.{
  ◌≡◌, refl, sym, ap, ◌∙◌, true, some, List, [], ◌∷◌, ◌==◌, if◌then◌else◌, All,
}
use service_oriented_hw.Common.Int.{ℤ, ◌+ℤ◌, ◌-ℤ◌, int_laws}
use service_oriented_hw.Common.Table.{find_by, modify_by, has_key, has_key-modify_by}
use service_oriented_hw.Marketplace.Domain.{Uuid, Time, Product, OrderItem, OrderItemRequest}
use service_oriented_hw.Marketplace.Session.{Db, Env, Session, ok}
use service_oriented_hw.Marketplace.Session.Steps.{after_bind, pure_ok, query_ok, exec_ok, found_ok}
use service_oriented_hw.Marketplace.Repository.Orders.{
  product_key, set_stock, increase_stock, lock_product,
}
use service_oriented_hw.Marketplace.Orders.Usecase.{restore_items}
use service_oriented_hw.Marketplace.Supply.{stock_in, ordered}
use service_oriented_hw.Marketplace.Supply.Tables.{stock_in_write}

-- The orders and their items are the same, and so are the keys of the products.
pub record KeepsOrders {V : Type 0} (d d' : Db V) : Type 0 where
  pub orders : d'.orders ≡ d.orders
  pub order_items : d'.order_items ≡ d.order_items
  pub rows : (k : Uuid) → has_key product_key k d'.products ≡ has_key product_key k d.products

module _ {V : Type 0} where
  -- The product of an item has a row.
  abbrev pub HasProduct : Db V → OrderItem V → Type 0
  HasProduct d it = has_key product_key it.product_id d.products ≡ true

  pub KeepsOrders-refl : (d : Db V) → KeepsOrders d d
  KeepsOrders-refl d = record { orders = refl; order_items = refl; rows = λ k. refl }

  pub KeepsOrders-trans : {d e g : Db V} → KeepsOrders d e → KeepsOrders e g → KeepsOrders d g
  KeepsOrders-trans a b = record {
    orders = b.orders ∙ a.orders;
    order_items = b.order_items ∙ a.order_items;
    rows = λ k. b.rows k ∙ a.rows k;
  }

  pub write-KeepsOrders :
      (k : Uuid) (new : ℤ → ℤ) (now : Time) (d : Db V)
      → KeepsOrders d (record d {
        products = modify_by product_key k (λ q. set_stock (new q.stock) now q) d.products;
      })
  write-KeepsOrders k new now d = record {
    orders = refl;
    order_items = refl;
    rows = λ j.
        has_key-modify_by product_key j k (λ q. set_stock (new q.stock) now q) d.products
          (λ q. refl);
  }

  -- `IncreaseStock` of an item whose product has a row.
  increase_stock_ok :
      (it : OrderItem V) (env : Env) (s : Session V) {u : Unit {0}} {s' : Session V}
      → HasProduct s.db it
      → increase_stock it.product_id it.quantity env s ≡ (ok u, s')
      → KeepsOrders s.db s'.db
        × ((p : Uuid)
            → stock_in p s'.db.products ≡ (
                if it.product_id == p
                then stock_in p s.db.products +ℤ it.quantity
                else stock_in p s.db.products))
  unfolding increase_stock
  increase_stock_ok it env s row h =
      let e = exec_ok _ env s h in
      (
        rw e (write-KeepsOrders it.product_id (λ n. n +ℤ it.quantity) env.tx_time s.db),
        λ p.
            rw e (
              stock_in_write p it.product_id (λ n. n +ℤ it.quantity) env.tx_time s.db.products row),
      )

  pub moved-HasProduct :
      {d e : Db V} (items : List (OrderItem V))
      → KeepsOrders d e
      → All (HasProduct d) items
      → All (HasProduct e) items
  moved-HasProduct [] only h = tt
  moved-HasProduct (it ∷ items) only h =
      (only.rows it.product_id ∙ h.0, moved-HasProduct items only h.1)

  -- The loop over the items of an order puts back exactly their quantities.
  pub restore_items_ok :
      (items : List (OrderItem V)) (env : Env) (s : Session V) {u : Unit {0}} {s' : Session V}
      → All (HasProduct s.db) items
      → restore_items items env s ≡ (ok u, s')
      → KeepsOrders s.db s'.db
        × ((p : Uuid) → stock_in p s'.db.products ≡ stock_in p s.db.products +ℤ ordered p items)
  unfolding restore_items
  restore_items_ok [] env s rows h =
      let (_, e) = pure_ok tt env s h in (rw e (KeepsOrders-refl s.db), λ p. rw e (omega int_laws))
  restore_items_ok (it ∷ items) env s rows h = after_bind _ _ env s h λ _ t e rest.
      let (only, moved) = increase_stock_ok it env s rows.0 e in
      let (only', moved') =
        restore_items_ok items env t (moved-HasProduct items only rows.1) rest in
      (KeepsOrders-trans only only', λ p. rw (moved' p, moved p) (grind int_laws))

  -- `LockProduct` gives the row of the product.
  pub lock_product_ok :
      (k : Uuid) (env : Env) (s : Session V) {q : Product V} {s' : Session V}
      → lock_product k env s ≡ (ok q, s')
      → (find_by product_key k s.db.products ≡ some q) × (s'.db ≡ s.db)
  unfolding lock_product
  lock_product_ok k env s h = after_bind _ _ env s h λ row t e rest.
      let (read, same) = query_ok _ env s e in
      let (is_row, stay) = found_ok row env t rest in
      (sym read ∙ is_row, ap (λ (x : Session V). x.db) stay ∙ same)

  abbrev pub taken_from : OrderItemRequest → Time → Db V → Db V
  taken_from req now d = record d {
    products =
        modify_by product_key req.product_id (λ r. set_stock (r.stock -ℤ req.quantity) now r)
          d.products;
  }
