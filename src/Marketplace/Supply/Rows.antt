-- ===== src/Marketplace/Supply/Rows.antt =====
-- What the statements that write orders, order items and promo codes have done.
use service_oriented_hw.Common.{
  ◌≡◌, refl, ap, ◌∙◌, Bool, true, false, List, [], ◌∷◌, ◌++◌, All, arith,
}
use mathlib.Core.List.{append-nil, append_assoc}
use service_oriented_hw.Common.Float.{Float64}
use service_oriented_hw.Common.Table.{has_key, find_by-append, find_by-append_found}
use service_oriented_hw.Marketplace.Domain.{Uuid, Time, Order, OrderItem, canceled}
use service_oriented_hw.Marketplace.Domain.Status.{same_status}
use service_oriented_hw.Marketplace.Session.{Db, Env, Session, ok}
use service_oriented_hw.Marketplace.Session.Steps.{after_bind, pure_ok, insert_ok}
use service_oriented_hw.Marketplace.Repository.Orders.{
  order_key, insert_order, new_order, order_row, insert_order_item, insert_order_items, item_row,
}
use service_oriented_hw.Marketplace.Supply.{HasUnits, ordered, is_open, is_open_row}

module _ {V : Type 0} where
  -- The promo codes alone may differ.
  pub record OnlyPromos (d d' : Db V) : Type 0 where
    pub products : d'.products ≡ d.products
    pub orders : d'.orders ≡ d.orders
    pub order_items : d'.order_items ≡ d.order_items

  pub is_open-append :
      (j : Uuid) (orders more : List (Order V))
      → has_key order_key j orders ≡ true
      → is_open j (orders ++ more) ≡ is_open j orders
  is_open-append j orders more h =
      ap is_open_row (find_by-append_found order_key j orders more (ground arith))

  pub is_open-append_new :
      (o : Order V) (orders : List (Order V))
      → has_key order_key o.id orders ≡ false
      → same_status o.status canceled ≡ false
      → is_open o.id (orders ++ o ∷ []) ≡ true
  is_open-append_new o orders new live =
      ap is_open_row (find_by-append order_key o.id orders (o ∷ []) (ground arith)) ∙ ground arith

  pub has_key-append :
      (j : Uuid) (orders more : List (Order V))
      → has_key order_key j orders ≡ true
      → has_key order_key j (orders ++ more) ≡ true
  has_key-append j orders more h = ground (arith, find_by-append_found order_key j orders more)

  pub has_key-append_new :
      (o : Order V) (orders : List (Order V))
      → has_key order_key o.id orders ≡ false
      → has_key order_key o.id (orders ++ o ∷ []) ≡ true
  has_key-append_new o orders new = ground (arith, find_by-append order_key o.id orders (o ∷ []))

module _ {V : Type 0} ⦃f : Float64 V⦄ where
  pub record Inserts (o : Order V) (now : Time) (d d' : Db V) (o' : Order V) : Type 0 where
    pub fresh : has_key order_key o'.id d.orders ≡ false
    pub same : o' ≡ new_order o o'.id now
    pub written : d' ≡ record d { orders = d.orders ++ order_row o' ∷ [] }

  pub insert_order_ok :
      (o : Order V) (env : Env) (s : Session V) {o' : Order V} {s' : Session V}
      → insert_order o env s ≡ (ok o', s')
      → Inserts o env.tx_time s.db s'.db o'
  unfolding insert_order
  insert_order_ok o env s h =
      let (id, free, is, w) = insert_ok _ _ _ env s h in
      record { fresh = rw is free; same = rw is refl; written = w }

  -- The rows that `InsertOrderItems` appends: those of the order, with the products and the
  -- quantities of the items that it was given.
  pub record Appends (id : Uuid) (items : List (OrderItem V)) (d d' : Db V) : Type 0 where
    pub added : List (OrderItem V)
    pub written : d' ≡ record d { order_items = d.order_items ++ added }
    pub of_order : All (λ it. it.order_id ≡ id) added
    pub same_quantities : (p : Uuid) → ordered p added ≡ ordered p items
    pub same_products :
        (test : Uuid → Bool)
        → All (λ it. test it.product_id ≡ true) items
        → All (λ it. test it.product_id ≡ true) added
    pub same_units : All HasUnits items → All HasUnits added

  pub insert_order_items_ok :
      (id : Uuid) (items : List (OrderItem V)) (env : Env) (s : Session V)
      (out : List (OrderItem V)) (s' : Session V)
      → insert_order_items id items env s ≡ (ok out, s')
      → Appends id items s.db s'.db
  unfolding insert_order_items insert_order_item
  insert_order_items_ok id [] env s out s' h =
      let (_, e) = pure_ok [] env s h in
      rw e (record {
        added = [];
        written = rw append-nil;
        of_order = tt;
        same_quantities = λ p. refl;
        same_products = λ P a. a;
        same_units = λ a. a;
      })
  insert_order_items_ok id (it ∷ items) env s out s' h = after_bind _ _ env s h λ it' t e rest.
      after_bind _ _ env t rest λ items' t' e' rest'.
        let (_, stay) = pure_ok _ env t' rest' in
        let (new_id, _, is, w) = insert_ok _ _ _ env s e in
        let more = insert_order_items_ok id items env t items' t' e' in
        rw stay (record {
          added = item_row id it' ∷ more.added;
          written = more.written ∙ (rw w (rw append_assoc));
          of_order = (refl, more.of_order);
          same_quantities = λ p. rw (more.same_quantities p, is);
          same_products = λ test a. (rw is a.0, more.same_products test a.1);
          same_units = λ a. (rw is a.0, more.same_units a.1);
        })
