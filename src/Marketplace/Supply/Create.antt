-- ===== src/Marketplace/Supply/Create.antt =====
-- `Create` moves what it takes from the stock to the items of the new order.
use service_oriented_hw.Common.{
  ◌≡◌, refl, sym, ap, ◌∙◌, true, Option, List, [], ◌∷◌, All, All-map, String, map,
}
use mathlib.Core.Path.{subst}
use service_oriented_hw.Common.Int.{ℤ, pos, ◌+ℤ◌, ◌≤ℤ◌}
use service_oriented_hw.Common.Float.{Float64}
use service_oriented_hw.Common.Table.{has_key}
use service_oriented_hw.Marketplace.Domain.{
  Uuid, Order, OrderItem, OrderItemRequest, create_order, canceled,
}
use service_oriented_hw.Marketplace.Domain.Status.{same_status}
use service_oriented_hw.Marketplace.Session.{Db, Env, Session, ok}
use service_oriented_hw.Marketplace.Session.Steps.{after_bind, after_guard, pure_ok, exec_ok}
use service_oriented_hw.Marketplace.Repository.Orders.{product_key, order_key, insert_user_op}
use service_oriented_hw.Marketplace.Orders.Usecase.{
  reserve_items, place_order, fresh_order, create_body, set_order_id,
}
use service_oriented_hw.Marketplace.Supply.{stock_in, ordered, held, supply, HasRows, IsConsistent}
use service_oriented_hw.Marketplace.Supply.Effects.{HasProduct}
use service_oriented_hw.Marketplace.Supply.Reserve.{Reserved, reserve_from-Reserved}
use service_oriented_hw.Marketplace.Supply.Rows.{OnlyPromos, insert_order_ok, insert_order_items_ok}
use service_oriented_hw.Marketplace.Supply.Place.{placed_supply, placed-IsConsistent, g_products}
use service_oriented_hw.Marketplace.Repository.Tx.{with_tx_inv}
use service_oriented_hw.Marketplace.Session.{next_call}
use service_oriented_hw.Marketplace.Orders.Usecase.{create}
use service_oriented_hw.Marketplace.Supply.Promo.{
  rate_limit_check_ok, has_active_order_ok, promo_for-OnlyPromos,
}

-- What an operation on orders keeps.
pub record Keeps {V : Type 0} (d d' : Db V) : Type 0 where
  pub consistent : IsConsistent d'
  pub same_supply : (p : Uuid) → supply p d' ≡ supply p d
  pub not_oversold :
      ((p : Uuid) → pos 0 ≤ℤ stock_in p d.products) → (p : Uuid) → pos 0 ≤ℤ stock_in p d'.products

module _ {V : Type 0} where
  pub Keeps-refl : (d : Db V) → IsConsistent d → Keeps d d
  Keeps-refl d sound = record { consistent = sound; same_supply = λ p. refl; not_oversold = λ n. n }

  -- A database whose orders, items and products are those of another keeps what that one keeps.
  pub SameSupply_tables :
      (start : Db V) {g g' : Db V}
      → OnlyPromos g g'
      → IsConsistent g × ((p : Uuid) → supply p g ≡ supply p start)
      → IsConsistent g' × ((p : Uuid) → supply p g' ≡ supply p start)
  SameSupply_tables start {g} {g'} o k = (
    subst (λ its. All (HasRows g') its) (sym o.order_items)
        (All-map (HasRows g) (HasRows g')
          (λ it h. (
            subst (λ os. has_key order_key it.order_id os ≡ true) (sym o.orders) h.0,
            subst (λ ps. has_key product_key it.product_id ps ≡ true) (sym o.products) h.1,
          ))
          g.order_items k.0),
    λ p.
        let tables : supply p g' ≡ supply p g =
          λ i. stock_in p (o.products i) +ℤ held p (o.orders i) (o.order_items i) in
        tables ∙ k.1 p,
  )

  Keeps-tables : {start g g' : Db V} → OnlyPromos g g' → Keeps start g → Keeps start g'
  Keeps-tables {start} o k =
      let (consistent, same) = SameSupply_tables start o (k.consistent, k.same_supply) in
      record {
        consistent = consistent;
        same_supply = same;
        not_oversold =
            λ h p. subst (λ ps. pos 0 ≤ℤ stock_in p ps) (sym o.products) (k.not_oversold h p);
      }

module _ {V : Type 0} ⦃f : Float64 V⦄ where
  pub ordered-set_order_id :
      (p id : Uuid) (items : List (OrderItem V))
      → ordered p (map (set_order_id id) items) ≡ ordered p items
  ordered-set_order_id p id [] = refl
  ordered-set_order_id p id (it ∷ items) = rw (ordered-set_order_id p id items)

  pub HasProduct-set_order_id :
      (d : Db V) (id : Uuid) (items : List (OrderItem V))
      → All (HasProduct d) items
      → All (HasProduct d) (map (set_order_id id) items)
  HasProduct-set_order_id d id [] h = tt
  HasProduct-set_order_id d id (it ∷ items) h = (h.0, HasProduct-set_order_id d id items h.1)

  pub after_promo :
      {start d d' : Db V} {items : List (OrderItem V)}
      → Reserved start d [] items
      → OnlyPromos d d'
      → Reserved start d' [] items
  after_promo {start} {items} r o = record {
    only = record {
      orders = o.orders ∙ r.only.orders;
      order_items = o.order_items ∙ r.only.order_items;
      rows = λ k. ap (λ ps. has_key product_key k ps) o.products ∙ r.only.rows k;
    };
    balance = λ p. ap (λ ps. stock_in p ps +ℤ ordered p items) o.products ∙ r.balance p;
    have_products = λ h.
        subst (λ ps. All (λ it. has_key product_key it.product_id ps ≡ true) items) (sym o.products)
          (r.have_products h);
    not_oversold =
        λ h p. subst (λ ps. pos 0 ≤ℤ stock_in p ps) (sym o.products) (r.not_oversold h p);
  }

  pub place_order-Keeps :
      (user_id : Uuid) (items : List (OrderItem V)) (total : V) (promo : Option Uuid × V)
      (start : Db V) (env : Env) (s : Session V) {o : Order V} {s' : Session V}
      → IsConsistent start
      → Reserved start s.db [] items
      → place_order user_id items total promo env s ≡ (ok o, s')
      → Keeps start s'.db
  unfolding place_order insert_user_op
  place_order-Keeps user_id items total promo start env s sound r h =
      after_bind _ _ env s h λ o1 t1 e1 h1. after_bind _ _ env t1 h1 λ listed t2 e2 h2.
        after_bind _ _ env t2 h2 λ _ t3 e3 h3.
          let i = insert_order_ok (fresh_order user_id items total promo) env s e1 in
          let a =
            insert_order_items_ok o1.id (map (set_order_id o1.id) items) env t1 listed t2 e2 in
          let (_, stay) = pure_ok _ env t3 h3 in
          let live = ap (λ (x : Order V). same_status x.status canceled) i.same in
          let same = ordered-set_order_id in
          let rows = HasProduct-set_order_id s.db o1.id items (r.have_products tt) in
          Keeps-tables {g = t2.db}
            (rw (stay, exec_ok _ env t2 e3)
              (record { products = refl; orders = refl; order_items = refl }))
            (record {
              consistent =
                  placed-IsConsistent start s.db t1.db t2.db items _ _ o1 _ sound r i a live
                    (λ p. same p o1.id items) rows;
              same_supply =
                  placed_supply start s.db t1.db t2.db items _ _ o1 _ sound r i a live
                    (λ p. same p o1.id items) rows;
              not_oversold = λ n p.
                  subst (λ ps. pos 0 ≤ℤ stock_in p ps)
                    (sym (
                      g_products start s.db t1.db t2.db items _ _ o1 _ sound r i a live
                        (λ p. same p o1.id items) rows))
                    (r.not_oversold n p);
            })

  create_body-Keeps :
      (limit : ℤ) (user_id : Uuid) (reqs : List OrderItemRequest) (code : Option String) (env : Env)
      (s : Session V) (o : Order V) (s' : Session V)
      → IsConsistent s.db
      → create_body limit user_id reqs code env s ≡ (ok o, s')
      → Keeps s.db s'.db
  unfolding create_body reserve_items
  create_body-Keeps limit user_id reqs code env s o s' sound h =
      after_bind _ _ env s h λ limited t1 e1 h1. after_guard _ _ _ env t1 h1 λ _ h2.
        after_bind _ _ env t1 h2 λ has_active t3 e3 h3. after_guard _ _ _ env t3 h3 λ _ h4.
          after_bind _ _ env t3 h4 λ reserved t5 e5 h5. after_bind _ _ env t5 h5 λ promo t6 e6 h6.
            let same =
              has_active_order_ok user_id env t1 e3
              ∙ rate_limit_check_ok user_id create_order limit env s e1 in
            let r : Reserved s.db t5.db [] reserved.0 =
              subst (λ d. Reserved d t5.db [] reserved.0) same
                (reserve_from-Reserved [] f.zero reqs env t3 reserved t5 e5) in
            place_order-Keeps user_id reserved.0 reserved.1 promo s.db env t6 sound
              (after_promo r (promo_for-OnlyPromos code reserved.1 env t5 e6)) h6

  create-Keeps :
      (limit : ℤ) (user_id : Uuid) (reqs : List OrderItemRequest) (code : Option String) (env : Env)
      (s : Session V)
      → IsConsistent s.db
      → Keeps s.db (create limit user_id reqs code env s).1.db
  unfolding create
  create-Keeps limit user_id reqs code env s sound =
      with_tx_inv (create_body limit user_id reqs code) env s (Keeps s.db) (Keeps-refl s.db sound)
        λ o s' h. create_body-Keeps limit user_id reqs code env (next_call s) o s' sound h

  -- `Create` keeps the supply of every product, its stock and what open orders hold of it taken
  -- together, and the foreign keys of the items, if these hold before. So it does however it ends:
  -- with an order or with an error, whichever statements are refused, and whether or not the commit
  -- is acknowledged.
  pub create-supply :
      (limit : ℤ) (user_id : Uuid) (reqs : List OrderItemRequest) (code : Option String) (env : Env)
      (s : Session V) (p : Uuid)
      → IsConsistent s.db
      → IsConsistent (create limit user_id reqs code env s).1.db
        × (supply p (create limit user_id reqs code env s).1.db ≡ supply p s.db)
  create-supply limit user_id reqs code env s p sound =
      let k = create-Keeps limit user_id reqs code env s sound in (k.consistent, k.same_supply p)

  -- No product is oversold: if no product's stock is below zero and the foreign keys of the items
  -- hold, then no product's stock is below zero after `Create`, however it ends.
  pub create_not_oversold :
      (limit : ℤ) (user_id : Uuid) (reqs : List OrderItemRequest) (code : Option String) (env : Env)
      (s : Session V) (p : Uuid)
      → IsConsistent s.db
      → ((q : Uuid) → pos 0 ≤ℤ stock_in q s.db.products)
      → pos 0 ≤ℤ stock_in p (create limit user_id reqs code env s).1.db.products
  create_not_oversold limit user_id reqs code env s p sound n =
      let k = create-Keeps limit user_id reqs code env s sound in k.not_oversold n p
