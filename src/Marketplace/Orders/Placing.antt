-- ===== src/Marketplace/Orders/Placing.antt =====
-- `reserveItems` comes to its end if the products are on sale and their stock covers the request.
pub mod Rows
pub mod Create
use service_oriented_hw.Common.{
  ℕ, ◌+◌, ◌≡◌, refl, ap, sym, ◌∙◌, Bool, true, false, Option, none, some, List, [], ◌∷◌, ◌++◌, map,
  arith, ◌==◌, if◌then◌else◌, All, All-map, ==_iff,
}
use mathlib.Core.List.{append_assoc, append-nil}
use service_oriented_hw.Common.Int.{ℤ, pos, ◌+ℤ◌, ◌-ℤ◌, ◌≤ℤ◌, ltb_ℤ, int_laws, +ℤ_parts, -ℤ_parts}
use service_oriented_hw.Common.Float.{Float64}
use service_oriented_hw.Common.Table.{find_by, modify_by, find_by-modify_by}
use service_oriented_hw.Marketplace.Domain.{Uuid, Product, OrderItem, OrderItemRequest}
use service_oriented_hw.Marketplace.Session.{
  Db, Env, Session, Result, ok, ◌>>=◌, query, exec, next_call,
}
use service_oriented_hw.Marketplace.Session.Steps.{bind_ok}
use service_oriented_hw.Marketplace.Repository.Orders.{
  product_key, lock_product, decrease_stock, set_stock,
}
use service_oriented_hw.Marketplace.Orders.Usecase.{
  is_on_sale, order_line, reserve_item, add_line, reserve_from,
}
use service_oriented_hw.Marketplace.Supply.{stock_in, stock_of}
use service_oriented_hw.Marketplace.Supply.Tables.{stock_in_write}

-- How much of a product a list of requests asks for.
abbrev pub requested : Uuid → List OrderItemRequest → ℤ
requested p [] = pos 0
requested p (req ∷ reqs) =
    if req.product_id == p then req.quantity +ℤ requested p reqs else requested p reqs

abbrev pub IsCount : OrderItemRequest → Type 0
IsCount req = pos 0 ≤ℤ req.quantity

requested_not_negative :
    (p : Uuid) (reqs : List OrderItemRequest) → All IsCount reqs → pos 0 ≤ℤ requested p reqs
requested_not_negative p [] h = omega arith
requested_not_negative p (req ∷ reqs) h =
    ground (arith, requested_not_negative p reqs h.1, +ℤ_parts req.quantity (requested p reqs))

module _ {V : Type 0} where
  abbrev pub sold : Option (Product V) → Bool
  sold none = false
  sold (some p) = is_on_sale p.status

  -- The product is there and active.
  abbrev pub is_sold : List (Product V) → Uuid → Bool
  is_sold products p = sold (find_by product_key p products)

  -- What an order does to the table for one product.
  abbrev taken : OrderItemRequest → Env → List (Product V) → List (Product V)
  taken req env products =
      modify_by product_key req.product_id (λ p. set_stock (p.stock -ℤ req.quantity) env.tx_time p)
        products

  is_sold-taken :
      (req : OrderItemRequest) (env : Env) (products : List (Product V)) (p : Uuid)
      → is_sold (taken req env products) p ≡ is_sold products p
  is_sold-taken req env products p = ground (
    arith,
    find_by-modify_by product_key p req.product_id
        (λ (q : Product V). set_stock (q.stock -ℤ req.quantity) env.tx_time q) products (λ q. refl),
  )

  stock_in-taken :
      (req : OrderItemRequest) (env : Env) (products : List (Product V)) (p : Uuid)
      → is_sold products req.product_id ≡ true
      → stock_in p (taken req env products)
        ≡ (if req.product_id == p then stock_in p products -ℤ req.quantity else stock_in p products)
  stock_in-taken req env products p there =
      stock_in_write p req.product_id (λ n. n -ℤ req.quantity) env.tx_time products (ground arith)

  -- The products of all requests are on sale, and their stock is as much as is asked for.
  pub record Covers (products : List (Product V)) (reqs : List OrderItemRequest) : Type 0 where
    pub on_sale : All (λ req. is_sold products req.product_id ≡ true) reqs
    pub counts : All IsCount reqs
    pub enough : (p : Uuid) → requested p reqs ≤ℤ stock_in p products

  Covers-taken :
      (req : OrderItemRequest) (reqs : List OrderItemRequest) (env : Env)
      (products : List (Product V))
      → Covers products (req ∷ reqs)
      → Covers (taken req env products) reqs
  Covers-taken req reqs env products c = record {
    on_sale =
        All-map (λ r. is_sold products r.product_id ≡ true)
          (λ r. is_sold (taken req env products) r.product_id ≡ true)
          (λ r h. is_sold-taken req env products r.product_id ∙ h) reqs c.on_sale.1;
    counts = c.counts.1;
    enough = λ p.
        let after = stock_in-taken req env products p c.on_sale.0 in
        ground (
          arith,
          after,
          c.enough p,
          +ℤ_parts req.quantity (requested p reqs),
          -ℤ_parts (stock_in p products) req.quantity,
        );
  }

  covered_now :
      (req : OrderItemRequest) (reqs : List OrderItemRequest) (products : List (Product V))
      → Covers products (req ∷ reqs)
      → req.quantity ≤ℤ stock_in req.product_id products
  covered_now req reqs products c = ground (
    arith,
    ==_iff req.product_id req.product_id,
    c.enough req.product_id,
    requested_not_negative req.product_id reqs c.counts.1,
    +ℤ_parts req.quantity (requested req.product_id reqs),
  )

module _ {V : Type 0} ⦃f : Float64 V⦄ where
  abbrev pub price_of : Option (Product V) → V
  price_of none = f.zero
  price_of (some p) = p.price

  -- The items of an order at the prices of the catalogue.
  abbrev pub priced : List (Product V) → List OrderItemRequest → List (OrderItem V)
  priced products [] = []
  priced products (req ∷ reqs) =
      order_line req (price_of (find_by product_key req.product_id products)) ∷ priced products reqs

  -- Their total, added up in the order of the items.
  abbrev pub total_of : V → List (OrderItem V) → V
  total_of total [] = total
  total_of total (item ∷ items) = total_of (add_line total item) items

  price_of-taken :
      (req : OrderItemRequest) (env : Env) (products : List (Product V)) (p : Uuid)
      → price_of (find_by product_key p (taken req env products))
        ≡ price_of (find_by product_key p products)
  price_of-taken req env products p = ground (
    arith,
    find_by-modify_by product_key p req.product_id
        (λ (q : Product V). set_stock (q.stock -ℤ req.quantity) env.tx_time q) products (λ q. refl),
  )

  priced-taken :
      (req : OrderItemRequest) (env : Env) (products : List (Product V))
      (reqs : List OrderItemRequest)
      → priced (taken req env products) reqs ≡ priced products reqs
  priced-taken req env products [] = refl
  priced-taken req env products (r ∷ reqs) =
      rw (price_of-taken req env products r.product_id, priced-taken req env products reqs)

  module _ (env : Env) (up : (n : ℕ) → env.refuses n ≡ false) where
    reserve_item_runs :
        (req : OrderItemRequest) (s : Session V)
        → is_sold s.db.products req.product_id ≡ true
        → req.quantity ≤ℤ stock_in req.product_id s.db.products
        → reserve_item req env s ≡ (
          ok (order_line req (price_of (find_by product_key req.product_id s.db.products))),
          record {
            db = record s.db { products = taken req env s.db.products };
            calls = s.calls + 1 + 1;
          },
        )
    unfolding reserve_item lock_product decrease_stock ◌>>=◌ query exec
    reserve_item_runs req s there enough =
        let u = up s.calls in let u' = up (s.calls + 1) in ground arith

    -- What `reserveItems` leaves alone.
    pub record Keeps (s t : Session V) : Type 0 where
      pub orders : t.db.orders ≡ s.db.orders
      pub order_items : t.db.order_items ≡ s.db.order_items

    pub reserve_from_runs :
        (reqs : List OrderItemRequest) (done : List (OrderItem V)) (total : V) (s : Session V)
        → Covers s.db.products reqs
        → (t : Session V) × (reserve_from done total reqs env s ≡ (
          ok (done ++ priced s.db.products reqs, total_of total (priced s.db.products reqs)),
          t,
        ))
          × Keeps s t
    unfolding reserve_from
    reserve_from_runs [] done total s c =
        (s, rw append-nil, record { orders = refl; order_items = refl })
    reserve_from_runs (req ∷ reqs) done total s c =
        let item = order_line req (price_of (find_by product_key req.product_id s.db.products)) in
        let s1 : Session V = record {
          db = record s.db { products = taken req env s.db.products };
          calls = s.calls + 1 + 1;
        } in
        let first = reserve_item_runs req s c.on_sale.0 (covered_now req reqs s.db.products c) in
        let (t, rest, kept) =
          reserve_from_runs reqs (done ++ item ∷ []) (add_line total item) s1
            (Covers-taken req reqs env s.db.products c) in
        (
          t,
          bind_ok _ _ env s first
              ∙ rest
              ∙ rw (priced-taken req env s.db.products reqs, append_assoc) refl,
          record { orders = kept.orders; order_items = kept.order_items },
        )
