-- ===== src/Marketplace/Orders/Placing/Rows.antt =====
-- The rows that `Create` writes.
use service_oriented_hw.Common.{
  ℕ, ◌+◌, ◌≤◌, ◌≡◌, ◌≢◌, refl, ap, ◌∙◌, Bool, false, none, List, [], ◌∷◌, ◌++◌, map, arith,
}
use service_oriented_hw.Common.Int.{ℤ}
use service_oriented_hw.Common.Float.{Float64}
use service_oriented_hw.Marketplace.Domain.{
  Uuid, Product, Order, OrderItem, OrderItemRequest, created, create_order,
}
use service_oriented_hw.Marketplace.Session.{Db, Env, Session, ok, exec, insert}
use service_oriented_hw.Marketplace.Session.Steps.{bind_ok}
use service_oriented_hw.Marketplace.Repository.Orders.{
  has_order, insert_order, insert_order_item, insert_order_items, insert_user_op, item_taken,
  item_row, order_row, new_order,
}
use service_oriented_hw.Marketplace.Orders.Usecase.{place_order, fresh_order, set_order_id}
use service_oriented_hw.Marketplace.Orders.Placing.{priced, total_of}

-- An item before the database has given it an id.
abbrev pub unnumbered : {V : Type 0} → OrderItem V → OrderItem V
unnumbered item = record item { id = 0 }

module _ {V : Type 0} ⦃f : Float64 V⦄ where
  -- The order that `Create` returns for these products and requests.
  pub record IsPlaced (user_id : Uuid) (lines : List (OrderItem V)) (o : Order V) : Type 0 where
    pub owner : o.user_id ≡ user_id
    pub status : o.status ≡ created
    pub items : map unnumbered o.items ≡ map (set_order_id o.id) lines
    pub total : o.total_amount ≡ total_of f.zero lines
    pub discount : o.discount_amount ≡ f.zero
    pub promo : o.promo_code_id ≡ none

  unnumbered-priced :
      (id : Uuid) (products : List (Product V)) (reqs : List OrderItemRequest)
      → map unnumbered (map (set_order_id id) (priced products reqs))
        ≡ map (set_order_id id) (priced products reqs)
  unnumbered-priced id products [] = refl
  unnumbered-priced id products (req ∷ reqs) = rw (unnumbered-priced id products reqs) refl

  item_taken-append :
      (id : Uuid) (its : List (OrderItem V)) (it : OrderItem V)
      → item_taken id its ≡ false
      → id ≢ it.id
      → item_taken id (its ++ it ∷ []) ≡ false
  item_taken-append id [] it h other = ground (arith, other)
  item_taken-append id (x ∷ its) it h other = ground (arith, item_taken-append id its it, other)

  module _ (env : Env) (up : (n : ℕ) → env.refuses n ≡ false)
      (apart : (m n : ℕ) → env.new_uuid m ≡ env.new_uuid n → m ≡ n) where
    -- The ids to come are free.
    abbrev pub Free : Session V → Type 0
    Free s = (n : ℕ) → s.calls ≤ n → item_taken (env.new_uuid n) s.db.order_items ≡ false

    insert_runs :
        {A : Type 0} (taken : Uuid → Db V → Bool) (row : Uuid → ℤ → A) (write : A → Db V → Db V)
        (s : Session V)
        → taken (env.new_uuid s.calls) s.db ≡ false
        → insert taken row write env s ≡ (
          ok (row (env.new_uuid s.calls) env.tx_time),
          record { db = write (row (env.new_uuid s.calls) env.tx_time) s.db; calls = s.calls + 1 },
        )
    unfolding insert
    insert_runs taken row write s new = rw (up s.calls, new) refl

    insert_user_op_runs :
        (user_id : Uuid) (s : Session V)
        → (t : Session V) × (insert_user_op user_id create_order env s ≡ (ok tt, t))
    unfolding insert_user_op exec
    insert_user_op_runs user_id s = ((insert_user_op user_id create_order env s).1, rw (up s.calls))

    insert_order_item_runs :
        (order_id : Uuid) (item : OrderItem V) (s : Session V)
        → Free s
        → (t : Session V) × (insert_order_item order_id item env s
            ≡ (ok (record item { id = env.new_uuid s.calls }), t))
          × Free t
    unfolding insert_order_item
    insert_order_item_runs order_id item s free =
        let item' = record item { id = env.new_uuid s.calls } in
        let row = item_row order_id item' in
        (
          record {
            db = record s.db { order_items = s.db.order_items ++ row ∷ [] };
            calls = s.calls + 1;
          },
          insert_runs _ _ _ s (free s.calls (omega arith)),
          λ n later.
              item_taken-append (env.new_uuid n) s.db.order_items row (free n (omega arith))
                (λ same. omega (arith, apart n s.calls same)),
        )

    insert_order_items_runs :
        (order_id : Uuid) (items : List (OrderItem V)) (s : Session V)
        → Free s
        → (out : List (OrderItem V)) × (t : Session V) × (insert_order_items order_id items env s
            ≡ (ok out, t))
          × (map unnumbered out ≡ map unnumbered items)
    unfolding insert_order_items
    insert_order_items_runs order_id [] s free = ([], s, refl, refl)
    insert_order_items_runs order_id (item ∷ items) s free =
        let (t, first, free') = insert_order_item_runs order_id item s free in
        let (out, t', rest, same) = insert_order_items_runs order_id items t free' in
        (
          record item { id = env.new_uuid s.calls } ∷ out,
          t',
          bind_ok _ _ env s first ∙ bind_ok _ _ env t rest,
          ap (λ its. unnumbered item ∷ its) same,
        )

    pub place_order_runs :
        (user_id : Uuid) (products : List (Product V)) (reqs : List OrderItemRequest)
        (s : Session V)
        → has_order (env.new_uuid s.calls) s.db ≡ false
        → Free s
        → (o : Order V) × (t : Session V) × (place_order user_id
              (priced products reqs)
              (total_of f.zero (priced products reqs))
              (none, f.zero)
              env
              s
            ≡ (ok o, t))
          × IsPlaced user_id (priced products reqs) o
    unfolding place_order insert_order
    place_order_runs user_id products reqs s new free =
        let lines = priced products reqs in
        let id = env.new_uuid s.calls in
        let order =
          new_order (fresh_order user_id lines (total_of f.zero lines) (none, f.zero)) id
            env.tx_time in
        let s1 : Session V = record {
          db = record s.db { orders = s.db.orders ++ order_row order ∷ [] };
          calls = s.calls + 1;
        } in
        let inserted : insert_order
              (fresh_order user_id lines (total_of f.zero lines) (none, f.zero)) env s
            ≡ (ok order, s1) =
          insert_runs _ _ _ s new in
        let (out, s2, listed, same) =
          insert_order_items_runs id (map (set_order_id id) lines) s1
            (λ n later. free n (omega arith)) in
        let (s3, noted) = insert_user_op_runs user_id s2 in
        (
          record order { items = out },
          s3,
          bind_ok _ _ env s inserted ∙ bind_ok _ _ env s1 listed ∙ bind_ok _ _ env s2 noted,
          record {
            owner = refl;
            status = refl;
            items = same ∙ unnumbered-priced id products reqs;
            total = refl;
            discount = refl;
            promo = refl;
          },
        )
