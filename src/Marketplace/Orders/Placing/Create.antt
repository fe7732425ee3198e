-- ===== src/Marketplace/Orders/Placing/Create.antt =====
-- `Create` comes to its end.
use mathlib.Core.Path.{subst}
use service_oriented_hw.Common.{ℕ, ◌+◌, ◌≡◌, refl, sym, ◌∙◌, false, none, List, [], arith, count_if}
use service_oriented_hw.Common.Int.{ℤ, ◌-ℤ◌}
use service_oriented_hw.Common.Float.{Float64}
use service_oriented_hw.Marketplace.Domain.{Uuid, Order, OrderItemRequest, create_order}
use service_oriented_hw.Marketplace.Session.{
  Db, Env, Session, acknowledged, ok, ◌>>=◌, query, read_clock, next_call,
}
use service_oriented_hw.Marketplace.Session.Steps.{bind_ok, bind_passed}
use service_oriented_hw.Marketplace.Repository.Orders.{
  active_of, recent, minutes, has_active_order, rate_limit_check, has_order, item_taken,
}
use service_oriented_hw.Marketplace.Repository.Tx.{with_tx, finish}
use service_oriented_hw.Marketplace.Orders.Usecase.{create, create_body, reserve_items, promo_for}
use service_oriented_hw.Marketplace.Orders.Placing.{Covers, priced, reserve_from_runs}
use service_oriented_hw.Marketplace.Orders.Placing.Rows.{IsPlaced, place_order_runs}

module _ {V : Type 0} ⦃f : Float64 V⦄ where
  same_orders :
      (id : Uuid) (d e : Db V)
      → e.orders ≡ d.orders
      → has_order id d ≡ false
      → has_order id e ≡ false
  same_orders id d e same h = rw same h

  module _ (env : Env) (up : (n : ℕ) → env.refuses n ≡ false)
      (apart : (m n : ℕ) → env.new_uuid m ≡ env.new_uuid n → m ≡ n) where
    rate_limit_check_passes :
        (user_id : Uuid) (limit : ℤ) (s : Session V)
        → count_if
            (recent user_id create_order (env.clock s.calls -ℤ minutes limit))
            s.db.user_operations
          ≡ 0
        → rate_limit_check user_id create_order limit env s ≡ (ok false, next_call (next_call s))
    unfolding rate_limit_check ◌>>=◌ query read_clock
    rate_limit_check_passes user_id limit s quiet = let u = up (s.calls + 1) in ground arith

    has_active_order_none :
        (user_id : Uuid) (s : Session V)
        → count_if (active_of user_id) s.db.orders ≡ 0
        → has_active_order user_id env s ≡ (ok false, next_call s)
    unfolding has_active_order ◌>>=◌ query
    has_active_order_none user_id s idle = let u = up s.calls in ground arith

    create_body_runs :
        (limit : ℤ) (user_id : Uuid) (reqs : List OrderItemRequest) (s : Session V)
        → count_if
            (recent user_id create_order (env.clock s.calls -ℤ minutes limit))
            s.db.user_operations
          ≡ 0
        → count_if (active_of user_id) s.db.orders ≡ 0
        → Covers s.db.products reqs
        → ((n : ℕ) → has_order (env.new_uuid n) s.db ≡ false)
        → ((n : ℕ) → item_taken (env.new_uuid n) s.db.order_items ≡ false)
        → (o : Order V) × (t : Session V) × (create_body limit user_id reqs none env s ≡ (ok o, t))
          × IsPlaced user_id (priced s.db.products reqs) o
    unfolding create_body reserve_items promo_for
    create_body_runs limit user_id reqs s quiet idle covers new_orders new_items =
        let s1 = next_call (next_call s) in
        let s2 = next_call s1 in
        let (s3, reserved, kept) = reserve_from_runs env up reqs [] f.zero s2 covers in
        let new =
          same_orders (env.new_uuid s3.calls) s2.db s3.db kept.orders (new_orders s3.calls) in
        let (o, t, placed, is) =
          place_order_runs env up apart user_id s.db.products reqs s3 new (λ n later.
            subst (λ its. item_taken (env.new_uuid n) its ≡ false) (sym kept.order_items)
              (new_items n)) in
        (
          o,
          t,
          bind_passed _ _ _ env s (rate_limit_check_passes user_id limit s quiet)
              ∙ bind_passed _ _ _ env s1 (has_active_order_none user_id s1 idle)
              ∙ bind_ok _ _ env s2 reserved
              ∙ bind_ok _ _ env s3 refl
              ∙ placed,
          is,
        )

    -- `Create` without a promo code succeeds and returns the order with the requested items at the
    -- prices of the catalogue, their total, no discount and the status CREATED, if no statement is
    -- refused and the commit is acknowledged, the user has no order in the minutes of the limit and
    -- no active one, the products are active and their stock covers the requests, and the ids that
    -- the database draws are new and differ from one another.
    pub create_succeeds :
        (limit : ℤ) (user_id : Uuid) (reqs : List OrderItemRequest) (s : Session V)
        → env.commit ≡ acknowledged
        → count_if
            (recent user_id create_order (env.clock (s.calls + 1) -ℤ minutes limit))
            s.db.user_operations
          ≡ 0
        → count_if (active_of user_id) s.db.orders ≡ 0
        → Covers s.db.products reqs
        → ((n : ℕ) → has_order (env.new_uuid n) s.db ≡ false)
        → ((n : ℕ) → item_taken (env.new_uuid n) s.db.order_items ≡ false)
        → (o : Order V) × ((create limit user_id reqs none env s).0 ≡ ok o)
          × IsPlaced user_id (priced s.db.products reqs) o
    unfolding create with_tx finish
    create_succeeds limit user_id reqs s commits quiet idle covers new_orders new_items =
        let (o, t, e, is) =
          create_body_runs limit user_id reqs (next_call s) quiet idle covers new_orders
            new_items in
        (o, rw (up s.calls, e, commits), is)
