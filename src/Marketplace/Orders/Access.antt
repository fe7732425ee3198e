-- ===== src/Marketplace/Orders/Access.antt =====
-- Who may read, cancel and change an order.
use service_oriented_hw.Common.{ℕ, ◌+◌, ◌≡◌, ◌≢◌, false, some, List, arith}
use service_oriented_hw.Common.Int.{ℤ}
use service_oriented_hw.Common.Float.{Float64}
use service_oriented_hw.Common.Table.{find_by}
use service_oriented_hw.Marketplace.Domain.{
  Uuid, Order, OrderItemRequest, UserClaims, admin, forbidden,
}
use service_oriented_hw.Marketplace.Session.{Env, Session, err, ◌>>=◌, query, query_rows, next_call}
use service_oriented_hw.Marketplace.Repository.Orders.{
  order_key, get_order_for_update, get_by_id as find_order,
}
use service_oriented_hw.Marketplace.Repository.Tx.{with_tx, finish}
use service_oriented_hw.Marketplace.Orders.Usecase.{
  get_by_id, cancel, cancel_body, update, update_body, may_touch,
}

may_touch_stranger :
    (claims : UserClaims) (owner : Uuid)
    → claims.role ≢ admin
    → owner ≢ claims.user_id
    → may_touch claims owner ≡ false
may_touch_stranger claims owner no_admin other = ground arith

module _ {V : Type 0} where
  get_stranger :
      (id : Uuid) (claims : UserClaims) (o : Order V) (env : Env) (s : Session V)
      → may_touch claims o.user_id ≡ false
      → find_by order_key id (s.db).orders ≡ some o
      → env.refuses s.calls ≡ false
      → env.refuses (s.calls + 1) ≡ false
      → (get_by_id id claims env s).0 ≡ err forbidden
  unfolding get_by_id find_order query query_rows ◌>>=◌
  get_stranger id claims o env s barred row up up' = ground arith

  cancel_body_stranger :
      (id : Uuid) (claims : UserClaims) (o : Order V) (env : Env) (s : Session V)
      → may_touch claims o.user_id ≡ false
      → find_by order_key id (s.db).orders ≡ some o
      → env.refuses s.calls ≡ false
      → cancel_body id claims env s ≡ (err forbidden, next_call s)
  unfolding cancel_body get_order_for_update query query_rows ◌>>=◌
  cancel_body_stranger id claims o env s barred row up = ground arith

module _ {V : Type 0} ⦃f : Float64 V⦄ where
  update_body_stranger :
      (limit : ℤ) (id : Uuid) (claims : UserClaims) (reqs : List OrderItemRequest) (o : Order V)
      (env : Env) (s : Session V)
      → may_touch claims o.user_id ≡ false
      → find_by order_key id (s.db).orders ≡ some o
      → env.refuses s.calls ≡ false
      → update_body limit id claims reqs env s ≡ (err forbidden, next_call s)
  unfolding update_body get_order_for_update query query_rows ◌>>=◌
  update_body_stranger limit id claims reqs o env s barred row up = ground arith

  -- A user who is no ADMIN and not the order's own can neither read, nor cancel, nor change the
  -- order, if its row is there and no statement is refused: all three calls end with `ErrForbidden`,
  -- and the database is the same.
  pub stranger_forbidden :
      (limit : ℤ) (id : Uuid) (claims : UserClaims) (reqs : List OrderItemRequest) (o : Order V)
      (env : Env) (s : Session V)
      → claims.role ≢ admin
      → o.user_id ≢ claims.user_id
      → find_by order_key id (s.db).orders ≡ some o
      → ((n : ℕ) → env.refuses n ≡ false)
      → ((get_by_id id claims env s).0 ≡ err forbidden)
        × ((cancel id claims env s).0 ≡ err forbidden)
        × ((cancel id claims env s).1.db ≡ s.db)
        × ((update limit id claims reqs env s).0 ≡ err forbidden)
        × ((update limit id claims reqs env s).1.db ≡ s.db)
  unfolding cancel update with_tx finish
  stranger_forbidden limit id claims reqs o env s no_admin other row up =
      let barred = may_touch_stranger claims o.user_id no_admin other in
      let c = cancel_body_stranger id claims o env (next_call s) barred row (up (s.calls + 1)) in
      let u =
        update_body_stranger limit id claims reqs o env (next_call s) barred row
          (up (s.calls + 1)) in
      (
        get_stranger id claims o env s barred row (up s.calls) (up (s.calls + 1)),
        rw (up s.calls, c),
        rw (up s.calls, c),
        rw (up s.calls, u),
        rw (up s.calls, u),
      )
