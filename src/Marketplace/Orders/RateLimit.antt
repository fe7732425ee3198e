-- ===== src/Marketplace/Orders/RateLimit.antt =====
-- The log of a user's operations, and the time between two orders.
use mathlib.Core.Path.{subst}
use service_oriented_hw.Common.{
  ℕ, ◌+◌, ◌<◌, ◌≡◌, refl, ap, sym, true, false, Option, List, [], ◌∷◌, ◌++◌, String, arith,
  count_if, count_if-append,
}
use service_oriented_hw.Common.Int.{ℤ, ◌-ℤ◌, ◌<ℤ◌}
use service_oriented_hw.Common.Float.{Float64}
use service_oriented_hw.Marketplace.Domain.{
  Uuid, Time, Order, OrderItem, OrderItemRequest, create_order, order_limit_exceeded,
}
use service_oriented_hw.Marketplace.Session.{
  UserOperation, Db, Env, Session, ok, err, ◌>>=◌, query, read_clock, next_call,
}
use service_oriented_hw.Marketplace.Session.Steps.{after_bind, pure_ok, exec_ok, bind_refused}
use service_oriented_hw.Marketplace.Repository.Orders.{
  rate_limit_check, recent, minutes, insert_user_op,
}
use service_oriented_hw.Marketplace.Repository.Tx.{with_tx, finish, with_tx_atomic, AllOrNothing}
use service_oriented_hw.Marketplace.Orders.Usecase.{create, create_body, place_order}
use service_oriented_hw.Marketplace.Orders.Second.{create_body_placed}

-- Orders of the user later than the time are in the log.
abbrev logged_after : Uuid → Time → List UserOperation → ℕ
logged_after user_id cutoff ops = count_if (recent user_id create_order cutoff) ops

module _ {V : Type 0} where
  insert_user_op_logs :
      (user_id : Uuid) (cutoff : Time) (env : Env) (s : Session V) {u : Unit {0}} {s' : Session V}
      → insert_user_op user_id create_order env s ≡ (ok u, s')
      → cutoff <ℤ env.tx_time
      → 0 < logged_after user_id cutoff s'.db.user_operations
  unfolding insert_user_op
  insert_user_op_logs user_id cutoff env s {u} {s'} h late =
      let op : UserOperation = record {
        user_id = user_id;
        operation_type = create_order;
        created_at = env.tx_time;
      } in
      let written : s'.db.user_operations ≡ s.db.user_operations ++ op ∷ [] =
        ap (λ (x : Db V). x.user_operations) (exec_ok _ env s h) in
      let counts : recent user_id create_order cutoff op ≡ true = ground arith in
      rw written (
        ground (
          arith,
          count_if-append (recent user_id create_order cutoff) s.db.user_operations (op ∷ []),
          counts,
        ))

  rate_limit_check_late :
      (user_id : Uuid) (limit : ℤ) (env : Env) (s : Session V)
      → ((n : ℕ) → env.refuses n ≡ false)
      → 0 < logged_after user_id (env.clock s.calls -ℤ minutes limit) s.db.user_operations
      → rate_limit_check user_id create_order limit env s ≡ (ok true, next_call (next_call s))
  unfolding rate_limit_check ◌>>=◌ query read_clock
  rate_limit_check_late user_id limit env s up some_logged =
      let u = up (s.calls + 1) in ground arith

module _ {V : Type 0} ⦃f : Float64 V⦄ where
  place_order_logs :
      (user_id : Uuid) (items : List (OrderItem V)) (total : V) (promo : Option Uuid × V)
      (cutoff : Time) (env : Env) (s : Session V) (o : Order V) (s' : Session V)
      → place_order user_id items total promo env s ≡ (ok o, s')
      → cutoff <ℤ env.tx_time
      → 0 < logged_after user_id cutoff s'.db.user_operations
  unfolding place_order
  place_order_logs user_id items total promo cutoff env s o s' h late =
      after_bind _ _ env s h λ o1 t1 e1 h1. after_bind _ _ env t1 h1 λ listed t2 e2 h2.
        after_bind _ _ env t2 h2 λ _ t3 e3 h3.
          subst (λ (t : Session V). 0 < logged_after user_id cutoff t.db.user_operations)
            (sym ((pure_ok _ env t3 h3).1)) (insert_user_op_logs user_id cutoff env t2 e3 late)

  create_logs :
      (limit : ℤ) (user_id : Uuid) (reqs : List OrderItemRequest) (code : Option String)
      (cutoff : Time) (env : Env) (s : Session V) (o : Order V) (s' : Session V)
      → create limit user_id reqs code env s ≡ (ok o, s')
      → cutoff <ℤ env.tx_time
      → 0 < logged_after user_id cutoff s'.db.user_operations
  unfolding create
  create_logs limit user_id reqs code cutoff env s o s' h late =
      let body = create_body limit user_id reqs code in
      create_body_placed limit user_id reqs code env (next_call s) o s'
        (subst (λ out. AllOrNothing body env s out) h (with_tx_atomic body env s))
        λ items total promo t placed.
          place_order_logs user_id items total promo cutoff env t o s' placed late

  create_limited :
      (limit : ℤ) (user_id : Uuid) (reqs : List OrderItemRequest) (code : Option String) (env : Env)
      (s : Session V)
      → ((n : ℕ) → env.refuses n ≡ false)
      → 0 < logged_after user_id (env.clock (s.calls + 1) -ℤ minutes limit) s.db.user_operations
      → ((create limit user_id reqs code env s).0 ≡ err order_limit_exceeded)
        × ((create limit user_id reqs code env s).1.db ≡ s.db)
  unfolding create with_tx finish create_body
  create_limited limit user_id reqs code env s up logged =
      let ends : create_body limit user_id reqs code env (next_call s)
          ≡ (err order_limit_exceeded, next_call (next_call (next_call s))) =
        bind_refused _ _ _ env (next_call s)
          (rate_limit_check_late user_id limit env (next_call s) up logged) in
      (rw (up s.calls, ends) refl, rw (up s.calls, ends) refl)

  -- Between two orders of a user lie as many minutes as configured: a call of `Create` after one
  -- that succeeded, on a database whose log has grown since then at most, ends with
  -- `ErrOrderLimitExceeded` and changes nothing, if the first one was logged later than the second
  -- one's reading of the clock less these minutes, and no statement of the second one is refused.
  pub create_rate_limited :
      (limit : ℤ) (user_id : Uuid) (reqs reqs' : List OrderItemRequest) (code code' : Option String)
      (env env' : Env) (s s' t : Session V) (o : Order V) (later : List UserOperation)
      → create limit user_id reqs code env s ≡ (ok o, s')
      → t.db.user_operations ≡ s'.db.user_operations ++ later
      → ((n : ℕ) → env'.refuses n ≡ false)
      → (env'.clock (t.calls + 1) -ℤ minutes limit) <ℤ env.tx_time
      → ((create limit user_id reqs' code' env' t).0 ≡ err order_limit_exceeded)
        × ((create limit user_id reqs' code' env' t).1.db ≡ t.db)
  create_rate_limited limit user_id reqs reqs' code code' env env' s s' t o later h grown up soon =
      let cutoff = env'.clock (t.calls + 1) -ℤ minutes limit in
      let before = create_logs limit user_id reqs code cutoff env s o s' h soon in
      let total =
        count_if-append (recent user_id create_order cutoff) s'.db.user_operations later in
      create_limited limit user_id reqs' code' env' t up (rw grown (omega (arith, before, total)))
