-- ===== src/Marketplace/Orders/Second.antt =====
-- An order that is not closed yet stands in the way of a second one of its user.
use mathlib.Core.Path.{subst}
use service_oriented_hw.Common.{
  ℕ, ◌+◌, ◌<◌, ◌≡◌, refl, ap, sym, ◌∙◌, ◌⊎◌, inl, inr, Bool, true, false, Option, List, [], ◌∷◌,
  ◌++◌, String, arith, map, count_if, count_if-append, ltb,
}
use service_oriented_hw.Common.Int.{ℤ, ◌-ℤ◌}
use service_oriented_hw.Common.Float.{Float64}
use service_oriented_hw.Marketplace.Domain.{
  Uuid, Order, OrderItem, OrderItemRequest, create_order, order_limit_exceeded, active_order_exists,
}
use service_oriented_hw.Marketplace.Session.{
  Db, Env, Session, Result, ok, err, ◌>>=◌, query, read_clock, next_call,
}
use service_oriented_hw.Marketplace.Session.Steps.{
  after_bind, after_guard, pure_ok, bind_passed, bind_refused,
}
use service_oriented_hw.Marketplace.Repository.Orders.{
  active_of, has_active_order, rate_limit_check, recent, minutes, order_row,
}
use service_oriented_hw.Marketplace.Repository.Tx.{with_tx, finish, with_tx_atomic, AllOrNothing}
use service_oriented_hw.Marketplace.Orders.Usecase.{
  create, create_body, place_order, fresh_order, set_order_id,
}
use service_oriented_hw.Marketplace.Supply.Rows.{insert_order_ok}
use service_oriented_hw.Marketplace.Usage.Effects.{
  Untouched, Untouched-of_eq, Untouched-trans, insert_order_items-Untouched,
  insert_user_op-Untouched,
}

module _ {V : Type 0} where
  -- The orders of a user that are neither closed nor canceled.
  abbrev pub active_orders : Uuid → Db V → ℕ
  active_orders user_id d = count_if (active_of user_id) d.orders

  abbrev pub IsBusy : Uuid → Db V → Type 0
  IsBusy user_id d = 0 < active_orders user_id d

  pub rate_limit_check_runs :
      (user_id : Uuid) (limit : ℤ) (env : Env) (s : Session V)
      → ((n : ℕ) → env.refuses n ≡ false)
      → (limited : Bool) × (t : Session V) × (rate_limit_check user_id create_order limit env s
          ≡ (ok limited, t))
        × (t.db ≡ s.db)
  unfolding rate_limit_check ◌>>=◌ query read_clock
  rate_limit_check_runs user_id limit env s up = (
    ltb 0 (
        count_if (recent user_id create_order (env.clock s.calls -ℤ minutes limit))
          s.db.user_operations),
    next_call (next_call s),
    (let u = up (s.calls + 1) in ground arith),
    refl,
  )

  has_active_order_busy :
      (user_id : Uuid) (env : Env) (s : Session V)
      → ((n : ℕ) → env.refuses n ≡ false)
      → IsBusy user_id s.db
      → has_active_order user_id env s ≡ (ok true, next_call s)
  unfolding has_active_order ◌>>=◌ query
  has_active_order_busy user_id env s up busy = let u = up s.calls in ground arith

  -- How the body of `Create` ends for a busy user.
  abbrev pub IsTurnedDown : Result (Order V) × Session V → Db V → Type 0
  IsTurnedDown out d =
      ((out.0 ≡ err order_limit_exceeded) ⊎ (out.0 ≡ err active_order_exists)) × (out.1.db ≡ d)

module _ {V : Type 0} ⦃f : Float64 V⦄ where
  create_body_busy :
      (limit : ℤ) (user_id : Uuid) (reqs : List OrderItemRequest) (code : Option String) (env : Env)
      (s : Session V)
      → ((n : ℕ) → env.refuses n ≡ false)
      → IsBusy user_id s.db
      → IsTurnedDown (create_body limit user_id reqs code env s) s.db
  unfolding create_body
  create_body_busy limit user_id reqs code env s up busy =
      let (limited, t, e, same) = rate_limit_check_runs user_id limit env s up in
      turned_down limited t e same
    where
      turned_down :
          (limited : Bool) (t : Session V)
          → rate_limit_check user_id create_order limit env s ≡ (ok limited, t)
          → t.db ≡ s.db
          → IsTurnedDown (create_body limit user_id reqs code env s) s.db
      turned_down true t e same =
          let ends : create_body limit user_id reqs code env s ≡ (err order_limit_exceeded, t) =
            bind_refused _ _ _ env s e in
          rw ends (inl refl, same)
      turned_down false t e same =
          let still = subst (λ d. IsBusy user_id d) (sym same) busy in
          let ends : create_body limit user_id reqs code env s
              ≡ (err active_order_exists, next_call t) =
            bind_passed _ _ _ env s e
            ∙ bind_refused _ _ _ env t (has_active_order_busy user_id env t up still) in
          rw ends (inr refl, same)

  -- `place_order` leaves the user one active order more.
  pub place_order_adds :
      (user_id : Uuid) (items : List (OrderItem V)) (total : V) (promo : Option Uuid × V)
      (env : Env) (s : Session V) (o : Order V) (s' : Session V)
      → place_order user_id items total promo env s ≡ (ok o, s')
      → active_orders user_id s'.db ≡ active_orders user_id s.db + 1
  unfolding place_order
  place_order_adds user_id items total promo env s o s' h = after_bind _ _ env s h λ o1 t1 e1 h1.
      after_bind _ _ env t1 h1 λ listed t2 e2 h2. after_bind _ _ env t2 h2 λ _ t3 e3 h3.
        let i = insert_order_ok (fresh_order user_id items total promo) env s e1 in
        let stay = ap (λ (x : Session V). x.db) ((pure_ok _ env t3 h3).1) in
        let rest : Untouched t1.db s'.db =
          Untouched-trans
            (insert_order_items-Untouched o1.id (map (set_order_id o1.id) items) env t1 listed t2
              e2)
            (Untouched-trans (insert_user_op-Untouched user_id create_order env t2 e3)
              (Untouched-of_eq stay)) in
        let all_orders : s'.db.orders ≡ s.db.orders ++ order_row o1 ∷ [] =
          rest.orders ∙ ap (λ (x : Db V). x.orders) i.written in
        let is_his : active_of user_id (order_row o1) ≡ true =
          ap (λ (x : Order V). active_of user_id (order_row x)) i.same ∙ ground arith in
        rw all_orders (
          ground
            (arith, count_if-append (active_of user_id) s.db.orders (order_row o1 ∷ []), is_his))

  -- A body of `Create` that ended without an error came to `place_order`.
  pub create_body_placed :
      {C : Type 0} (limit : ℤ) (user_id : Uuid) (reqs : List OrderItemRequest)
      (code : Option String) (env : Env) (s : Session V) (o : Order V) (s' : Session V)
      → create_body limit user_id reqs code env s ≡ (ok o, s')
      → ((items : List (OrderItem V)) (total : V) (promo : Option Uuid × V) (t : Session V)
          → place_order user_id items total promo env t ≡ (ok o, s')
          → C)
      → C
  unfolding create_body
  create_body_placed limit user_id reqs code env s o s' h rest =
      after_bind _ _ env s h λ limited t1 e1 h1. after_guard _ _ _ env t1 h1 λ _ h2.
        after_bind _ _ env t1 h2 λ has_active t3 e3 h3. after_guard _ _ _ env t3 h3 λ _ h4.
          after_bind _ _ env t3 h4 λ reserved t5 e5 h5.
            after_bind _ _ env t5 h5 λ promo t6 e6 h6. rest reserved.0 reserved.1 promo t6 h6

  create_body_leaves-IsBusy :
      (limit : ℤ) (user_id : Uuid) (reqs : List OrderItemRequest) (code : Option String) (env : Env)
      (s : Session V) (o : Order V) (s' : Session V)
      → create_body limit user_id reqs code env s ≡ (ok o, s')
      → IsBusy user_id s'.db
  create_body_leaves-IsBusy limit user_id reqs code env s o s' h =
      create_body_placed limit user_id reqs code env s o s' h λ items total promo t placed.
        omega (arith, place_order_adds user_id items total promo env t o s' placed)

  -- A user with an active order gets no other one: if no statement is refused, `Create` ends with
  -- `ErrOrderLimitExceeded` or `ErrActiveOrderExists`, and the database is the same.
  pub create_busy :
      (limit : ℤ) (user_id : Uuid) (reqs : List OrderItemRequest) (code : Option String) (env : Env)
      (s : Session V)
      → ((n : ℕ) → env.refuses n ≡ false)
      → IsBusy user_id s.db
      → IsTurnedDown (create limit user_id reqs code env s) s.db
  unfolding create with_tx finish
  create_busy limit user_id reqs code env s up busy = rw (up s.calls) (
      settle_down (create_body limit user_id reqs code env (next_call s))
        (create_body_busy limit user_id reqs code env (next_call s) up busy))
    where
      settle_down :
          (out : Result (Order V) × Session V)
          → IsTurnedDown out s.db
          → IsTurnedDown (finish env.commit s out) s.db
      settle_down (ok o, t) (inl bad, _) = absurd (ground (arith, bad))
      settle_down (ok o, t) (inr bad, _) = absurd (ground (arith, bad))
      settle_down (err e, t) (why, same) = (why, refl)

  -- What a call of `Create` that succeeds leaves.
  pub create_leaves-IsBusy :
      (limit : ℤ) (user_id : Uuid) (reqs : List OrderItemRequest) (code : Option String) (env : Env)
      (s : Session V) (o : Order V) (s' : Session V)
      → create limit user_id reqs code env s ≡ (ok o, s')
      → IsBusy user_id s'.db
  unfolding create
  create_leaves-IsBusy limit user_id reqs code env s o s' h =
      let body = create_body limit user_id reqs code in
      create_body_leaves-IsBusy limit user_id reqs code env (next_call s) o s'
        (subst (λ out. AllOrNothing body env s out) h (with_tx_atomic body env s))

  -- After a call of `Create` that succeeded, a second one of the same user, whatever it orders and
  -- whenever it comes, is turned down by one of the two guards, and the database stays the same, if
  -- none of its statements is refused.
  pub create_once :
      (limit : ℤ) (user_id : Uuid) (reqs reqs' : List OrderItemRequest) (code code' : Option String)
      (env env' : Env) (s s' : Session V) (o : Order V)
      → create limit user_id reqs code env s ≡ (ok o, s')
      → ((n : ℕ) → env'.refuses n ≡ false)
      → IsTurnedDown (create limit user_id reqs' code' env' s') s'.db
  create_once limit user_id reqs reqs' code code' env env' s s' o h up =
      create_busy limit user_id reqs' code' env' s' up
        (create_leaves-IsBusy limit user_id reqs code env s o s' h)
