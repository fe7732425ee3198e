-- ===== src/Marketplace/Usage/Create.antt =====
-- `Create` keeps the counts.
use mathlib.Core.Path.{subst}
use service_oriented_hw.Common.{
  ℕ, ◌+◌, ◌==◌, ◌≤◌, ◌≡◌, ap, sym, ◌∙◌, Bool, false, one_if, Option, List, [], ◌∷◌, ◌++◌, arith,
  count_if, String, map,
}
use service_oriented_hw.Common.Int.{ℤ}
use service_oriented_hw.Common.Float.{Float64}
use service_oriented_hw.Common.Table.{has_key}
use service_oriented_hw.Marketplace.Domain.{
  Uuid, Time, PromoCode, Order, OrderItem, OrderItemRequest, create_order,
}
use service_oriented_hw.Marketplace.Session.{Db, Env, Session, ok, next_call}
use service_oriented_hw.Marketplace.Session.Steps.{after_bind, after_guard, pure_ok, query_ok}
use service_oriented_hw.Marketplace.Repository.Orders.{
  order_key, active_of, has_active_order, order_row,
}
use service_oriented_hw.Marketplace.Repository.Tx.{with_tx_inv}
use service_oriented_hw.Marketplace.Orders.Usecase.{
  create, create_body, reserve_items, place_order, fresh_order, set_order_id,
}
use service_oriented_hw.Marketplace.Supply.Promo.{rate_limit_check_ok, has_active_order_ok}
use service_oriented_hw.Marketplace.Supply.Rows.{insert_order_ok, Inserts}
use service_oriented_hw.Marketplace.Usage.{Counted, IsCounted}
use service_oriented_hw.Marketplace.Usage.Promo.{Takes, promo_for-Takes}
use service_oriented_hw.Marketplace.Usage.Effects.{
  Untouched, Untouched-of_eq, Untouched-trans, reserve_from-Untouched, insert_order_items-Untouched,
  insert_user_op-Untouched,
}
use service_oriented_hw.Marketplace.Usage.Counts.{placed-Counted}
use service_oriented_hw.Marketplace.Usage.Moves.{idle_room}
use service_oriented_hw.Marketplace.Supply.Promo.{promo_for-OnlyPromos}

module _ {V : Type 0} where
  -- `HasActiveOrder` found none.
  pub idle_user :
      (user_id : Uuid) (env : Env) (s : Session V) {b : Bool} {s' : Session V}
      → has_active_order user_id env s ≡ (ok b, s')
      → b ≡ false
      → count_if (active_of user_id) s.db.orders ≡ 0
  unfolding has_active_order
  idle_user user_id env s h no_active = after_bind _ _ env s h λ n t e rest.
      let (is, _) = pure_ok _ env t rest in let (counted, _) = query_ok _ env s e in ground arith

module _ {V : Type 0} ⦃f : Float64 V⦄ where
  -- The row that `InsertOrder` wrote.
  inserted-Counted :
      {most most' : Uuid → ℕ} (user_id : Uuid) (items : List (OrderItem V)) (total : V)
      (promo : Option Uuid × V) (orders : List (Order V)) (ps ps' : List (PromoCode V))
      (d d' : Db V) (now : Time) (o : Order V)
      → Counted most orders ps
      → ((u : Uuid) → count_if (active_of u) orders + one_if (user_id == u) ≤ most' u)
      → d.orders ≡ orders
      → Takes ps ps' promo.0
      → Inserts (fresh_order user_id items total promo) now d d' o
      → Counted most' (orders ++ order_row o ∷ []) ps'
  inserted-Counted {most'} user_id items total promo orders ps ps' d d' now o c room same t i =
      placed-Counted orders ps ps' (order_row o) c
        (subst (λ os. has_key order_key o.id os ≡ false) same i.fresh)
        (ap (λ (x : Order V). x.status) i.same)
        (λ u.
          subst (λ k. count_if (active_of u) orders + one_if (k == u) ≤ most' u)
            (sym (ap (λ (x : Order V). x.user_id) i.same)) (room u))
        (subst (λ k. Takes ps ps' k) (sym (ap (λ (x : Order V). x.promo_code_id) i.same)) t)

  pub place_order-Counted :
      {most most' : Uuid → ℕ} (user_id : Uuid) (items : List (OrderItem V)) (total : V)
      (promo : Option Uuid × V) (orders : List (Order V)) (ps : List (PromoCode V)) (env : Env)
      (s : Session V) (o : Order V) (s' : Session V)
      → Counted most orders ps
      → ((u : Uuid) → count_if (active_of u) orders + one_if (user_id == u) ≤ most' u)
      → s.db.orders ≡ orders
      → Takes ps s.db.promo_codes promo.0
      → place_order user_id items total promo env s ≡ (ok o, s')
      → Counted most' s'.db.orders s'.db.promo_codes
  unfolding place_order
  place_order-Counted user_id items total promo orders ps env s o s' c room same t h =
      after_bind _ _ env s h λ o1 t1 e1 h1. after_bind _ _ env t1 h1 λ listed t2 e2 h2.
        after_bind _ _ env t2 h2 λ _ t3 e3 h3.
          let i = insert_order_ok (fresh_order user_id items total promo) env s e1 in
          let stay = ap (λ (x : Session V). x.db) ((pure_ok _ env t3 h3).1) in
          let rest : Untouched t1.db s'.db =
            Untouched-trans
              (insert_order_items-Untouched o1.id (map (set_order_id o1.id) items) env t1 listed t2
                e2)
              (Untouched-trans (insert_user_op-Untouched user_id create_order env t2 e3)
                (Untouched-of_eq stay)) in
          let all_orders : s'.db.orders ≡ orders ++ order_row o1 ∷ [] =
            rest.orders
            ∙ ap (λ (x : Db V). x.orders) i.written
            ∙ ap (λ os. os ++ order_row o1 ∷ []) same in
          let all_promos : s'.db.promo_codes ≡ s.db.promo_codes =
            rest.promo_codes ∙ ap (λ (x : Db V). x.promo_codes) i.written in
          rw (all_orders, all_promos)
            (inserted-Counted user_id items total promo orders ps s.db.promo_codes s.db t1.db
              env.tx_time o1 c room same t i)

  create_body-Counted :
      (limit : ℤ) (user_id : Uuid) (reqs : List OrderItemRequest) (code : Option String) (env : Env)
      (s : Session V) (o : Order V) (s' : Session V)
      → IsCounted s.db
      → create_body limit user_id reqs code env s ≡ (ok o, s')
      → IsCounted s'.db
  unfolding create_body reserve_items
  create_body-Counted limit user_id reqs code env s o s' c h =
      after_bind _ _ env s h λ limited t1 e1 h1. after_guard _ _ _ env t1 h1 λ _ h2.
        after_bind _ _ env t1 h2 λ has_active t3 e3 h3. after_guard _ _ _ env t3 h3 λ no_active h4.
          after_bind _ _ env t3 h4 λ reserved t5 e5 h5. after_bind _ _ env t5 h5 λ promo t6 e6 h6.
            let same1 = rate_limit_check_ok user_id create_order limit env s e1 in
            let same = has_active_order_ok user_id env t1 e3 ∙ same1 in
            let u : Untouched s.db t5.db =
              Untouched-trans (Untouched-of_eq same)
                (reserve_from-Untouched [] f.zero reqs env t3 reserved t5 e5) in
            let idle =
              ap (λ (x : Db V). count_if (active_of user_id) x.orders) (sym same1)
              ∙ idle_user user_id env t1 e3 no_active in
            let takes =
              subst (λ ps. Takes ps t6.db.promo_codes promo.0) u.promo_codes
                (promo_for-Takes code reserved.1 env t5 e6) in
            place_order-Counted user_id reserved.0 reserved.1 promo s.db.orders s.db.promo_codes env
              t6 o s' c (λ u. idle_room s.db.orders user_id u idle (c.single u))
              ((promo_for-OnlyPromos code reserved.1 env t5 e6).orders ∙ u.orders) takes h6

  -- If no user has two active orders and each promo code has as many uses as open orders have it,
  -- and not more than its maximum, and ids are distinct, then this holds after `Create`, however it
  -- ends and whichever statements are refused.
  pub create-IsCounted :
      (limit : ℤ) (user_id : Uuid) (reqs : List OrderItemRequest) (code : Option String) (env : Env)
      (s : Session V)
      → IsCounted s.db
      → IsCounted (create limit user_id reqs code env s).1.db
  unfolding create
  create-IsCounted limit user_id reqs code env s c =
      with_tx_inv (create_body limit user_id reqs code) env s IsCounted c
        λ o s' h. create_body-Counted limit user_id reqs code env (next_call s) o s' c h
