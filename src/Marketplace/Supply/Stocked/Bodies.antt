-- ===== src/Marketplace/Supply/Stocked/Bodies.antt =====
-- The bodies of `Create`, `Update` and `Cancel` leave no stock and no quantity below zero.
use service_oriented_hw.Common.{◌≡◌, ap, ◌∙◌, Option, List, All, All-keep_if, not, keep_if}
use service_oriented_hw.Common.Int.{ℤ}
use service_oriented_hw.Common.Float.{Float64}
use service_oriented_hw.Marketplace.Domain.{
  Uuid, Order, OrderItem, OrderItemRequest, UserClaims, update_order,
}
use service_oriented_hw.Marketplace.Session.{Db, Env, Session, ok}
use service_oriented_hw.Marketplace.Session.Steps.{
  after_bind, after_guard, pure_ok, query_ok, exec_ok, returning_ok,
}
use service_oriented_hw.Marketplace.Repository.Orders.{
  belongs_to, insert_user_op, get_order_items, delete_order_items, update_order_tx, cancel_order_tx,
}
use service_oriented_hw.Marketplace.Orders.Usecase.{
  place_order, fresh_order, cancel_body, update_body, amend_order,
}
use service_oriented_hw.Marketplace.Orders.Placing.{IsCount}
use service_oriented_hw.Marketplace.Supply.{HasUnits, IsConsistent}
use service_oriented_hw.Marketplace.Supply.Rows.{insert_order_ok}
use service_oriented_hw.Marketplace.Supply.Promo.{rate_limit_check_ok}
use service_oriented_hw.Marketplace.Supply.Cancel.{get_order_ok, release_promo-OnlyPromos}
use service_oriented_hw.Marketplace.Supply.Update.{reprice-OnlyPromos}
use service_oriented_hw.Marketplace.Supply.Stocked.{
  IsStocked, tables-IsStocked, same-IsStocked, restore_items-IsStocked, reserve_items-IsStocked,
  insert_order_items-IsStocked,
}

module _ {V : Type 0} where
  pub cancel_body-IsStocked :
      (order_id : Uuid) (claims : UserClaims) (env : Env) (s : Session V) (out : Order V)
      (s' : Session V)
      → IsConsistent s.db
      → IsStocked s.db
      → cancel_body order_id claims env s ≡ (ok out, s')
      → IsStocked s'.db
  unfolding cancel_body cancel_order_tx get_order_items
  cancel_body-IsStocked order_id claims env s out s' sound stocked h =
      after_bind _ _ env s h λ o t1 e1 h1. after_guard _ _ _ env t1 h1 λ _ h2.
        after_guard _ _ _ env t1 h2 λ dead h3. after_bind _ _ env t1 h3 λ items t2 e2 h4.
          after_bind _ _ env t2 h4 λ _ t3 e3 h5. after_bind _ _ env t3 h5 λ _ t4 e4 h6.
            after_bind _ _ env t4 h6 λ o2 t5 e5 h7. after_bind _ _ env t4 e5 λ now t6 e6 h8.
              let (_, same1) = get_order_ok order_id env s e1 in
              let (listed, same2) = query_ok _ env t1 e2 in
              let stay =
                ap (λ (x : Session V). x.db) ((pure_ok _ env t5 h7).1 ∙ (pure_ok _ env t6 h8).1) in
              let written = stay ∙ (returning_ok _ _ env t4 e6).2 in
              let promos = release_promo-OnlyPromos o.promo_code_id env t3 e4 in
              tables-IsStocked t3.db s'.db (ap (λ (x : Db V). x.products) written ∙ promos.products)
                (ap (λ (x : Db V). x.order_items) written ∙ promos.order_items)
                (restore_items-IsStocked order_id items s.db env t2 t3 sound stocked (same2 ∙ same1)
                  (listed ∙ ap (λ (x : Db V). keep_if (belongs_to order_id) x.order_items) same1)
                  e3)

module _ {V : Type 0} ⦃f : Float64 V⦄ where
  pub place_order-IsStocked :
      (user_id : Uuid) (items : List (OrderItem V)) (total : V) (promo : Option Uuid × V)
      (env : Env) (s : Session V) (o : Order V) (s' : Session V)
      → All HasUnits items
      → IsStocked s.db
      → place_order user_id items total promo env s ≡ (ok o, s')
      → IsStocked s'.db
  unfolding place_order insert_user_op
  place_order-IsStocked user_id items total promo env s o s' listed stocked h =
      after_bind _ _ env s h λ o1 t1 e1 h1. after_bind _ _ env t1 h1 λ rows t2 e2 h2.
        after_bind _ _ env t2 h2 λ _ t3 e3 h3.
          let i = insert_order_ok (fresh_order user_id items total promo) env s e1 in
          let stay = ap (λ (x : Session V). x.db) ((pure_ok _ env t3 h3).1) in
          let inserted = same-IsStocked {e = t1.db} i.written stocked in
          let filled = insert_order_items-IsStocked o1.id items env t1 rows t2 listed inserted e2 in
          same-IsStocked stay (same-IsStocked {e = t3.db} (exec_ok _ env t2 e3) filled)

  amend_order-IsStocked :
      (claims : UserClaims) (o : Order V) (items : List (OrderItem V)) (total : V)
      (promo : Option Uuid × V) (env : Env) (s : Session V) (out : Order V) (s' : Session V)
      → All HasUnits items
      → IsStocked s.db
      → amend_order claims o items total promo env s ≡ (ok out, s')
      → IsStocked s'.db
  unfolding amend_order insert_user_op delete_order_items update_order_tx
  amend_order-IsStocked claims o items total promo env s out s' listed (stock, units) h =
      after_bind _ _ env s h λ _ t1 e1 h1. after_bind _ _ env t1 h1 λ rows t2 e2 h2.
        after_bind _ _ env t2 h2 λ o2 t3 e3 h3. after_bind _ _ env t2 e3 λ now t4 e4 h4.
          after_bind _ _ env t3 h3 λ _ t5 e5 h5.
            let deleted : IsStocked t1.db = same-IsStocked (exec_ok _ env s e1) (
              stock,
              All-keep_if HasUnits (λ it. not (belongs_to o.id it)) s.db.order_items units,
            ) in
            let filled = insert_order_items-IsStocked o.id items env t1 rows t2 listed deleted e2 in
            let written = (returning_ok _ _ env t2 e4).2 in
            let amended : IsStocked t4.db = same-IsStocked written filled in
            let done : IsStocked t3.db =
              same-IsStocked (ap (λ (x : Session V). x.db) ((pure_ok _ env t4 h4).1)) amended in
            let noted : IsStocked t5.db = same-IsStocked (exec_ok _ env t3 e5) done in
            same-IsStocked (ap (λ (x : Session V). x.db) ((pure_ok _ env t5 h5).1)) noted

  pub update_body-IsStocked :
      (limit : ℤ) (order_id : Uuid) (claims : UserClaims) (reqs : List OrderItemRequest) (env : Env)
      (s : Session V) (out : Order V) (s' : Session V)
      → All IsCount reqs
      → IsConsistent s.db
      → IsStocked s.db
      → update_body limit order_id claims reqs env s ≡ (ok out, s')
      → IsStocked s'.db
  unfolding update_body get_order_items
  update_body-IsStocked limit order_id claims reqs env s out s' counts sound stocked h =
      after_bind _ _ env s h λ o t1 e1 h1. after_guard _ _ _ env t1 h1 λ _ h2.
        after_guard _ _ _ env t1 h2 λ _ h3. after_bind _ _ env t1 h3 λ limited t2 e2 h4.
          after_guard _ _ _ env t2 h4 λ _ h5. after_bind _ _ env t2 h5 λ old t3 e3 h6.
            after_bind _ _ env t3 h6 λ _ t4 e4 h7. after_bind _ _ env t4 h7 λ reserved t5 e5 h8.
              after_bind _ _ env t5 h8 λ promo t6 e6 h9.
                let (_, same1) = get_order_ok order_id env s e1 in
                let (listed, same3) = query_ok _ env t2 e3 in
                let same =
                  rate_limit_check_ok claims.user_id update_order limit env t1 e2 ∙ same1 in
                let back =
                  restore_items-IsStocked order_id old s.db env t3 t4 sound stocked (same3 ∙ same)
                    (listed ∙ ap (λ (x : Db V). keep_if (belongs_to order_id) x.order_items) same)
                    e4 in
                let (taken, units) =
                  reserve_items-IsStocked reqs env t4 reserved t5 counts back e5 in
                let promos = reprice-OnlyPromos o.promo_code_id reserved.1 env t5 e6 in
                amend_order-IsStocked claims o reserved.0 reserved.1 promo env t6 out s' units
                  (tables-IsStocked t5.db t6.db promos.products promos.order_items taken) h9
