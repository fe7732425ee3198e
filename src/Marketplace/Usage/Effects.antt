-- ===== src/Marketplace/Usage/Effects.antt =====
-- The statements on stock and items leave orders and promo codes alone.
use service_oriented_hw.Common.{◌≡◌, ap, ◌∙◌, List, [], ◌∷◌, ◌++◌}
use service_oriented_hw.Common.Float.{Float64}
use service_oriented_hw.Marketplace.Domain.{Uuid, OperationType, OrderItem, OrderItemRequest}
use service_oriented_hw.Marketplace.Session.{Db, Env, Session, ok}
use service_oriented_hw.Marketplace.Session.Steps.{after_bind, pure_ok, exec_ok}
use service_oriented_hw.Marketplace.Repository.Orders.{
  increase_stock, insert_order_items, insert_user_op,
}
use service_oriented_hw.Marketplace.Orders.Usecase.{restore_items, reserve_from, add_line}
use service_oriented_hw.Marketplace.Supply.Reserve.{reserve_item_ok}
use service_oriented_hw.Marketplace.Supply.Rows.{insert_order_items_ok}

-- Orders and promo codes are the same.
pub record Untouched {V : Type 0} (d d' : Db V) : Type 0 where
  pub orders : d'.orders ≡ d.orders
  pub promo_codes : d'.promo_codes ≡ d.promo_codes

module _ {V : Type 0} where
  pub Untouched-of_eq : {d d' : Db V} → d' ≡ d → Untouched d d'
  Untouched-of_eq e = record {
    orders = ap (λ (x : Db V). x.orders) e;
    promo_codes = ap (λ (x : Db V). x.promo_codes) e;
  }

  pub Untouched-trans : {d e g : Db V} → Untouched d e → Untouched e g → Untouched d g
  Untouched-trans a b = record {
    orders = b.orders ∙ a.orders;
    promo_codes = b.promo_codes ∙ a.promo_codes;
  }

  pub restore_items-Untouched :
      (items : List (OrderItem V)) (env : Env) (s : Session V) {u : Unit {0}} {s' : Session V}
      → restore_items items env s ≡ (ok u, s')
      → Untouched s.db s'.db
  unfolding restore_items increase_stock
  restore_items-Untouched [] env s h =
      Untouched-of_eq (ap (λ (x : Session V). x.db) ((pure_ok tt env s h).1))
  restore_items-Untouched (it ∷ items) env s h = after_bind _ _ env s h λ _ t e rest.
      let w = exec_ok _ env s e in
      Untouched-trans
        (record {
          orders = ap (λ (x : Db V). x.orders) w;
          promo_codes = ap (λ (x : Db V). x.promo_codes) w;
        })
        (restore_items-Untouched items env t rest)

  pub insert_user_op-Untouched :
      (user_id : Uuid) (op : OperationType) (env : Env) (s : Session V) {u : Unit {0}}
      {s' : Session V}
      → insert_user_op user_id op env s ≡ (ok u, s')
      → Untouched s.db s'.db
  unfolding insert_user_op
  insert_user_op-Untouched user_id op env s h =
      let w = exec_ok _ env s h in
      record {
        orders = ap (λ (x : Db V). x.orders) w;
        promo_codes = ap (λ (x : Db V). x.promo_codes) w;
      }

module _ {V : Type 0} ⦃f : Float64 V⦄ where
  pub reserve_from-Untouched :
      (done : List (OrderItem V)) (total : V) (reqs : List OrderItemRequest) (env : Env)
      (s : Session V) (out : List (OrderItem V) × V) (s' : Session V)
      → reserve_from done total reqs env s ≡ (ok out, s')
      → Untouched s.db s'.db
  unfolding reserve_from
  reserve_from-Untouched done total [] env s out s' h =
      Untouched-of_eq (ap (λ (x : Session V). x.db) ((pure_ok (done, total) env s h).1))
  reserve_from-Untouched done total (req ∷ reqs) env s out s' h =
      after_bind _ _ env s h λ it t e rest.
        let r = reserve_item_ok req env s e in
        Untouched-trans
          (record {
            orders = ap (λ (x : Db V). x.orders) r.taken;
            promo_codes = ap (λ (x : Db V). x.promo_codes) r.taken;
          })
          (reserve_from-Untouched (done ++ it ∷ []) (add_line total it) reqs env t out s' rest)

  pub insert_order_items-Untouched :
      (id : Uuid) (items : List (OrderItem V)) (env : Env) (s : Session V)
      (out : List (OrderItem V)) (s' : Session V)
      → insert_order_items id items env s ≡ (ok out, s')
      → Untouched s.db s'.db
  insert_order_items-Untouched id items env s out s' h =
      let a = insert_order_items_ok id items env s out s' h in
      record {
        orders = ap (λ (x : Db V). x.orders) a.written;
        promo_codes = ap (λ (x : Db V). x.promo_codes) a.written;
      }
