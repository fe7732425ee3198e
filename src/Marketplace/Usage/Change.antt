-- ===== src/Marketplace/Usage/Change.antt =====
-- `Cancel` and `Update` keep the counts.
use mathlib.Core.Path.{subst}
use service_oriented_hw.Common.{
  ℕ, ◌≡◌, refl, ap, sym, ◌∙◌, true, some, Option, List, [], arith, map,
}
use service_oriented_hw.Common.Int.{ℤ}
use service_oriented_hw.Common.Float.{Float64}
use service_oriented_hw.Common.Table.{find_by, modify_by, key_of_found}
use service_oriented_hw.Marketplace.Domain.{
  Uuid, PromoCode, Order, OrderStatus, OrderItem, OrderItemRequest, UserClaims, created,
  update_order,
}
use service_oriented_hw.Marketplace.Domain.Status.{same_status}
use service_oriented_hw.Marketplace.Session.{Db, Env, Session, ok, next_call}
use service_oriented_hw.Marketplace.Session.Steps.{
  after_bind, after_guard, pure_ok, query_ok, exec_ok, returning_ok,
}
use service_oriented_hw.Marketplace.Repository.Orders.{
  order_key, update_row, delete_order_items, update_order_tx, cancel_order_tx, get_order_items,
}
use service_oriented_hw.Marketplace.Repository.Tx.{with_tx_inv}
use service_oriented_hw.Marketplace.Orders.Usecase.{
  reserve_items, set_order_id, cancel, cancel_body, update, update_body, amend_order, amended,
}
use service_oriented_hw.Marketplace.Supply.Cancel.{get_order_ok}
use service_oriented_hw.Marketplace.Supply.Withdraw.{cancel_row}
use service_oriented_hw.Marketplace.Supply.Promo.{rate_limit_check_ok}
use service_oriented_hw.Marketplace.Usage.{Counted, IsCounted}
use service_oriented_hw.Marketplace.Usage.Promo.{
  GivesBack, Settles, release_promo-GivesBack, reprice-Settles,
}
use service_oriented_hw.Marketplace.Usage.Effects.{
  Untouched, Untouched-of_eq, Untouched-trans, restore_items-Untouched, reserve_from-Untouched,
  insert_order_items-Untouched, insert_user_op-Untouched,
}
use service_oriented_hw.Marketplace.Usage.Counts.{canceled-Counted, amended-Counted}
use service_oriented_hw.Marketplace.Supply.Update.{reprice-OnlyPromos}
use service_oriented_hw.Marketplace.Supply.Cancel.{release_promo-OnlyPromos}

is_created : (st : OrderStatus) → same_status st created ≡ true → st ≡ created
is_created created h = refl
is_created st h = ground arith

module _ {V : Type 0} where
  row_of :
      (o : Order V) (id : Uuid) (d : Db V)
      → find_by order_key id d.orders ≡ some o
      → find_by order_key o.id d.orders ≡ some o
  row_of o id d found =
      subst (λ k. find_by order_key k d.orders ≡ some o)
        (sym (key_of_found order_key id d.orders o found)) found

  pub cancel_body-Counted :
      {most : Uuid → ℕ} (order_id : Uuid) (claims : UserClaims) (env : Env) (s : Session V)
      (out : Order V) (s' : Session V)
      → Counted most s.db.orders s.db.promo_codes
      → cancel_body order_id claims env s ≡ (ok out, s')
      → Counted most s'.db.orders s'.db.promo_codes
  unfolding cancel_body cancel_order_tx get_order_items
  cancel_body-Counted order_id claims env s out s' c h = after_bind _ _ env s h λ o t1 e1 h1.
      after_guard _ _ _ env t1 h1 λ _ h2. after_guard _ _ _ env t1 h2 λ dead h3.
        after_bind _ _ env t1 h3 λ items t2 e2 h4. after_bind _ _ env t2 h4 λ _ t3 e3 h5.
          after_bind _ _ env t3 h5 λ _ t4 e4 h6. after_bind _ _ env t4 h6 λ o2 t5 e5 h7.
            after_bind _ _ env t4 e5 λ now t6 e6 h8.
              let (found, same1) = get_order_ok order_id env s e1 in
              let (_, same2) = query_ok _ env t1 e2 in
              let u : Untouched s.db t3.db =
                Untouched-trans (Untouched-of_eq (same2 ∙ same1))
                  (restore_items-Untouched items env t2 e3) in
              let row = row_of o order_id s.db found in
              let gives =
                subst (λ ps. GivesBack ps t4.db.promo_codes o.promo_code_id) u.promo_codes
                  (release_promo-GivesBack o.promo_code_id env t3 e4) in
              let stay =
                ap (λ (x : Session V). x.db) ((pure_ok _ env t5 h7).1 ∙ (pure_ok _ env t6 h8).1) in
              let written = (returning_ok _ _ env t4 e6).2 in
              let all_orders =
                ap (λ (x : Db V). x.orders) (stay ∙ written)
                ∙ ap (modify_by order_key o.id (cancel_row env.tx_time))
                    ((release_promo-OnlyPromos o.promo_code_id env t3 e4).orders ∙ u.orders) in
              let all_promos = ap (λ (x : Db V). x.promo_codes) (stay ∙ written) in
              rw (all_orders, all_promos)
                (canceled-Counted s.db.orders s.db.promo_codes t4.db.promo_codes o env.tx_time c row
                  (ground arith) gives)

  -- If no user has two active orders and each promo code has as many uses as open orders have it,
  -- and not more than its maximum, and ids are distinct, then this holds after `Cancel`, however it
  -- ends and whichever statements are refused.
  pub cancel-IsCounted :
      (order_id : Uuid) (claims : UserClaims) (env : Env) (s : Session V)
      → IsCounted s.db
      → IsCounted (cancel order_id claims env s).1.db
  unfolding cancel
  cancel-IsCounted order_id claims env s c =
      with_tx_inv (cancel_body order_id claims) env s IsCounted c
        λ o s' h. cancel_body-Counted order_id claims env (next_call s) o s' c h

module _ {V : Type 0} ⦃f : Float64 V⦄ where
  amend_order-Counted :
      {most : Uuid → ℕ} (claims : UserClaims) (o : Order V) (items : List (OrderItem V)) (total : V)
      (promo : Option Uuid × V) (orders : List (Order V)) (ps : List (PromoCode V)) (env : Env)
      (s : Session V) (out : Order V) (s' : Session V)
      → Counted most orders ps
      → find_by order_key o.id orders ≡ some o
      → o.status ≡ created
      → s.db.orders ≡ orders
      → Settles ps s.db.promo_codes o.promo_code_id promo.0
      → amend_order claims o items total promo env s ≡ (ok out, s')
      → Counted most s'.db.orders s'.db.promo_codes
  unfolding amend_order delete_order_items update_order_tx
  amend_order-Counted claims o items total promo orders ps env s out s' c row live same settles h =
      after_bind _ _ env s h λ _ t1 e1 h1. after_bind _ _ env t1 h1 λ listed t2 e2 h2.
        after_bind _ _ env t2 h2 λ o2 t3 e3 h3. after_bind _ _ env t2 e3 λ now t4 e4 h4.
          after_bind _ _ env t3 h3 λ _ t5 e5 h5.
            let deleted = exec_ok _ env s e1 in
            let u =
              insert_order_items-Untouched o.id (map (set_order_id o.id) items) env t1 listed t2
                e2 in
            let written = (returning_ok _ _ env t2 e4).2 in
            let stay = ap (λ (x : Session V). x.db) ((pure_ok _ env t4 h4).1) in
            let rest : Untouched t4.db s'.db = Untouched-trans (Untouched-of_eq stay) (
              Untouched-trans (insert_user_op-Untouched claims.user_id update_order env t3 e5)
                (Untouched-of_eq (ap (λ (x : Session V). x.db) ((pure_ok _ env t5 h5).1)))) in
            let o' = amended o listed total promo in
            let all_orders =
              rest.orders
              ∙ ap (λ (x : Db V). x.orders) written
              ∙ ap (modify_by order_key o.id (update_row o' env.tx_time))
                  (u.orders ∙ ap (λ (x : Db V). x.orders) deleted ∙ same) in
            let all_promos : s'.db.promo_codes ≡ s.db.promo_codes =
              rest.promo_codes
              ∙ ap (λ (x : Db V). x.promo_codes) written
              ∙ u.promo_codes
              ∙ ap (λ (x : Db V). x.promo_codes) deleted in
            rw (all_orders, all_promos)
              (amended-Counted orders ps s.db.promo_codes o o' env.tx_time c row live live settles)

  pub update_body-Counted :
      {most : Uuid → ℕ} (limit : ℤ) (order_id : Uuid) (claims : UserClaims)
      (reqs : List OrderItemRequest) (env : Env) (s : Session V) (out : Order V) (s' : Session V)
      → Counted most s.db.orders s.db.promo_codes
      → update_body limit order_id claims reqs env s ≡ (ok out, s')
      → Counted most s'.db.orders s'.db.promo_codes
  unfolding update_body reserve_items get_order_items
  update_body-Counted limit order_id claims reqs env s out s' c h =
      after_bind _ _ env s h λ o t1 e1 h1. after_guard _ _ _ env t1 h1 λ _ h2.
        after_guard _ _ _ env t1 h2 λ dead h3. after_bind _ _ env t1 h3 λ limited t2 e2 h4.
          after_guard _ _ _ env t2 h4 λ _ h5. after_bind _ _ env t2 h5 λ old t3 e3 h6.
            after_bind _ _ env t3 h6 λ _ t4 e4 h7. after_bind _ _ env t4 h7 λ reserved t5 e5 h8.
              after_bind _ _ env t5 h8 λ promo t6 e6 h9.
                let (found, same1) = get_order_ok order_id env s e1 in
                let (_, same3) = query_ok _ env t2 e3 in
                let same2 = rate_limit_check_ok claims.user_id update_order limit env t1 e2 in
                let u : Untouched s.db t5.db =
                  Untouched-trans (Untouched-of_eq (same3 ∙ same2 ∙ same1)) (
                    Untouched-trans (restore_items-Untouched old env t3 e4)
                      (reserve_from-Untouched [] f.zero reqs env t4 reserved t5 e5)) in
                let settles =
                  subst (λ ps. Settles ps t6.db.promo_codes o.promo_code_id promo.0) u.promo_codes
                    (reprice-Settles o.promo_code_id reserved.1 env t5 e6) in
                amend_order-Counted claims o reserved.0 reserved.1 promo s.db.orders
                  s.db.promo_codes env t6 out s' c (row_of o order_id s.db found)
                  (is_created o.status (ground arith))
                  ((reprice-OnlyPromos o.promo_code_id reserved.1 env t5 e6).orders ∙ u.orders)
                  settles h9

  -- If no user has two active orders and each promo code has as many uses as open orders have it,
  -- and not more than its maximum, and ids are distinct, then this holds after `Update`, however it
  -- ends and whichever statements are refused.
  pub update-IsCounted :
      (limit : ℤ) (order_id : Uuid) (claims : UserClaims) (reqs : List OrderItemRequest) (env : Env)
      (s : Session V)
      → IsCounted s.db
      → IsCounted (update limit order_id claims reqs env s).1.db
  unfolding update
  update-IsCounted limit order_id claims reqs env s c =
      with_tx_inv (update_body limit order_id claims reqs) env s IsCounted c
        λ o s' h. update_body-Counted limit order_id claims reqs env (next_call s) o s' c h
