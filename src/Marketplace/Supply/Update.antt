-- ===== src/Marketplace/Supply/Update.antt =====
-- `Update` exchanges what the order holds.
use mathlib.Core.Path.{subst}
use service_oriented_hw.Common.{
  ◌≡◌, refl, sym, ap, ◌∙◌, true, Option, none, some, List, [], All, arith, Bool-cases, inl, inr,
  map, keep_if,
}
use service_oriented_hw.Common.Int.{ℤ, ◌+ℤ◌}
use service_oriented_hw.Common.Table.{find_by, key_of_found}
use service_oriented_hw.Marketplace.Domain.{Uuid, Order, OrderItem, PromoCode, UserClaims}
use service_oriented_hw.Marketplace.Domain.Status.{same_status}
use service_oriented_hw.Marketplace.Session.{
  Db, Env, Session, Result, ok, err, ◌>>=◌, query, next_call,
}
use service_oriented_hw.Marketplace.Session.Steps.{
  after_bind, after_guard, pure_ok, query_ok, exec_ok, returning_ok,
}
use service_oriented_hw.Marketplace.Repository.Tx.{with_tx_inv}
use service_oriented_hw.Marketplace.Repository.Orders.{order_key, belongs_to, get_order_items}
use service_oriented_hw.Marketplace.Supply.{stock_in, ordered, supply, IsConsistent}
use service_oriented_hw.Marketplace.Supply.Effects.{KeepsOrders, HasProduct, restore_items_ok}
use service_oriented_hw.Common.Float.{Float64}
use service_oriented_hw.Marketplace.Domain.{OrderItemRequest, update_order, created}
use service_oriented_hw.Marketplace.Repository.Orders.{
  delete_order_items, insert_user_op, update_order_tx, lock_promo_by_id,
}
use service_oriented_hw.Marketplace.Orders.Usecase.{
  reserve_items, reprice, keep_promo, drop_promo, amend_order, amended, set_order_id, update_body,
  update,
}
use service_oriented_hw.Marketplace.Supply.Reserve.{Reserved, reserve_from-Reserved}
use service_oriented_hw.Marketplace.Supply.Create.{
  ordered-set_order_id, HasProduct-set_order_id, after_promo, SameSupply_tables,
}
use service_oriented_hw.Marketplace.Supply.Cancel.{
  get_order_ok, decrement-OnlyPromos, rows-HasProduct, SameSupply,
}
use service_oriented_hw.Marketplace.Supply.Rows.{OnlyPromos, insert_order_items_ok}
use service_oriented_hw.Marketplace.Supply.Promo.{OnlyPromos-of_eq, rate_limit_check_ok}
use service_oriented_hw.Marketplace.Supply.Amend.{amended_supply, amended-IsConsistent}

module _ {V : Type 0} ⦃f : Float64 V⦄ where
  lock_promo_by_id_db :
      (id : Uuid) (env : Env) (s : Session V) → (lock_promo_by_id id env s).1.db ≡ s.db
  unfolding lock_promo_by_id query ◌>>=◌
  lock_promo_by_id_db id env s = ground arith

  drop_promo-OnlyPromos :
      (id : Uuid) (env : Env) (s : Session V) {r : Option Uuid × V} {s' : Session V}
      → drop_promo id env s ≡ (ok r, s')
      → OnlyPromos s.db s'.db
  unfolding drop_promo
  drop_promo-OnlyPromos id env s h =
      after_bind _ _ env s h
        λ _ t e rest. rw ((pure_ok _ env t rest).1) (decrement-OnlyPromos id env s e)

  keep_promo-OnlyPromos :
      (total : V) (promo : PromoCode V) (env : Env) (s : Session V) {r : Option Uuid × V}
      {s' : Session V}
      → keep_promo total promo env s ≡ (ok r, s')
      → OnlyPromos s.db s'.db
  unfolding keep_promo
  keep_promo-OnlyPromos total promo env s h =
      elim (Bool-cases (f.lt total promo.min_order_amount)) [
        | inl below ↦ drop_promo-OnlyPromos promo.id env s (rw below at h)
        | inr enough ↦
            let h' = (rw enough at h) in
            OnlyPromos-of_eq (ap (λ (x : Session V). x.db) ((pure_ok _ env s h').1))
      ]

  pub reprice-OnlyPromos :
      (id : Option Uuid) (total : V) (env : Env) (s : Session V) {r : Option Uuid × V}
      {s' : Session V}
      → reprice id total env s ≡ (ok r, s')
      → OnlyPromos s.db s'.db
  unfolding reprice
  reprice-OnlyPromos none total env s h =
      OnlyPromos-of_eq (ap (λ (x : Session V). x.db) ((pure_ok _ env s h).1))
  reprice-OnlyPromos (some id) total env s {r} {s'} h =
      go (lock_promo_by_id id env s) (lock_promo_by_id_db id env s) h
    where
      go :
          (out : Result (PromoCode V) × Session V)
          → out.1.db ≡ s.db
          → ◌≡◌ {A = Result (Option Uuid × V) × Session V}
              (let (q, t) = out in
                elim q [ ok promo ↦ keep_promo total promo env t | err e ↦ drop_promo id env t ])
              (ok r, s')
          → OnlyPromos s.db s'.db
      go (ok promo, t) same e =
          subst (λ d. OnlyPromos d s'.db) same (keep_promo-OnlyPromos total promo env t e)
      go (err x, t) same e = subst (λ d. OnlyPromos d s'.db) same (drop_promo-OnlyPromos id env t e)

  amend_order-SameSupply :
      (claims : UserClaims) (o : Order V) (items : List (OrderItem V)) (total : V)
      (promo : Option Uuid × V) (d d1 : Db V) (env : Env) (s : Session V) (out : Order V)
      (s' : Session V)
      → IsConsistent d
      → find_by order_key o.id d.orders ≡ some o
      → same_status o.status created ≡ true
      → KeepsOrders d d1
      → ((p : Uuid)
          → stock_in p d1.products
            ≡ stock_in p d.products +ℤ ordered p (keep_if (belongs_to o.id) d.order_items))
      → Reserved d1 s.db [] items
      → amend_order claims o items total promo env s ≡ (ok out, s')
      → SameSupply d s'.db
  unfolding amend_order insert_user_op delete_order_items update_order_tx
  amend_order-SameSupply claims o items total promo d d1 env s out s' sound row live only back r h =
      after_bind _ _ env s h λ _ t1 e1 h1. after_bind _ _ env t1 h1 λ listed t2 e2 h2.
        after_bind _ _ env t2 h2 λ o2 t3 e3 h3. after_bind _ _ env t2 e3 λ now t4 e4 h4.
          after_bind _ _ env t3 h3 λ _ t5 e5 h5.
            let a =
              insert_order_items_ok o.id (map (set_order_id o.id) items) env t1 listed t2 e2 in
            let rows = HasProduct-set_order_id s.db o.id items (r.have_products tt) in
            let same = λ (p : Uuid). ordered-set_order_id p o.id items in
            let o' = amended o listed total promo in
            let written = (returning_ok _ _ env t2 e4).2 in
            let stay = ap (λ (x : Session V). x.db) ((pure_ok _ env t4 h4).1) in
            let stay' = ap (λ (x : Session V). x.db) ((pure_ok _ env t5 h5).1) in
            let ends : OnlyPromos t4.db s'.db =
              rw (stay', exec_ok _ env t3 e5, stay)
                (record { products = refl; orders = refl; order_items = refl }) in
            SameSupply_tables d ends (
              amended-IsConsistent d d1 s.db t1.db t2.db t4.db o o' env.tx_time items _ sound row
                  live refl only back r (exec_ok _ env s e1) a written same rows,
              amended_supply d d1 s.db t1.db t2.db t4.db o o' env.tx_time items _ sound row live
                  refl only back r (exec_ok _ env s e1) a written same rows,
            )

  update_body-SameSupply :
      (limit : ℤ) (order_id : Uuid) (claims : UserClaims) (reqs : List OrderItemRequest) (env : Env)
      (s : Session V) (out : Order V) (s' : Session V)
      → IsConsistent s.db
      → update_body limit order_id claims reqs env s ≡ (ok out, s')
      → SameSupply s.db s'.db
  unfolding update_body reserve_items get_order_items
  update_body-SameSupply limit order_id claims reqs env s out s' sound h =
      after_bind _ _ env s h λ o t1 e1 h1. after_guard _ _ _ env t1 h1 λ _ h2.
        after_guard _ _ _ env t1 h2 λ dead h3. after_bind _ _ env t1 h3 λ limited t2 e2 h4.
          after_guard _ _ _ env t2 h4 λ _ h5. after_bind _ _ env t2 h5 λ old t3 e3 h6.
            after_bind _ _ env t3 h6 λ _ t4 e4 h7. after_bind _ _ env t4 h7 λ reserved t5 e5 h8.
              after_bind _ _ env t5 h8 λ promo t6 e6 h9.
                let (found, same1) = get_order_ok order_id env s e1 in
                let (listed, same3) = query_ok _ env t2 e3 in
                let same2 = rate_limit_check_ok claims.user_id update_order limit env t1 e2 in
                let same = same2 ∙ same1 in
                let mine = key_of_found order_key order_id s.db.orders o found in
                let row = subst (λ k. find_by order_key k s.db.orders ≡ some o) (sym mine) found in
                let old_rows : old ≡ keep_if (belongs_to o.id) s.db.order_items =
                  listed
                  ∙ ap (λ (x : Db V). keep_if (belongs_to order_id) x.order_items) same
                  ∙ ap (λ k. keep_if (belongs_to k) s.db.order_items) (sym mine) in
                let present : All (HasProduct t3.db) old =
                  subst (λ x. All (HasProduct x) old) (sym (same3 ∙ same))
                    (subst (λ its. All (HasProduct s.db) its) (sym old_rows)
                      (rows-HasProduct s.db o.id s.db.order_items sound)) in
                let (only, back) = restore_items_ok old env t3 present e4 in
                let r = reserve_from-Reserved [] f.zero reqs env t4 reserved t5 e5 in
                amend_order-SameSupply claims o reserved.0 reserved.1 promo s.db t4.db env t6 out s'
                  sound row (ground arith) (subst (λ x. KeepsOrders x t4.db) (same3 ∙ same) only)
                  (λ p.
                    back p
                    ∙ (λ i. stock_in p ((same3 ∙ same) i).products +ℤ ordered p (old_rows i)))
                  (after_promo r (reprice-OnlyPromos o.promo_code_id reserved.1 env t5 e6)) h9

  -- `Update` keeps the supply of every product and the foreign keys of the items, if these hold
  -- before: what the old items held goes back to the stock and what the new ones hold is taken from
  -- it. So it does however it ends, whichever statements are refused, and whether or not the commit
  -- is acknowledged.
  pub update-supply :
      (limit : ℤ) (order_id : Uuid) (claims : UserClaims) (reqs : List OrderItemRequest) (env : Env)
      (s : Session V) (p : Uuid)
      → IsConsistent s.db
      → IsConsistent (update limit order_id claims reqs env s).1.db
        × (supply p (update limit order_id claims reqs env s).1.db ≡ supply p s.db)
  unfolding update
  update-supply limit order_id claims reqs env s p sound =
      let k =
        with_tx_inv (update_body limit order_id claims reqs) env s (SameSupply s.db)
          (sound, λ q. refl)
          (λ o s' h.
            update_body-SameSupply limit order_id claims reqs env (next_call s) o s' sound h) in
      (k.0, k.1 p)
