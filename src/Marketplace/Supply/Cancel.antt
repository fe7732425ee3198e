-- ===== src/Marketplace/Supply/Cancel.antt =====
-- `Cancel` puts back what the order holds.
use mathlib.Core.Path.{subst}
use service_oriented_hw.Common.{
  ◌≡◌, refl, sym, ap, ◌∙◌, true, Option, none, some, List, [], ◌∷◌, All, arith, Bool-cases, inl,
  inr, keep_if,
}
use service_oriented_hw.Common.Int.{◌+ℤ◌}
use service_oriented_hw.Common.Table.{find_by, modify_by, key_of_found}
use service_oriented_hw.Marketplace.Domain.{Uuid, Order, OrderItem, UserClaims}
use service_oriented_hw.Marketplace.Domain.Status.{cancellable}
use service_oriented_hw.Marketplace.Session.{Db, Env, Session, ok, next_call}
use service_oriented_hw.Marketplace.Session.Steps.{
  after_bind, after_guard, pure_ok, query_ok, exec_ok, returning_ok, found_ok,
}
use service_oriented_hw.Marketplace.Repository.Tx.{with_tx_inv}
use service_oriented_hw.Marketplace.Repository.Orders.{
  order_key, belongs_to, get_order_for_update, get_order_items, cancel_order_tx,
  decrement_promo_uses,
}
use service_oriented_hw.Marketplace.Orders.Usecase.{
  restore_items, release_promo, cancel_body, cancel,
}
use service_oriented_hw.Marketplace.Supply.{stock_in, ordered, supply, HasRows, IsConsistent}
use service_oriented_hw.Marketplace.Supply.Effects.{KeepsOrders, HasProduct, restore_items_ok}
use service_oriented_hw.Marketplace.Supply.Rows.{OnlyPromos}
use service_oriented_hw.Marketplace.Supply.Promo.{OnlyPromos-of_eq}
use service_oriented_hw.Marketplace.Supply.Withdraw.{
  cancel_row, canceled_supply, canceled-IsConsistent,
}

module _ {V : Type 0} where
  pub get_order_ok :
      (id : Uuid) (env : Env) (s : Session V) {o : Order V} {s' : Session V}
      → get_order_for_update id env s ≡ (ok o, s')
      → (find_by order_key id s.db.orders ≡ some o) × (s'.db ≡ s.db)
  unfolding get_order_for_update
  get_order_ok id env s h = after_bind _ _ env s h λ row t e rest.
      let (read, same) = query_ok _ env s e in
      let (is_row, stay) = found_ok row env t rest in
      (sym read ∙ is_row, ap (λ (x : Session V). x.db) stay ∙ same)

  pub decrement-OnlyPromos :
      (id : Uuid) (env : Env) (s : Session V) {u : Unit {0}} {s' : Session V}
      → decrement_promo_uses id env s ≡ (ok u, s')
      → OnlyPromos s.db s'.db
  unfolding decrement_promo_uses
  decrement-OnlyPromos id env s h =
      rw (exec_ok _ env s h) (record { products = refl; orders = refl; order_items = refl })

  pub release_promo-OnlyPromos :
      (id : Option Uuid) (env : Env) (s : Session V) {u : Unit {0}} {s' : Session V}
      → release_promo id env s ≡ (ok u, s')
      → OnlyPromos s.db s'.db
  unfolding release_promo
  release_promo-OnlyPromos none env s h =
      OnlyPromos-of_eq (ap (λ (x : Session V). x.db) ((pure_ok tt env s h).1))
  release_promo-OnlyPromos (some id) env s h = decrement-OnlyPromos id env s h

  pub rows-HasProduct :
      (d : Db V) (id : Uuid) (items : List (OrderItem V))
      → All (HasRows d) items
      → All (HasProduct d) (keep_if (belongs_to id) items)
  rows-HasProduct d id [] h = tt
  rows-HasProduct d id (it ∷ items) h = elim (Bool-cases (belongs_to id it)) [
    | inl mine ↦ rw mine ((h.0).1, rows-HasProduct d id items h.1)
    | inr other ↦ rw other (rows-HasProduct d id items h.1)
  ]

  abbrev pub SameSupply : Db V → Db V → Type 0
  SameSupply d g = IsConsistent g × ((p : Uuid) → supply p g ≡ supply p d)

  -- The last part of the body: from the items that were read to the row that was written.
  canceled_from :
      (d : Db V) (t2 t3 t4 t6 s' : Session V) (o : Order V) (items : List (OrderItem V)) (env : Env)
      (order_id : Uuid) {u : Unit {0}}
      → IsConsistent d
      → o.id ≡ order_id
      → find_by order_key order_id d.orders ≡ some o
      → cancellable o.status ≡ true
      → t2.db ≡ d
      → items ≡ keep_if (belongs_to order_id) d.order_items
      → restore_items items env t2 ≡ (ok u, t3)
      → OnlyPromos t3.db t4.db
      → t6.db
        ≡ record t4.db { orders = modify_by order_key o.id (cancel_row env.tx_time) (t4.db).orders }
      → s'.db ≡ t6.db
      → SameSupply d s'.db
  canceled_from d t2 t3 t4 t6 s' o items env order_id sound mine found live same listed e3 promos
        written stay =
      let row = subst (λ k. find_by order_key k d.orders ≡ some o) (sym mine) found in
      let listed' = subst (λ k. items ≡ keep_if (belongs_to k) d.order_items) (sym mine) listed in
      let present : All (HasProduct d) items =
        subst (λ its. All (HasProduct d) its) (sym listed')
          (rows-HasProduct d o.id d.order_items sound) in
      let (only, back) =
        restore_items_ok items env t2 (subst (λ x. All (HasProduct x) items) (sym same) present)
          e3 in
      let only' = subst (λ x. KeepsOrders x t3.db) same only in
      let back' : (p : Uuid)
          → stock_in p (t3.db).products
            ≡ stock_in p d.products +ℤ ordered p (keep_if (belongs_to o.id) d.order_items) =
        λ p. back p ∙ (λ i. stock_in p (same i).products +ℤ ordered p (listed' i)) in
      subst (SameSupply d) (sym stay) (
        canceled-IsConsistent d t3.db t4.db t6.db o env.tx_time sound row live only' back' promos
            written,
        canceled_supply d t3.db t4.db t6.db o env.tx_time sound row live only' back' promos written,
      )

  cancel_body-SameSupply :
      (order_id : Uuid) (claims : UserClaims) (env : Env) (s : Session V) (o' : Order V)
      (s' : Session V)
      → IsConsistent s.db
      → cancel_body order_id claims env s ≡ (ok o', s')
      → SameSupply s.db s'.db
  unfolding cancel_body cancel_order_tx get_order_items
  cancel_body-SameSupply order_id claims env s o' s' sound h = after_bind _ _ env s h λ o t1 e1 h1.
      after_guard _ _ _ env t1 h1 λ _ h2. after_guard _ _ _ env t1 h2 λ dead h3.
        after_bind _ _ env t1 h3 λ items t2 e2 h4. after_bind _ _ env t2 h4 λ _ t3 e3 h5.
          after_bind _ _ env t3 h5 λ _ t4 e4 h6. after_bind _ _ env t4 h6 λ o2 t5 e5 h7.
            after_bind _ _ env t4 e5 λ now t6 e6 h8.
              let (found, same1) = get_order_ok order_id env s e1 in
              let (listed, same2) = query_ok _ env t1 e2 in
              let same = same2 ∙ same1 in
              let mine = key_of_found order_key order_id s.db.orders o found in
              let (_, stay2) = pure_ok _ env t6 h8 in
              let (_, stay) = pure_ok _ env t5 h7 in
              canceled_from s.db t2 t3 t4 t6 s' o items env order_id sound mine found (ground arith)
                same (listed ∙ ap (λ (x : Db V). keep_if (belongs_to order_id) x.order_items) same1)
                e3 (release_promo-OnlyPromos o.promo_code_id env t3 e4)
                ((returning_ok _ _ env t4 e6).2) (ap (λ (x : Session V). x.db) (stay ∙ stay2))

  -- `Cancel` keeps the supply of every product and the foreign keys of the items, if these hold
  -- before: on success just what the order held is back in the stock and held no longer. So it does
  -- however it ends, whichever statements are refused, and whether or not the commit is
  -- acknowledged.
  pub cancel-supply :
      (order_id : Uuid) (claims : UserClaims) (env : Env) (s : Session V) (p : Uuid)
      → IsConsistent s.db
      → IsConsistent (cancel order_id claims env s).1.db
        × (supply p (cancel order_id claims env s).1.db ≡ supply p s.db)
  unfolding cancel
  cancel-supply order_id claims env s p sound =
      let k =
        with_tx_inv (cancel_body order_id claims) env s (SameSupply s.db) (sound, λ q. refl)
          (λ o s' h. cancel_body-SameSupply order_id claims env (next_call s) o s' sound h) in
      (k.0, k.1 p)
