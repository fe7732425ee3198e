-- ===== src/Marketplace/Supply/Stocked.antt =====
-- No stock is below zero, and neither is a quantity in an order: what the order code does to both.
pub mod Bodies
use mathlib.Core.Path.{subst}
use service_oriented_hw.Common.{
  ◌≡◌, refl, ap, sym, ◌∙◌, Option, List, [], ◌∷◌, ◌++◌, ◌==◌, if◌then◌else◌, All, All-append,
  All-keep_if, arith, map, not, keep_if,
}
use service_oriented_hw.Common.Int.{ℤ, pos, ◌+ℤ◌, ◌≤ℤ◌, +ℤ_parts}
use service_oriented_hw.Common.Float.{Float64}
use service_oriented_hw.Common.Table.{key_of_found}
use service_oriented_hw.Marketplace.Domain.{
  Uuid, Order, OrderItem, OrderItemRequest, UserClaims, create_order, update_order,
}
use service_oriented_hw.Marketplace.Session.{Db, Env, Session, ok}
use service_oriented_hw.Marketplace.Session.Steps.{
  after_bind, after_guard, pure_ok, query_ok, exec_ok, returning_ok,
}
use service_oriented_hw.Marketplace.Repository.Orders.{
  belongs_to, insert_order_items, insert_user_op, get_order_items, delete_order_items,
  update_order_tx, cancel_order_tx,
}
use service_oriented_hw.Marketplace.Orders.Usecase.{
  restore_items, reserve_from, reserve_items, add_line, place_order, fresh_order, set_order_id,
  cancel_body, update_body, amend_order,
}
use service_oriented_hw.Marketplace.Orders.Placing.{IsCount}
use service_oriented_hw.Marketplace.Supply.{HasUnits, stock_in, ordered, IsConsistent}
use service_oriented_hw.Marketplace.Supply.Effects.{HasProduct, restore_items_ok}
use service_oriented_hw.Marketplace.Supply.Reserve.{
  Reserved, reserve_item_ok, reserve_from-Reserved,
}
use service_oriented_hw.Marketplace.Supply.Rows.{OnlyPromos, insert_order_ok, insert_order_items_ok}
use service_oriented_hw.Marketplace.Supply.Promo.{rate_limit_check_ok}
use service_oriented_hw.Marketplace.Supply.Cancel.{
  get_order_ok, release_promo-OnlyPromos, rows-HasProduct,
}
use service_oriented_hw.Marketplace.Supply.Update.{reprice-OnlyPromos}

module _ {V : Type 0} where
  abbrev pub IsStocked : Db V → Type 0
  IsStocked d = ((p : Uuid) → pos 0 ≤ℤ stock_in p d.products) × All HasUnits d.order_items

  ordered_not_negative :
      (p : Uuid) (items : List (OrderItem V)) → All HasUnits items → pos 0 ≤ℤ ordered p items
  ordered_not_negative p [] h = omega arith
  ordered_not_negative p (it ∷ items) h =
      ground (arith, ordered_not_negative p items h.1, +ℤ_parts it.quantity (ordered p items))

  -- The rows that make a database stocked.
  pub tables-IsStocked :
      (d e : Db V)
      → e.products ≡ d.products
      → e.order_items ≡ d.order_items
      → IsStocked d
      → IsStocked e
  tables-IsStocked d e products items (stock, units) = (
    λ p. subst (λ ps. pos 0 ≤ℤ stock_in p ps) (sym products) (stock p),
    subst (λ its. All HasUnits its) (sym items) units,
  )

  pub same-IsStocked : {d e : Db V} → e ≡ d → IsStocked d → IsStocked e
  same-IsStocked same stocked = subst IsStocked (sym same) stocked

  -- The units of items that were read go back to the stock.
  pub restore_items-IsStocked :
      (id : Uuid) (items : List (OrderItem V)) (d : Db V) (env : Env) (s s' : Session V)
      {u : Unit {0}}
      → IsConsistent d
      → IsStocked d
      → s.db ≡ d
      → items ≡ keep_if (belongs_to id) d.order_items
      → restore_items items env s ≡ (ok u, s')
      → IsStocked s'.db
  restore_items-IsStocked id items d env s s' sound (stock, units) same listed h =
      let present : All (HasProduct d) items =
        subst (λ its. All (HasProduct d) its) (sym listed)
          (rows-HasProduct d id d.order_items sound) in
      let (only, back) =
        restore_items_ok items env s (subst (λ x. All (HasProduct x) items) (sym same) present) h in
      let mine : All HasUnits items =
        subst (λ its. All HasUnits its) (sym listed)
          (All-keep_if HasUnits (belongs_to id) d.order_items units) in
      (
        λ p.
            let more = ordered_not_negative p items mine in
            let before = subst (λ x. pos 0 ≤ℤ stock_in p x.products) (sym same) (stock p) in
            ground
              (arith, back p, more, before, +ℤ_parts (stock_in p s.db.products) (ordered p items)),
        subst (λ its. All HasUnits its)
            (sym (only.order_items ∙ ap (λ (x : Db V). x.order_items) same)) units,
      )

module _ {V : Type 0} ⦃f : Float64 V⦄ where
  reserve_from_units :
      (done : List (OrderItem V)) (total : V) (reqs : List OrderItemRequest) (env : Env)
      (s : Session V) (out : List (OrderItem V) × V) (s' : Session V)
      → All HasUnits done
      → All IsCount reqs
      → reserve_from done total reqs env s ≡ (ok out, s')
      → All HasUnits out.0
  unfolding reserve_from
  reserve_from_units done total [] env s out s' units counts h =
      let (same, _) = pure_ok (done, total) env s h in rw same units
  reserve_from_units done total (req ∷ reqs) env s out s' units counts h =
      after_bind _ _ env s h λ it t e rest.
        let r = reserve_item_ok req env s e in
        reserve_from_units (done ++ it ∷ []) (add_line total it) reqs env t out s'
          (All-append HasUnits done (it ∷ []) units (subst HasUnits (sym r.line) counts.0, tt))
          counts.1 rest

  set_order_id_units :
      (id : Uuid) (items : List (OrderItem V))
      → All HasUnits items
      → All HasUnits (map (set_order_id id) items)
  set_order_id_units id [] h = tt
  set_order_id_units id (it ∷ items) h = (h.0, set_order_id_units id items h.1)

  -- `reserveItems`, the promo code, and the rows of the order.
  pub reserve_items-IsStocked :
      (reqs : List OrderItemRequest) (env : Env) (s : Session V) (out : List (OrderItem V) × V)
      (s' : Session V)
      → All IsCount reqs
      → IsStocked s.db
      → reserve_items reqs env s ≡ (ok out, s')
      → IsStocked s'.db × All HasUnits out.0
  unfolding reserve_items
  reserve_items-IsStocked reqs env s out s' counts (stock, units) h =
      let r = reserve_from-Reserved [] f.zero reqs env s out s' h in
      (
        (r.not_oversold stock, subst (λ its. All HasUnits its) (sym r.only.order_items) units),
        reserve_from_units [] f.zero reqs env s out s' tt counts h,
      )

  pub insert_order_items-IsStocked :
      (id : Uuid) (items : List (OrderItem V)) (env : Env) (s : Session V)
      (out : List (OrderItem V)) (s' : Session V)
      → All HasUnits items
      → IsStocked s.db
      → insert_order_items id (map (set_order_id id) items) env s ≡ (ok out, s')
      → IsStocked s'.db
  insert_order_items-IsStocked id items env s out s' listed (stock, units) h =
      let a = insert_order_items_ok id (map (set_order_id id) items) env s out s' h in
      same-IsStocked a.written (
        stock,
        All-append HasUnits s.db.order_items a.added units
            (a.same_units (set_order_id_units id items listed)),
      )
