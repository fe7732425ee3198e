-- ===== src/Marketplace/System/Reachable.antt =====
-- What holds of every database that a chain of requests reaches.
use mathlib.Core.Path.{subst}
use service_oriented_hw.Common.{
  ℕ, ◌≡◌, refl, ap, sym, ◌∙◌, true, false, List, [], ◌∷◌, ◌++◌, arith, All, All-map, Bool-cases,
  inl, inr,
}
use service_oriented_hw.Common.Int.{ℤ, pos, ◌≤ℤ◌}
use service_oriented_hw.Common.Float.{Float64}
use service_oriented_hw.Common.Table.{
  has_key, append-Distinct, find_by-append, find_by-append_found,
}
use service_oriented_hw.Marketplace.Domain.{Uuid, PromoCode, Order, OrderItem, UserClaims}
use service_oriented_hw.Marketplace.Session.{Db, Env, Session}
use service_oriented_hw.Marketplace.Session.Steps.{guard_keeps, insert_keeps}
use service_oriented_hw.Marketplace.Repository.Orders.{order_key, promo_key}
use service_oriented_hw.Marketplace.Repository.Tx.{at_once_keeps}
use service_oriented_hw.Marketplace.Promos.{new_promo, create_promo, create as create_a_promo}
use service_oriented_hw.Marketplace.Supply.{HasRows, IsConsistent}
use service_oriented_hw.Marketplace.Supply.Create.{create-supply}
use service_oriented_hw.Marketplace.Supply.Cancel.{cancel-supply}
use service_oriented_hw.Marketplace.Supply.Update.{update-supply}
use service_oriented_hw.Marketplace.Usage.{uses_in, max_in, uses_of, max_of, Counted, IsCounted}
use service_oriented_hw.Marketplace.Usage.Create.{create-IsCounted}
use service_oriented_hw.Marketplace.Usage.Change.{cancel-IsCounted, update-IsCounted}
use service_oriented_hw.Marketplace.System.{
  Request, create_order, update_order, cancel_order, create_product, update_product, delete_product,
  create_promo as create_promo_code, Validated, perform, Reach, here, next,
}
use service_oriented_hw.Marketplace.System.Catalogue.{
  OnlyProducts, create-OnlyProducts, update-OnlyProducts, delete-OnlyProducts,
}

module _ {V : Type 0} where
  abbrev pub IsSound : Db V → Type 0
  IsSound d = IsConsistent d × IsCounted d

  -- The tables before a shop opens.
  abbrev pub empty_db : Db V
  empty_db = record {
    products = [];
    promo_codes = [];
    orders = [];
    order_items = [];
    user_operations = [];
  }

  empty-IsSound : IsSound empty_db
  empty-IsSound = (
    tt,
    record {
      order_ids = tt;
      promo_ids = tt;
      uses = λ id. refl;
      within = λ id. omega arith;
      single = λ u. omega arith;
    },
  )

  moved_rows : (d d' : Db V) → OnlyProducts d d' → (it : OrderItem V) → HasRows d it → HasRows d' it
  moved_rows d d' o it (order, product) = (
    subst (λ os. has_key order_key it.order_id os ≡ true) (sym o.orders) order,
    o.rows it.product_id product,
  )

  OnlyProducts-IsSound : (d d' : Db V) → OnlyProducts d d' → IsSound d → IsSound d'
  OnlyProducts-IsSound d d' o (rows, counted) = (
    subst (λ its. All (HasRows d') its) (sym o.order_items)
        (All-map (HasRows d) (HasRows d') (moved_rows d d' o) d.order_items rows),
    rw (o.orders, o.promo_codes) counted,
  )

  -- A new promo code has no uses, and no order has it.
  uses_in-append :
      (id : Uuid) (ps : List (PromoCode V)) (q : PromoCode V)
      → q.current_uses ≡ pos 0
      → uses_in id (ps ++ q ∷ []) ≡ uses_in id ps
  uses_in-append id ps q fresh = elim (Bool-cases (has_key promo_key id ps)) [
    | inl old ↦ ap uses_of (find_by-append_found promo_key id ps (q ∷ []) (ground arith))
    | inr new ↦ ap uses_of (find_by-append promo_key id ps (q ∷ []) (ground arith)) ∙ ground arith
  ]

  max_in-append :
      (id : Uuid) (ps : List (PromoCode V)) (q : PromoCode V)
      → pos 0 ≤ℤ q.max_uses
      → max_in id ps ≤ℤ max_in id (ps ++ q ∷ [])
  max_in-append id ps q room = elim (Bool-cases (has_key promo_key id ps)) [
    | inl old ↦
        rw (ap max_of (find_by-append_found promo_key id ps (q ∷ []) (ground arith))) (omega arith)
    | inr new ↦
        rw (ap max_of (find_by-append promo_key id ps (q ∷ []) (ground arith))) (ground arith)
  ]

  offered-Counted :
      {most : Uuid → ℕ} (orders : List (Order V)) (ps : List (PromoCode V)) (q : PromoCode V)
      → Counted most orders ps
      → has_key promo_key q.id ps ≡ false
      → q.current_uses ≡ pos 0
      → pos 0 ≤ℤ q.max_uses
      → Counted most orders (ps ++ q ∷ [])
  offered-Counted orders ps q c new fresh room = record {
    order_ids = c.order_ids;
    promo_ids = append-Distinct promo_key ps q c.promo_ids new;
    uses = λ id. uses_in-append id ps q fresh ∙ c.uses id;
    within = λ id.
        rw (uses_in-append id ps q fresh) (omega (arith, c.within id, max_in-append id ps q room));
    single = c.single;
  }

module _ {V : Type 0} ⦃f : Float64 V⦄ where
  create_promo-IsSound :
      (claims : UserClaims) (p : PromoCode V) (env : Env) (s : Session V)
      → pos 0 ≤ℤ p.max_uses
      → IsSound s.db
      → IsSound (create_a_promo claims p env s).1.db
  unfolding create_a_promo create_promo
  create_promo-IsSound claims p env s room sound = guard_keeps IsSound _ _ _ env s sound (
      at_once_keeps IsSound _ env s sound (
        insert_keeps IsSound _ _ _ env s sound λ id free. (
          sound.0,
          offered-Counted (s.db).orders (s.db).promo_codes (new_promo p id env.tx_time) sound.1
              (ground arith) refl room,
        )))

  perform-IsSound :
      (limit : ℤ) (req : Request V) (env : Env) (s : Session V)
      → Validated req
      → IsSound s.db
      → IsSound (perform limit req env s)
  unfolding perform
  perform-IsSound limit (create_order user_id reqs code) env s v (rows, counted) = (
    (create-supply limit user_id reqs code env s 0 rows).0,
    create-IsCounted limit user_id reqs code env s counted,
  )
  perform-IsSound limit (update_order id claims reqs) env s v (rows, counted) = (
    (update-supply limit id claims reqs env s 0 rows).0,
    update-IsCounted limit id claims reqs env s counted,
  )
  perform-IsSound limit (cancel_order id claims) env s v (rows, counted) =
      ((cancel-supply id claims env s 0 rows).0, cancel-IsCounted id claims env s counted)
  perform-IsSound limit (create_product seller_id p) env s v sound =
      OnlyProducts-IsSound s.db _ (create-OnlyProducts seller_id p env s) sound
  perform-IsSound limit (update_product id claims upd) env s v sound =
      OnlyProducts-IsSound s.db _ (update-OnlyProducts id claims upd env s) sound
  perform-IsSound limit (delete_product id claims) env s v sound =
      OnlyProducts-IsSound s.db _ (delete-OnlyProducts id claims env s) sound
  perform-IsSound limit (create_promo_code claims p) env s v sound =
      create_promo-IsSound claims p env s v sound

  reached-IsSound : {limit : ℤ} {d : Db V} → Reach limit empty_db d → IsSound d
  reached-IsSound here = empty-IsSound
  reached-IsSound {limit} (next r req v env s at after) =
      subst IsSound after
        (perform-IsSound limit req env s v (subst IsSound (sym at) (reached-IsSound r)))

  -- In every database that a chain of validated requests reaches from empty tables, whichever
  -- statements are refused on the way: no user has two active orders; `current_uses` of every promo
  -- code is the number of open orders that have it, and is not above `max_uses`; the order and the
  -- product of every order item exist; and no two orders and no two promo codes have one id.
  pub Reach-IsSound : (limit : ℤ) (d : Db V) → Reach limit empty_db d → IsConsistent d × IsCounted d
  Reach-IsSound limit d r = reached-IsSound r
