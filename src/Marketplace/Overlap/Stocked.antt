-- ===== src/Marketplace/Overlap/Stocked.antt =====
-- However requests for orders overlap, no product is oversold.
use service_oriented_hw.Common.{◌≡◌, All, Option, List, [], ◌∷◌, ◌++◌, String}
use mathlib.Core.Path.{subst}
use service_oriented_hw.Common.Int.{ℤ, pos, ◌≤ℤ◌}
use service_oriented_hw.Common.Float.{Float64}
use service_oriented_hw.Marketplace.Domain.{Uuid, Order, OrderItemRequest}
use service_oriented_hw.Marketplace.Session.{Db, Env, Session, ok, next_call}
use service_oriented_hw.Marketplace.Session.Steps.{after_bind}
use service_oriented_hw.Marketplace.Repository.Tx.{with_tx_inv}
use service_oriented_hw.Marketplace.Orders.Usecase.{update, update_body, cancel, cancel_body}
use service_oriented_hw.Marketplace.Supply.{HasUnits, stock_in, IsConsistent}
use service_oriented_hw.Marketplace.Supply.Promo.{promo_for-OnlyPromos}
use service_oriented_hw.Marketplace.Supply.Stocked.{
  IsStocked, tables-IsStocked, reserve_items-IsStocked,
}
use service_oriented_hw.Marketplace.Supply.Stocked.Bodies.{
  place_order-IsStocked, cancel_body-IsStocked, update_body-IsStocked,
}
use service_oriented_hw.Marketplace.Overlap.{
  Validated, create_rest, Pending, State, settle, Step, pass, settles, updates, cancels, Reach,
  here, next,
}
use service_oriented_hw.Marketplace.Overlap.Stock.{finish_inv, Reach-supply}
use service_oriented_hw.Marketplace.Overlap.Twice.{idle_at}

abbrev IsValidated : Pending → Type 0
IsValidated c = Validated c.reqs

-- One of a list, and the others.
All-picked :
    (before : List Pending) (c : Pending) (after : List Pending)
    → All IsValidated (before ++ c ∷ after)
    → IsValidated c × All IsValidated (before ++ after)
All-picked [] c after h = h
All-picked (b ∷ before) c after h =
    let (mine, rest) = All-picked before c after h.1 in (mine, (h.0, rest))

module _ {V : Type 0} ⦃f : Float64 V⦄ where
  create_rest-IsStocked :
      (user_id : Uuid) (reqs : List OrderItemRequest) (code : Option String) (env : Env)
      (s : Session V) (o : Order V) (s' : Session V)
      → Validated reqs
      → IsStocked s.db
      → create_rest user_id reqs code env s ≡ (ok o, s')
      → IsStocked s'.db
  unfolding create_rest
  create_rest-IsStocked user_id reqs code env s o s' counts stocked h =
      after_bind _ _ env s h λ reserved t1 e1 h1. after_bind _ _ env t1 h1 λ promo t2 e2 h2.
        let (taken, units) = reserve_items-IsStocked reqs env s reserved t1 counts stocked e1 in
        let promos = promo_for-OnlyPromos code reserved.1 env t1 e2 in
        place_order-IsStocked user_id reserved.0 reserved.1 promo env t2 o s' units
          (tables-IsStocked t1.db t2.db promos.products promos.order_items taken) h2

  module _ (limit : ℤ) where
    -- The database is stocked, and the calls that wait are valid.
    abbrev Holds : State V → Type 0
    Holds t = IsStocked t.db × All IsValidated t.waiting

    Step-Holds : {t t' : State V} → Step limit t t' → IsConsistent t.db → Holds t → Holds t'
    unfolding settle update cancel
    Step-Holds (pass c calls v h n) sound (stocked, valid) = (stocked, (v, valid))
    Step-Holds {t} (settles before after c at) sound (stocked, valid) =
        let (mine, others) =
          All-picked before c after (subst (λ cs. All IsValidated cs) at valid) in
        let s : Session V = record { db = t.db; calls = c.calls } in
        (
          finish_inv IsStocked c.env.commit s (create_rest c.user_id c.reqs c.code c.env s) stocked
              (λ o s' h. create_rest-IsStocked c.user_id c.reqs c.code c.env s o s' mine stocked h),
          others,
        )
    Step-Holds {t} (updates order_id claims reqs env calls v) sound (stocked, valid) =
        let s : Session V = record { db = t.db; calls = calls } in
        (
          with_tx_inv (update_body limit order_id claims reqs) env s IsStocked stocked λ o s' h.
              update_body-IsStocked limit order_id claims reqs env (next_call s) o s' v sound
                stocked h,
          valid,
        )
    Step-Holds {t} (cancels order_id claims env calls) sound (stocked, valid) =
        let s : Session V = record { db = t.db; calls = calls } in
        (
          with_tx_inv (cancel_body order_id claims) env s IsStocked stocked λ o s' h.
              cancel_body-IsStocked order_id claims env (next_call s) o s' sound stocked h,
          valid,
        )

    reached-Holds :
        {start t : State V} → Reach limit start t → IsConsistent start.db → Holds start → Holds t
    reached-Holds here sound held = held
    reached-Holds {start} (next {t} r step) sound held =
        Step-Holds step (Reach-supply limit start t 0 sound r).0 (reached-Holds r sound held)

    -- No product is oversold, however valid calls of `Create`, `Update` and `Cancel` overlap, with
    -- the guards of a `Create` at any time before the rest of it, and whichever statements are
    -- refused and commits are not acknowledged: if at the start no call is under way, no stock and
    -- no quantity of an order item is below zero, and the foreign keys of the items hold, then no
    -- product's stock is ever below zero.
    pub Reach-not_oversold :
        (d : Db V) (t : State V) (p : Uuid)
        → IsConsistent d
        → ((q : Uuid) → pos 0 ≤ℤ stock_in q d.products)
        → All HasUnits d.order_items
        → Reach limit (idle_at d) t
        → pos 0 ≤ℤ stock_in p t.db.products
    Reach-not_oversold d t p sound stock units r =
        (reached-Holds r sound ((stock, units), tt)).0.0 p
