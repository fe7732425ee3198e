-- ===== src/Marketplace/Overlap/Twice.antt =====
-- The guard of `Create` against a second active order does not hold when two calls overlap.
use mathlib.Core.Path.{subst}
use service_oriented_hw.Common.{
  ℕ, ◌+◌, ◌≡◌, refl, ap, sym, ◌∙◌, false, Option, List, [], ◌∷◌, String, arith, count_if,
}
use service_oriented_hw.Common.Int.{ℤ}
use service_oriented_hw.Common.Float.{Float64}
use service_oriented_hw.Marketplace.Domain.{Uuid, Order, OrderItemRequest, create_order}
use service_oriented_hw.Marketplace.Session.{Db, Env, Session, acknowledged, ok}
use service_oriented_hw.Marketplace.Session.Steps.{after_bind, after_guard}
use service_oriented_hw.Marketplace.Repository.Orders.{active_of}
use service_oriented_hw.Marketplace.Repository.Tx.{finish}
use service_oriented_hw.Marketplace.Orders.Usecase.{reserve_items}
use service_oriented_hw.Marketplace.Supply.Promo.{rate_limit_check_ok, promo_for-OnlyPromos}
use service_oriented_hw.Marketplace.Usage.Create.{idle_user}
use service_oriented_hw.Marketplace.Usage.Effects.{reserve_from-Untouched}
use service_oriented_hw.Marketplace.Orders.Second.{active_orders, place_order_adds}
use service_oriented_hw.Marketplace.Overlap.{
  Validated, create_guards, create_rest, Pending, State, settle, pass, settles, Reach, here, next,
}

module _ {V : Type 0} where
  create_guards_idle :
      (limit : ℤ) (user_id : Uuid) (env : Env) (s s' : Session V)
      → create_guards limit user_id env s ≡ (ok tt, s')
      → active_orders user_id s.db ≡ 0
  unfolding create_guards
  create_guards_idle limit user_id env s s' h = after_bind _ _ env s h λ limited t1 e1 h1.
      after_guard _ _ _ env t1 h1 λ _ h2. after_bind _ _ env t1 h2 λ has_active t2 e2 h3.
        let none_active : has_active ≡ false = ground (arith, h3) in
        ap (λ (x : Db V). active_orders user_id x)
          (sym (rate_limit_check_ok user_id create_order limit env s e1))
        ∙ idle_user user_id env t1 e2 none_active

module _ {V : Type 0} ⦃f : Float64 V⦄ where
  create_rest_adds :
      (user_id : Uuid) (reqs : List OrderItemRequest) (code : Option String) (env : Env)
      (s : Session V) (o : Order V) (s' : Session V)
      → create_rest user_id reqs code env s ≡ (ok o, s')
      → active_orders user_id s'.db ≡ active_orders user_id s.db + 1
  unfolding create_rest reserve_items
  create_rest_adds user_id reqs code env s o s' h = after_bind _ _ env s h λ reserved t1 e1 h1.
      after_bind _ _ env t1 h1 λ promo t2 e2 h2.
        let same : t2.db.orders ≡ s.db.orders =
          (promo_for-OnlyPromos code reserved.1 env t1 e2).orders
          ∙ (reserve_from-Untouched [] f.zero reqs env s reserved t1 e1).orders in
        place_order_adds user_id reserved.0 reserved.1 promo env t2 o s' h2
        ∙ ap (λ os. count_if (active_of user_id) os + 1) same

  -- A call that waits, runs on this database without an error, and is committed.
  pub record Succeeds (c : Pending) (d d' : Db V) : Type 0 where
    pub order : Order V
    pub calls : ℕ
    pub runs :
        create_rest c.user_id c.reqs c.code c.env (record { db = d; calls = c.calls })
        ≡ (ok order, record { db = d'; calls = calls })
    pub committed : c.env.commit ≡ acknowledged

  settle-Succeeds : (c : Pending) (d d' : Db V) → Succeeds c d d' → settle c d ≡ d'
  unfolding settle finish
  settle-Succeeds c d d' h = rw (settle, h.runs, h.committed) refl

  -- The call is valid, and its guards pass on this database.
  pub record Passes (limit : ℤ) (c : Pending) (d : Db V) : Type 0 where
    pub validated : Validated c.reqs
    pub first_call : ℕ
    pub left : Session V
    pub runs :
        create_guards limit c.user_id c.env (record { db = d; calls = first_call }) ≡ (ok tt, left)
    pub same_calls : left.calls ≡ c.calls

  -- No call is under way.
  abbrev pub idle_at : Db V → State V
  idle_at d = record { db = d; waiting = [] }

  -- Two calls of `Create` of one user whose guards both pass before the rest of either runs, and
  -- which then succeed one after the other, are a course of events that leaves the user with two
  -- active orders.
  pub overlapping_creates :
      (limit : ℤ) (c c' : Pending) (d d1 d2 : Db V)
      → c'.user_id ≡ c.user_id
      → Passes limit c d
      → Passes limit c' d
      → Succeeds c d d1
      → Succeeds c' d1 d2
      → Reach limit (idle_at d) (idle_at d2) × (active_orders c.user_id d2 ≡ 2)
  overlapping_creates limit c c' d d1 d2 same g g' h h' =
      let idle =
        create_guards_idle limit c.user_id c.env (record { db = d; calls = g.first_call }) g.left
          g.runs in
      let one =
        create_rest_adds c.user_id c.reqs c.code c.env (record { db = d; calls = c.calls }) h.order
          _ h.runs in
      let two : active_orders c.user_id d2 ≡ active_orders c.user_id d1 + 1 =
        subst (λ u. active_orders u d2 ≡ active_orders u d1 + 1) same
          (create_rest_adds c'.user_id c'.reqs c'.code c'.env (record { db = d1; calls = c'.calls })
            h'.order _ h'.runs) in
      (
        subst (λ e. Reach limit (idle_at d) (idle_at e)) (settle-Succeeds c' d1 d2 h')
            (next
              (subst (λ e. Reach limit (idle_at d) (record { db = e; waiting = c' ∷ [] }))
                (settle-Succeeds c d d1 h)
                (next
                  (next (next here (pass c g.first_call g.validated g.runs g.same_calls))
                    (pass c' g'.first_call g'.validated g'.runs g'.same_calls))
                  (settles (c' ∷ []) [] c refl)))
              (settles [] [] c' refl)),
        omega (arith, idle, one, two),
      )
