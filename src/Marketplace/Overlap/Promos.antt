-- ===== src/Marketplace/Overlap/Promos.antt =====
-- However requests for orders overlap, no promo code is used more often than it may be.
use mathlib.Core.Path.{subst}
use service_oriented_hw.Common.{
  ℕ, ◌+◌, ◌≤◌, ◌==◌, ◌≡◌, ◌∙◌, Bool, Option, List, [], String, arith, count_if, one_if,
}
use service_oriented_hw.Common.Int.{ℤ, pos, ◌≤ℤ◌}
use service_oriented_hw.Common.Float.{Float64}
use service_oriented_hw.Marketplace.Domain.{Uuid, Order, OrderItemRequest}
use service_oriented_hw.Marketplace.Session.{Db, Env, Session, ok, next_call}
use service_oriented_hw.Marketplace.Session.Steps.{after_bind}
use service_oriented_hw.Marketplace.Repository.Tx.{with_tx_inv}
use service_oriented_hw.Marketplace.Orders.Usecase.{
  reserve_items, update, update_body, cancel, cancel_body,
}
use service_oriented_hw.Marketplace.Supply.Promo.{promo_for-OnlyPromos}
use service_oriented_hw.Marketplace.Usage.{uses_in, max_in, holds, Counted}
use service_oriented_hw.Marketplace.Usage.Promo.{Takes, promo_for-Takes}
use service_oriented_hw.Marketplace.Usage.Effects.{reserve_from-Untouched}
use service_oriented_hw.Marketplace.Usage.Create.{place_order-Counted}
use service_oriented_hw.Marketplace.Usage.Change.{cancel_body-Counted, update_body-Counted}
use service_oriented_hw.Marketplace.Overlap.{
  create_rest, State, settle, Step, pass, settles, updates, cancels, Reach, here, next,
}
use service_oriented_hw.Marketplace.Overlap.Stock.{finish_inv}

room_for : (n m : ℕ) (own : Bool) → n ≤ m → n + one_if own ≤ m + 1
room_for n m own h = ground arith

module _ {V : Type 0} where
  -- The counts of the tables, with some bound for the active orders of each user.
  abbrev pub IsBounded : Db V → Type 0
  IsBounded d = (most : Uuid → ℕ) × Counted most d.orders d.promo_codes

module _ {V : Type 0} ⦃f : Float64 V⦄ where
  create_rest-IsBounded :
      (user_id : Uuid) (reqs : List OrderItemRequest) (code : Option String) (env : Env)
      (s : Session V) (o : Order V) (s' : Session V)
      → IsBounded s.db
      → create_rest user_id reqs code env s ≡ (ok o, s')
      → IsBounded s'.db
  unfolding create_rest reserve_items
  create_rest-IsBounded user_id reqs code env s o s' (most, c) h =
      after_bind _ _ env s h λ reserved t1 e1 h1. after_bind _ _ env t1 h1 λ promo t2 e2 h2.
        let u = reserve_from-Untouched [] f.zero reqs env s reserved t1 e1 in
        let takes =
          subst (λ ps. Takes ps t2.db.promo_codes promo.0) u.promo_codes
            (promo_for-Takes code reserved.1 env t1 e2) in
        let most' : Uuid → ℕ = λ u. most u + 1 in
        (
          most',
          place_order-Counted {most' = most'} user_id reserved.0 reserved.1 promo s.db.orders
              s.db.promo_codes env t2 o s' c (λ u. room_for _ (most u) (user_id == u) (c.single u))
              ((promo_for-OnlyPromos code reserved.1 env t1 e2).orders ∙ u.orders) takes h2,
        )

  module _ (limit : ℤ) where
    Step-IsBounded : {t t' : State V} → Step limit t t' → IsBounded t.db → IsBounded t'.db
    unfolding settle update cancel
    Step-IsBounded (pass c calls v h n) bounded = bounded
    Step-IsBounded {t} (settles before after c at) bounded =
        let s : Session V = record { db = t.db; calls = c.calls } in
        finish_inv IsBounded c.env.commit s (create_rest c.user_id c.reqs c.code c.env s) bounded
          (λ o s' h. create_rest-IsBounded c.user_id c.reqs c.code c.env s o s' bounded h)
    Step-IsBounded {t} (updates order_id claims reqs env calls v) (most, c) =
        let s : Session V = record { db = t.db; calls = calls } in
        with_tx_inv (update_body limit order_id claims reqs) env s IsBounded (most, c)
          λ o s' h.
            (most, update_body-Counted limit order_id claims reqs env (next_call s) o s' c h)
    Step-IsBounded {t} (cancels order_id claims env calls) (most, c) =
        let s : Session V = record { db = t.db; calls = calls } in
        with_tx_inv (cancel_body order_id claims) env s IsBounded (most, c)
          λ o s' h. (most, cancel_body-Counted order_id claims env (next_call s) o s' c h)

    reached-IsBounded :
        {start t : State V} → Reach limit start t → IsBounded start.db → IsBounded t.db
    reached-IsBounded here bounded = bounded
    reached-IsBounded (next r step) bounded = Step-IsBounded step (reached-IsBounded r bounded)

    -- However calls of `Create`, `Update` and `Cancel` overlap, with the guards of a `Create` at any
    -- time before the rest of it, and whichever statements are refused and commits are not
    -- acknowledged: `current_uses` of every promo code is the number of open orders that have it, and
    -- is not above `max_uses`, if at the start this holds, no two orders and no two promo codes have
    -- one id, and `most` bounds the active orders of each user.
    pub Reach-uses :
        (start t : State V) (most : Uuid → ℕ) (id : Uuid)
        → Counted most start.db.orders start.db.promo_codes
        → Reach limit start t
        → (uses_in id t.db.promo_codes ≡ pos (count_if (holds id) t.db.orders))
          × (uses_in id t.db.promo_codes ≤ℤ max_in id t.db.promo_codes)
    Reach-uses start t most id c r =
        let (_, c') = reached-IsBounded r (most, c) in (c'.uses id, c'.within id)
