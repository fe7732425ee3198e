-- ===== src/Marketplace/Overlap/Stock.antt =====
-- However requests for orders overlap, what is taken from the stock stands in the items of orders.
use service_oriented_hw.Common.{◌≡◌, refl, ◌∙◌, Option, List, [], String}
use service_oriented_hw.Common.Int.{ℤ}
use service_oriented_hw.Common.Float.{Float64}
use service_oriented_hw.Marketplace.Domain.{Uuid, Order, OrderItemRequest}
use service_oriented_hw.Marketplace.Session.{
  Db, Env, Session, CommitReply, acknowledged, refused, lost, Result, ok, err,
}
use service_oriented_hw.Marketplace.Session.Steps.{after_bind}
use service_oriented_hw.Marketplace.Repository.Tx.{finish}
use service_oriented_hw.Marketplace.Orders.Usecase.{reserve_items}
use service_oriented_hw.Marketplace.Supply.{supply, IsConsistent}
use service_oriented_hw.Marketplace.Supply.Reserve.{reserve_from-Reserved}
use service_oriented_hw.Marketplace.Supply.Promo.{promo_for-OnlyPromos}
use service_oriented_hw.Marketplace.Supply.Create.{
  Keeps, Keeps-refl, after_promo, place_order-Keeps,
}
use service_oriented_hw.Marketplace.Supply.Cancel.{cancel-supply}
use service_oriented_hw.Marketplace.Supply.Update.{update-supply}
use service_oriented_hw.Marketplace.Overlap.{
  create_rest, Pending, State, settle, Step, pass, settles, updates, cancels, Reach, here, next,
}

module _ {V A : Type 0} where
  -- What holds before the body, and after one that ended without an error, holds behind the commit
  -- or the rollback.
  pub finish_inv :
      (P : Db V → Type 0) (reply : CommitReply) (s : Session V) (out : Result A × Session V)
      → P s.db
      → ((a : A) (t : Session V) → out ≡ (ok a, t) → P t.db)
      → P (finish reply s out).1.db
  unfolding finish
  finish_inv P reply s (err e, t) before after = before
  finish_inv P acknowledged s (ok a, t) before after = after a t refl
  finish_inv P refused s (ok a, t) before after = before
  finish_inv P lost s (ok a, t) before after = after a t refl

module _ {V : Type 0} ⦃f : Float64 V⦄ where
  create_rest-Keeps :
      (user_id : Uuid) (reqs : List OrderItemRequest) (code : Option String) (env : Env)
      (s : Session V) (o : Order V) (s' : Session V)
      → IsConsistent s.db
      → create_rest user_id reqs code env s ≡ (ok o, s')
      → Keeps s.db s'.db
  unfolding create_rest reserve_items
  create_rest-Keeps user_id reqs code env s o s' sound h =
      after_bind _ _ env s h λ reserved t1 e1 h1. after_bind _ _ env t1 h1 λ promo t2 e2 h2.
        place_order-Keeps user_id reserved.0 reserved.1 promo s.db env t2 sound
          (after_promo (reserve_from-Reserved [] f.zero reqs env s reserved t1 e1)
            (promo_for-OnlyPromos code reserved.1 env t1 e2))
          h2

  settle-Keeps : (c : Pending) (d : Db V) → IsConsistent d → Keeps d (settle c d)
  unfolding settle
  settle-Keeps c d sound =
      let s : Session V = record { db = d; calls = c.calls } in
      finish_inv (Keeps d) c.env.commit s (create_rest c.user_id c.reqs c.code c.env s)
        (Keeps-refl d sound)
        (λ o t h. create_rest-Keeps c.user_id c.reqs c.code c.env s o t sound h)

  module _ (limit : ℤ) where
    -- The foreign keys hold, and the supply is as before.
    abbrev Holds : Db V → Db V → Type 0
    Holds start d = IsConsistent d × ((p : Uuid) → supply p d ≡ supply p start)

    Step-Holds :
        {t t' : State V} → Step limit t t' → (start : Db V) → Holds start t.db → Holds start t'.db
    Step-Holds (pass c calls v h n) start held = held
    Step-Holds {t} (settles before after c at) start (sound, same) =
        let k = settle-Keeps c t.db sound in (k.consistent, λ p. k.same_supply p ∙ same p)
    Step-Holds {t} (updates order_id claims reqs env calls v) start (sound, same) =
        let s : Session V = record { db = t.db; calls = calls } in
        (
          (update-supply limit order_id claims reqs env s 0 sound).0,
          λ p. (update-supply limit order_id claims reqs env s p sound).1 ∙ same p,
        )
    Step-Holds {t} (cancels order_id claims env calls) start (sound, same) =
        let s : Session V = record { db = t.db; calls = calls } in
        (
          (cancel-supply order_id claims env s 0 sound).0,
          λ p. (cancel-supply order_id claims env s p sound).1 ∙ same p,
        )

    reached-Holds :
        {start t : State V} → Reach limit start t → IsConsistent start.db → Holds start.db t.db
    reached-Holds here sound = (sound, λ p. refl)
    reached-Holds {start} (next r step) sound = Step-Holds step start.db (reached-Holds r sound)

    -- However calls of `Create`, `Update` and `Cancel` overlap, with the guards of a `Create` at any
    -- time before the rest of it, and whichever statements are refused and commits are not
    -- acknowledged: the supply of every product, its stock and what open orders hold of it taken
    -- together, stays the same, and so do the foreign keys of the items, if these hold at the start.
    pub Reach-supply :
        (start t : State V) (p : Uuid)
        → IsConsistent start.db
        → Reach limit start t
        → IsConsistent t.db × (supply p t.db ≡ supply p start.db)
    Reach-supply start t p sound r = let (rows, same) = reached-Holds r sound in (rows, same p)
