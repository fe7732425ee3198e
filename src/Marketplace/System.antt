-- ===== src/Marketplace/System.antt =====
-- marketplace-api as a whole: the requests that change its database, each run to its end before the
-- next one starts.
pub mod Catalogue
pub mod Reachable
use service_oriented_hw.Common.{◌≡◌, Option, List, String}
use service_oriented_hw.Common.Int.{ℤ, pos, ◌≤ℤ◌}
use service_oriented_hw.Common.Float.{Float64}
use service_oriented_hw.Marketplace.Domain.{Uuid, Product, PromoCode, OrderItemRequest, UserClaims}
use service_oriented_hw.Marketplace.Session.{Db, Env, Session}
use service_oriented_hw.Marketplace.Orders.Usecase.{create, update, cancel}
use service_oriented_hw.Marketplace.Products.{
  create as create_a_product, update as update_a_product, delete as delete_a_product,
}
use service_oriented_hw.Marketplace.Promos.{create as create_a_promo}

-- The calls of the use cases that write.
pub data Request (V : Type 0) : Type 0 where
  create_order : Uuid → List OrderItemRequest → Option String → Request V
  update_order : Uuid → UserClaims → List OrderItemRequest → Request V
  cancel_order : Uuid → UserClaims → Request V
  create_product : Uuid → Product V → Request V
  update_product : Uuid → UserClaims → Product V → Request V
  delete_product : Uuid → UserClaims → Request V
  create_promo : UserClaims → PromoCode V → Request V

-- What the validation of a request against api/openapi.yaml ensures: `max_uses` has a minimum.
module _ {V : Type 0} where
  abbrev pub Validated : Request V → Type 0
  Validated (create_promo claims p) = pos 0 ≤ℤ p.max_uses
  Validated _ = Unit

module _ {V : Type 0} ⦃f : Float64 V⦄ (limit : ℤ) where
  -- The database behind a request.
  unfoldable pub perform : Request V → Env → Session V → Db V
  perform (create_order user_id reqs code) env s = (create limit user_id reqs code env s).1.db
  perform (update_order id claims reqs) env s = (update limit id claims reqs env s).1.db
  perform (cancel_order id claims) env s = (cancel id claims env s).1.db
  perform (create_product seller_id p) env s = (create_a_product seller_id p env s).1.db
  perform (update_product id claims upd) env s = (update_a_product id claims upd env s).1.db
  perform (delete_product id claims) env s = (delete_a_product id claims env s).1.db
  perform (create_promo claims p) env s = (create_a_promo claims p env s).1.db

  -- A chain of requests, each with an environment of its own.
  pub data Reach (start : Db V) : Db V → Type 0 where
    here : Reach start start
    next :
        {d d' : Db V}
        → Reach start d
        → (req : Request V) → Validated req
        → (env : Env) (s : Session V) → s.db ≡ d
        → perform req env s ≡ d'
        → Reach start d'
