-- ===== src/Marketplace/Router.antt =====
-- services/marketplace-api/cmd/main.go: the routes under the validation of requests, each with its
-- middleware and its handler. A route here has the parameters and the body that the generated
-- server has decoded.
pub mod Reads
pub mod Steps
pub mod Refusals
pub mod Entry
use service_oriented_hw.Marketplace.Listing.{Arrange}
use service_oriented_hw.Common.{ℕ, Bool, true, false, Option, none, some, List, String}
use service_oriented_hw.Common.Int.{ℤ, pos, ◌≤ℤ◌}
use service_oriented_hw.Common.Float.{Float64}
use service_oriented_hw.Marketplace.Domain.{Uuid, Product, OrderItemRequest, UserClaims, Error}
use service_oriented_hw.Marketplace.Session.{Env, Session, Result}
use service_oriented_hw.Marketplace.Products.{ProductUpdate}
use service_oriented_hw.Marketplace.Auth.{AuthStep, answered, passed, auth, auth_optional}
use service_oriented_hw.Marketplace.Handlers.{Answer, Handler}
use service_oriented_hw.Marketplace.Handlers.Orders as OrderHandlers
use service_oriented_hw.Marketplace.Handlers.Products.{
  ListProductsParams, CreateProductBody, list_products as answer_list,
  get_product as answer_product, create_product as make_product, update_product as change_product,
  delete_product as drop_product,
}
use service_oriented_hw.Marketplace.Handlers.Promos.{
  CreatePromoCodeBody, create_promo_code as make_promo,
}

pub data Route (V : Type 0) : Type 0 where
  list_products : ListProductsParams → Route V
  get_product : Uuid → Route V
  create_product : CreateProductBody V → Route V
  update_product : Uuid → ProductUpdate V → Route V
  delete_product : Uuid → Route V
  create_order : List OrderItemRequest → Option String → Route V
  get_order : Uuid → Route V
  update_order : Uuid → List OrderItemRequest → Route V
  cancel_order : Uuid → Route V
  create_promo_code : CreatePromoCodeBody V → Route V

-- What the client gets: an answer of `writeAuthError`, by its code and status, or of a handler.
pub data Served (V : Type 0) : Type 0 where
  turned_away : (code : String) (status : ℕ) → Served V
  handled : Answer V → Served V

abbrev pub middleware : Bool → (String → Result UserClaims) → String → AuthStep
middleware true verifier header = auth verifier header
middleware false verifier header = auth_optional verifier header

module _ {V : Type 0} where
  -- Whether the route stands under `Auth`; else it stands under `AuthOptional`.
  abbrev pub needs_auth : Route V → Bool
  needs_auth (list_products params) = false
  needs_auth (get_product id) = false
  needs_auth _ = true

  abbrev pub after_step :
      AuthStep → (Option UserClaims → Handler V) → Env → Session V → Served V × Session V
  after_step (answered (code, status)) handler env s = (turned_away code status, s)
  after_step (passed claims) handler env s =
      let (answer, s') = handler claims env s in (handled answer, s')

module _ {V : Type 0} ⦃f : Float64 V⦄ (limit : ℤ) (describe : Error → String)
    (arrange : Arrange V) where
  unfoldable pub handle : Route V → Option UserClaims → Handler V
  handle (list_products params) claims = answer_list arrange params
  handle (get_product id) claims = answer_product id
  handle (create_product body) claims = make_product describe claims body
  handle (update_product id body) claims = change_product claims id body
  handle (delete_product id) claims = drop_product claims id
  handle (create_order items code) claims = OrderHandlers.create_order limit claims items code
  handle (get_order id) claims = OrderHandlers.get_order claims id
  handle (update_order id items) claims = OrderHandlers.update_order limit claims id items
  handle (cancel_order id) claims = OrderHandlers.cancel_order claims id
  handle (create_promo_code body) claims = make_promo claims body

  -- A request with the header Authorization, whose token the verifier judges.
  unfoldable pub serve :
      (String → Result UserClaims) → String → Route V → Env → Session V → Served V × Session V
  serve verifier header route =
      after_step (middleware (needs_auth route) verifier header) (handle route)
