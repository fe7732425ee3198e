-- ===== src/Marketplace/Metrics.antt =====
-- services/marketplace-api/internal/middleware/metrics.go around the routes of cmd/main.go.
pub mod Failures
use service_oriented_hw.Marketplace.Listing.{Arrange}
use service_oriented_hw.Common.{ℕ, ◌≡◌, refl, ◌==◌, List, String, if◌then◌else◌}
use service_oriented_hw.Common.Int.{ℤ}
use service_oriented_hw.Common.Float.{Float64}
use service_oriented_hw.Marketplace.Domain.{Product, UserClaims, Error}
use service_oriented_hw.Marketplace.Session.{Env, Session, Result}
use service_oriented_hw.Marketplace.Handlers.{status_of}
use service_oriented_hw.Marketplace.Router.{
  Route, list_products, get_product, create_product, update_product, delete_product, create_order,
  get_order, update_order, cancel_order, create_promo_code, Served, turned_away, handled, serve,
}
use service_oriented_hw.Metrics.{Prometheus, Registry, Exchange, measure, endpoint_of}

module _ {V : Type 0} where
  unfoldable pub method_of : Route V → String
  method_of (list_products params) = "GET"
  method_of (get_product id) = "GET"
  method_of (create_product body) = "POST"
  method_of (update_product id body) = "PUT"
  method_of (delete_product id) = "DELETE"
  method_of (create_order items code) = "POST"
  method_of (get_order id) = "GET"
  method_of (update_order id items) = "PUT"
  method_of (cancel_order id) = "POST"
  method_of (create_promo_code body) = "POST"

  -- The pattern of the route, by which chi has matched the request.
  unfoldable pub pattern_of : Route V → String
  pattern_of (list_products params) = "/products"
  pattern_of (get_product id) = "/products/{id}"
  pattern_of (create_product body) = "/products"
  pattern_of (update_product id body) = "/products/{id}"
  pattern_of (delete_product id) = "/products/{id}"
  pattern_of (create_order items code) = "/orders"
  pattern_of (get_order id) = "/orders/{id}"
  pattern_of (update_order id items) = "/orders/{id}"
  pattern_of (cancel_order id) = "/orders/{id}/cancel"
  pattern_of (create_promo_code body) = "/promo-codes"

  abbrev pub served_status : Served V → ℕ
  served_status (turned_away code status) = status
  served_status (handled answer) = status_of answer

-- The status of the wrapped writer is 0 if nothing was written.
abbrev pub status_or_ok : ℕ → ℕ
status_or_ok status = if status == 0 then 200 else status

module _ {V C H T : Type 0} ⦃f : Float64 V⦄ (p : Prometheus C H T) (itoa : ℕ → String) (limit : ℤ)
    (describe : Error → String) (arrange : Arrange V) where
  -- A request that takes this long, and what becomes of the registry.
  unfoldable pub metrics :
      (String → Result UserClaims)
      → String
      → Route V
      → T
      → Env
      → Session V
      → Registry C H
      → Served V × Session V × Registry C H
  metrics verifier header route took env s r =
      let (out, s') = serve limit describe arrange verifier header route env s in
      let x : Exchange T = record {
        method = method_of route;
        pattern = pattern_of route;
        status = status_or_ok (served_status out);
        duration = took;
      } in
      (out, s', measure p itoa x r)

-- The patterns are not empty.
pub pattern_of-known :
    {V : Type 0} (route : Route V) → endpoint_of (pattern_of route) ≡ pattern_of route
unfolding pattern_of
pattern_of-known (list_products params) = refl
pattern_of-known (get_product id) = refl
pattern_of-known (create_product body) = refl
pattern_of-known (update_product id body) = refl
pattern_of-known (delete_product id) = refl
pattern_of-known (create_order items code) = refl
pattern_of-known (get_order id) = refl
pattern_of-known (update_order id items) = refl
pattern_of-known (cancel_order id) = refl
pattern_of-known (create_promo_code body) = refl
