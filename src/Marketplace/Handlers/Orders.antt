-- ===== src/Marketplace/Handlers/Orders.antt =====
-- services/marketplace-api/internal/handlers/order.go
use service_oriented_hw.Common.{ℕ, Option, none, some, List, String}
use service_oriented_hw.Common.Int.{ℤ}
use service_oriented_hw.Common.Float.{Float64}
use service_oriented_hw.Marketplace.Domain.{
  Uuid, OrderItemRequest, UserClaims, Error, forbidden, insufficient_stock, active_order_exists,
  order_limit_exceeded, promo_invalid, promo_min_amount, invalid_transition,
}
use service_oriented_hw.Marketplace.Orders.Usecase as Orders
use service_oriented_hw.Marketplace.Handlers.{
  respond, failure, order, Handler, finish_with, to_order_response,
}

-- The statuses of `CreateOrder`, `GetOrder`, `UpdateOrder` and `CancelOrder` for an error.
abbrev pub create_status : Error → ℕ
create_status order_limit_exceeded = 429
create_status active_order_exists = 409
create_status insufficient_stock = 409
create_status promo_invalid = 409
create_status promo_min_amount = 409
create_status _ = 400

abbrev pub get_status : Error → ℕ
get_status forbidden = 403
get_status _ = 404

abbrev pub update_status : Error → ℕ
update_status order_limit_exceeded = 429
update_status invalid_transition = 409
update_status insufficient_stock = 409
update_status promo_invalid = 409
update_status promo_min_amount = 409
update_status forbidden = 403
update_status _ = 400

abbrev pub cancel_status : Error → ℕ
cancel_status forbidden = 403
cancel_status invalid_transition = 409
cancel_status _ = 404

module _ {V : Type 0} where
  unfoldable pub get_order : Option UserClaims → Uuid → Handler V
  get_order none id env s = (respond 403 (failure "ACCESS_DENIED" "authentication required"), s)
  get_order (some claims) id env s =
      finish_with (λ o. respond 200 (order (to_order_response o))) get_status
        (Orders.get_by_id id claims env s)

  unfoldable pub cancel_order : Option UserClaims → Uuid → Handler V
  cancel_order none id env s = (respond 403 (failure "ACCESS_DENIED" "authentication required"), s)
  cancel_order (some claims) id env s =
      finish_with (λ o. respond 200 (order (to_order_response o))) cancel_status
        (Orders.cancel id claims env s)

module _ {V : Type 0} ⦃f : Float64 V⦄ (limit : ℤ) where
  unfoldable pub create_order :
      Option UserClaims → List OrderItemRequest → Option String → Handler V
  create_order none items promo_code env s =
      (respond 400 (failure "TOKEN_MISSING" "authentication required"), s)
  create_order (some claims) items promo_code env s =
      finish_with (λ o. respond 201 (order (to_order_response o))) create_status
        (Orders.create limit claims.user_id items promo_code env s)

  unfoldable pub update_order : Option UserClaims → Uuid → List OrderItemRequest → Handler V
  update_order none id items env s =
      (respond 403 (failure "ACCESS_DENIED" "authentication required"), s)
  update_order (some claims) id items env s =
      finish_with (λ o. respond 200 (order (to_order_response o))) update_status
        (Orders.update limit id claims items env s)
