-- ===== src/Marketplace/Handlers.antt =====
-- services/marketplace-api/internal/handlers/handler.go: the answers of the handlers. The response
-- types of the package `generated` come down to a status and a body.
pub mod Orders
pub mod Products
pub mod Promos
pub mod Statuses
use service_oriented_hw.Common.{ℕ, Bool, true, false, Option, List, map, String}
use service_oriented_hw.Common.Int.{ℤ}
use service_oriented_hw.Marketplace.Domain.{
  Uuid, Time, OrderStatus, ProductStatus, DiscountType, Product, PromoCode, OrderItem, Order,
  OrderItemRequest, Error, not_found, forbidden, conflict, unauthorized, token_invalid,
  token_expired, auth_unavailable, product_inactive, insufficient_stock, active_order_exists,
  order_limit_exceeded, promo_invalid, promo_min_amount, invalid_transition,
}
use service_oriented_hw.Marketplace.Session.{Env, Session, Result, ok, err, M}

pub record OrderItemResponse (V : Type 0) : Type 0 where
  pub id : Uuid
  pub product_id : Uuid
  pub quantity : ℤ
  pub price_at_order : V

pub record OrderResponse (V : Type 0) : Type 0 where
  pub id : Uuid
  pub user_id : Uuid
  pub status : OrderStatus
  pub items : List (OrderItemResponse V)
  pub total_amount : V
  pub discount_amount : V
  pub promo_code_id : Option Uuid
  pub created_at : Time
  pub updated_at : Time

pub record ProductResponse (V : Type 0) : Type 0 where
  pub id : Uuid
  pub name : String
  pub description : Option String
  pub price : V
  pub stock : ℤ
  pub category : String
  pub status : ProductStatus
  pub seller_id : Uuid
  pub created_at : Time
  pub updated_at : Time

pub record ProductListResponse (V : Type 0) : Type 0 where
  pub items : List (ProductResponse V)
  pub total_elements : ℤ
  pub page : ℤ
  pub size : ℤ

pub record PromoCodeResponse (V : Type 0) : Type 0 where
  pub id : Uuid
  pub code : String
  pub discount_type : DiscountType
  pub discount_value : V
  pub min_order_amount : V
  pub max_uses : ℤ
  pub current_uses : ℤ
  pub valid_from : Time
  pub valid_until : Time
  pub active : Bool

pub data Body (V : Type 0) : Type 0 where
  failure : (error_code message : String) → Body V
  order : OrderResponse V → Body V
  product : ProductResponse V → Body V
  product_list : ProductListResponse V → Body V
  promo_code : PromoCodeResponse V → Body V
  empty : Body V

-- `reported` is an error that a handler returns in place of a response: what becomes of it is up to
-- the generated server.
pub data Answer (V : Type 0) : Type 0 where
  respond : (status : ℕ) → Body V → Answer V
  reported : Error → Answer V

-- A handler of a request that carries these claims, if any.
abbrev pub Handler : Type 0 → Type 0
Handler V = Env → Session V → Answer V × Session V

-- `mapDomainError`
unfoldable pub map_domain_error : Error → String × String
map_domain_error not_found = ("NOT_FOUND", "resource not found")
map_domain_error forbidden = ("ACCESS_DENIED", "access denied")
map_domain_error conflict = ("CONFLICT", "conflict")
map_domain_error unauthorized = ("TOKEN_INVALID", "invalid token")
map_domain_error token_invalid = ("TOKEN_INVALID", "invalid token")
map_domain_error token_expired = ("TOKEN_EXPIRED", "token expired")
map_domain_error auth_unavailable = ("AUTH_UNAVAILABLE", "auth service unavailable")
map_domain_error product_inactive = ("PRODUCT_INACTIVE", "product is not available")
map_domain_error insufficient_stock =
    ("INSUFFICIENT_STOCK", "insufficient stock for one or more products")
map_domain_error active_order_exists = ("ORDER_HAS_ACTIVE", "user already has an active order")
map_domain_error order_limit_exceeded =
    ("ORDER_LIMIT_EXCEEDED", "order rate limit exceeded, try again later")
map_domain_error promo_invalid = ("PROMO_CODE_INVALID", "promo code is invalid or expired")
map_domain_error promo_min_amount =
    ("PROMO_CODE_MIN_AMOUNT", "order total is below promo minimum amount")
map_domain_error invalid_transition = ("INVALID_STATE_TRANSITION", "invalid order state transition")
map_domain_error _ = ("INTERNAL_ERROR", "internal server error")

module _ {V : Type 0} where
  abbrev pub to_order_item_response : OrderItem V → OrderItemResponse V
  to_order_item_response it = record {
    id = it.id;
    product_id = it.product_id;
    quantity = it.quantity;
    price_at_order = it.price_at_order;
  }

  abbrev pub to_order_response : Order V → OrderResponse V
  to_order_response o = record {
    id = o.id;
    user_id = o.user_id;
    status = o.status;
    items = map to_order_item_response o.items;
    total_amount = o.total_amount;
    discount_amount = o.discount_amount;
    promo_code_id = o.promo_code_id;
    created_at = o.created_at;
    updated_at = o.updated_at;
  }

  abbrev pub to_product_response : Product V → ProductResponse V
  to_product_response p = record {
    id = p.id;
    name = p.name;
    description = p.description;
    price = p.price;
    stock = p.stock;
    category = p.category;
    status = p.status;
    seller_id = p.seller_id;
    created_at = p.created_at;
    updated_at = p.updated_at;
  }

  -- An answer with the code and the message of an error.
  abbrev pub fail_with : ℕ → Error → Answer V
  fail_with status e =
      let (code, message) = map_domain_error e in respond status (failure code message)

  -- `if err != nil { ... }`, and the answer to a result. The statuses of the errors are the handler's.
  abbrev pub finish_with :
      {A : Type 0} → (A → Answer V) → (Error → ℕ) → Result A × Session V → Answer V × Session V
  finish_with success status (ok a, s) = (success a, s)
  finish_with success status (err e, s) = (fail_with (status e) e, s)

  abbrev pub status_of : Answer V → ℕ
  status_of (respond status body) = status
  status_of (reported e) = 500

abbrev pub is_ok : {A : Type 0} → Result A → Bool
is_ok (ok a) = true
is_ok (err e) = false
