-- ===== src/Marketplace/Domain.antt =====
-- services/marketplace-api/internal/domain: the entities and the errors.
-- A UUID is a number, a `time.Time` is an integer of nanoseconds, an `int` is an integer and a
-- pointer that may be nil is an `Option`. `V` is the type of `float64` values.
pub mod Status
use service_oriented_hw.Common.{ℕ, Bool, Option, List, String}
use service_oriented_hw.Common.Int.{ℤ}

abbrev pub Uuid : Type 0
Uuid = ℕ

abbrev pub Time : Type 0
Time = ℤ

-- `OrderStatus`: the six constants; the column has an enum type with the same six values.
pub data OrderStatus : Type 0 where
  created payment_pending paid shipped completed canceled : OrderStatus

-- `ProductStatus` is a string: empty, one of the constants, or any other text.
pub data ProductStatus : Type 0 where
  unset active inactive archived : ProductStatus
  other_status : String → ProductStatus

-- `DiscountType` is a string: one of the constants, or any other text.
pub data DiscountType : Type 0 where
  percentage fixed_amount : DiscountType
  other_discount : String → DiscountType

-- `Role` is a string: one of the constants, or any other text.
pub data Role : Type 0 where
  user seller admin : Role
  other_role : String → Role

pub data OperationType : Type 0 where
  create_order update_order : OperationType

pub record UserClaims : Type 0 where
  pub user_id : Uuid
  pub role : Role

pub record Product (V : Type 0) : Type 0 where
  pub id : Uuid
  pub name : String
  pub description : Option String
  pub price : V
  pub stock : ℤ
  pub category : String
  pub status : ProductStatus
  pub seller_id : Uuid
  pub created_at : Time
  pub updated_at : Time

pub record ProductFilter : Type 0 where
  pub category : Option String
  pub status : Option ProductStatus
  pub seller_id : Option Uuid
  pub page : ℤ
  pub size : ℤ

pub record PromoCode (V : Type 0) : Type 0 where
  pub id : Uuid
  pub code : String
  pub discount_type : DiscountType
  pub discount_value : V
  pub min_order_amount : V
  pub max_uses : ℤ
  pub current_uses : ℤ
  pub valid_from : Time
  pub valid_until : Time
  pub active : Bool

pub record OrderItem (V : Type 0) : Type 0 where
  pub id : Uuid
  pub order_id : Uuid
  pub product_id : Uuid
  pub quantity : ℤ
  pub price_at_order : V

pub record Order (V : Type 0) : Type 0 where
  pub id : Uuid
  pub user_id : Uuid
  pub status : OrderStatus
  pub items : List (OrderItem V)
  pub total_amount : V
  pub discount_amount : V
  pub promo_code_id : Option Uuid
  pub created_at : Time
  pub updated_at : Time

pub record OrderItemRequest : Type 0 where
  pub product_id : Uuid
  pub quantity : ℤ

-- The sentinel errors, and `internal` for every other error value.
pub data Error : Type 0 where
  not_found forbidden conflict unauthorized token_invalid token_expired auth_unavailable : Error
  product_inactive insufficient_stock active_order_exists order_limit_exceeded : Error
  promo_invalid promo_min_amount invalid_transition internal : Error
