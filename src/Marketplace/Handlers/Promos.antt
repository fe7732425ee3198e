-- ===== src/Marketplace/Handlers/Promos.antt =====
-- services/marketplace-api/internal/handlers/promo.go
use service_oriented_hw.Common.{ℕ, Bool, false, Option, none, some, String, if◌then◌else◌}
use service_oriented_hw.Common.Int.{ℤ, pos}
use service_oriented_hw.Common.Float.{Float64}
use service_oriented_hw.Marketplace.Domain.{
  Time, DiscountType, PromoCode, UserClaims, Error, forbidden,
}
use service_oriented_hw.Marketplace.Promos as Promos
use service_oriented_hw.Marketplace.Handlers.{
  Answer, respond, failure, promo_code, Handler, finish_with, PromoCodeResponse,
}

pub record CreatePromoCodeBody (V : Type 0) : Type 0 where
  pub code : String
  pub discount_type : DiscountType
  pub discount_value : V
  pub min_order_amount : V
  pub max_uses : ℤ
  pub valid_from : Time
  pub valid_until : Time

abbrev pub create_status : Error → ℕ
create_status forbidden = 403
create_status _ = 400

-- `claims == nil || (claims.Role != RoleSeller && claims.Role != RoleAdmin)`, negated
abbrev pub seller_or_admin : UserClaims → Bool
seller_or_admin claims = Promos.may_create claims.role

module _ {V : Type 0} where
  abbrev pub to_promo_response : PromoCode V → PromoCodeResponse V
  to_promo_response p = record {
    id = p.id;
    code = p.code;
    discount_type = p.discount_type;
    discount_value = p.discount_value;
    min_order_amount = p.min_order_amount;
    max_uses = p.max_uses;
    current_uses = p.current_uses;
    valid_from = p.valid_from;
    valid_until = p.valid_until;
    active = p.active;
  }

module _ {V : Type 0} ⦃f : Float64 V⦄ where
  -- The `domain.PromoCode` that the handler fills from the body.
  abbrev pub to_promo : CreatePromoCodeBody V → PromoCode V
  to_promo body = record {
    id = 0;
    code = body.code;
    discount_type = body.discount_type;
    discount_value = body.discount_value;
    min_order_amount = body.min_order_amount;
    max_uses = body.max_uses;
    current_uses = pos 0;
    valid_from = body.valid_from;
    valid_until = body.valid_until;
    active = false;
  }

  abbrev pub promos_only : Answer V
  promos_only = respond 403 (failure "ACCESS_DENIED" "only SELLER or ADMIN can create promo codes")

  unfoldable pub create_promo_code : Option UserClaims → CreatePromoCodeBody V → Handler V
  create_promo_code none body env s = (promos_only, s)
  create_promo_code (some claims) body env s =
      if seller_or_admin claims
      then finish_with (λ p. respond 201 (promo_code (to_promo_response p))) create_status
          (Promos.create claims (to_promo body) env s)
      else (promos_only, s)
