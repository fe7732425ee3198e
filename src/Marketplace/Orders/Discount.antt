-- ===== src/Marketplace/Orders/Discount.antt =====
-- `calcDiscount` of usecases/order.go, over an abstract `float64`.
use service_oriented_hw.Common.{◌≡◌, false, arith, if◌then◌else◌}
use service_oriented_hw.Common.Float.{Float64, IsIeee}
use service_oriented_hw.Marketplace.Domain.{
  PromoCode, DiscountType, percentage, fixed_amount, other_discount,
}

module _ {V : Type 0} ⦃f : Float64 V⦄ where
  -- `if d > max { d = max }`
  abbrev pub capped : V → V → V
  capped max d = if f.lt max d then max else d

  abbrev pub discount_of : DiscountType → V → V → V
  discount_of percentage value total =
      capped (f.mul total f.seven_tenths) (f.div (f.mul total value) f.hundred)
  discount_of fixed_amount value total = capped total value
  discount_of (other_discount _) value total = f.zero

  unfoldable pub calc_discount : PromoCode V → V → V
  calc_discount promo total = discount_of promo.discount_type promo.discount_value total

  discount_of-le-total :
      (t : DiscountType) (value total : V)
      → IsIeee f
      → f.lt total f.zero ≡ false
      → f.lt total (discount_of t value total) ≡ false
  discount_of-le-total percentage value total laws pays =
      let max = f.mul total f.seven_tenths in
      ground (
        arith,
        laws.shrinks total max,
        laws.shrinks total (f.div (f.mul total value) f.hundred),
        laws.irrefl max,
      )
  discount_of-le-total fixed_amount value total laws pays = ground (arith, laws.irrefl total)
  discount_of-le-total (other_discount _) value total laws pays = pays

  -- Over IEEE arithmetic, a discount does not exceed a total that is not below zero, whatever the
  -- promo code's type and value are.
  pub calc_discount-le-total :
      (promo : PromoCode V) (total : V)
      → IsIeee f
      → f.lt total f.zero ≡ false
      → f.lt total (calc_discount promo total) ≡ false
  unfolding calc_discount
  calc_discount-le-total promo total laws pays =
      discount_of-le-total promo.discount_type promo.discount_value total laws pays

  -- Over IEEE arithmetic, a percentage discount is not above seven tenths of the total.
  pub calc_discount_percentage_cap :
      (promo : PromoCode V) (total : V)
      → IsIeee f
      → promo.discount_type ≡ percentage
      → f.lt (f.mul total f.seven_tenths) (calc_discount promo total) ≡ false
  unfolding calc_discount
  calc_discount_percentage_cap promo total laws kind =
      rw kind (ground (arith, laws.irrefl (f.mul total f.seven_tenths)))
