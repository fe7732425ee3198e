-- ===== src/Marketplace/Usage.antt =====
-- The uses of a promo code and the active orders of a user: what the order code counts by separate
-- statements on the tables of orders and promo codes.
pub mod Tables
pub mod Effects
pub mod Promo
pub mod Moves
pub mod Counts
pub mod Create
pub mod Change
use service_oriented_hw.Common.{
  ℕ, ◌≡◌, ◌≤◌, Bool, true, false, not, ◌&&◌, Option, none, some, List, [], ◌∷◌, ◌==◌, count_if,
}
use service_oriented_hw.Common.Int.{ℤ, pos, ◌+ℤ◌, ◌-ℤ◌, ◌≤ℤ◌}
use service_oriented_hw.Common.Table.{find_by, modify_by, has_key, Distinct}
use service_oriented_hw.Marketplace.Domain.{Uuid, PromoCode, Order, canceled}
use service_oriented_hw.Marketplace.Domain.Status.{same_status}
use service_oriented_hw.Marketplace.Session.{Db}
use service_oriented_hw.Marketplace.Repository.Orders.{
  promo_key, order_key, active_of, set_uses, greatest,
}

-- An order's column `promo_code_id` has the id.
abbrev pub names : Uuid → Option Uuid → Bool
names id none = false
names id (some j) = j == id

module _ {V : Type 0} where
  abbrev pub uses_of : Option (PromoCode V) → ℤ
  uses_of none = pos 0
  uses_of (some p) = p.current_uses

  abbrev pub max_of : Option (PromoCode V) → ℤ
  max_of none = pos 0
  max_of (some p) = p.max_uses

  abbrev pub uses_in : Uuid → List (PromoCode V) → ℤ
  uses_in id promos = uses_of (find_by promo_key id promos)

  abbrev pub max_in : Uuid → List (PromoCode V) → ℤ
  max_in id promos = max_of (find_by promo_key id promos)

  -- The order is open and has the promo code.
  abbrev pub holds : Uuid → Order V → Bool
  holds id o = not (same_status o.status canceled) && names id o.promo_code_id

  abbrev pub incremented : Uuid → List (PromoCode V) → List (PromoCode V)
  incremented id ps = modify_by promo_key id (λ p. set_uses (p.current_uses +ℤ pos 1) p) ps

  abbrev pub decremented : Uuid → List (PromoCode V) → List (PromoCode V)
  decremented id ps =
      modify_by promo_key id (λ p. set_uses (greatest (p.current_uses -ℤ pos 1) (pos 0)) p) ps

  -- What the tables of orders and promo codes owe to the order code, with a bound for the active
  -- orders of each user.
  pub record Counted (most : Uuid → ℕ) (orders : List (Order V)) (promos : List (PromoCode V))
      : Type 0 where
    -- No two orders and no two promo codes have one id.
    pub order_ids : Distinct order_key orders
    pub promo_ids : Distinct promo_key promos
    -- `current_uses` of a promo code is the number of open orders that have it.
    pub uses : (id : Uuid) → uses_in id promos ≡ pos (count_if (holds id) orders)
    -- No promo code is used more often than it may be.
    pub within : (id : Uuid) → uses_in id promos ≤ℤ max_in id promos
    pub single : (user_id : Uuid) → count_if (active_of user_id) orders ≤ most user_id

  -- No user has two active orders.
  abbrev pub IsCounted : Db V → Type 0
  IsCounted d = Counted (λ user_id. 1) d.orders d.promo_codes
