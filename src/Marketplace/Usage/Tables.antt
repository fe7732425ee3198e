-- ===== src/Marketplace/Usage/Tables.antt =====
-- How each write to the tables moves the uses of a promo code.
use service_oriented_hw.Common.{
  ℕ, ◌+◌, ◌≡◌, refl, ap, ◌∙◌, true, some, List, [], ◌∷◌, ◌==◌, if◌then◌else◌, arith, Bool-cases,
  inl, inr, ==_iff, String,
}
use service_oriented_hw.Common.Int.{ℤ, pos, ◌+ℤ◌, ◌-ℤ◌}
use service_oriented_hw.Common.Table.{find_by, modify_by, has_key, Distinct, find_by-modify_by}
use service_oriented_hw.Marketplace.Domain.{Uuid, PromoCode}
use service_oriented_hw.Marketplace.Repository.Orders.{promo_key, find_code, greatest, set_uses}
use service_oriented_hw.Marketplace.Usage.{
  uses_of, max_of, uses_in, max_in, incremented, decremented,
}
use text.Mathlib.Text.{◌==◌ as same_text}

module _ {V : Type 0} where
  -- A promo code that is found by its code is the one with its id.
  pub find_code-find_by :
      (code : String) (ps : List (PromoCode V)) (p : PromoCode V)
      → Distinct promo_key ps
      → find_code code ps ≡ some p
      → find_by promo_key p.id ps ≡ some p
  find_code-find_by code [] p d h = cc
  find_code-find_by code (q ∷ ps) p d h = elim (Bool-cases (same_text q.code code)) [
    | inl this ↦ ground (arith, ==_iff q.id q.id)
    | inr other ↦
        let h' : find_code code ps ≡ some p = rw other at h in
        let ih = find_code-find_by code ps p d.1 h' in ground (arith, ==_iff q.id p.id)
  ]

  -- A write of one promo code's uses is seen at that code and nowhere else; no bound moves.
  uses_in_write :
      (id k : Uuid) (new : ℤ → ℤ) (ps : List (PromoCode V))
      → has_key promo_key k ps ≡ true
      → uses_in id (modify_by promo_key k (λ p. set_uses (new p.current_uses) p) ps)
        ≡ (if k == id then new (uses_in id ps) else uses_in id ps)
  uses_in_write id k new ps h =
      ap uses_of
        (find_by-modify_by promo_key id k (λ p. set_uses (new p.current_uses) p) ps (λ p. refl))
      ∙ ground (arith, ==_iff k id)

  max_in_write :
      (id k : Uuid) (new : ℤ → ℤ) (ps : List (PromoCode V))
      → max_in id (modify_by promo_key k (λ p. set_uses (new p.current_uses) p) ps) ≡ max_in id ps
  max_in_write id k new ps =
      ap max_of
        (find_by-modify_by promo_key id k (λ p. set_uses (new p.current_uses) p) ps (λ p. refl))
      ∙ ground arith

  pub uses_in-incremented :
      (id k : Uuid) (ps : List (PromoCode V))
      → has_key promo_key k ps ≡ true
      → uses_in id (incremented k ps) ≡ (if k == id then uses_in id ps +ℤ pos 1 else uses_in id ps)
  uses_in-incremented id k ps h = uses_in_write id k (λ n. n +ℤ pos 1) ps h

  pub max_in-incremented :
      (id k : Uuid) (ps : List (PromoCode V)) → max_in id (incremented k ps) ≡ max_in id ps
  max_in-incremented id k ps = max_in_write id k (λ n. n +ℤ pos 1) ps

  pub uses_in-decremented :
      (id k : Uuid) (ps : List (PromoCode V)) (n : ℕ)
      → uses_in k ps ≡ pos (n + 1)
      → uses_in id (decremented k ps) ≡ (if k == id then pos n else uses_in id ps)
  unfolding ◌-ℤ◌
  uses_in-decremented id k ps n h =
      uses_in_write id k (λ m. greatest (m -ℤ pos 1) (pos 0)) ps (ground arith)
      ∙ ground (arith, ==_iff k id)

  pub max_in-decremented :
      (id k : Uuid) (ps : List (PromoCode V)) → max_in id (decremented k ps) ≡ max_in id ps
  max_in-decremented id k ps = max_in_write id k (λ m. greatest (m -ℤ pos 1) (pos 0)) ps
