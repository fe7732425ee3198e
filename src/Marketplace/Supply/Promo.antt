-- ===== src/Marketplace/Supply/Promo.antt =====
-- The checks before an order is placed change nothing, and a promo code changes no other table.
use service_oriented_hw.Common.{
  ◌≡◌, refl, ap, ◌∙◌, Bool, Option, none, some, Bool-cases, inl, inr, String,
}
use text.Mathlib.Text.{◌==◌ as same_text}
use service_oriented_hw.Common.Int.{ℤ}
use service_oriented_hw.Common.Float.{Float64}
use service_oriented_hw.Marketplace.Domain.{Uuid, OperationType, PromoCode, promo_invalid}
use service_oriented_hw.Marketplace.Session.{Db, Env, Session, Result, ok, err, M}
use service_oriented_hw.Marketplace.Session.Steps.{
  after_bind, after_guard, pure_ok, query_ok, exec_ok, read_clock_ok, found_ok,
}
use service_oriented_hw.Marketplace.Repository.Orders.{
  rate_limit_check, has_active_order, lock_promo, increment_promo_uses,
}
use service_oriented_hw.Marketplace.Orders.Usecase.{promo_for, apply_promo, or_promo_invalid}
use service_oriented_hw.Marketplace.Supply.Rows.{OnlyPromos}

module _ {V : Type 0} where
  pub rate_limit_check_ok :
      (user_id : Uuid) (op : OperationType) (limit : ℤ) (env : Env) (s : Session V) {b : Bool}
      {s' : Session V}
      → rate_limit_check user_id op limit env s ≡ (ok b, s')
      → s'.db ≡ s.db
  unfolding rate_limit_check
  rate_limit_check_ok user_id op limit env s h = after_bind _ _ env s h λ now t e rest.
      after_bind _ _ env t rest λ n t' e' rest'.
        let (_, stay) = pure_ok _ env t' rest' in
        rw stay ((query_ok _ env t e').1 ∙ read_clock_ok env s e)

  pub has_active_order_ok :
      (user_id : Uuid) (env : Env) (s : Session V) {b : Bool} {s' : Session V}
      → has_active_order user_id env s ≡ (ok b, s')
      → s'.db ≡ s.db
  unfolding has_active_order
  has_active_order_ok user_id env s h =
      after_bind _ _ env s h
        λ n t e rest. let (_, stay) = pure_ok _ env t rest in rw stay ((query_ok _ env s e).1)

  pub OnlyPromos-of_eq : {d d' : Db V} → d' ≡ d → OnlyPromos d d'
  OnlyPromos-of_eq e = record {
    products = ap (λ (x : Db V). x.products) e;
    orders = ap (λ (x : Db V). x.orders) e;
    order_items = ap (λ (x : Db V). x.order_items) e;
  }

  pub OnlyPromos-trans : {d e g : Db V} → OnlyPromos d e → OnlyPromos e g → OnlyPromos d g
  OnlyPromos-trans a b = record {
    products = b.products ∙ a.products;
    orders = b.orders ∙ a.orders;
    order_items = b.order_items ∙ a.order_items;
  }

  increment-OnlyPromos :
      (id : Uuid) (env : Env) (s : Session V) {u : Unit {0}} {s' : Session V}
      → increment_promo_uses id env s ≡ (ok u, s')
      → OnlyPromos s.db s'.db
  unfolding increment_promo_uses
  increment-OnlyPromos id env s h =
      rw (exec_ok _ env s h) (record { products = refl; orders = refl; order_items = refl })

  pub or_promo_invalid_ok :
      (m : M V (PromoCode V)) (env : Env) (s : Session V) {p : PromoCode V} {s' : Session V}
      → or_promo_invalid m env s ≡ (ok p, s')
      → m env s ≡ (ok p, s')
  unfolding or_promo_invalid
  or_promo_invalid_ok m env s {p} {s'} h = go (m env s) h
    where
      go :
          (out : Result (PromoCode V) × Session V)
          → ◌≡◌ {A = Result (PromoCode V) × Session V}
              (let (r, t) = out in elim r [ ok q ↦ (ok q, t) | err e ↦ (err promo_invalid, t) ])
              (ok p, s')
          → out ≡ (ok p, s')
      go (ok q, t) e = e
      go (err x, t) e = cc

  lock_promo_ok :
      (code : String) (env : Env) (s : Session V) {p : PromoCode V} {s' : Session V}
      → lock_promo code env s ≡ (ok p, s')
      → s'.db ≡ s.db
  unfolding lock_promo
  lock_promo_ok code env s h =
      after_bind _ _ env s h
        λ row t e rest. let (_, stay) = found_ok row env t rest in rw stay ((query_ok _ env s e).1)

module _ {V : Type 0} ⦃f : Float64 V⦄ where
  apply_promo-OnlyPromos :
      (code : String) (total : V) (env : Env) (s : Session V) {r : Option Uuid × V} {s' : Session V}
      → apply_promo code total env s ≡ (ok r, s')
      → OnlyPromos s.db s'.db
  unfolding apply_promo
  apply_promo-OnlyPromos code total env s h = after_bind _ _ env s h λ promo t e h1.
      after_guard _ _ _ env t h1 λ _ h2. after_bind _ _ env t h2 λ now t2 e2 h3.
        after_guard _ _ _ env t2 h3 λ _ h4. after_bind _ _ env t2 h4 λ now' t4 e4 h5.
          after_guard _ _ _ env t4 h5 λ _ h6. after_guard _ _ _ env t4 h6 λ _ h7.
            after_bind _ _ env t4 h7 λ _ t7 e7 h8.
              let (_, stay) = pure_ok _ env t7 h8 in
              let locked = lock_promo_ok code env s (or_promo_invalid_ok _ env s e) in
              rw stay (
                OnlyPromos-trans
                  (OnlyPromos-of_eq (read_clock_ok env t2 e4 ∙ read_clock_ok env t e2 ∙ locked))
                  (increment-OnlyPromos _ env t4 e7))

  pub promo_for-OnlyPromos :
      (code : Option String) (total : V) (env : Env) (s : Session V) {r : Option Uuid × V}
      {s' : Session V}
      → promo_for code total env s ≡ (ok r, s')
      → OnlyPromos s.db s'.db
  unfolding promo_for
  promo_for-OnlyPromos none total env s h = rw ((pure_ok _ env s h).1) (OnlyPromos-of_eq refl)
  promo_for-OnlyPromos (some code) total env s h = elim (Bool-cases (same_text code "")) [
    | inl empty ↦ let h' = (rw (empty) at h) in rw ((pure_ok _ env s h').1) (OnlyPromos-of_eq refl)
    | inr given ↦ apply_promo-OnlyPromos code total env s (rw given at h)
  ]
