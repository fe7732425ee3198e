-- ===== src/Marketplace/Promos.antt =====
-- internal/repository/promo.go and internal/usecases/promo.go: the creation of a promo code.
use service_oriented_hw.Common.{
  ◌≡◌, refl, ap, ◌∙◌, Bool, true, false, not, ◌||◌, none, some, List, [], ◌∷◌, ◌++◌, String, arith,
}
use service_oriented_hw.Common.Int.{pos}
use service_oriented_hw.Common.Float.{Float64}
use service_oriented_hw.Common.Table.{has_key}
use service_oriented_hw.Marketplace.Domain.{
  Uuid, Time, PromoCode, UserClaims, Role, seller, admin, forbidden,
}
use service_oriented_hw.Marketplace.Session.{
  Db, Env, Session, ok, M, ◌>>=◌, ◌>>◌, fail_if, insert, query, next_call,
}
use service_oriented_hw.Marketplace.Repository.Tx.{at_once, at_once_ok}
use service_oriented_hw.Marketplace.Session.Steps.{after_guard, insert_ok}
use service_oriented_hw.Marketplace.Repository.Orders.{promo_key, find_code, lock_promo}
use text.Mathlib.TextEquality.{eq_iff}

-- `claims.Role != RoleSeller && claims.Role != RoleAdmin`, negated
abbrev pub may_create : Role → Bool
may_create seller = true
may_create admin = true
may_create _ = false

not_taken : (a b : Bool) → (a || b) ≡ false → b ≡ false
not_taken true b h = cc
not_taken false b h = h

module _ {V : Type 0} where
  -- The column `code` is UNIQUE.
  abbrev pub has_code : String → List (PromoCode V) → Bool
  has_code code ps = elim (find_code code ps) [ none ↦ false | some _ ↦ true ]

  abbrev pub taken : String → Uuid → Db V → Bool
  taken code id db = has_key promo_key id db.promo_codes || has_code code db.promo_codes

module _ {V : Type 0} ⦃f : Float64 V⦄ where
  -- The row that the INSERT returns: `current_uses` and `active` have their defaults.
  abbrev pub new_promo : PromoCode V → Uuid → Time → PromoCode V
  new_promo p id now = record p {
    id = id;
    discount_value = f.decimal_12_2 p.discount_value;
    min_order_amount = f.decimal_12_2 p.min_order_amount;
    current_uses = pos 0;
    active = true;
  }

  unfoldable pub create_promo : PromoCode V → M V (PromoCode V)
  create_promo p = at_once (
      insert (taken p.code) (new_promo p)
        (λ row db. record db { promo_codes = db.promo_codes ++ (row ∷ []) }))

  unfoldable pub create : UserClaims → PromoCode V → M V (PromoCode V)
  create claims p = do fail_if (not (may_create claims.role)) forbidden; create_promo p

  find_code-append :
      (code : String) (ps : List (PromoCode V)) (q : PromoCode V)
      → q.code ≡ code
      → has_code code ps ≡ false
      → find_code code (ps ++ (q ∷ [])) ≡ some q
  find_code-append code [] q same h = rw (same, (eq_iff code code).1 refl)
  find_code-append code (p ∷ ps) q same h = ground (arith, find_code-append code ps q same)

  lock_promo_runs :
      (code : String) (q : PromoCode V) (env : Env) (s : Session V)
      → env.refuses s.calls ≡ false
      → find_code code (s.db).promo_codes ≡ some q
      → lock_promo code env s ≡ (ok q, next_call s)
  unfolding lock_promo query ◌>>=◌
  lock_promo_runs code q env s up row = ground arith

  -- A promo code that was created is found by its code: `LockPromo` gives the row that `Create`
  -- returned, if its statement is not refused. It has no uses and is active.
  pub create-lock_promo :
      (claims : UserClaims) (p q : PromoCode V) (env : Env) (s s' : Session V)
      → create claims p env s ≡ (ok q, s')
      → env.refuses s'.calls ≡ false
      → (lock_promo p.code env s' ≡ (ok q, next_call s'))
        × (q.current_uses ≡ pos 0)
        × (q.active ≡ true)
  unfolding create create_promo
  create-lock_promo claims p q env s s' h up = after_guard _ _ _ env s h λ _ rest.
      let (id, free, row, after) = insert_ok _ _ _ env s (at_once_ok _ env s q s' rest) in
      let new_code = not_taken _ _ free in
      let there : find_code p.code (s'.db).promo_codes ≡ some q =
        ap (λ (db : Db V). find_code p.code db.promo_codes) after
        ∙ find_code-append p.code (s.db).promo_codes q (ap (λ (x : PromoCode V). x.code) row)
            new_code in
      (
        lock_promo_runs p.code q env s' up there,
        ap (λ (x : PromoCode V). x.current_uses) row,
        ap (λ (x : PromoCode V). x.active) row,
      )
