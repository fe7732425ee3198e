-- ===== src/Marketplace/Router/Steps.antt =====
-- What the routes of cmd/main.go do to the database: the one call of a use case that each of them
-- makes in the name of its caller.
use service_oriented_hw.Marketplace.Listing.{Arrange}
use service_oriented_hw.Common.{
  ◌≡◌, refl, ap, ◌⊎◌, inl, inr, Bool, true, false, Option, none, some, String,
}
use service_oriented_hw.Common.Int.{ℤ}
use service_oriented_hw.Common.Float.{Float64}
use service_oriented_hw.Marketplace.Domain.{
  Product, UserClaims, Role, user, seller, admin, other_role, Error,
}
use service_oriented_hw.Marketplace.Session.{Db, Env, Session, Result, ok, err}
use service_oriented_hw.Marketplace.System as System
use service_oriented_hw.Marketplace.System.{Request, perform}
use service_oriented_hw.Marketplace.Promos.{may_create}
use service_oriented_hw.Marketplace.Products.{to_update}
use service_oriented_hw.Marketplace.Auth.{
  AuthStep, answered, passed, auth, auth_optional, auth_err_info, parse_token,
}
use service_oriented_hw.Marketplace.Handlers.Orders as OrderHandlers
use service_oriented_hw.Marketplace.Handlers.Products.{
  to_product, created, create_product as make_product, update_product as change_product,
  delete_product as drop_product,
}
use service_oriented_hw.Marketplace.Handlers.Promos.{to_promo, create_promo_code as make_promo}
use service_oriented_hw.Marketplace.Router.{
  Route, list_products, get_product, create_product, update_product, delete_product, create_order,
  get_order, update_order, cancel_order, create_promo_code, handle, serve, after_step, middleware,
  needs_auth,
}
use service_oriented_hw.Marketplace.Router.Reads.{
  finish_with_same, list_products_same, get_product_same, get_order_same,
}

module _ {V : Type 0} where
  -- What only a seller or an administrator may ask for.
  abbrev pub if_staff : Role → Request V → Option (Request V)
  if_staff user req = none
  if_staff seller req = some req
  if_staff admin req = some req
  if_staff (other_role name) req = none

  staff_cases :
      (role : Role) (req : Request V)
      → ((may_create role ≡ true) × (if_staff role req ≡ some req))
        ⊎ ((may_create role ≡ false) × (if_staff role req ≡ none))
  staff_cases user req = inr (refl, refl)
  staff_cases seller req = inl (refl, refl)
  staff_cases admin req = inl (refl, refl)
  staff_cases (other_role name) req = inr (refl, refl)

  created_same :
      (describe : Error → String) (out : Result (Product V) × Session V)
      → (created describe out).1 ≡ out.1
  created_same describe (ok p, s) = refl
  created_same describe (err e, s) = refl

-- The claims of the token behind "Bearer ", if the verifier accepts it.
abbrev accepted : Result UserClaims → Option UserClaims
accepted (ok claims) = some claims
accepted (err e) = none

abbrev pub caller : (String → Result UserClaims) → String → Option UserClaims
caller verifier header = accepted (parse_token verifier header)

abbrev judged : Bool → Result UserClaims → AuthStep
judged true found = elim found [
  | ok claims ↦ passed (some claims)
  | err e ↦ answered (auth_err_info e)
]
judged false found = elim found [ ok claims ↦ passed (some claims) | err e ↦ passed none ]

middleware_judges :
    (under_auth : Bool) (verifier : String → Result UserClaims) (header : String)
    → middleware under_auth verifier header ≡ judged under_auth (parse_token verifier header)
unfolding auth auth_optional
middleware_judges true verifier header = refl
middleware_judges false verifier header = refl

module _ {V : Type 0} ⦃f : Float64 V⦄ where
  -- The call that a route asks for in the name of the caller: none for the routes that read, and
  -- for what the caller's role does not allow.
  abbrev pub asked : Route V → UserClaims → Option (Request V)
  asked (create_order items code) claims =
      some (System.Request.create_order claims.user_id items code)
  asked (update_order id items) claims = some (System.Request.update_order id claims items)
  asked (cancel_order id) claims = some (System.Request.cancel_order id claims)
  asked (update_product id body) claims =
      some (System.Request.update_product id claims (to_update body))
  asked (delete_product id) claims = some (System.Request.delete_product id claims)
  asked (create_product body) claims =
      if_staff claims.role (System.Request.create_product claims.user_id (to_product body))
  asked (create_promo_code body) claims =
      if_staff claims.role (System.Request.create_promo claims (to_promo body))
  asked (list_products params) claims = none
  asked (get_product id) claims = none
  asked (get_order id) claims = none

  -- No claims, no call.
  abbrev pub asked_by : Option UserClaims → Route V → Option (Request V)
  asked_by none route = none
  asked_by (some claims) route = asked route claims

module _ {V : Type 0} ⦃f : Float64 V⦄ where
  -- The database behind a call that is made once, if there is one.
  abbrev pub after_call : ℤ → Option (Request V) → Env → Session V → Db V
  after_call limit none env s = s.db
  after_call limit (some req) env s = perform limit req env s

module _ {V : Type 0} ⦃f : Float64 V⦄ (limit : ℤ) (describe : Error → String)
    (arrange : Arrange V) where
  handle_asked :
      (route : Route V) (claims : Option UserClaims) (env : Env) (s : Session V)
      → (handle limit describe arrange route claims env s).1.db
        ≡ after_call limit (asked_by claims route) env s
  unfolding handle perform OrderHandlers.create_order OrderHandlers.update_order
      OrderHandlers.cancel_order change_product drop_product make_product make_promo
  handle_asked (list_products params) none env s = list_products_same arrange params env s
  handle_asked (list_products params) (some claims) env s = list_products_same arrange params env s
  handle_asked (get_product id) none env s = get_product_same id env s
  handle_asked (get_product id) (some claims) env s = get_product_same id env s
  handle_asked (get_order id) none env s = get_order_same none id env s
  handle_asked (get_order id) (some claims) env s = get_order_same (some claims) id env s
  handle_asked (create_order items code) none env s = refl
  handle_asked (update_order id items) none env s = refl
  handle_asked (cancel_order id) none env s = refl
  handle_asked (update_product id body) none env s = refl
  handle_asked (delete_product id) none env s = refl
  handle_asked (create_product body) none env s = refl
  handle_asked (create_promo_code body) none env s = refl
  handle_asked (create_order items code) (some claims) env s =
      ap (λ (x : Session V). x.db) (finish_with_same _ _ _)
  handle_asked (update_order id items) (some claims) env s =
      ap (λ (x : Session V). x.db) (finish_with_same _ _ _)
  handle_asked (cancel_order id) (some claims) env s =
      ap (λ (x : Session V). x.db) (finish_with_same _ _ _)
  handle_asked (update_product id body) (some claims) env s =
      ap (λ (x : Session V). x.db) (finish_with_same _ _ _)
  handle_asked (delete_product id) (some claims) env s =
      ap (λ (x : Session V). x.db) (finish_with_same _ _ _)
  handle_asked (create_product body) (some claims) env s =
      elim (staff_cases claims.role
        (System.Request.create_product claims.user_id (to_product body))) [
          | inl (may, named) ↦
              rw (may, named) (ap (λ (x : Session V). x.db) (created_same describe _))
          | inr (barred, unnamed) ↦ rw (barred, unnamed) refl
        ]
  handle_asked (create_promo_code body) (some claims) env s =
      elim (staff_cases claims.role (System.Request.create_promo claims (to_promo body))) [
        | inl (may, named) ↦ rw (may, named) (ap (λ (x : Session V). x.db) (finish_with_same _ _ _))
        | inr (barred, unnamed) ↦ rw (barred, unnamed) refl
      ]

  judged_asked :
      (under_auth : Bool) (found : Result UserClaims) (route : Route V) (env : Env) (s : Session V)
      → (after_step (judged under_auth found) (handle limit describe arrange route) env s).1.db
        ≡ after_call limit (asked_by (accepted found) route) env s
  judged_asked true (ok claims) route env s = handle_asked route (some claims) env s
  judged_asked true (err e) route env s = refl
  judged_asked false (ok claims) route env s = handle_asked route (some claims) env s
  judged_asked false (err e) route env s = handle_asked route none env s

  pub serve_asked :
      (verifier : String → Result UserClaims) (header : String) (route : Route V) (env : Env)
      (s : Session V)
      → (serve limit describe arrange verifier header route env s).1.db
        ≡ after_call limit (asked_by (caller verifier header) route) env s
  unfolding serve
  serve_asked verifier header route env s =
      rw (middleware_judges (needs_auth route) verifier header)
        (judged_asked (needs_auth route) (parse_token verifier header) route env s)
