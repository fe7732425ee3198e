-- ===== src/Marketplace/Router/Refusals.antt =====
-- Which requests get past the middleware.
use service_oriented_hw.Marketplace.Listing.{Arrange}
use service_oriented_hw.Common.{◌≡◌, refl, ap, ◌⊎◌, true, false, Option, some, none, String, arith}
use service_oriented_hw.Common.Int.{ℤ}
use service_oriented_hw.Common.Float.{Float64}
use service_oriented_hw.Marketplace.Domain.{UserClaims, Error}
use service_oriented_hw.Marketplace.Session.{Env, Session, Result, ok, err}
use service_oriented_hw.Marketplace.Auth.{
  AuthStep, answered, passed, parse_token, auth, auth_optional, auth_err_info,
}
use service_oriented_hw.Marketplace.Router.{
  Route, list_products, get_product, turned_away, needs_auth, handle, serve,
}

auth_refused :
    (verifier : String → Result UserClaims) (header : String) (e : Error)
    → parse_token verifier header ≡ err e
    → auth verifier header ≡ answered (auth_err_info e)
unfolding auth
auth_refused verifier header e h =
    ap
      (λ (r : Result UserClaims).
        let out : AuthStep = elim r [
          | ok claims ↦ passed (some claims)
          | err e ↦ answered (auth_err_info e)
        ] in
        out)
      h

abbrev optional_step : Result UserClaims → AuthStep
optional_step r = elim r [ ok claims ↦ passed (some claims) | err e ↦ passed none ]

optional_step_passes :
    (r : Result UserClaims) → (claims : Option UserClaims) × (optional_step r ≡ passed claims)
optional_step_passes (ok claims) = (some claims, refl)
optional_step_passes (err e) = (none, refl)

auth_optional_passes :
    (verifier : String → Result UserClaims) (header : String)
    → (claims : Option UserClaims) × (auth_optional verifier header ≡ passed claims)
unfolding auth_optional
auth_optional_passes verifier header = optional_step_passes (parse_token verifier header)

auth_err_status : (e : Error) → ((auth_err_info e).1 ≡ 401) ⊎ ((auth_err_info e).1 ≡ 503)
unfolding auth_err_info
auth_err_status e = ground arith

module _ {V : Type 0} ⦃f : Float64 V⦄ (limit : ℤ) (describe : Error → String)
    (arrange : Arrange V) where
  -- A route that needs a user is turned away with 401 or 503, and nothing happens, if the header has
  -- no token or the verifier does not accept it.
  pub serve_unverified :
      (verifier : String → Result UserClaims) (header : String) (route : Route V) (e : Error)
      (env : Env) (s : Session V)
      → needs_auth route ≡ true
      → parse_token verifier header ≡ err e
      → (serve limit describe arrange verifier header route env s
          ≡ (turned_away (auth_err_info e).0 (auth_err_info e).1, s))
        × (((auth_err_info e).1 ≡ 401) ⊎ ((auth_err_info e).1 ≡ 503))
  unfolding serve
  serve_unverified verifier header route e env s needs refused =
      (rw (needs, auth_refused verifier header e refused) refl, auth_err_status e)

  -- The catalogue is open: a route that needs no user is served alike whatever the header is and
  -- whatever the verifier says of it.
  pub serve_open :
      (verifier verifier' : String → Result UserClaims) (header header' : String) (route : Route V)
      (env : Env) (s : Session V)
      → needs_auth route ≡ false
      → serve limit describe arrange verifier header route env s
        ≡ serve limit describe arrange verifier' header' route env s
  unfolding serve handle
  serve_open verifier verifier' header header' (list_products params) env s open_route =
      let (c, is) = auth_optional_passes verifier header in
      let (c', is') = auth_optional_passes verifier' header' in rw (is, is') refl
  serve_open verifier verifier' header header' (get_product id) env s open_route =
      let (c, is) = auth_optional_passes verifier header in
      let (c', is') = auth_optional_passes verifier' header' in rw (is, is') refl
  serve_open verifier verifier' header header' _ env s open_route =
      absurd (ground (arith, open_route))
