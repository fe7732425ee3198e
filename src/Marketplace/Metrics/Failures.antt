-- ===== src/Marketplace/Metrics/Failures.antt =====
-- What the metrics show of failures behind the order routes.
use service_oriented_hw.Marketplace.Listing.{Arrange}
use service_oriented_hw.Common.{
  ℕ, ◌+◌, ◌<◌, ◌≡◌, refl, ◌∙◌, Bool, true, false, some, none, [], ◌∷◌, String, arith, one_if, leb,
}
use service_oriented_hw.Common.Int.{ℤ}
use service_oriented_hw.Common.Float.{Float64}
use service_oriented_hw.Marketplace.Domain.{UserClaims, Error, auth_unavailable}
use service_oriented_hw.Marketplace.Session.{Env, Session, Result, ok, err}
use service_oriented_hw.Marketplace.Auth.{passed, parse_token, auth, auth_err_info}
use service_oriented_hw.Marketplace.Router.{
  Route, create_order, get_order, update_order, cancel_order, serve, handle, needs_auth,
}
use service_oriented_hw.Marketplace.Router.Refusals.{serve_unverified}
use service_oriented_hw.Marketplace.Handlers.{status_of}
use service_oriented_hw.Marketplace.Handlers.Statuses.{order_statuses}
use service_oriented_hw.Marketplace.Metrics.{
  method_of, pattern_of, pattern_of-known, served_status, status_or_ok, metrics,
}
use service_oriented_hw.Metrics.{Prometheus, IsPrometheus, Registry, Exchange}
use service_oriented_hw.Metrics.Counts.{measure_server_errors}

-- No verdict on the token could be had.
abbrev pub is_unavailable : Result UserClaims → Bool
is_unavailable (err auth_unavailable) = true
is_unavailable _ = false

auth_accepted :
    (verifier : String → Result UserClaims) (header : String) (claims : UserClaims)
    → parse_token verifier header ≡ ok claims
    → auth verifier header ≡ passed (some claims)
unfolding auth
auth_accepted verifier header claims h = rw (h, auth) refl

module _ {V : Type 0} where
  abbrev pub is_order_route : Route V → Bool
  is_order_route (create_order items code) = true
  is_order_route (get_order id) = true
  is_order_route (update_order id items) = true
  is_order_route (cancel_order id) = true
  is_order_route _ = false

module _ {V : Type 0} ⦃f : Float64 V⦄ (limit : ℤ) (describe : Error → String)
    (arrange : Arrange V) where
  handle_order :
      (claims : UserClaims) (route : Route V) (env : Env) (s : Session V)
      → is_order_route route ≡ true
      → status_of (handle limit describe arrange route (some claims) env s).0 < 500
  unfolding handle
  handle_order claims (create_order items code) env s is =
      (order_statuses limit claims 0 items code env s).0.1
  handle_order claims (get_order id) env s is = (order_statuses limit claims id [] none env s).1.1
  handle_order claims (update_order id items) env s is =
      (order_statuses limit claims id items none env s).2.1
  handle_order claims (cancel_order id) env s is =
      (order_statuses limit claims id [] none env s).3.1
  handle_order claims _ env s is = absurd (ground (arith, is))

  needs_auth-order : (route : Route V) → is_order_route route ≡ true → needs_auth route ≡ true
  needs_auth-order route is = ground arith

  below_500 : (status : ℕ) → status < 500 → leb 500 (status_or_ok status) ≡ false
  below_500 status small = ground arith

  refused_status : (e : Error) → leb 500 (status_or_ok (auth_err_info e).1) ≡ is_unavailable (err e)
  unfolding auth_err_info
  refused_status e = ground arith

  -- An order route answers with a status of 500 or above only if no verdict on the token is had.
  serve_order :
      (verifier : String → Result UserClaims) (header : String) (route : Route V) (env : Env)
      (s : Session V)
      → is_order_route route ≡ true
      → leb 500 (
          status_or_ok (served_status (serve limit describe arrange verifier header route env s).0))
        ≡ is_unavailable (parse_token verifier header)
  unfolding serve
  serve_order verifier header route env s is = go (parse_token verifier header) refl
    where
      go :
          (r : Result UserClaims)
          → parse_token verifier header ≡ r
          → leb 500 (
              status_or_ok
                (served_status (serve limit describe arrange verifier header route env s).0))
            ≡ is_unavailable r
      go (err e) at =
          let (turned, _) =
            serve_unverified limit describe arrange verifier header route e env s
              (needs_auth-order route is) at in
          rw turned (refused_status e)
      go (ok claims) at =
          rw (needs_auth-order route is, auth_accepted verifier header claims at)
            (below_500 (status_of (handle limit describe arrange route (some claims) env s).0)
              (handle_order claims route env s is))

module _ {V C H T : Type 0} ⦃f : Float64 V⦄ (p : Prometheus C H T) (itoa : ℕ → String) (limit : ℤ)
    (describe : Error → String) (arrange : Arrange V) where
  -- A request to an order route, whatever the database does with it, moves the counter of server
  -- errors of its method and pattern by one if no verdict on the caller's token could be had, and
  -- else it leaves the counter as it is, if the client of Prometheus moves the members that it is
  -- told to: a failure of the database is never shown as a server error.
  pub metrics_order :
      (laws : IsPrometheus p) (verifier : String → Result UserClaims) (header : String)
      (route : Route V) (took : T) (env : Env) (s : Session V) (r : Registry C H)
      → is_order_route route ≡ true
      → let out = metrics p itoa limit describe arrange verifier header route took env s r in
        let labels = method_of route ∷ pattern_of route ∷ "server_error" ∷ [] in
        p.value labels out.2.errors_total
        ≡ p.value labels r.errors_total + one_if (is_unavailable (parse_token verifier header))
  unfolding metrics
  metrics_order laws verifier header route took env s r is =
      let out = serve limit describe arrange verifier header route env s in
      let x : Exchange T = record {
        method = method_of route;
        pattern = pattern_of route;
        status = status_or_ok (served_status out.0);
        duration = took;
      } in
      measure_server_errors p itoa laws x r (pattern_of-known route)
      ∙ rw (serve_order limit describe arrange verifier header route env s is) refl
