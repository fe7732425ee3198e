-- ===== src/Marketplace/Logging/Entry/Shown.antt =====
-- What the log of marketplace-api shows.
use service_oriented_hw.Marketplace.Listing.{Arrange}
use service_oriented_hw.Common.{ℕ, ◌+◌, ◌≤◌, ◌≡◌, refl, Bool, [], ◌∷◌, String, Option, none, arith}
use service_oriented_hw.Common.Int.{ℤ}
use service_oriented_hw.Common.Float.{Float64}
use service_oriented_hw.Marketplace.Domain.{Uuid, UserClaims, Error}
use service_oriented_hw.Marketplace.Session.{Env, Session, Result}
use service_oriented_hw.Marketplace.Router.{
  Route, Served, serve, handle, after_step, middleware, needs_auth,
}
use service_oriented_hw.Marketplace.Handlers.{status_of}
use service_oriented_hw.Marketplace.Handlers.Orders.{
  create_order as answer_create, get_order as answer_get, update_order as answer_update,
  cancel_order as answer_cancel,
}
use service_oriented_hw.Marketplace.Handlers.Products.{
  list_products as answer_list, get_product as answer_product, create_product as make_product,
  update_product as change_product, delete_product as drop_product,
}
use service_oriented_hw.Marketplace.Handlers.Promos.{create_promo_code as make_promo}
use service_oriented_hw.Marketplace.Auth.{
  AuthStep, answered, passed, auth, auth_optional, auth_err_info,
}
use service_oriented_hw.Marketplace.Logging.{Fields}
use service_oriented_hw.Marketplace.Logging.Entry.{LogEntry, Incoming, Passage, logging, observed}
use service_oriented_hw.Metrics.{Prometheus, IsPrometheus, Registry, Exchange}
use service_oriented_hw.Metrics.Counts.{measure_requests}
use service_oriented_hw.Marketplace.Metrics.{
  method_of, pattern_of, pattern_of-known, served_status, metrics, status_or_ok,
}

status_or_ok-sent : (status : ℕ) → 200 ≤ status → status_or_ok status ≡ status
status_or_ok-sent status h = ground arith

module _ {V : Type 0} ⦃f : Float64 V⦄ (limit : ℤ) (describe : Error → String)
    (arrange : Arrange V) where
  handle_status :
      (route : Route V) (claims : Option UserClaims) (env : Env) (s : Session V)
      → 200 ≤ status_of (handle limit describe arrange route claims env s).0
  unfolding handle answer_create answer_get answer_update answer_cancel answer_list answer_product
      make_product change_product drop_product make_promo
  handle_status route claims env s = ground arith

  after_step_status :
      (step : AuthStep) (route : Route V) (env : Env) (s : Session V)
      → ((code : String) (status : ℕ) → step ≡ answered (code, status) → 200 ≤ status)
      → 200 ≤ served_status (after_step step (handle limit describe arrange route) env s).0
  after_step_status (answered (code, status)) route env s h = h code status refl
  after_step_status (passed claims) route env s h = handle_status route claims env s

  middleware_status :
      (needs : Bool) (verifier : String → Result UserClaims) (header code : String) (status : ℕ)
      → middleware needs verifier header ≡ answered (code, status)
      → 200 ≤ status
  unfolding auth auth_optional auth_err_info
  middleware_status needs verifier header code status h = ground arith

  serve_status :
      (verifier : String → Result UserClaims) (header : String) (route : Route V) (env : Env)
      (s : Session V)
      → 200 ≤ served_status (serve limit describe arrange verifier header route env s).0
  unfolding serve
  serve_status verifier header route env s =
      after_step_status (middleware (needs_auth route) verifier header) route env s
        (middleware_status (needs_auth route) verifier header)

module _ {V C H T : Type 0} (p : Prometheus C H T) (itoa : ℕ → String) where
  -- The log has the status that was sent and no user, and the counter of the request's method,
  -- pattern and status has gone up by one.
  pub record IsLogged (route : Route V) (out : Served V) (entry : LogEntry) (r r' : Registry C H)
      : Type 0 where
    pub logged : entry.status_code ≡ served_status out
    pub nobody : entry.user_id ≡ ""
    pub counted :
        p.value
          (method_of route ∷ pattern_of route ∷ itoa (served_status out) ∷ [])
          r'.requests_total
        ≡ p.value
            (method_of route ∷ pattern_of route ∷ itoa (served_status out) ∷ [])
            r.requests_total
          + 1

module _ {V C H T : Type 0} ⦃f : Float64 V⦄ (p : Prometheus C H T) (itoa : ℕ → String)
    (uuid_text : Uuid → String) (to_lower : String → String)
    (unmarshal : String → Option Fields × Bool) (limit : ℤ) (describe : Error → String)
    (arrange : Arrange V) where
  -- Of every request to a route of marketplace-api, the log entry has the status of the response, and
  -- the counter of the request's method, pattern and status goes up by one; the log entry has no
  -- user, even if the verifier has accepted the token and the route was served for its user. It is
  -- taken that the request comes in with no claims in its context and that the client of Prometheus
  -- moves the members that it is told to.
  pub observed-IsLogged :
      (laws : IsPrometheus p) (verifier : String → Result UserClaims) (request : Incoming)
      (route : Route V) (passage : Passage T) (env : Env) (s : Session V) (r : Registry C H)
      → request.claims ≡ none
      → let out =
          observed p itoa uuid_text to_lower unmarshal limit describe arrange verifier request route
            passage env s r in
        IsLogged p itoa route out.0 out.2 r out.3
  unfolding observed logging metrics
  observed-IsLogged laws verifier request route passage env s r no_claims =
      let out = serve limit describe arrange verifier request.authorization route env s in
      let sent = serve_status limit describe arrange verifier request.authorization route env s in
      let x : Exchange T = record {
        method = method_of route;
        pattern = pattern_of route;
        status = served_status out.0;
        duration = passage.seconds;
      } in
      record {
        logged = refl;
        nobody = rw no_claims refl;
        counted =
            rw (status_or_ok-sent (served_status out.0) sent)
              (measure_requests p itoa laws x r (pattern_of-known route));
      }
