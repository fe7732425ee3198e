-- ===== src/UserService/Middleware/Shown.antt =====
-- What the log and the metrics of user-service show.
use service_oriented_hw.Common.{
  ℕ, ◌+◌, ◌≤◌, ◌≡◌, refl, ap, ◌∙◌, Bool, true, false, ◌&&◌, ◌||◌, none, some, [], ◌∷◌, String,
  arith, one_if, leb, ◌==◌,
}
use service_oriented_hw.UserService.{Env, Session}
use service_oriented_hw.UserService.Auth.{Lib, AuthUseCase}
use service_oriented_hw.UserService.Handlers.{
  Response, register as answer_register, register_checked, login as answer_login,
  refresh as answer_refresh, validate as answer_validate,
}
use service_oriented_hw.UserService.Router.{
  Route, health, register, login, refresh, validate, other, serve,
}
use service_oriented_hw.UserService.Middleware.{
  Timing, LogEntry, status_of, write_header, new_writer, method_of, path_of, pattern_of, writer_of,
  metrics, logging, observed,
}
use service_oriented_hw.Metrics.{Prometheus, IsPrometheus, Registry, Exchange, endpoint_of, measure}
use service_oriented_hw.Metrics.Counts.{measure_server_errors, measure_requests}

-- A request to register a user, with a body that could be read.
abbrev pub is_register : Route → Bool
is_register (register req) = true
is_register _ = false

-- Of what a library answers.
abbrev pub is_other : Route → Bool
is_other (other method path pattern written text) = true
is_other _ = false

-- net/http takes no status below 100.
abbrev pub IsSendable : Route → Type 0
IsSendable (other method path pattern (some status) text) = 100 ≤ status
IsSendable _ = Unit

status_of-written : (code : ℕ) → 100 ≤ code → status_of (write_header code new_writer) ≡ code
status_of-written code h = ground arith

module _ (lib : Lib) (uc : AuthUseCase) where
  serve_status :
      (route : Route) (env : Env) (s : Session)
      → IsSendable route
      → 100 ≤ (serve lib uc route env s).0.status
  unfolding serve answer_register register_checked answer_login answer_refresh answer_validate
  serve_status (other method path pattern none text) env s ok = omega arith
  serve_status (other method path pattern (some status) text) env s ok = ok
  serve_status health env s ok = omega arith
  serve_status (register req) env s ok = ground arith
  serve_status (login req) env s ok = ground arith
  serve_status (refresh req) env s ok = ground arith
  serve_status (validate authorization) env s ok = ground arith

  -- Of the handlers of the service, only `Register` answers with a status of 500 or above.
  serve_failure :
      (route : Route) (env : Env) (s : Session)
      → leb 500 (serve lib uc route env s).0.status ≡ (
          (is_register route && ((serve lib uc route env s).0.status == 500))
          || (is_other route && leb 500 (serve lib uc route env s).0.status))
  unfolding serve answer_register register_checked answer_login answer_refresh answer_validate
  serve_failure (other method path pattern none text) env s = refl
  serve_failure (other method path pattern (some status) text) env s = refl
  serve_failure health env s = refl
  serve_failure (register req) env s = ground arith
  serve_failure (login req) env s = ground arith
  serve_failure (refresh req) env s = ground arith
  serve_failure (validate authorization) env s = ground arith

  -- The writer has the status that is sent.
  writer_of-serve :
      (route : Route) (env : Env) (s : Session)
      → IsSendable route
      → status_of (writer_of route (serve lib uc route env s).0)
        ≡ (serve lib uc route env s).0.status
  unfolding serve
  writer_of-serve (other method path pattern none text) env s ok = refl
  writer_of-serve (other method path pattern (some status) text) env s ok =
      status_of-written status ok
  writer_of-serve health env s ok = refl
  writer_of-serve (register req) env s ok =
      status_of-written _ (serve_status (register req) env s ok)
  writer_of-serve (login req) env s ok = status_of-written _ (serve_status (login req) env s ok)
  writer_of-serve (refresh req) env s ok = status_of-written _ (serve_status (refresh req) env s ok)
  writer_of-serve (validate authorization) env s ok =
      status_of-written _ (serve_status (validate authorization) env s ok)

module _ {C H T : Type 0} (p : Prometheus C H T) (itoa : ℕ → String) where
  -- The log has the path and the status that was sent, the counter of the request's method, endpoint
  -- and status goes up by one, and that of server errors if the route is `Register` and the status
  -- is 500, or a library has answered with 500 or above.
  pub record IsShown (route : Route) (out : Response) (entry : LogEntry) (r r' : Registry C H)
      : Type 0 where
    pub path : entry.endpoint ≡ path_of route
    pub logged : entry.status_code ≡ out.status
    pub counted :
        let endpoint = endpoint_of (pattern_of route) in
        p.value (method_of route ∷ endpoint ∷ itoa out.status ∷ []) r'.requests_total
        ≡ p.value (method_of route ∷ endpoint ∷ itoa out.status ∷ []) r.requests_total + 1
    pub failures :
        let endpoint = endpoint_of (pattern_of route) in
        p.value (method_of route ∷ endpoint ∷ "server_error" ∷ []) r'.errors_total
        ≡ p.value (method_of route ∷ endpoint ∷ "server_error" ∷ []) r.errors_total
          + one_if
              ((is_register route && (out.status == 500)) || (is_other route && leb 500 out.status))

  -- Of a request to user-service, one that matches no route and one to /metrics included, the log
  -- entry has the path and the status of the response, and the counter of its method, status and
  -- endpoint, which is the pattern that chi reports, or "unknown" for an empty one, goes up by one.
  -- The counter of server errors of the method and endpoint goes up by one if the request was to
  -- register a user and the status is 500, or if a library has answered with 500 or above, and else
  -- it stays. It is taken that the client of Prometheus moves the members that it is told to, and
  -- that a library sends no status below 100.
  pub observed-IsShown :
      (laws : IsPrometheus p) (lib : Lib) (uc : AuthUseCase) (request_id : String) (route : Route)
      (took : Timing T) (env : Env) (s : Session) (r : Registry C H)
      → IsSendable route
      → let out = observed p itoa lib uc request_id route took env s r in
        IsShown route out.0 out.2 r out.3
  unfolding observed metrics logging
  observed-IsShown laws lib uc request_id route took env s r ok =
      let out = (serve lib uc route env s).0 in
      let sent = writer_of-serve lib uc route env s ok in
      let x : Exchange T = record {
        method = method_of route;
        pattern = pattern_of route;
        status = out.status;
        duration = took.seconds;
      } in
      let is : metrics p itoa route took.seconds out r ≡ measure p itoa x r = rw sent refl in
      record {
        path = refl;
        logged = sent;
        counted = rw is (measure_requests p itoa laws x r refl);
        failures = rw is (
            measure_server_errors p itoa laws x r refl
            ∙ ap
                (λ failed.
                  p.value (method_of route ∷ endpoint_of (pattern_of route) ∷ "server_error" ∷ [])
                    r.errors_total
                  + one_if failed)
                (serve_failure lib uc route env s));
      }
