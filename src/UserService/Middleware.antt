-- ===== src/UserService/Middleware.antt =====
-- services/user-service/internal/middleware: logging.go and metrics.go around the routes of
-- cmd/main.go.
pub mod Shown
use service_oriented_hw.Common.{ℕ, none, ◌==◌, String, if◌then◌else◌}
use service_oriented_hw.UserService.{Env, Session}
use service_oriented_hw.UserService.Auth.{Lib, AuthUseCase}
use service_oriented_hw.UserService.Handlers.{Response}
use service_oriented_hw.UserService.Router.{
  Route, health, register, login, refresh, validate, other, serve,
}
use service_oriented_hw.Metrics.{Prometheus, Registry, Exchange, measure}

-- `statusWriter`, less the writer that it wraps.
pub record StatusWriter : Type 0 where
  pub status : ℕ

abbrev pub write_header : ℕ → StatusWriter → StatusWriter
write_header code sw = record sw { status = code }

-- `Status`
abbrev pub status_of : StatusWriter → ℕ
status_of sw = if sw.status == 0 then 200 else sw.status

abbrev pub new_writer : StatusWriter
new_writer = record { status = 0 }

unfoldable pub method_of : Route → String
method_of health = "GET"
method_of (other method path pattern written text) = method
method_of _ = "POST"

-- The path of the request.
unfoldable pub path_of : Route → String
path_of health = "/health"
path_of (register req) = "/auth/register"
path_of (login req) = "/auth/login"
path_of (refresh req) = "/auth/refresh"
path_of (validate authorization) = "/auth/validate"
path_of (other method path pattern written text) = path

-- The pattern by which chi has matched the path.
unfoldable pub pattern_of : Route → String
unfolding path_of
pattern_of (other method path pattern written text) = pattern
pattern_of route = path_of route

-- Behind the request: a handler of the service has written the header by `writeJSON`, a library may
-- have left it to net/http.
abbrev pub writer_of : Route → Response → StatusWriter
writer_of (other method path pattern none text) out = new_writer
writer_of _ out = write_header out.status new_writer

pub record LogEntry : Type 0 where
  pub request_id : String
  pub method : String
  pub endpoint : String
  pub status_code : ℕ
  pub duration_ms : ℕ

-- How long a request took, as the log and as the metrics have it.
pub record Timing (T : Type 0) : Type 0 where
  pub duration_ms : ℕ
  pub seconds : T

-- `Logging`: the writer of `Metrics` passes the header on to its own one.
unfoldable pub logging : String → Route → ℕ → Response → LogEntry
logging request_id route duration_ms out =
    let sw = writer_of route out in
    record {
      request_id = request_id;
      method = method_of route;
      endpoint = path_of route;
      status_code = status_of sw;
      duration_ms = duration_ms;
    }

module _ {C H T : Type 0} (p : Prometheus C H T) (itoa : ℕ → String) where
  -- `Metrics`
  unfoldable pub metrics : Route → T → Response → Registry C H → Registry C H
  metrics route took out r =
      let sw = writer_of route out in
      let x : Exchange T = record {
        method = method_of route;
        pattern = pattern_of route;
        status = status_of sw;
        duration = took;
      } in
      measure p itoa x r

  -- A request through both of them.
  unfoldable pub observed :
      Lib
      → AuthUseCase
      → String
      → Route
      → Timing T
      → Env
      → Session
      → Registry C H
      → Response × Session × LogEntry × Registry C H
  observed lib uc request_id route took env s r =
      let (out, s') = serve lib uc route env s in
      (out, s', logging request_id route took.duration_ms out, metrics route took.seconds out r)
