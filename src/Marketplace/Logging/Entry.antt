-- ===== src/Marketplace/Logging/Entry.antt =====
-- services/marketplace-api/internal/middleware/logging.go: the line that is logged of a request, and a
-- request on its way through `Logging`, `Metrics` and the routes of cmd/main.go.
pub mod Shown
use service_oriented_hw.Marketplace.Listing.{Arrange}
use service_oriented_hw.Common.{Bool, ℕ, ◌==◌, Option, none, some, List, String, if◌then◌else◌}
use service_oriented_hw.Common.Int.{ℤ}
use service_oriented_hw.Common.Float.{Float64}
use service_oriented_hw.Marketplace.Domain.{Uuid, Time, Product, UserClaims, Error}
use service_oriented_hw.Marketplace.Session.{Env, Session, Result}
use service_oriented_hw.Marketplace.Router.{Route, Served}
use service_oriented_hw.Marketplace.Metrics.{method_of, served_status, metrics}
use service_oriented_hw.Marketplace.Logging.{Fields, body_log}
use service_oriented_hw.Metrics.{Prometheus, Registry}

-- `responseWriter`, less the writer that it wraps and its buffer, which nothing writes to.
pub record ResponseWriter : Type 0 where
  pub status : ℕ

abbrev pub write_header : ℕ → ResponseWriter → ResponseWriter
write_header code rw = record rw { status = code }

pub record LogEntry : Type 0 where
  pub request_id : String
  pub method : String
  pub endpoint : String
  pub status_code : ℕ
  pub duration_ms : ℕ
  pub user_id : String
  pub timestamp : Time
  pub request_body : Option Fields

-- A request as it comes in: its path and body, the header Authorization, and the claims in its
-- context.
pub record Incoming : Type 0 where
  pub path : String
  pub body : String
  pub authorization : String
  pub claims : Option UserClaims

-- When a request came, how long it took, for the log and for the metrics, and its new id.
pub record Passage (T : Type 0) : Type 0 where
  pub request_id : String
  pub start : Time
  pub duration_ms : ℕ
  pub seconds : T

module _ (uuid_text : Uuid → String) (to_lower : String → String)
    (unmarshal : String → Option Fields × Bool) where
  -- The user in the context of the request that the middleware was given.
  abbrev pub logged_user : Option UserClaims → String
  logged_user none = ""
  logged_user (some claims) = uuid_text claims.user_id

  -- `Logging`, for a response with this status.
  unfoldable pub logging : {T : Type 0} → String → Incoming → Passage T → ℕ → LogEntry
  logging method request passage status =
      let rw0 = write_header status (record { status = 200 }) in
      record {
        request_id = passage.request_id;
        method = method;
        endpoint = request.path;
        status_code = rw0.status;
        duration_ms = passage.duration_ms;
        user_id = logged_user request.claims;
        timestamp = passage.start;
        request_body = body_log to_lower unmarshal method request.body;
      }

module _ {V C H T : Type 0} ⦃f : Float64 V⦄ (p : Prometheus C H T) (itoa : ℕ → String)
    (uuid_text : Uuid → String) (to_lower : String → String)
    (unmarshal : String → Option Fields × Bool) (limit : ℤ) (describe : Error → String)
    (arrange : Arrange V) where
  -- The claims of the caller are put into the context of a copy of the request.
  unfoldable pub observed :
      (String → Result UserClaims)
      → Incoming
      → Route V
      → Passage T
      → Env
      → Session V
      → Registry C H
      → Served V × Session V × LogEntry × Registry C H
  observed verifier request route passage env s r =
      let (out, s', r') =
        metrics p itoa limit describe arrange verifier request.authorization route passage.seconds
          env s r in
      (
        out,
        s',
        logging uuid_text to_lower unmarshal (method_of route) request passage (served_status out),
        r',
      )
