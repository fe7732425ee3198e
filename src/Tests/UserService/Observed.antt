-- ===== src/Tests/UserService/Observed.antt =====
-- What the log and the metrics of user-service show of a request.
use service_oriented_hw.Common.{ℕ, some}
use service_oriented_hw.UserService.{Session}
use service_oriented_hw.UserService.Handlers.{Response}
use service_oriented_hw.UserService.Router.{Route, register}
use service_oriented_hw.UserService.Middleware.{LogEntry, Timing, observed}
use service_oriented_hw.UserService.Middleware.Shown.{IsShown, observed-IsShown}
use service_oriented_hw.Metrics.{Registry}
use service_oriented_hw.Tests.Metrics.{Calls, tally, tally-IsPrometheus, strokes, empty_registry}
use service_oriented_hw.Tests.UserService.{toy, service, calm, opening}

abbrev sign_up : Route
sign_up =
    register (some (record { email = "ann@example.com"; password = "correct horse"; role = "" }))

abbrev took : Timing ℕ
took = record { duration_ms = 7; seconds = 7 }

abbrev seen : Response × Session × LogEntry × Registry Calls Calls
seen = observed tally strokes toy service "r" sign_up took calm opening empty_registry

observed-IsShown_example : IsShown tally strokes sign_up seen.0 seen.2 empty_registry seen.3
observed-IsShown_example =
    observed-IsShown tally strokes tally-IsPrometheus toy service "r" sign_up took calm opening
      empty_registry tt
