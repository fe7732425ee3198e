-- ===== src/Tests/Marketplace/Observed.antt =====
-- What the log and the metrics of marketplace-api show of a request.
use service_oriented_hw.Marketplace.Listing.{Arrange}
use service_oriented_hw.Common.{Bool, false, ℕ, ◌≡◌, refl, Option, none, [], ◌∷◌, String}
use service_oriented_hw.Common.Int.{pos}
use service_oriented_hw.Marketplace.Domain.{Error, UserClaims, Uuid, auth_unavailable}
use service_oriented_hw.Marketplace.Session.{Session, Result, ok, err}
use service_oriented_hw.Marketplace.Router.{Route, create_order, Served}
use service_oriented_hw.Marketplace.Logging.{Fields}
use service_oriented_hw.Marketplace.Logging.Entry.{LogEntry, Incoming, Passage, observed}
use service_oriented_hw.Marketplace.Logging.Entry.Shown.{IsLogged, observed-IsLogged}
use service_oriented_hw.Marketplace.Auth.{parse_token}
use service_oriented_hw.Marketplace.Metrics.{metrics, method_of, pattern_of}
use service_oriented_hw.Marketplace.Metrics.Failures.{metrics_order}
use service_oriented_hw.Metrics.{Registry}
use service_oriented_hw.Tests.Metrics.{Calls, tally, tally-IsPrometheus, strokes, empty_registry}
use service_oriented_hw.Tests.Marketplace.{four_teas, calm, opening, thousandths, buyer}

abbrev message : Error → String
message e = "error"

abbrev as_stored : Arrange ℕ
as_stored n first rows = rows

abbrev accepts : String → Result UserClaims
accepts token = ok buyer

abbrev out_of_reach : String → Result UserClaims
out_of_reach token = err auth_unavailable

abbrev order_teas : Route ℕ
order_teas = create_order four_teas none

metrics_order_example :
    tally.value
      ("POST" ∷ "/orders" ∷ "server_error" ∷ [])
      (metrics tally strokes
        (pos 1)
        message
        as_stored
        out_of_reach
        "Bearer t"
        order_teas
        5
        calm
        opening
        empty_registry).2.errors_total
    ≡ 1
unfolding method_of pattern_of parse_token
metrics_order_example =
    metrics_order tally strokes (pos 1) message as_stored tally-IsPrometheus out_of_reach "Bearer t"
      order_teas 5 calm opening empty_registry refl

abbrev request : Incoming
request = record { path = "/orders"; body = ""; authorization = "Bearer t"; claims = none }

abbrev passage : Passage ℕ
passage = record { request_id = "r"; start = pos 1; duration_ms = 5; seconds = 5 }

abbrev no_object : String → Option Fields × Bool
no_object text = (none, false)

abbrev same_text : String → String
same_text text = text

abbrev id_text : Uuid → String
id_text id = "60"

abbrev seen : Served ℕ × Session ℕ × LogEntry × Registry Calls Calls
seen =
    observed tally strokes id_text same_text no_object (pos 1) message as_stored accepts request
      order_teas passage calm opening empty_registry

observed-IsLogged_example : IsLogged tally strokes order_teas seen.0 seen.2 empty_registry seen.3
observed-IsLogged_example =
    observed-IsLogged tally strokes id_text same_text no_object (pos 1) message as_stored
      tally-IsPrometheus accepts request order_teas passage calm opening empty_registry refl
