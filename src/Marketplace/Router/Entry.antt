-- ===== src/Marketplace/Router/Entry.antt =====
-- services/marketplace-api/cmd/main.go: a request from where the server takes it. `/health` and
-- `/metrics` stand outside of the validation against api/openapi.yaml, and a path or a method that
-- matches no route does not come to it; a request that fails it is answered before its token is
-- looked at, and one whose parameters or body the generated code cannot take is answered behind the
-- middleware of its route.
use service_oriented_hw.Marketplace.Listing.{Arrange}
use service_oriented_hw.Common.{◌≡◌, refl, ℕ, Bool, Option, none, String}
use service_oriented_hw.Common.Int.{ℤ}
use service_oriented_hw.Common.Float.{Float64}
use service_oriented_hw.Marketplace.Domain.{UserClaims, Error}
use service_oriented_hw.Marketplace.Session.{Env, Session, Result}
use service_oriented_hw.Marketplace.Auth.{AuthStep, answered, passed}
use service_oriented_hw.Marketplace.System.{Request}
use service_oriented_hw.Marketplace.Router.{Route, Served, turned_away, middleware, serve}
use service_oriented_hw.Marketplace.Router.Steps.{asked_by, caller, after_call, serve_asked}

pub data Inbound (V : Type 0) : Type 0 where
  health : Inbound V
  -- What promhttp answers is its own.
  scrape : (status : ℕ) → (text : String) → Inbound V
  -- No route has the path, or none the method; what chi answers is its own.
  unmatched : (status : ℕ) → (text : String) → Inbound V
  -- The status and the message are those of the validation.
  rejected : (status : ℕ) → (message : String) → Inbound V
  -- The route stands under `Auth`, or else under `AuthOptional`; the message is the error's.
  unbound : (under_auth : Bool) → (message : String) → Inbound V
  -- The body cannot be decoded; what the strict handler answers is the generated code's own.
  undecoded : (under_auth : Bool) → (status : ℕ) → (text : String) → Inbound V
  bound : Route V → Inbound V

pub data Outbound (V : Type 0) : Type 0 where
  alive : (state service : String) → Outbound V
  failed : (status : ℕ) → (error_code message : String) → Outbound V
  routed : Served V → Outbound V
  by_library : (status : ℕ) → (text : String) → Outbound V

module _ {V : Type 0} where
  -- `ErrorHandler` of the validation and `ErrorHandlerFunc` of the wrapper
  abbrev pub validation_error : ℕ → String → Outbound V
  validation_error status message = failed status "VALIDATION_ERROR" message

  -- An answer that stands behind the middleware of a route.
  abbrev pub behind_step : AuthStep → Outbound V → Outbound V
  behind_step (answered (code, status)) out = routed (turned_away code status)
  behind_step (passed claims) out = out

module _ {V : Type 0} ⦃f : Float64 V⦄ where
  -- The call that a request asks for: that of its route in the name of the claims in its token.
  abbrev pub call_of : (String → Result UserClaims) → String → Inbound V → Option (Request V)
  call_of verifier header (bound route) = asked_by (caller verifier header) route
  call_of verifier header _ = none

module _ {V : Type 0} ⦃f : Float64 V⦄ (limit : ℤ) (describe : Error → String)
    (arrange : Arrange V) where
  abbrev pub as_routed : Served V × Session V → Outbound V × Session V
  as_routed (out, s) = (routed out, s)

  unfoldable pub enter :
      (String → Result UserClaims) → String → Inbound V → Env → Session V → Outbound V × Session V
  enter verifier header health env s = (alive "ok" "marketplace-api", s)
  enter verifier header (scrape status text) env s = (by_library status text, s)
  enter verifier header (unmatched status text) env s = (by_library status text, s)
  enter verifier header (rejected status message) env s = (validation_error status message, s)
  enter verifier header (unbound under_auth message) env s =
      (behind_step (middleware under_auth verifier header) (validation_error 400 message), s)
  enter verifier header (undecoded under_auth status text) env s =
      (behind_step (middleware under_auth verifier header) (by_library status text), s)
  enter verifier header (bound route) env s =
      as_routed (serve limit describe arrange verifier header route env s)

  -- A request to the server runs one call of a use case on the database, once, if it matches a route
  -- that writes, is decoded and valid, and the verifier accepts the token in its header: the call
  -- that the route names, with what the request carries, in the name of the claims in the token, and
  -- for a new product or promo code only if their role is SELLER or ADMIN. Every other request leaves
  -- the database as it is.
  pub enter_calls :
      (verifier : String → Result UserClaims) (header : String) (inbound : Inbound V) (env : Env)
      (s : Session V)
      → (enter verifier header inbound env s).1.db
        ≡ after_call limit (call_of verifier header inbound) env s
  unfolding enter
  enter_calls verifier header health env s = refl
  enter_calls verifier header (scrape status text) env s = refl
  enter_calls verifier header (unmatched status text) env s = refl
  enter_calls verifier header (rejected status message) env s = refl
  enter_calls verifier header (unbound under_auth message) env s = refl
  enter_calls verifier header (undecoded under_auth status text) env s = refl
  enter_calls verifier header (bound route) env s =
      serve_asked limit describe arrange verifier header route env s
