-- ===== src/UserService/Router.antt =====
-- services/user-service/cmd/main.go: the routes, and what chains of requests reach. `Validate` reads
-- the clock inside of the JWT package.
pub mod Steps
pub mod Sound
pub mod Intact
pub mod Reachable
pub mod Accounts
use service_oriented_hw.Common.{◌≡◌, ℕ, Option, none, some, String}
use service_oriented_hw.UserService.{Db, Env, Session, next_call}
use service_oriented_hw.UserService.Auth.{Lib, AuthUseCase}
use service_oriented_hw.UserService.Handlers.{
  RegisterRequest, LoginRequest, RefreshRequest, Response, health_response, library,
  register as register_user, login as log_in, refresh as refresh_tokens, validate as validate_token,
}

pub data Route : Type 0 where
  health : Route
  register : Option RegisterRequest → Route
  login : Option LoginRequest → Route
  refresh : Option RefreshRequest → Route
  validate : (authorization : String) → Route
  -- What a library answers: promhttp on /metrics, and chi where no route has the path, or none the
  -- method. `pattern` is what chi reports of it, and without a written header the status is 200.
  other : (method path pattern : String) → (written : Option ℕ) → (text : String) → Route

-- What net/http sends.
abbrev pub sent : Option ℕ → ℕ
sent none = 200
sent (some status) = status

module _ (lib : Lib) (uc : AuthUseCase) where
  unfoldable pub serve : Route → Env → Session → Response × Session
  serve health env s = (health_response, s)
  serve (register req) env s = register_user lib uc req env s
  serve (login req) env s = log_in lib uc req env s
  serve (refresh req) env s = refresh_tokens lib uc req env s
  serve (other method path pattern written text) env s =
      (record { status = sent written; body = library text }, s)
  serve (validate authorization) env s =
      (validate_token lib uc (env.clock s.calls) authorization, next_call s)

  -- A chain of requests, each with an environment of its own.
  pub data Reach (start : Db) : Db → Type 0 where
    here : Reach start start
    next :
        {d d' : Db}
        → Reach start d
        → (route : Route) (env : Env) (s : Session) → s.db ≡ d
        → (serve route env s).1.db ≡ d'
        → Reach start d'
