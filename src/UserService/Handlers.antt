-- ===== src/UserService/Handlers.antt =====
-- services/user-service/internal/handlers/auth.go: what each handler answers. A body that does not
-- decode is `none`; the header Content-Type is left out.
pub mod Created
use service_oriented_hw.Common.{
  ℕ, ◌≡◌, ap, Bool, ◌||◌, Option, none, some, String, ltb, if◌then◌else◌,
}
use service_oriented_hw.Common.Text.{strip_prefix, strip_prefix-append}
use service_oriented_hw.UserService.{
  Time, Role, Error, email_taken, invalid_input, token_expired, UserClaims, Env, Session, Result,
  ok, err,
}
use service_oriented_hw.UserService.Auth.{
  Lib, AuthUseCase, TokenPair, register as register_user, login as login_user,
  refresh as refresh_tokens, verify_access_token,
}
use Prim.Native.String
use Prim.Native.String.{len}
use text.Mathlib.Text.{◌==◌ as same_text}

pub record RegisterRequest : Type 0 where
  pub email : String
  pub password : String
  pub role : String

pub record LoginRequest : Type 0 where
  pub email : String
  pub password : String

pub record RefreshRequest : Type 0 where
  pub refresh_token : String

-- The bodies that `writeJSON` encodes.
pub data Body : Type 0 where
  tokens : (access_token refresh_token token_type : String) → Body
  claims : UserClaims → Body
  failure : (error_code message : String) → Body
  health : (status service : String) → Body
  -- Not of this code: of chi for what matches no route, and of promhttp.
  library : (text : String) → Body

pub record Response : Type 0 where
  pub status : ℕ
  pub body : Body

abbrev pub write_error : ℕ → String → String → Response
write_error status code message = record { status = status; body = failure code message }

-- `authResponse` of a pair of tokens.
abbrev pub auth_response : ℕ → TokenPair → Response
auth_response status pair = record {
  status = status;
  body = tokens pair.access_token pair.refresh_token "Bearer";
}

abbrev pub register_error : Error → Response
register_error email_taken = write_error 409 "EMAIL_TAKEN" "email already registered"
register_error invalid_input = write_error 400 "VALIDATION_ERROR" "invalid input"
register_error _ = write_error 500 "INTERNAL_ERROR" "internal server error"

abbrev pub refresh_error : Error → Response
refresh_error token_expired = write_error 401 "TOKEN_EXPIRED" "refresh token expired"
refresh_error _ = write_error 401 "TOKEN_INVALID" "invalid refresh token"

abbrev pub validate_error : Error → Response
validate_error token_expired = write_error 401 "TOKEN_EXPIRED" "access token expired"
validate_error _ = write_error 401 "TOKEN_INVALID" "invalid access token"

abbrev pub invalid_body : Response
invalid_body = write_error 400 "VALIDATION_ERROR" "invalid request body"

abbrev pub health_response : Response
health_response = record { status = 200; body = health "ok" "user-service" }

-- The length of a text in bytes is not in 6..72.
abbrev pub bad_length : String → Bool
bad_length password = ltb (len password) 6 || ltb 72 (len password)

abbrev pub role_or_user : String → Role
role_or_user role = if same_text role "" then "USER" else role

-- A handler: it answers, and may have changed the database.
abbrev pub Handler : Type 0
Handler = Env → Session → Response × Session

-- `writeJSON` of a result, or the answer to an error.
abbrev pub respond :
    {A : Type 0} → (A → Response) → (Error → Response) → Result A × Session → Response × Session
respond success failed (ok a, s) = (success a, s)
respond success failed (err e, s) = (failed e, s)

abbrev pub claims_response : Result UserClaims → Response
claims_response (ok c) = record { status = 200; body = claims c }
claims_response (err e) = validate_error e

module _ (lib : Lib) (uc : AuthUseCase) where
  unfoldable pub register_checked : RegisterRequest → Handler
  register_checked req env s =
      respond (auth_response 201) register_error
        (register_user lib uc req.email req.password (role_or_user req.role) env s)

  unfoldable pub register : Option RegisterRequest → Handler
  register none env s = (invalid_body, s)
  register (some req) env s =
      if same_text req.email "" || same_text req.password ""
      then (write_error 400 "VALIDATION_ERROR" "email and password required", s)
      else if bad_length req.password
      then (write_error 400 "VALIDATION_ERROR" "password length must be 6..72", s)
      else register_checked req env s

  unfoldable pub login : Option LoginRequest → Handler
  login none env s = (invalid_body, s)
  login (some req) env s =
      respond (auth_response 200)
        (λ _. write_error 401 "INVALID_CREDENTIALS" "invalid email or password")
        (login_user lib uc req.email req.password env s)

  unfoldable pub refresh : Option RefreshRequest → Handler
  refresh none env s = (invalid_body, s)
  refresh (some req) env s =
      respond (auth_response 200) refresh_error (refresh_tokens lib uc req.refresh_token env s)

  -- `Validate`, with the header Authorization, at a time.
  unfoldable pub validate : Time → String → Response
  validate now header = elim (strip_prefix "Bearer " header) [
    | none ↦ write_error 401 "TOKEN_MISSING" "authorization header missing"
    | some token ↦ claims_response (verify_access_token lib uc now token)
  ]

  pub validate-append :
      (now : Time) (token : String)
      → validate now (String.◌++◌ "Bearer " token)
        ≡ claims_response (verify_access_token lib uc now token)
  unfolding validate
  validate-append now token =
      ap
        (λ (r : Option String).
          let out : Response = elim r [
            | none ↦ write_error 401 "TOKEN_MISSING" "authorization header missing"
            | some t ↦ claims_response (verify_access_token lib uc now t)
          ] in
          out)
        (strip_prefix-append "Bearer " token)
