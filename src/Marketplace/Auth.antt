-- ===== src/Marketplace/Auth.antt =====
-- services/marketplace-api/internal/middleware/auth.go: the middleware around the handlers.
use service_oriented_hw.Common.{ℕ, ◌≡◌, ap, Option, none, some, String}
use service_oriented_hw.Common.Text.{strip_prefix, strip_prefix-append}
use service_oriented_hw.Marketplace.Domain.{
  UserClaims, Error, unauthorized, token_expired, auth_unavailable,
}
use service_oriented_hw.Marketplace.Session.{Result, ok, err}
use Prim.Native.String

-- middleware/auth.go, `parseToken`. The verifier is what the middleware was made with.
unfoldable pub parse_token : (String → Result UserClaims) → String → Result UserClaims
unfolding strip_prefix
parse_token verifier header = elim (strip_prefix "Bearer " header) [
  | none ↦ err unauthorized
  | some token ↦ verifier token
]

-- `authErrInfo`
unfoldable pub auth_err_info : Error → String × ℕ
auth_err_info token_expired = ("TOKEN_EXPIRED", 401)
auth_err_info unauthorized = ("TOKEN_MISSING", 401)
auth_err_info auth_unavailable = ("AUTH_UNAVAILABLE", 503)
auth_err_info _ = ("TOKEN_INVALID", 401)

-- What the middleware `Auth` does with a request: it answers with a code and a status (the text of
-- the error is left out), or passes the request on with the claims.
pub data AuthStep : Type 0 where
  answered : String × ℕ → AuthStep
  passed : Option UserClaims → AuthStep

unfoldable pub auth : (String → Result UserClaims) → String → AuthStep
auth verifier header = elim (parse_token verifier header) [
  | ok claims ↦ passed (some claims)
  | err e ↦ answered (auth_err_info e)
]

-- `AuthOptional` drops the error.
unfoldable pub auth_optional : (String → Result UserClaims) → String → AuthStep
auth_optional verifier header = elim (parse_token verifier header) [
  | ok claims ↦ passed (some claims)
  | err e ↦ passed none
]

-- The token behind "Bearer " is what the verifier is given.
pub parse_token-append :
    (verifier : String → Result UserClaims) (token : String)
    → parse_token verifier (String.◌++◌ "Bearer " token) ≡ verifier token
unfolding parse_token
parse_token-append verifier token =
    ap
      (λ (r : Option String).
        let out : Result UserClaims = elim r [ none ↦ err unauthorized | some t ↦ verifier t ] in
        out)
      (strip_prefix-append "Bearer " token)
