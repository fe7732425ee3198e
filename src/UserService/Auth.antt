-- ===== src/UserService/Auth.antt =====
-- services/user-service/internal/usecases/auth.go: `AuthUseCase`. What comes from bcrypt, SHA-256,
-- the JWT package, the UUID package and fmt is the parameter `Lib`.
pub mod Tokens
pub mod Access
pub mod Refusals
pub mod Registered
use service_oriented_hw.Common.{
  ℕ, Bool, true, false, ◌||◌, not, Option, none, some, List, [], ◌∷◌, String, if◌then◌else◌,
}
use service_oriented_hw.Common.Int.{ℤ, pos, ◌+ℤ◌, ◌*ℤ◌, ltb_ℤ, wrap64}
use service_oriented_hw.UserService.{
  Uuid, Time, Error, invalid_input, email_taken, internal, invalid_credentials, token_invalid,
  token_expired, Role, User, UserClaims, RefreshToken, Env, Session, M, Result, ok, err, ◌>>=◌,
  ◌>>◌, pure, fail, fail_if, read_clock, draw, dropping, or_error,
}
use service_oriented_hw.UserService.Repository.{
  create_user, get_by_email, get_by_id, create_token, get_by_hash, delete_token,
}
use text.Mathlib.Text.{◌==◌ as same_text}

-- The family of a token's signing method.
pub data SigningMethod : Type 0 where
  hmac other_method : SigningMethod

-- The claims that the service signs; `exp` and `iat` in whole seconds.
pub record AccessClaims : Type 0 where
  pub sub : String
  pub role : String
  pub exp : ℤ
  pub iat : ℤ

-- What `jwt.Parse` gives: an error with its text, or a valid token with the string claims that it
-- has.
pub data Parsed : Type 0 where
  rejected : String → Parsed
  accepted : (sub role : Option String) → Parsed

pub record Lib : Type 0 where
  pub hash_password : ℕ → ℕ → String → Option String
  pub same_password : String → String → Bool
  pub sha256_hex : String → String
  pub sign : String → AccessClaims → Option String
  pub parse_jwt : (SigningMethod → Option String) → Time → String → Parsed
  pub uuid_text : Uuid → String
  pub parse_uuid : String → Option Uuid
  pub refresh_text : Uuid → Time → Uuid → String
  pub unix : Time → ℤ

pub record AuthUseCase : Type 0 where
  pub jwt_secret : String
  pub access_ttl : ℤ
  pub refresh_ttl : ℤ
  pub bcrypt_cost : ℕ

pub record TokenPair : Type 0 where
  pub access_token : String
  pub refresh_token : String

-- The durations are 64-bit counts of nanoseconds.
unfoldable pub new_auth_use_case : String → ℤ → ℤ → AuthUseCase
new_auth_use_case jwt_secret access_ttl_min refresh_ttl_days = record {
  jwt_secret = jwt_secret;
  access_ttl = wrap64 (access_ttl_min *ℤ pos 60_000_000_000);
  refresh_ttl = wrap64 (wrap64 (refresh_ttl_days *ℤ pos 24) *ℤ pos 3_600_000_000_000);
  bcrypt_cost = 10;
}

abbrev pub set_bcrypt_cost : ℕ → AuthUseCase → AuthUseCase
set_bcrypt_cost cost uc = record uc { bcrypt_cost = cost }

abbrev pub or_empty : Option String → String
or_empty none = ""
or_empty (some t) = t

abbrev pub some_or : {A : Type 0} → Error → Option A → M A
some_or e none = fail e
some_or e (some a) = pure a

-- `GetByEmail` found a user: `if _, err := ...; err == nil { return ErrEmailTaken }`.
unfoldable pub email_free : String → M (Unit {0})
email_free email env s =
    let (r, s') = get_by_email email env s in
    elim r [ ok _ ↦ (err email_taken, s') | err _ ↦ (ok tt, s') ]

module _ (lib : Lib) (uc : AuthUseCase) where
  -- The key function of `jwt.Parse`.
  abbrev pub key_for : SigningMethod → Option String
  key_for hmac = some uc.jwt_secret
  key_for other_method = none

  abbrev pub claims_of : Option String → Option String → Result UserClaims
  claims_of sub role = elim (lib.parse_uuid (or_empty sub)) [
    | none ↦ err token_invalid
    | some id ↦ ok (record { user_id = id; role = or_empty role })
  ]

  unfoldable pub verified : Parsed → Result UserClaims
  verified (rejected message) =
      if same_text message "token is expired" then err token_expired else err token_invalid
  verified (accepted sub role) = claims_of sub role

  -- `VerifyAccessToken`, at a time.
  unfoldable pub verify_access_token : Time → String → Result UserClaims
  unfolding verified
  verify_access_token now token = verified (lib.parse_jwt key_for now token)

  abbrev pub access_claims : User → Time → AccessClaims
  access_claims user now = record {
    sub = lib.uuid_text user.id;
    role = user.role;
    exp = lib.unix (now +ℤ uc.access_ttl);
    iat = lib.unix now;
  }

  -- `TokenHash`: the digest in hexadecimal.
  abbrev pub token_hash : String → String
  token_hash raw = lib.sha256_hex raw

  unfoldable pub issue_tokens : User → M TokenPair
  issue_tokens user = do
    now ← read_clock
    access ← some_or internal (lib.sign uc.jwt_secret (access_claims user now))
    nonce ← draw
    let raw = lib.refresh_text user.id now nonce
    create_token user.id (token_hash raw) (now +ℤ uc.refresh_ttl)
    pure (record { access_token = access; refresh_token = raw })

  unfoldable pub register : String → String → Role → M TokenPair
  register email password role = do
    fail_if (same_text email "" || same_text password "") invalid_input
    email_free email
    salt ← draw
    hash ← some_or internal (lib.hash_password uc.bcrypt_cost salt password)
    user ← create_user email hash role
    issue_tokens user

  unfoldable pub login : String → String → M TokenPair
  login email password = do
    user ← or_error invalid_credentials (get_by_email email)
    fail_if (not (lib.same_password user.password_hash password)) invalid_credentials
    issue_tokens user

  -- The branch of an expired refresh token.
  unfoldable pub expire : String → M TokenPair
  expire hash = do dropping (delete_token hash); fail token_expired

  -- The branch of a refresh token that is still good.
  unfoldable pub rotate : String → RefreshToken → M TokenPair
  rotate hash rt = do
    user ← or_error token_invalid (get_by_id rt.user_id)
    dropping (delete_token hash)
    issue_tokens user

  -- What `Refresh` does with a token that it found, at a time.
  unfoldable pub settle : String → RefreshToken → Time → M TokenPair
  settle hash rt now = if ltb_ℤ rt.expires_at now then expire hash else rotate hash rt

  unfoldable pub refresh : String → M TokenPair
  refresh raw = do
    rt ← or_error token_invalid (get_by_hash (token_hash raw))
    now ← read_clock
    settle (token_hash raw) rt now
