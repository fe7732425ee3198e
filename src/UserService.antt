-- ===== src/UserService.antt =====
-- user-service (services/user-service): registration, login, refresh tokens and access tokens.
-- This module has internal/domain, the tables of migrations/00001_init.sql and the monad of a
-- request; a UUID is a number and a time an integer of nanoseconds.
pub mod Repository
pub mod Steps
pub mod Auth
pub mod Handlers
pub mod Config
pub mod Router
pub mod Middleware
use service_oriented_hw.Common.{ℕ, ◌+◌, Bool, Option, none, some, List, String, if◌then◌else◌}
use service_oriented_hw.Common.Int.{ℤ}

abbrev pub Uuid : Type 0
Uuid = ℕ

abbrev pub Time : Type 0
Time = ℤ

-- The sentinel errors, and `internal` for every other error value.
pub data Error : Type 0 where
  not_found unauthorized token_invalid token_expired email_taken invalid_credentials : Error
  invalid_input internal : Error

-- `Role` is a string.
abbrev pub Role : Type 0
Role = String

pub record User : Type 0 where
  pub id : Uuid
  pub email : String
  pub password_hash : String
  pub role : Role
  pub created_at : Time
  pub updated_at : Time

pub record UserClaims : Type 0 where
  pub user_id : Uuid
  pub role : Role

pub record RefreshToken : Type 0 where
  pub id : Uuid
  pub user_id : Uuid
  pub token_hash : String
  pub expires_at : Time
  pub created_at : Time

pub record Db : Type 0 where
  pub users : List User
  pub refresh_tokens : List RefreshToken

-- Which statement is refused, of which one that writes the reply is lost, the ids and salts that are drawn, and the readings of the clocks.
pub record Env : Type 0 where
  pub refuses : ℕ → Bool
  pub loses : ℕ → Bool
  pub random : ℕ → ℕ
  pub clock : ℕ → Time
  pub db_time : ℕ → Time

-- `calls` numbers the statements, the readings of the clock and the draws.
pub record Session : Type 0 where
  pub db : Db
  pub calls : ℕ

pub data Result (A : Type 0) : Type 0 where
  ok : A → Result A
  err : Error → Result A

abbrev pub M : Type 0 → Type 0
M A = Env → Session → Result A × Session

abbrev pub pure : {A : Type 0} → A → M A
pure a env s = (ok a, s)

abbrev pub fail : {A : Type 0} → Error → M A
fail e env s = (err e, s)

infixl 5 ◌>>=◌ ◌>>◌
unfoldable pub ◌>>=◌ : {A B : Type 0} → M A → (A → M B) → M B
◌>>=◌ m f env s = let (r, s') = m env s in elim r [ ok a ↦ f a env s' | err e ↦ (err e, s') ]

abbrev pub ◌>>◌ : {B : Type 0} → M (Unit {0}) → M B → M B
m >> k = m >>= λ _. k

abbrev pub next_call : Session → Session
next_call s = record s { calls = s.calls + 1 }

-- A statement that reads: it may be refused; else it gives a result or an error of its own.
unfoldable pub statement : {A : Type 0} → (Uuid → Time → Db → Result A × Db) → M A
statement run env s =
    if env.refuses s.calls
    then (err internal, next_call s)
    else (let (r, db) = run (env.random s.calls) (env.db_time s.calls) s.db in
        (r, record { db = db; calls = s.calls + 1 }))

-- A statement that writes, outside of a transaction: it may be refused, or be done while its reply
-- is lost.
unfoldable pub writing : {A : Type 0} → (Uuid → Time → Db → Result A × Db) → M A
writing run env s =
    if env.refuses s.calls
    then (err internal, next_call s)
    else (let (r, db) = run (env.random s.calls) (env.db_time s.calls) s.db in
        (if env.loses s.calls then err internal else r, record { db = db; calls = s.calls + 1 }))

unfoldable pub read_clock : M Time
read_clock env s = (ok (env.clock s.calls), next_call s)

unfoldable pub draw : M ℕ
draw env s = (ok (env.random s.calls), next_call s)

-- `_ = f(...)`: the error is dropped.
unfoldable pub dropping : M (Unit {0}) → M (Unit {0})
dropping m env s = (ok tt, (m env s).1)

-- `if err != nil { return e }`: any error becomes `e`.
unfoldable pub or_error : {A : Type 0} → Error → M A → M A
or_error e m env s = let (r, s') = m env s in elim r [ ok a ↦ (ok a, s') | err _ ↦ (err e, s') ]

-- `if c { return e }`
abbrev pub fail_if : Bool → Error → M (Unit {0})
fail_if c e env s = (if c then err e else ok tt, s)
