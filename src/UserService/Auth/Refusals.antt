-- ===== src/UserService/Auth/Refusals.antt =====
-- Which logins and registrations are refused.
use service_oriented_hw.Common.{
  ◌≡◌, ◌∙◌, true, false, ◌||◌, some, none, String, arith, Bool-cases, Option-cases, inl, inr,
}
use service_oriented_hw.UserService.{
  User, Env, Session, ok, err, invalid_credentials, email_taken, internal, Role, ◌>>=◌, statement,
  next_call, not_found,
}
use service_oriented_hw.UserService.Repository.{find_email, get_by_email, or_not_found}
use service_oriented_hw.UserService.Auth.{Lib, AuthUseCase, login, register, email_free}
use service_oriented_hw.UserService.Steps.{bind_err, bind_ok, or_error_err, or_error_ok}
use text.Mathlib.Text.{◌==◌ as same_text}

get_by_email_refused :
    (email : String) (env : Env) (s : Session)
    → env.refuses s.calls ≡ true
    → get_by_email email env s ≡ (err internal, next_call s)
unfolding get_by_email statement
get_by_email_refused email env s refused = rw refused

pub get_by_email_found :
    (email : String) (env : Env) (s : Session)
    → env.refuses s.calls ≡ false
    → get_by_email email env s ≡ (or_not_found (find_email email (s.db).users), next_call s)
unfolding get_by_email statement
get_by_email_found email env s up = rw up

get_by_email_unknown :
    (email : String) (env : Env) (s : Session)
    → env.refuses s.calls ≡ false
    → find_email email (s.db).users ≡ none
    → get_by_email email env s ≡ (err not_found, next_call s)
get_by_email_unknown email env s up unknown = get_by_email_found email env s up ∙ rw unknown

module _ (lib : Lib) (uc : AuthUseCase) where
  login_wrong :
      (email password : String) (env : Env) (s : Session) (u : User)
      → get_by_email email env s ≡ (ok u, next_call s)
      → lib.same_password u.password_hash password ≡ false
      → login lib uc email password env s ≡ (err invalid_credentials, next_call s)
  unfolding login
  login_wrong email password env s u known wrong =
      bind_ok _ _ env s (or_error_ok invalid_credentials _ env s known)
      ∙ bind_err _ _ env (next_call s) (rw wrong)

  -- `Login` does not tell whether an email is registered: if no user has the email and the password,
  -- it ends with `ErrInvalidCredentials` after one statement and changes nothing, be it that the
  -- email is unknown, that the password is wrong, or that the statement is refused.
  pub login_refused :
      (email password : String) (env : Env) (s : Session)
      → ((u : User)
          → find_email email (s.db).users ≡ some u
          → lib.same_password u.password_hash password ≡ false)
      → login lib uc email password env s ≡ (err invalid_credentials, next_call s)
  unfolding login
  login_refused email password env s wrong = elim (Bool-cases (env.refuses s.calls)) [
    | inl refused ↦
        bind_err _ _ env s
          (or_error_err invalid_credentials _ env s (get_by_email_refused email env s refused))
    | inr up ↦ elim (Option-cases (find_email email (s.db).users)) [
      | inl unknown ↦
          bind_err _ _ env s
            (or_error_err invalid_credentials _ env s (get_by_email_unknown email env s up unknown))
      | inr (u, known) ↦
          login_wrong email password env s u (get_by_email_found email env s up ∙ rw known)
            (wrong u known)
    ]
  ]

  -- `Register` refuses an email that a user has with `ErrEmailTaken` and changes nothing, if email
  -- and password are given and the statement that looks for the email is not refused.
  pub register_taken :
      (email password : String) (role : Role) (env : Env) (s : Session) (u : User)
      → (same_text email "" || same_text password "") ≡ false
      → find_email email (s.db).users ≡ some u
      → env.refuses s.calls ≡ false
      → register lib uc email password role env s ≡ (err email_taken, next_call s)
  unfolding register email_free get_by_email statement ◌>>=◌
  register_taken email password role env s u given taken up = ground arith
