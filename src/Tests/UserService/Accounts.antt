-- ===== src/Tests/UserService/Accounts.antt =====
-- The theorems on registration and on the configuration at concrete inputs.
use service_oriented_hw.Common.{
  none, Option, if◌then◌else◌, ◌≡◌, refl, true, some, String, arith, ℕ,
}
use service_oriented_hw.Common.Int.{ℤ, pos, ◌+ℤ◌}
use service_oriented_hw.UserService.{
  User, Session, Result, ok, ◌>>=◌, statement, writing, read_clock, draw, next_call,
}
use service_oriented_hw.UserService.Repository.{create_user, get_by_email, create_token}
use service_oriented_hw.UserService.Auth.{
  TokenPair, register as register_user, email_free, issue_tokens, login,
}
use service_oriented_hw.UserService.Auth.Registered.{register-login}
use service_oriented_hw.UserService.Handlers.{
  RegisterRequest, Response, register, register_checked, auth_response, role_or_user,
}
use service_oriented_hw.UserService.Handlers.Created.{IsComplete, register_created}
use service_oriented_hw.Tests.UserService.{toy, service, calm, opening}
use text.Mathlib.Text.{◌==◌ as same_text}
use text.Mathlib.TextEquality.{eq_iff}

abbrev registered : Result TokenPair × Session
registered = register_user toy service "bob@example.com" "secret" "USER" calm opening

abbrev bobs_pair : TokenPair
bobs_pair = record { access_token = "ann's"; refresh_token = "new" }

register_code : Unit {0}
unfolding register_user email_free get_by_email create_user issue_tokens create_token ◌>>=◌
    statement writing read_clock draw ◌+ℤ◌
register_code = tt

registered_ok : registered ≡ (ok bobs_pair, registered.1)
unfolding register_code
registered_ok = refl

own_hash :
    (salt : ℕ) (hash : String)
    → toy.hash_password service.bcrypt_cost salt "secret" ≡ some hash
    → toy.same_password hash "secret" ≡ true
own_hash salt hash made = (eq_iff hash "secret").1 (ground (arith, made))

register-login_example :
    (u : User) × (u.role ≡ "USER")
    × (login toy service "bob@example.com" "secret" calm registered.1
        ≡ issue_tokens toy service u calm (next_call registered.1))
register-login_example =
    register-login toy service "bob@example.com" "secret" "USER" calm calm opening registered.1
      bobs_pair own_hash refl registered_ok

abbrev bobs_request : RegisterRequest
bobs_request = record { email = "bob@example.com"; password = "secret"; role = "" }

abbrev answered : Response × Session
answered = register toy service (some bobs_request) calm opening

answered_created : (answered.0).status ≡ 201
unfolding register_code register register_checked
answered_created = refl

register_created_example :
    IsComplete bobs_request
    × ((pair : TokenPair) × (register_user toy service "bob@example.com" "secret"
            (role_or_user "")
            calm
            opening
          ≡ (ok pair, answered.1))
        × (answered.0 ≡ auth_response 201 pair))
register_created_example =
    register_created toy service bobs_request calm opening answered.1 answered.0 refl
      answered_created

-- An environment that sets the lifetime of access tokens only.
abbrev fifteen_minutes : String → String
fifteen_minutes key = if same_text key "ACCESS_TOKEN_TTL_MINUTES" then "15" else ""

abbrev read_fifteen : String → Option ℤ
read_fifteen t = if same_text t "15" then some (pos 15) else none
