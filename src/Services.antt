-- ===== src/Services.antt =====
-- The two services together: the middleware of marketplace-api asks user-service, over HTTP and JSON,
-- whose token a request carries.
use service_oriented_hw.Common.{
  none, ℕ, ◌≡◌, refl, ap, ◌∙◌, true, some, String, if◌then◌else◌, arith, ◌≤◌,
}
use service_oriented_hw.Marketplace.Domain as Market
use service_oriented_hw.Marketplace.Session as Api
use service_oriented_hw.Marketplace.UserClient.{
  Reply, response, Network, do_validate, verify_from, verify_access_token as ask_user_service,
  verify_from_verdict, is_decisive, Fails,
}
use service_oriented_hw.Marketplace.Auth.{
  AuthStep, answered, passed, auth, auth_err_info, parse_token-append,
}
use service_oriented_hw.UserService.{Time, UserClaims, Result, ok, err, token_expired}
use service_oriented_hw.UserService.Auth.{Lib, AuthUseCase, verify_access_token}
use service_oriented_hw.UserService.Handlers.{
  library, Body, tokens, claims, failure, health, Response, validate, claims_response,
  validate-append,
}
use Prim.Native.String
use text.Mathlib.Text.{◌==◌ as same_text}

-- A role is a text in the JSON of both services.
abbrev pub role_of : String → Market.Role
role_of role =
    if same_text role "USER"
    then Market.Role.user
    else if same_text role "SELLER"
    then Market.Role.seller
    else if same_text role "ADMIN"
    then Market.Role.admin
    else Market.Role.other_role role

-- The fields `user_id` and `role` of the JSON object.
abbrev pub claims_of : UserClaims → Market.UserClaims
claims_of c = record { user_id = c.user_id; role = role_of c.role }

-- An object without these fields decodes to their zero values.
abbrev pub no_claims : Market.UserClaims
no_claims = record { user_id = 0; role = Market.Role.other_role "" }

-- What the client decodes from an answer: the claims, and the field `error_code`.
abbrev pub reply_of : ℕ → Body → Reply
reply_of status (claims c) = response status (some (claims_of c)) ""
reply_of status (failure code message) = response status (some no_claims) code
reply_of status (tokens access refresh token_type) = response status (some no_claims) ""
reply_of status (health state service) = response status (some no_claims) ""
reply_of status (library text) = response status none ""

-- What the middleware `Auth` does in the end with a verdict of user-service on a token.
abbrev pub step_of : Result UserClaims → AuthStep
step_of (ok c) = passed (some (claims_of c))
step_of (err token_expired) = answered ("TOKEN_EXPIRED", 401)
step_of (err e) = answered ("TOKEN_INVALID", 401)

abbrev pub market_result : Result UserClaims → Api.Result Market.UserClaims
market_result (ok c) = Api.ok (claims_of c)
market_result (err token_expired) = Api.err Market.token_expired
market_result (err e) = Api.err Market.token_invalid

-- The client's reading of the answer of `Validate`.
reading :
    (verdict : Result UserClaims)
    → (do_validate (reply_of (claims_response verdict).status (claims_response verdict).body)).0
      ≡ market_result verdict
unfolding do_validate
reading (ok c) = refl
reading (err token_expired) = refl
reading (err e) = refl

is_decisive-market_result :
    (verdict : Result UserClaims) → is_decisive (market_result verdict) ≡ true
is_decisive-market_result (ok c) = refl
is_decisive-market_result (err token_expired) = refl
is_decisive-market_result (err e) = refl

stepped :
    (verdict : Result UserClaims)
    → (elim (market_result verdict) [
      | Api.ok c ↦ passed (some c)
      | Api.err e ↦ answered (auth_err_info e)
    ])
      ≡ step_of verdict
unfolding auth_err_info
stepped (ok c) = refl
stepped (err token_expired) = refl
stepped (err e) = refl

abbrev step_after : Api.Result Market.UserClaims → AuthStep
step_after r = elim r [ Api.ok c ↦ passed (some c) | Api.err e ↦ answered (auth_err_info e) ]

module _ (lib : Lib) (uc : AuthUseCase) where
  -- A request with the header "Bearer " and a token is treated as user-service judges the token, if
  -- user-service answers the first attempt of the client, or the second one after a first that
  -- failed: it is passed on with the claims that user-service verified, or it is answered with 401
  -- and TOKEN_EXPIRED or TOKEN_INVALID.
  pub auth_verdict :
      (net : String → Network) (token : String) (now : Time) (n : ℕ)
      → n ≤ 1
      → Fails (net token) 0 n
      → (net token).reply n
        ≡ reply_of
            (validate lib uc now (String.◌++◌ "Bearer " token)).status
            (validate lib uc now (String.◌++◌ "Bearer " token)).body
      → auth (λ t. (ask_user_service (net t)).0) (String.◌++◌ "Bearer " token)
        ≡ step_of (verify_access_token lib uc now token)
  unfolding auth ask_user_service
  auth_verdict net token now n few fails answer =
      let verdict = verify_access_token lib uc now token in
      let reads : (do_validate ((net token).reply n)).0 ≡ market_result verdict =
        ap (λ (r : Reply). (do_validate r).0)
          (answer
            ∙ ap (λ (r : Response). reply_of r.status r.body) (validate-append lib uc now token))
        ∙ reading verdict in
      let final : is_decisive (do_validate ((net token).reply n)).0 ≡ true =
        ap is_decisive reads ∙ is_decisive-market_result verdict in
      let asked : (verify_from (net token) 1 0).0 ≡ market_result verdict =
        (verify_from_verdict (net token) 1 0 n n few (omega arith) fails final).0 ∙ reads in
      ap step_after (parse_token-append (λ t. (ask_user_service (net t)).0) token ∙ asked)
      ∙ stepped verdict
