-- ===== src/UserService/Handlers/Created.antt =====
-- Which requests to register are answered with 201.
use service_oriented_hw.Common.{
  ◌≡◌, ◌≢◌, ◌≤◌, ◌||◌, ap, ◌∙◌, false, Bool-cases, inl, inr, some, arith,
}
use service_oriented_hw.UserService.{Error, Env, Session, Result, ok, err}
use service_oriented_hw.UserService.Auth.{Lib, AuthUseCase, TokenPair, register as register_user}
use service_oriented_hw.UserService.Handlers.{
  RegisterRequest, Response, register, register_checked, auth_response, register_error,
  role_or_user, respond, bad_length,
}
use Prim.Native.String.{len}
use text.Mathlib.Text.{◌==◌ as same_text}
use text.Mathlib.TextEquality.{eq_iff}

-- What the handler asks of a request to register.
pub record IsComplete (req : RegisterRequest) : Type 0 where
  pub has_email : req.email ≢ ""
  pub long_enough : 6 ≤ len req.password
  pub short_enough : len req.password ≤ 72

IsComplete-of_guards :
    (req : RegisterRequest)
    → (same_text req.email "" || same_text req.password "") ≡ false
    → bad_length req.password ≡ false
    → IsComplete req
IsComplete-of_guards req given short = record {
  has_email = λ is_empty. absurd (ground (arith, (eq_iff req.email "").1 is_empty));
  long_enough = ground arith;
  short_enough = ground arith;
}

register_error-ne-created : (e : Error) → (register_error e).status ≢ 201
register_error-ne-created e = ground arith

created_pair :
    (out : Result TokenPair × Session) (answer : Response) (s' : Session)
    → respond (auth_response 201) register_error out ≡ (answer, s')
    → answer.status ≡ 201
    → (pair : TokenPair) × (out ≡ (ok pair, s')) × (answer ≡ auth_response 201 pair)
created_pair (ok pair, s) answer s' h created = (pair, ground arith, ground arith)
created_pair (err e, s) answer s' h created =
    absurd
      (register_error-ne-created e (ap (λ (out : Response × Session). (out.0).status) h ∙ created))

module _ (lib : Lib) (uc : AuthUseCase) where
  -- `Register` answers 201 only to a request with an email and a password of 6 to 72 bytes, and only
  -- if the use case has registered the user, under the role of the request or USER; the body then
  -- has the tokens of the use case.
  pub register_created :
      (req : RegisterRequest) (env : Env) (s s' : Session) (answer : Response)
      → register lib uc (some req) env s ≡ (answer, s')
      → answer.status ≡ 201
      → IsComplete req
        × ((pair : TokenPair) × (register_user lib uc req.email req.password
                (role_or_user req.role)
                env
                s
              ≡ (ok pair, s'))
            × (answer ≡ auth_response 201 pair))
  unfolding register register_checked
  register_created req env s s' answer h created =
      elim (Bool-cases (same_text req.email "" || same_text req.password "")) [
        | inl missing ↦ absurd (ground (arith, rw missing at h))
        | inr given ↦ elim (Bool-cases (bad_length req.password)) [
          | inl bad ↦ absurd (ground (arith, rw (given, bad) at h))
          | inr good ↦ (
            IsComplete-of_guards req given good,
            created_pair (register_user lib uc req.email req.password (role_or_user req.role) env s)
                answer s' (rw (given, good) at h) created,
          )
        ]
      ]
