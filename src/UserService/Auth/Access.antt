-- ===== src/UserService/Auth/Access.antt =====
-- Access tokens: what `VerifyAccessToken` makes of what `issueTokens` gives out.
use service_oriented_hw.Common.{◌≡◌, refl, ap, Option, some, String, arith}
use service_oriented_hw.Common.Int.{◌<ℤ◌, ◌+ℤ◌}
use service_oriented_hw.UserService.{Time, User, Env, Session, ok, read_clock}
use service_oriented_hw.UserService.Steps.{after_bind, pure_ok}
use service_oriented_hw.UserService.Auth.{
  Lib, AuthUseCase, TokenPair, SigningMethod, hmac, accepted, key_for, verify_access_token,
  issue_tokens, access_claims, AccessClaims, claims_of,
}
use service_oriented_hw.UserService.Auth.Tokens.{some_or_ok}

read_clock_reads :
    (env : Env) (s : Session) {now : Time} {s' : Session}
    → read_clock env s ≡ (ok now, s')
    → now ≡ env.clock s.calls
unfolding read_clock
read_clock_reads env s h = ground arith

module _ (lib : Lib) (uc : AuthUseCase) where
  -- What the JWT package says of a token: `jwt.Parse` takes what was signed by HMAC with the secret
  -- that the key function gives for this method, until it expires.
  abbrev pub ParsesSigned : Time → Type 0
  ParsesSigned now =
      (keys : SigningMethod → Option String) (secret : String) (claims : AccessClaims) (t : String)
      → keys hmac ≡ some secret
      → lib.sign secret claims ≡ some t
      → lib.unix now <ℤ claims.exp
      → lib.parse_jwt keys now t ≡ accepted (some claims.sub) (some claims.role)

  -- The access token that `issueTokens` gives out is accepted by `VerifyAccessToken` until its
  -- lifetime, counted from the clock of the call, has passed, with the user's id and role, if the
  -- JWT package takes what was signed with the secret of the key function and has not expired, and
  -- the text of the user's id parses.
  pub issue_tokens-verify_access_token :
      (user : User) (env : Env) (s s' : Session) (pair : TokenPair) (now : Time)
      → ParsesSigned now
      → lib.parse_uuid (lib.uuid_text user.id) ≡ some user.id
      → issue_tokens lib uc user env s ≡ (ok pair, s')
      → lib.unix now <ℤ lib.unix (env.clock s.calls +ℤ uc.access_ttl)
      → verify_access_token lib uc now pair.access_token
        ≡ ok (record { user_id = user.id; role = user.role })
  unfolding verify_access_token issue_tokens
  issue_tokens-verify_access_token user env s s' pair now parses id issued alive =
      after_bind _ _ env s issued λ issued_at t1 e1 h1. after_bind _ _ env t1 h1 λ access t2 e2 h2.
        after_bind _ _ env t2 h2 λ nonce t3 e3 h3. after_bind _ _ env t3 h3 λ _ t4 e4 h4.
          let claims = access_claims lib uc user issued_at in
          let is : pair.access_token ≡ access =
            ap (λ (p : TokenPair). p.access_token) (pure_ok _ t4 h4).0 in
          let signed = (some_or_ok _ _ env t1 e2).0 in
          let lives : lib.unix now <ℤ claims.exp = rw (read_clock_reads env s e1) alive in
          rw
            (
              is,
              parses (key_for lib uc) uc.jwt_secret claims access refl signed lives,
              claims_of,
              id,
            )
            refl
