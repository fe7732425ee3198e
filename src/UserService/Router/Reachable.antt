-- ===== src/UserService/Router/Reachable.antt =====
-- Every request to user-service leaves its tables sound.
use mathlib.Core.Path.{subst}
use service_oriented_hw.Common.{
  ◌≡◌, refl, sym, true, ◌||◌, Bool-cases, inl, inr, none, some, String, arith,
}
use service_oriented_hw.Common.Int.{ltb_ℤ}
use service_oriented_hw.Common.Table.{has_key, key_of_found}
use service_oriented_hw.UserService.{
  Error, Role, User, RefreshToken, Db, Env, Session, Result, ok, err, token_invalid,
  invalid_credentials,
}
use service_oriented_hw.UserService.Repository.{user_key}
use service_oriented_hw.UserService.Auth.{
  Lib, AuthUseCase, TokenPair, issue_tokens, register as register_user, login as login_user,
  refresh as refresh_tokens, settle, expire, rotate,
}
use service_oriented_hw.UserService.Auth.Registered.{create_user-Registered}
use service_oriented_hw.UserService.Handlers.{
  Response, respond, register as answer_register, register_checked, login as answer_login,
  refresh as answer_refresh, bad_length,
}
use service_oriented_hw.UserService.Router.{
  Route, health, register, login, refresh, validate, other, serve, Reach, here, next,
}
use service_oriented_hw.UserService.Router.Steps.{
  Leaves, bind-Leaves, guard-Leaves, or_error-Leaves, dropping-Leaves, some_or-Leaves,
  read_clock-Leaves, draw-Leaves,
}
use service_oriented_hw.UserService.Router.Sound.{
  IsIntact, create_user-IsIntact, delete_token-IsIntact, find_email-has_key,
}
use text.Mathlib.Text.{◌==◌ as same_text}
use service_oriented_hw.UserService.Router.Intact.{
  Holds, create_token-Holds, or_error_ok_of, get_by_email_ok, delete_token_users, get_by_id_ok,
  get_by_email-IsIntact, get_by_id-IsIntact, get_by_hash-IsIntact, email_free-IsIntact,
}

module _ (lib : Lib) (uc : AuthUseCase) where
  issue_tokens-Holds :
      (user : User) (env : Env) (s : Session)
      → Holds user.id s.db
      → Leaves (Holds user.id) (issue_tokens lib uc user env s)
  unfolding issue_tokens
  issue_tokens-Holds user env s held =
      let P : Db → Type 0 = Holds user.id in
      bind-Leaves P _ _ env s (read_clock-Leaves P env s held) λ now t1 e1 h1.
        bind-Leaves P _ _ env t1 (some_or-Leaves P _ _ env t1 h1) λ access t2 e2 h2.
          bind-Leaves P _ _ env t2 (draw-Leaves P env t2 h2) λ nonce t3 e3 h3.
            bind-Leaves P _ _ env t3 (create_token-Holds user.id _ _ env t3 h3) λ u t4 e4 h4. h4

  -- Tokens for a user who was just read or written.
  issued :
      (user : User) (env : Env) (s : Session)
      → IsIntact s.db
      → has_key user_key user.id (s.db).users ≡ true
      → Leaves IsIntact (issue_tokens lib uc user env s)
  issued user env s sound there = (issue_tokens-Holds user env s (sound, there)).0

  register-IsIntact :
      (email password : String) (role : Role) (env : Env) (s : Session)
      → IsIntact s.db
      → Leaves IsIntact (register_user lib uc email password role env s)
  unfolding register_user
  register-IsIntact email password role env s sound = guard-Leaves IsIntact _ _ _ env s sound (
      bind-Leaves IsIntact _ _ env s (email_free-IsIntact email env s sound) λ x t1 e1 h1.
        bind-Leaves IsIntact _ _ env t1 (draw-Leaves IsIntact env t1 h1) λ salt t2 e2 h2.
          bind-Leaves IsIntact _ _ env t2 (some_or-Leaves IsIntact _ _ env t2 h2) λ hash t3 e3 h3.
            bind-Leaves IsIntact _ _ env t3 (create_user-IsIntact email hash role env t3 h3)
              λ u t4 e4 h4.
                let row = create_user-Registered email hash role env t3 u t4 e4 in
                issued u env t4 h4 (find_email-has_key email (t4.db).users u row.is_found))

  login-IsIntact :
      (email password : String) (env : Env) (s : Session)
      → IsIntact s.db
      → Leaves IsIntact (login_user lib uc email password env s)
  unfolding login_user
  login-IsIntact email password env s sound =
      bind-Leaves IsIntact _ _ env s
        (or_error-Leaves IsIntact invalid_credentials _ env s
          (get_by_email-IsIntact email env s sound))
        λ u t1 e1 h1.
          let found = or_error_ok_of invalid_credentials _ env s u t1 e1 in
          guard-Leaves IsIntact _ _ _ env t1 h1 (
            issued u env t1 h1
              (find_email-has_key email (t1.db).users u (get_by_email_ok email env s u t1 found)))

  rotate-IsIntact :
      (hash : String) (rt : RefreshToken) (env : Env) (s : Session)
      → IsIntact s.db
      → Leaves IsIntact (rotate lib uc hash rt env s)
  unfolding rotate
  rotate-IsIntact hash rt env s sound =
      bind-Leaves IsIntact _ _ env s
        (or_error-Leaves IsIntact token_invalid _ env s (get_by_id-IsIntact rt.user_id env s sound))
        λ u t1 e1 h1.
          let found =
            get_by_id_ok rt.user_id env s u t1 (or_error_ok_of token_invalid _ env s u t1 e1) in
          let there : has_key user_key u.id (t1.db).users ≡ true =
            ground (arith, key_of_found user_key rt.user_id (t1.db).users u found) in
          let P : Db → Type 0 = Holds u.id in
          (bind-Leaves P _ _ env t1
            (dropping-Leaves P _ env t1 (
              delete_token-IsIntact hash env t1 h1,
              subst (λ us. has_key user_key u.id us ≡ true) (sym (delete_token_users hash env t1))
                  there,
            ))
            λ x t2 e2 h2. issue_tokens-Holds u env t2 h2).0

  refresh-IsIntact :
      (raw : String) (env : Env) (s : Session)
      → IsIntact s.db
      → Leaves IsIntact (refresh_tokens lib uc raw env s)
  unfolding refresh_tokens settle expire
  refresh-IsIntact raw env s sound =
      bind-Leaves IsIntact _ _ env s
        (or_error-Leaves IsIntact token_invalid _ env s (get_by_hash-IsIntact _ env s sound))
        λ rt t1 e1 h1.
          bind-Leaves IsIntact _ _ env t1 (read_clock-Leaves IsIntact env t1 h1) λ now t2 e2 h2.
            elim (Bool-cases (ltb_ℤ rt.expires_at now)) [
              | inl late ↦ rw late (
                  bind-Leaves IsIntact _ _ env t2
                    (dropping-Leaves IsIntact _ env t2 (delete_token-IsIntact _ env t2 h2))
                    λ x t3 e3 h3. h3)
              | inr good ↦ rw good (rotate-IsIntact _ rt env t2 h2)
            ]

  respond_same :
      (success : TokenPair → Response) (failed : Error → Response)
      (out : Result TokenPair × Session)
      → (respond success failed out).1 ≡ out.1
  respond_same success failed (ok a, s) = refl
  respond_same success failed (err e, s) = refl

  answered-IsIntact :
      (success : TokenPair → Response) (failed : Error → Response)
      (out : Result TokenPair × Session)
      → Leaves IsIntact out
      → IsIntact (respond success failed out).1.db
  answered-IsIntact success failed out h =
      subst (λ (t : Session). IsIntact t.db) (sym (respond_same success failed out)) h

  serve-IsIntact :
      (route : Route) (env : Env) (s : Session)
      → IsIntact s.db
      → IsIntact (serve lib uc route env s).1.db
  unfolding serve answer_register register_checked answer_login answer_refresh
  serve-IsIntact health env s sound = sound
  serve-IsIntact (other method path pattern written text) env s sound = sound
  serve-IsIntact (validate authorization) env s sound = sound
  serve-IsIntact (register none) env s sound = sound
  serve-IsIntact (register (some req)) env s sound =
      elim (Bool-cases (same_text req.email "" || same_text req.password "")) [
        | inl missing ↦ rw missing sound
        | inr given ↦ elim (Bool-cases (bad_length req.password)) [
          | inl bad ↦ rw (given, bad) sound
          | inr good ↦
              rw (given, good)
                (answered-IsIntact _ _ _ (register-IsIntact req.email req.password _ env s sound))
        ]
      ]
  serve-IsIntact (login none) env s sound = sound
  serve-IsIntact (login (some req)) env s sound =
      answered-IsIntact _ _ _ (login-IsIntact req.email req.password env s sound)
  serve-IsIntact (refresh none) env s sound = sound
  serve-IsIntact (refresh (some req)) env s sound =
      answered-IsIntact _ _ _ (refresh-IsIntact req.refresh_token env s sound)

  reached-IsIntact : {start d : Db} → IsIntact start → Reach lib uc start d → IsIntact d
  reached-IsIntact sound here = sound
  reached-IsIntact sound (next r route env s at after) =
      subst IsIntact after
        (serve-IsIntact route env s (subst IsIntact (sym at) (reached-IsIntact sound r)))

  -- In every database that a chain of requests to user-service reaches from sound tables, whichever
  -- statements are refused on the way: no two users have one email, no two refresh tokens have one
  -- digest, and every refresh token is that of a user who is there.
  pub Reach-IsIntact : (start d : Db) → IsIntact start → Reach lib uc start d → IsIntact d
  Reach-IsIntact start d sound r = reached-IsIntact sound r
