-- ===== src/UserService/Router/Accounts.antt =====
-- The accounts of user-service: what stands in the rows of `users`, whatever requests have come.
use mathlib.Core.Path.{subst}
use service_oriented_hw.Common.{
  ℕ, ◌≤◌, ◌≡◌, ◌≢◌, sym, false, ◌||◌, Bool-cases, inl, inr, none, some, Option-cases, String, All,
  All-append, arith,
}
use service_oriented_hw.Common.Int.{ltb_ℤ}
use Prim.Native.String.{len}
use service_oriented_hw.UserService.{
  Time, Error, Role, User, Db, Env, Session, Result, ok, err, invalid_credentials, token_invalid,
  Uuid,
}
use service_oriented_hw.UserService.Repository.{
  add_user, create_user, create_token, delete_token, get_by_email, get_by_hash, get_by_id,
  find_email,
}
use service_oriented_hw.UserService.Auth.{
  Lib, AuthUseCase, TokenPair, email_free, issue_tokens, register as register_user,
  login as login_user, refresh as refresh_tokens, settle, expire, rotate,
}
use service_oriented_hw.UserService.Auth.Tokens.{some_or_ok}
use service_oriented_hw.UserService.Handlers.{
  register as answer_register, register_checked, login as answer_login, refresh as answer_refresh,
  bad_length, respond, Response,
}
use service_oriented_hw.UserService.Router.{
  Route, health, register, login, refresh, validate, other, serve, Reach, here, next,
}
use service_oriented_hw.UserService.Router.Steps.{
  Leaves, bind-Leaves, guard-Leaves, statement-Leaves, writing-Leaves, or_error-Leaves,
  dropping-Leaves, some_or-Leaves, read_clock-Leaves, draw-Leaves,
}
use service_oriented_hw.UserService.Router.Sound.{IsIntact, add_token_users}
use service_oriented_hw.UserService.Router.Reachable.{Reach-IsIntact}
use text.Mathlib.Text.{◌==◌ as same_text}
use text.Mathlib.TextEquality.{eq_iff}

module _ (lib : Lib) (uc : AuthUseCase) where
  -- A row that `Register` may have written: it has an email, and the digest by bcrypt, at the cost of
  -- the service, of a password of 6 to 72 bytes.
  pub record Account (u : User) : Type 0 where
    pub named : u.email ≢ ""
    pub password : String
    pub salt : ℕ
    pub digest : lib.hash_password uc.bcrypt_cost salt password ≡ some u.password_hash
    pub long_enough : 6 ≤ len password
    pub short_enough : len password ≤ 72

  abbrev pub Accounts : Db → Type 0
  Accounts d = All Account d.users

  add_user-Accounts : (u : User) (d : Db) → Account u → Accounts d → Accounts (add_user u d).1
  add_user-Accounts u d new h = elim (Option-cases (find_email u.email d.users)) [
    | inl free ↦ rw (free, add_user) (All-append Account d.users _ h (new, tt))
    | inr (row, taken) ↦ rw (taken, add_user) h
  ]

  create_token-Accounts :
      (id : Uuid) (hash : String) (expires : Time) (env : Env) (s : Session)
      → Accounts s.db
      → Leaves Accounts (create_token id hash expires env s)
  unfolding create_token
  create_token-Accounts id hash expires env s h =
      writing-Leaves Accounts _ env s h
        λ row now. subst (λ us. All Account us) (sym (add_token_users _ s.db)) h

  delete_token-Accounts :
      (hash : String) (env : Env) (s : Session)
      → Accounts s.db
      → Leaves Accounts (delete_token hash env s)
  unfolding delete_token
  delete_token-Accounts hash env s h = writing-Leaves Accounts _ env s h λ row now. h

  get_by_email-Accounts :
      (email : String) (env : Env) (s : Session)
      → Accounts s.db
      → Leaves Accounts (get_by_email email env s)
  unfolding get_by_email
  get_by_email-Accounts email env s h = statement-Leaves Accounts _ env s h λ row now. h

  get_by_hash-Accounts :
      (hash : String) (env : Env) (s : Session)
      → Accounts s.db
      → Leaves Accounts (get_by_hash hash env s)
  unfolding get_by_hash
  get_by_hash-Accounts hash env s h = statement-Leaves Accounts _ env s h λ row now. h

  get_by_id-Accounts :
      (id : Uuid) (env : Env) (s : Session) → Accounts s.db → Leaves Accounts (get_by_id id env s)
  unfolding get_by_id
  get_by_id-Accounts id env s h = statement-Leaves Accounts _ env s h λ row now. h

  email_free-Accounts :
      (email : String) (env : Env) (s : Session)
      → Accounts s.db
      → Leaves Accounts (email_free email env s)
  unfolding email_free
  email_free-Accounts email env s h =
      go (get_by_email email env s) (get_by_email-Accounts email env s h)
    where
      go :
          (out : Result User × Session)
          → Accounts out.1.db
          → Accounts
              (let (r, t) = out in
                let result : Result (Unit {0}) × Session = elim r [
                  | ok _ ↦ (err Error.email_taken, t)
                  | err _ ↦ (ok tt, t)
                ] in
                result).1.db
      go (ok u, t) h = h
      go (err e, t) h = h

  issue_tokens-Accounts :
      (user : User) (env : Env) (s : Session)
      → Accounts s.db
      → Leaves Accounts (issue_tokens lib uc user env s)
  unfolding issue_tokens
  issue_tokens-Accounts user env s h =
      bind-Leaves Accounts _ _ env s (read_clock-Leaves Accounts env s h) λ now t1 e1 h1.
        bind-Leaves Accounts _ _ env t1 (some_or-Leaves Accounts _ _ env t1 h1) λ access t2 e2 h2.
          bind-Leaves Accounts _ _ env t2 (draw-Leaves Accounts env t2 h2) λ nonce t3 e3 h3.
            bind-Leaves Accounts _ _ env t3 (create_token-Accounts user.id _ _ env t3 h3)
              λ u t4 e4 h4. h4

  register-Accounts :
      (email password : String) (role : Role) (env : Env) (s : Session)
      → email ≢ ""
      → 6 ≤ len password
      → len password ≤ 72
      → Accounts s.db
      → Leaves Accounts (register_user lib uc email password role env s)
  unfolding register_user create_user
  register-Accounts email password role env s given long short h =
      guard-Leaves Accounts _ _ _ env s h (
        bind-Leaves Accounts _ _ env s (email_free-Accounts email env s h) λ x t1 e1 h1.
          bind-Leaves Accounts _ _ env t1 (draw-Leaves Accounts env t1 h1) λ salt t2 e2 h2.
            bind-Leaves Accounts _ _ env t2 (some_or-Leaves Accounts _ _ env t2 h2) λ hash t3 e3 h3.
              bind-Leaves Accounts _ _ env t3
                (writing-Leaves Accounts _ env t3 h3 λ id now.
                  add_user-Accounts _ t3.db
                    (record {
                      named = given;
                      password = password;
                      salt = salt;
                      digest = (some_or_ok _ _ env t2 e3).0;
                      long_enough = long;
                      short_enough = short;
                    })
                    h3)
                λ u t4 e4 h4. issue_tokens-Accounts u env t4 h4)

  login-Accounts :
      (email password : String) (env : Env) (s : Session)
      → Accounts s.db
      → Leaves Accounts (login_user lib uc email password env s)
  unfolding login_user
  login-Accounts email password env s h =
      bind-Leaves Accounts _ _ env s
        (or_error-Leaves Accounts invalid_credentials _ env s (get_by_email-Accounts email env s h))
        λ u t1 e1 h1. guard-Leaves Accounts _ _ _ env t1 h1 (issue_tokens-Accounts u env t1 h1)

  refresh-Accounts :
      (raw : String) (env : Env) (s : Session)
      → Accounts s.db
      → Leaves Accounts (refresh_tokens lib uc raw env s)
  unfolding refresh_tokens settle expire rotate
  refresh-Accounts raw env s h =
      bind-Leaves Accounts _ _ env s
        (or_error-Leaves Accounts token_invalid _ env s (get_by_hash-Accounts _ env s h))
        λ rt t1 e1 h1.
          bind-Leaves Accounts _ _ env t1 (read_clock-Leaves Accounts env t1 h1) λ now t2 e2 h2.
            elim (Bool-cases (ltb_ℤ rt.expires_at now)) [
              | inl late ↦ rw late (
                  bind-Leaves Accounts _ _ env t2
                    (dropping-Leaves Accounts _ env t2 (delete_token-Accounts _ env t2 h2))
                    λ x t3 e3 h3. h3)
              | inr good ↦ rw good (
                  bind-Leaves Accounts _ _ env t2
                    (or_error-Leaves Accounts token_invalid _ env t2
                      (get_by_id-Accounts rt.user_id env t2 h2))
                    λ u t3 e3 h3.
                      bind-Leaves Accounts _ _ env t3
                        (dropping-Leaves Accounts _ env t3 (delete_token-Accounts _ env t3 h3))
                        λ x t4 e4 h4. issue_tokens-Accounts u env t4 h4)
            ]

  respond-Accounts :
      (success : TokenPair → Response) (failed : Error → Response)
      (out : Result TokenPair × Session)
      → Leaves Accounts out
      → Accounts (respond success failed out).1.db
  respond-Accounts success failed (ok a, s) h = h
  respond-Accounts success failed (err e, s) h = h

  length_good :
      (password : String) → bad_length password ≡ false → (6 ≤ len password) × (len password ≤ 72)
  length_good password good = (ground (arith, good), ground (arith, good))

  email_given :
      (email password : String) → (same_text email "" || same_text password "") ≡ false → email ≢ ""
  email_given email password given same = absurd (ground (arith, given, (eq_iff email "").1 same))

  serve-Accounts :
      (route : Route) (env : Env) (s : Session)
      → Accounts s.db
      → Accounts (serve lib uc route env s).1.db
  unfolding serve answer_register register_checked answer_login answer_refresh
  serve-Accounts health env s h = h
  serve-Accounts (validate authorization) env s h = h
  serve-Accounts (other method path pattern written text) env s h = h
  serve-Accounts (register none) env s h = h
  serve-Accounts (register (some req)) env s h =
      elim (Bool-cases (same_text req.email "" || same_text req.password "")) [
        | inl missing ↦ rw missing h
        | inr given ↦ elim (Bool-cases (bad_length req.password)) [
          | inl bad ↦ rw (given, bad) h
          | inr good ↦
              let (long, short) = length_good req.password good in
              rw (given, good)
                (respond-Accounts _ _ _ (
                  register-Accounts req.email req.password _ env s
                    (email_given req.email req.password given) long short h))
        ]
      ]
  serve-Accounts (login none) env s h = h
  serve-Accounts (login (some req)) env s h =
      respond-Accounts _ _ _ (login-Accounts req.email req.password env s h)
  serve-Accounts (refresh none) env s h = h
  serve-Accounts (refresh (some req)) env s h =
      respond-Accounts _ _ _ (refresh-Accounts req.refresh_token env s h)

  reached-Accounts : {start d : Db} → Accounts start → Reach lib uc start d → Accounts d
  reached-Accounts h here = h
  reached-Accounts h (next r route env s at after) =
      subst Accounts after
        (serve-Accounts route env s (subst Accounts (sym at) (reached-Accounts h r)))

  -- In every database that a chain of requests to user-service reaches from sound tables, whichever
  -- statements are refused and whichever replies are lost on the way: every user has an email that is
  -- not empty, and the digest of a password of 6 to 72 bytes at the cost of the service; no two users
  -- have one email, no two refresh tokens have one digest, and every refresh token is that of a user
  -- who is there.
  pub Reach-Accounts :
      (start d : Db)
      → IsIntact start
      → Accounts start
      → Reach lib uc start d
      → Accounts d × IsIntact d
  Reach-Accounts start d sound h r = (reached-Accounts h r, Reach-IsIntact lib uc start d sound r)
