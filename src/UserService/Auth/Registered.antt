-- ===== src/UserService/Auth/Registered.antt =====
-- Who has registered can log in.
use service_oriented_hw.Common.{
  ◌≡◌, refl, ap, sym, ◌∙◌, true, false, none, some, List, [], ◌∷◌, ◌++◌, String, arith, ℕ, inl, inr,
  Option-cases, Bool-cases,
}
use service_oriented_hw.UserService.{
  Uuid, Time, Role, User, Db, Env, Session, Result, ok, invalid_credentials, writing, next_call,
}
use service_oriented_hw.UserService.Repository.{find_email, add_user, create_user, create_token}
use service_oriented_hw.UserService.Auth.{
  Lib, AuthUseCase, TokenPair, issue_tokens, register, login,
}
use service_oriented_hw.UserService.Auth.Tokens.{read_clock_same, draw_same, some_or_ok}
use service_oriented_hw.UserService.Auth.Refusals.{get_by_email_found}
use service_oriented_hw.UserService.Steps.{after_bind, pure_ok, bind_ok, or_error_ok}
use text.Mathlib.Text.{◌==◌ as same_text}
use text.Mathlib.TextEquality.{eq_iff}

find_email-append :
    (email : String) (us : List User) (u : User)
    → find_email email us ≡ none
    → same_text u.email email ≡ true
    → find_email email (us ++ u ∷ []) ≡ some u
find_email-append email [] u h same = rw same
find_email-append email (x ∷ us) u h same = ground (arith, find_email-append email us u)

create_token_same_users :
    (user_id : Uuid) (hash : String) (expires : Time) (env : Env) (s : Session)
    → ((create_token user_id hash expires env s).1.db).users ≡ (s.db).users
unfolding create_token writing
create_token_same_users user_id hash expires env s = ground arith

-- The row that `Create` of the repository returns is found by its email.
pub record Registered (email hash : String) (role : Role) (d : Db) (u : User) : Type 0 where
  pub is_found : find_email email d.users ≡ some u
  pub has_hash : u.password_hash ≡ hash
  pub has_role : u.role ≡ role

add_user-Registered :
    (u : User) (d : Db) (u' : User) (d' : Db)
    → add_user u d ≡ (ok u', d')
    → Registered u.email u.password_hash u.role d' u'
add_user-Registered u d u' d' h = elim (Option-cases (find_email u.email d.users)) [
  | inl free ↦
      let is : ◌≡◌ {A = Result User × Db} (ok u, record d { users = d.users ++ u ∷ [] })
          (ok u', d') =
        rw (free, add_user) at h in
      let same_user : u ≡ u' = ground arith in
      let grown : d' ≡ record d { users = d.users ++ u ∷ [] } = ground arith in
      rw (sym same_user, grown)
        (record {
          is_found = find_email-append u.email d.users u free ((eq_iff u.email u.email).1 refl);
          has_hash = refl;
          has_role = refl;
        })
  | inr (other, taken) ↦ absurd (cc (rw (taken, add_user) at h))
]

pub create_user-Registered :
    (email hash : String) (role : Role) (env : Env) (s : Session) (u : User) (s' : Session)
    → create_user email hash role env s ≡ (ok u, s')
    → Registered email hash role s'.db u
unfolding create_user writing
create_user-Registered email hash role env s u s' h = elim (Bool-cases (env.refuses s.calls)) [
  | inl refused ↦ absurd (cc (rw refused at h))
  | inr up ↦
      let row : User = record {
        id = env.random s.calls;
        email = email;
        password_hash = hash;
        role = role;
        created_at = env.db_time s.calls;
        updated_at = env.db_time s.calls;
      } in
      add_user-Registered row s.db u s'.db (ground arith)
]

module _ (lib : Lib) (uc : AuthUseCase) where
  issue_tokens_same_users :
      (user : User) (env : Env) (s : Session) (pair : TokenPair) (s' : Session)
      → issue_tokens lib uc user env s ≡ (ok pair, s')
      → (s'.db).users ≡ (s.db).users
  unfolding issue_tokens
  issue_tokens_same_users user env s pair s' h = after_bind _ _ env s h λ now t1 e1 h1.
      after_bind _ _ env t1 h1 λ access t2 e2 h2. after_bind _ _ env t2 h2 λ nonce t3 e3 h3.
        after_bind _ _ env t3 h3 λ _ t4 e4 h4.
          let (_, stay) = pure_ok _ t4 h4 in
          let users : Session → List User = λ x. (x.db).users in
          ap users stay
          ∙ ap (λ (out : Result (Unit {0}) × Session). (out.1.db).users) (sym e4)
          ∙ create_token_same_users _ _ _ env t3
          ∙ ap users (draw_same env t2 e3)
          ∙ ap users ((some_or_ok _ _ env t1 e2).1)
          ∙ ap users (read_clock_same env s e1)

  -- The registration of a user who has registered: the user of the pair of tokens.
  register-Registered :
      (email password : String) (role : Role) (env : Env) (s : Session) (pair : TokenPair)
      (s' : Session)
      → register lib uc email password role env s ≡ (ok pair, s')
      → (u : User) × (salt : ℕ) × (hash : String) × (lib.hash_password uc.bcrypt_cost salt password
          ≡ some hash)
        × Registered email hash role s'.db u
  unfolding register
  register-Registered email password role env s pair s' h = after_bind _ _ env s h λ _ t1 e1 h1.
      after_bind _ _ env t1 h1 λ _ t2 e2 h2. after_bind _ _ env t2 h2 λ salt t3 e3 h3.
        after_bind _ _ env t3 h3 λ hash t4 e4 h4. after_bind _ _ env t4 h4 λ u t5 e5 h5.
          let row = create_user-Registered email hash role env t4 u t5 e5 in
          let same = issue_tokens_same_users u env t5 pair s' h5 in
          (
            u,
            salt,
            hash,
            (some_or_ok _ _ env t3 e4).0,
            record {
              is_found = ap (λ us. find_email email us) same ∙ row.is_found;
              has_hash = row.has_hash;
              has_role = row.has_role;
            },
          )

  login_right :
      (email password : String) (u : User) (env : Env) (s : Session)
      → find_email email (s.db).users ≡ some u
      → lib.same_password u.password_hash password ≡ true
      → env.refuses s.calls ≡ false
      → login lib uc email password env s ≡ issue_tokens lib uc u env (next_call s)
  unfolding login
  login_right email password u env s row right up =
      bind_ok _ _ env s
        (or_error_ok invalid_credentials _ env s (get_by_email_found email env s up ∙ rw row))
      ∙ bind_ok _ _ env (next_call s) (rw right)

  -- Who has registered can log in with the same email and password: after a successful `Register`,
  -- `Login` gets past the check of the password and issues tokens for a user that has the role of
  -- the registration, if the statement that reads the user is not refused and bcrypt takes a
  -- password for the hash that it made of it.
  pub register-login :
      (email password : String) (role : Role) (env env' : Env) (s s' : Session) (pair : TokenPair)
      → ((salt : ℕ) (hash : String)
          → lib.hash_password uc.bcrypt_cost salt password ≡ some hash
          → lib.same_password hash password ≡ true)
      → env'.refuses s'.calls ≡ false
      → register lib uc email password role env s ≡ (ok pair, s')
      → (u : User) × (u.role ≡ role)
        × (login lib uc email password env' s' ≡ issue_tokens lib uc u env' (next_call s'))
  register-login email password role env env' s s' pair takes up h =
      let (u, salt, hash, made, row) = register-Registered email password role env s pair s' h in
      (
        u,
        row.has_role,
        login_right email password u env' s' row.is_found (rw row.has_hash (takes salt hash made))
            up,
      )
