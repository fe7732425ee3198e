-- ===== src/UserService/Auth/Tokens.antt =====
-- Refresh tokens are used once.
use mathlib.Core.Path.{subst}
use service_oriented_hw.Common.{
  ℕ, ◌≡◌, ◌≢◌, refl, sym, ap, ◌∙◌, Option, none, some, String, List, [], ◌∷◌, ◌++◌, arith, false,
  Bool-cases, inl, inr,
}
use service_oriented_hw.Common.Int.{ltb_ℤ}
use service_oriented_hw.UserService.{
  Uuid, Time, Error, User, RefreshToken, Db, Env, Session, Result, ok, err, token_invalid,
  not_found, ◌>>=◌, statement, writing, dropping, next_call, read_clock, draw,
}
use service_oriented_hw.UserService.Steps.{after_bind, bind_err, or_error_err, pure_ok}
use service_oriented_hw.UserService.Repository.{
  find_hash, without_hash, delete_token, create_token, get_by_hash, add_token,
}
use service_oriented_hw.UserService.Auth.{
  Lib, AuthUseCase, TokenPair, issue_tokens, rotate, expire, settle, refresh, some_or,
}
use text.Mathlib.Text.{◌==◌ as same_text}
use text.Mathlib.TextEquality.{eq_iff}

find_hash-without_hash :
    (hash : String) (ts : List RefreshToken) → find_hash hash (without_hash hash ts) ≡ none
find_hash-without_hash hash [] = refl
find_hash-without_hash hash (t ∷ ts) = elim (Bool-cases (same_text t.token_hash hash)) [
  | inl same ↦ rw same (find_hash-without_hash hash ts)
  | inr differs ↦ rw (differs, differs) (find_hash-without_hash hash ts)
]

find_hash-append_ne :
    (hash : String) (ts : List RefreshToken) (t : RefreshToken)
    → same_text t.token_hash hash ≡ false
    → find_hash hash ts ≡ none
    → find_hash hash (ts ++ (t ∷ [])) ≡ none
find_hash-append_ne hash [] t ne h = rw ne
find_hash-append_ne hash (x ∷ ts) t ne h = ground (arith, find_hash-append_ne hash ts t ne)

-- A deletion that is not refused removes the hash.
delete_token_removes :
    (hash : String) (env : Env) (s : Session)
    → env.refuses s.calls ≡ false
    → find_hash hash ((dropping (delete_token hash) env s).1.db).refresh_tokens ≡ none
unfolding dropping delete_token writing
delete_token_removes hash env s up = rw up (find_hash-without_hash hash (s.db).refresh_tokens)

added :
    (hash : String) (t : RefreshToken) (db : Db)
    → same_text t.token_hash hash ≡ false
    → find_hash hash db.refresh_tokens ≡ none
    → find_hash hash ((add_token t db).1).refresh_tokens ≡ none
added hash t db ne h = ground (arith, find_hash-append_ne hash db.refresh_tokens t ne h)

get_by_hash_missing :
    (hash : String) (env : Env) (s : Session)
    → env.refuses s.calls ≡ false
    → find_hash hash (s.db).refresh_tokens ≡ none
    → get_by_hash hash env s ≡ (err not_found, next_call s)
unfolding get_by_hash statement
get_by_hash_missing hash env s up gone = ground arith

pub read_clock_same :
    (env : Env) (s : Session) {now : Time} {s' : Session}
    → read_clock env s ≡ (ok now, s')
    → s' ≡ next_call s
unfolding read_clock
read_clock_same env s h = ground arith

pub draw_same :
    (env : Env) (s : Session) {n : ℕ} {s' : Session} → draw env s ≡ (ok n, s') → s' ≡ next_call s
unfolding draw
draw_same env s h = ground arith

pub some_or_ok :
    {A : Type 0} (e : Error) (o : Option A) (env : Env) (s : Session) {a : A} {s' : Session}
    → some_or e o env s ≡ (ok a, s')
    → (o ≡ some a) × (s' ≡ s)
some_or_ok e none env s h = cc
some_or_ok e (some a) env s h = (ground arith, ground arith)

module _ (lib : Lib) (uc : AuthUseCase) where
  create_token_keeps_none :
      (hash : String) (user_id : Uuid) (new : String) (expires : Time) (env : Env) (s : Session)
      → same_text new hash ≡ false
      → find_hash hash (s.db).refresh_tokens ≡ none
      → find_hash hash ((create_token user_id new expires env s).1.db).refresh_tokens ≡ none
  unfolding create_token writing
  create_token_keeps_none hash user_id new expires env s ne h =
      elim (Bool-cases (env.refuses s.calls)) [
        | inl refused ↦ rw refused h
        | inr up ↦ rw up (added hash _ s.db ne h)
      ]

  -- What `issueTokens` gives out, and that it adds no hash but that of its refresh token.
  issue_tokens_keeps_none :
      (hash : String) (user : User) (env : Env) (s : Session) (pair : TokenPair) (s' : Session)
      → same_text (lib.sha256_hex pair.refresh_token) hash ≡ false
      → find_hash hash (s.db).refresh_tokens ≡ none
      → issue_tokens lib uc user env s ≡ (ok pair, s')
      → find_hash hash (s'.db).refresh_tokens ≡ none
  unfolding issue_tokens
  issue_tokens_keeps_none hash user env s pair s' ne gone h = after_bind _ _ env s h λ now t1 e1 h1.
      after_bind _ _ env t1 h1 λ access t2 e2 h2. after_bind _ _ env t2 h2 λ nonce t3 e3 h3.
        after_bind _ _ env t3 h3 λ _ t4 e4 h4.
          let (issued, stay) = pure_ok _ t4 h4 in
          let same : t3.db ≡ s.db =
            ap (λ (x : Session). x.db) (draw_same env t2 e3)
            ∙ ap (λ (x : Session). x.db) ((some_or_ok _ _ env t1 e2).1)
            ∙ ap (λ (x : Session). x.db) (read_clock_same env s e1) in
          let raw = lib.refresh_text user.id now nonce in
          let fresh : same_text (lib.sha256_hex raw) hash ≡ false =
            subst (λ (x : TokenPair). same_text (lib.sha256_hex x.refresh_token) hash ≡ false)
              issued ne in
          let gone' = subst (λ (d : Db). find_hash hash d.refresh_tokens ≡ none) (sym same) gone in
          subst (λ (d : Db). find_hash hash d.refresh_tokens ≡ none)
            (ap (λ (x : Result (Unit {0}) × Session). x.1.db) e4
              ∙ ap (λ (x : Session). x.db) (sym stay))
            (create_token_keeps_none hash user.id (lib.sha256_hex raw) _ env t3 fresh gone')

  unknown_token :
      (raw : String) (env : Env) (s : Session)
      → env.refuses s.calls ≡ false
      → find_hash (lib.sha256_hex raw) (s.db).refresh_tokens ≡ none
      → (refresh lib uc raw env s).0 ≡ err token_invalid
  unfolding refresh
  unknown_token raw env s up gone =
      ap (λ (out : Result TokenPair × Session). out.0)
        (bind_err _ _ env s (
          or_error_err token_invalid _ env s
            (get_by_hash_missing (lib.sha256_hex raw) env s up gone)))

  rotate_removes :
      (hash : String) (rt : RefreshToken) (env : Env) (s : Session) (pair : TokenPair)
      (s' : Session)
      → ((n : ℕ) → env.refuses n ≡ false)
      → same_text (lib.sha256_hex pair.refresh_token) hash ≡ false
      → rotate lib uc hash rt env s ≡ (ok pair, s')
      → find_hash hash (s'.db).refresh_tokens ≡ none
  unfolding rotate
  rotate_removes hash rt env s pair s' up ne h = after_bind _ _ env s h λ user t1 e1 h1.
      after_bind _ _ env t1 h1 λ _ t2 e2 h2.
        issue_tokens_keeps_none hash user env t2 pair s' ne
          (subst (λ (d : Db). find_hash hash d.refresh_tokens ≡ none)
            (ap (λ (x : Result (Unit {0}) × Session). x.1.db) e2)
            (delete_token_removes hash env t1 (up t1.calls)))
          h2

  expire-ne-ok :
      (hash : String) (env : Env) (s : Session) (pair : TokenPair) (s' : Session)
      → ¬ (expire lib uc hash env s ≡ (ok pair, s'))
  unfolding expire dropping ◌>>=◌
  expire-ne-ok hash env s pair s' h = cc h

  refresh_removes :
      (raw : String) (env : Env) (s : Session) (pair : TokenPair) (s' : Session)
      → ((n : ℕ) → env.refuses n ≡ false)
      → same_text (lib.sha256_hex pair.refresh_token) (lib.sha256_hex raw) ≡ false
      → refresh lib uc raw env s ≡ (ok pair, s')
      → find_hash (lib.sha256_hex raw) (s'.db).refresh_tokens ≡ none
  unfolding refresh settle
  refresh_removes raw env s pair s' up ne h = after_bind _ _ env s h λ rt t1 e1 h1.
      after_bind _ _ env t1 h1 λ now t2 e2 h2. elim (Bool-cases (ltb_ℤ rt.expires_at now)) [
        | inl late ↦ absurd (expire-ne-ok (lib.sha256_hex raw) env t2 pair s' (rw late at h2))
        | inr good ↦ rotate_removes (lib.sha256_hex raw) rt env t2 pair s' up ne (rw good at h2)
      ]

  -- A refresh token is good for one refresh: after a successful refresh in which no statement is
  -- refused, and whose new token has another digest, a second refresh with the old token ends with
  -- `ErrTokenInvalid`.
  pub refresh_once :
      (raw : String) (env : Env) (s s' : Session) (pair : TokenPair)
      → ((n : ℕ) → env.refuses n ≡ false)
      → lib.sha256_hex pair.refresh_token ≢ lib.sha256_hex raw
      → refresh lib uc raw env s ≡ (ok pair, s')
      → (refresh lib uc raw env s').0 ≡ err token_invalid
  refresh_once raw env s s' pair up ne h = unknown_token raw env s' (up s'.calls) (
      refresh_removes raw env s pair s' up
        (ground (arith, eq_iff (lib.sha256_hex pair.refresh_token) (lib.sha256_hex raw))) h)
