-- ===== src/UserService/Router/Steps.antt =====
-- What holds of the database behind a step, however the step ends: one lemma for each primitive of
-- the monad.
use service_oriented_hw.Common.{
  ◌≡◌, refl, Bool, true, false, Bool-cases, inl, inr, Option, none, some,
}
use service_oriented_hw.UserService.{
  Uuid, Time, Error, Db, Env, Session, Result, ok, err, M, ◌>>=◌, ◌>>◌, fail_if, statement, writing,
  dropping, or_error, read_clock, draw,
}
use service_oriented_hw.UserService.Auth.{some_or}

-- A predicate on databases, at what a step leaves.
abbrev pub Leaves : {A : Type 0} → (Db → Type 0) → Result A × Session → Type 0
Leaves P out = P out.1.db

pub bind-Leaves :
    {A B : Type 0} (P : Db → Type 0) (m : M A) (k : A → M B) (env : Env) (s : Session)
    → Leaves P (m env s)
    → ((a : A) (t : Session) → m env s ≡ (ok a, t) → P t.db → Leaves P (k a env t))
    → Leaves P ((m >>= k) env s)
unfolding ◌>>=◌
bind-Leaves {A} {B} P m k env s before after = go (m env s) refl before
  where
    go :
        (out : Result A × Session)
        → m env s ≡ out
        → P out.1.db
        → P
            (let (r, t) = out in
              let result : Result B × Session = elim r [ ok a ↦ k a env t | err e ↦ (err e, t) ] in
              result).1.db
    go (ok a, t) e h = after a t e h
    go (err x, t) e h = h

pub guard-Leaves :
    {B : Type 0} (P : Db → Type 0) (c : Bool) (e : Error) (k : M B) (env : Env) (s : Session)
    → P s.db
    → Leaves P (k env s)
    → Leaves P ((fail_if c e >> k) env s)
unfolding ◌>>=◌
guard-Leaves P true e k env s before after = before
guard-Leaves P false e k env s before after = after

pub statement-Leaves :
    {A : Type 0} (P : Db → Type 0) (run : Uuid → Time → Db → Result A × Db) (env : Env)
    (s : Session)
    → P s.db
    → ((id : Uuid) (now : Time) → P (run id now s.db).1)
    → Leaves P (statement run env s)
unfolding statement
statement-Leaves P run env s before after = elim (Bool-cases (env.refuses s.calls)) [
  | inl refused ↦ rw refused before
  | inr up ↦ rw up (after (env.random s.calls) (env.db_time s.calls))
]

pub writing-Leaves :
    {A : Type 0} (P : Db → Type 0) (run : Uuid → Time → Db → Result A × Db) (env : Env)
    (s : Session)
    → P s.db
    → ((id : Uuid) (now : Time) → P (run id now s.db).1)
    → Leaves P (writing run env s)
unfolding writing
writing-Leaves P run env s before after = elim (Bool-cases (env.refuses s.calls)) [
  | inl refused ↦ rw refused before
  | inr up ↦ rw up (after (env.random s.calls) (env.db_time s.calls))
]

pub or_error-Leaves :
    {A : Type 0} (P : Db → Type 0) (e : Error) (m : M A) (env : Env) (s : Session)
    → Leaves P (m env s)
    → Leaves P (or_error e m env s)
unfolding or_error
or_error-Leaves {A} P e m env s h = go (m env s) h
  where
    go :
        (out : Result A × Session)
        → P out.1.db
        → P
            (let (r, t) = out in
              let result : Result A × Session = elim r [ ok a ↦ (ok a, t) | err x ↦ (err e, t) ] in
              result).1.db
    go (ok a, t) h = h
    go (err x, t) h = h

pub dropping-Leaves :
    (P : Db → Type 0) (m : M (Unit {0})) (env : Env) (s : Session)
    → Leaves P (m env s)
    → Leaves P (dropping m env s)
unfolding dropping
dropping-Leaves P m env s h = h

pub some_or-Leaves :
    {A : Type 0} (P : Db → Type 0) (e : Error) (o : Option A) (env : Env) (s : Session)
    → P s.db
    → Leaves P (some_or e o env s)
some_or-Leaves P e none env s h = h
some_or-Leaves P e (some a) env s h = h

pub read_clock-Leaves :
    (P : Db → Type 0) (env : Env) (s : Session) → P s.db → Leaves P (read_clock env s)
unfolding read_clock
read_clock-Leaves P env s h = h

pub draw-Leaves : (P : Db → Type 0) (env : Env) (s : Session) → P s.db → Leaves P (draw env s)
unfolding draw
draw-Leaves P env s h = h
