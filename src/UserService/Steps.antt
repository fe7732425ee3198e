-- ===== src/UserService/Steps.antt =====
-- What a step that ended without an error has done: one lemma for each primitive of the monad.
use service_oriented_hw.Common.{◌≡◌, refl, ap}
use service_oriented_hw.UserService.{Error, Env, Session, Result, ok, err, M, ◌>>=◌, or_error}

-- A chain that ended without an error went through its first step without one.
pub after_bind :
    {A B C : Type 0} (m : M A) (k : A → M B) (env : Env) (s : Session) {b : B} {s' : Session}
    → (m >>= k) env s ≡ (ok b, s')
    → ((a : A) (t : Session) → m env s ≡ (ok a, t) → k a env t ≡ (ok b, s') → C)
    → C
unfolding ◌>>=◌
after_bind {A} {C} m k env s {b} {s'} h rest = go (m env s) refl h
  where
    go :
        (out : Result A × Session)
        → m env s ≡ out
        → ◌≡◌ (let (r, t) = out in elim r [ ok a ↦ k a env t | err e ↦ (err e, t) ]) (ok b, s')
        → C
    go (ok a, t) e h = rest a t e h
    go (err x, t) e h = cc

-- A chain whose first step fails ends there.
pub bind_err :
    {A B : Type 0} (m : M A) (k : A → M B) (env : Env) (s : Session) {e : Error} {t : Session}
    → m env s ≡ (err e, t)
    → (m >>= k) env s ≡ (err e, t)
unfolding ◌>>=◌
bind_err {A} {B} m k env s h =
    ap
      (λ (out : Result A × Session).
        let (r, u) = out in
        let result : Result B × Session = elim r [ ok a ↦ k a env u | err x ↦ (err x, u) ] in
        result)
      h

pub or_error_err :
    {A : Type 0} (e : Error) (m : M A) (env : Env) (s : Session) {x : Error} {t : Session}
    → m env s ≡ (err x, t)
    → or_error e m env s ≡ (err e, t)
unfolding or_error
or_error_err {A} e m env s h =
    ap
      (λ (out : Result A × Session).
        let (r, u) = out in
        let result : Result A × Session = elim r [ ok a ↦ (ok a, u) | err _ ↦ (err e, u) ] in
        result)
      h

pub or_error_ok :
    {A : Type 0} (e : Error) (m : M A) (env : Env) (s : Session) {a : A} {t : Session}
    → m env s ≡ (ok a, t)
    → or_error e m env s ≡ (ok a, t)
unfolding or_error
or_error_ok {A} e m env s h =
    ap
      (λ (out : Result A × Session).
        let (r, u) = out in
        let result : Result A × Session = elim r [ ok a ↦ (ok a, u) | err _ ↦ (err e, u) ] in
        result)
      h

-- A chain whose first step gives a result goes on with it.
pub bind_ok :
    {A B : Type 0} (m : M A) (k : A → M B) (env : Env) (s : Session) {a : A} {t : Session}
    → m env s ≡ (ok a, t)
    → (m >>= k) env s ≡ k a env t
unfolding ◌>>=◌
bind_ok {A} {B} m k env s h =
    ap
      (λ (out : Result A × Session).
        let (r, u) = out in
        let result : Result B × Session = elim r [ ok a ↦ k a env u | err x ↦ (err x, u) ] in
        result)
      h

pub pure_ok :
    {A : Type 0} (a : A) (s : Session) {b : A} {s' : Session}
    → ◌≡◌ {A = Result A × Session} (ok a, s) (ok b, s')
    → (b ≡ a) × (s' ≡ s)
pure_ok a s h = (cc, cc)
