-- ===== src/Marketplace/Session/Steps.antt =====
-- What a step that ended without an error has done: one lemma for each primitive of the monad.
use service_oriented_hw.Common.{
  ◌≡◌, refl, ap, Bool-cases, inl, inr, Bool, true, false, Option, none, some, arith,
}
use service_oriented_hw.Marketplace.Domain.{Uuid, Time, Error}
use service_oriented_hw.Marketplace.Session.{
  Db, Env, Session, Result, ok, err, M, ◌>>=◌, ◌>>◌, pure, fail_if, found, query, exec, returning,
  insert, read_clock,
}

module _ {V : Type 0} where
  -- A chain that ended without an error went through its first step without one. The rest of a
  -- proof is a function of what the step gave.
  pub after_bind :
      {A B C : Type 0} (m : M V A) (k : A → M V B) (env : Env) (s : Session V) {b : B}
      {s' : Session V}
      → (m >>= k) env s ≡ (ok b, s')
      → ((a : A) (t : Session V) → m env s ≡ (ok a, t) → k a env t ≡ (ok b, s') → C)
      → C
  unfolding ◌>>=◌
  after_bind {A} {C} m k env s {b} {s'} h rest = go (m env s) refl h
    where
      go :
          (out : Result A × Session V)
          → m env s ≡ out
          → ◌≡◌ (let (r, t) = out in elim r [ ok a ↦ k a env t | err e ↦ (err e, t) ]) (ok b, s')
          → C
      go (ok a, t) e h = rest a t e h
      go (err x, t) e h = cc

  -- A chain whose first step gives a result goes on with it.
  pub bind_ok :
      {A B : Type 0} (m : M V A) (k : A → M V B) (env : Env) (s : Session V) {a : A} {t : Session V}
      → m env s ≡ (ok a, t)
      → (m >>= k) env s ≡ k a env t
  unfolding ◌>>=◌
  bind_ok {A} {B} m k env s h =
      ap
        (λ (out : Result A × Session V).
          let (r, u) = out in
          let result : Result B × Session V = elim r [ ok a ↦ k a env u | err x ↦ (err x, u) ] in
          result)
        h

  -- A guard on what a step gave.
  pub bind_refused :
      {B : Type 0} (m : M V Bool) (e : Error) (k : Bool → M V B) (env : Env) (s : Session V)
      {t : Session V}
      → m env s ≡ (ok true, t)
      → (m >>= λ b. fail_if b e >> k b) env s ≡ (err e, t)
  unfolding ◌>>=◌
  bind_refused m e k env s h = bind_ok m (λ b. fail_if b e >> k b) env s h

  pub bind_passed :
      {B : Type 0} (m : M V Bool) (e : Error) (k : Bool → M V B) (env : Env) (s : Session V)
      {t : Session V}
      → m env s ≡ (ok false, t)
      → (m >>= λ b. fail_if b e >> k b) env s ≡ k false env t
  unfolding ◌>>=◌
  bind_passed m e k env s h = bind_ok m (λ b. fail_if b e >> k b) env s h

  -- A guard that let the run through changes nothing.
  pub after_guard :
      {B C : Type 0} (c : Bool) (e : Error) (k : M V B) (env : Env) (s : Session V) {b : B}
      {s' : Session V}
      → (fail_if c e >> k) env s ≡ (ok b, s')
      → (c ≡ false → k env s ≡ (ok b, s') → C)
      → C
  unfolding ◌>>=◌
  after_guard true e k env s h rest = cc
  after_guard false e k env s h rest = rest refl h

  pub pure_ok :
      {A : Type 0} (a : A) (env : Env) (s : Session V) {b : A} {s' : Session V}
      → pure a env s ≡ (ok b, s')
      → (b ≡ a) × (s' ≡ s)
  pure_ok a env s h = (cc, cc)

  pub query_ok :
      {A : Type 0} (read : Db V → A) (env : Env) (s : Session V) {a : A} {s' : Session V}
      → query read env s ≡ (ok a, s')
      → (a ≡ read s.db) × (s'.db ≡ s.db)
  unfolding query
  query_ok read env s h = ground arith

  pub exec_ok :
      (write : Time → Db V → Db V) (env : Env) (s : Session V) {u : Unit {0}} {s' : Session V}
      → exec write env s ≡ (ok u, s')
      → s'.db ≡ write env.tx_time s.db
  unfolding exec
  exec_ok write env s h = ground arith

  pub returning_ok :
      (has_row : Db V → Bool) (write : Time → Db V → Db V) (env : Env) (s : Session V) {now : Time}
      {s' : Session V}
      → returning has_row write env s ≡ (ok now, s')
      → (has_row s.db ≡ true) × (now ≡ env.tx_time) × (s'.db ≡ write env.tx_time s.db)
  unfolding returning
  returning_ok has_row write env s h = ground arith

  pub insert_ok :
      {A : Type 0} (taken : Uuid → Db V → Bool) (new : Uuid → Time → A) (write : A → Db V → Db V)
      (env : Env) (s : Session V) {a : A} {s' : Session V}
      → insert taken new write env s ≡ (ok a, s')
      → (id : Uuid) × (taken id s.db ≡ false) × (a ≡ new id env.tx_time) × (s'.db ≡ write a s.db)
  unfolding insert
  insert_ok taken new write env s h =
      (env.new_uuid s.calls, ground arith, ground arith, ground arith)

  pub read_clock_ok :
      (env : Env) (s : Session V) {t : Time} {s' : Session V}
      → read_clock env s ≡ (ok t, s')
      → s'.db ≡ s.db
  unfolding read_clock
  read_clock_ok env s h = ground arith

  pub found_ok :
      {A : Type 0} (row : Option A) (env : Env) (s : Session V) {a : A} {s' : Session V}
      → found row env s ≡ (ok a, s')
      → (row ≡ some a) × (s' ≡ s)
  found_ok none env s h = cc
  found_ok (some a) env s h = (ground arith, ground arith)

  -- What holds of the database behind a step, and behind whatever follows a result of it, holds
  -- behind the chain.
  pub bind_keeps :
      {A B : Type 0} (P : Db V → Type 0) (m : M V A) (k : A → M V B) (env : Env) (s : Session V)
      → P (m env s).1.db
      → ((a : A) (t : Session V) → m env s ≡ (ok a, t) → P (k a env t).1.db)
      → P ((m >>= k) env s).1.db
  unfolding ◌>>=◌
  bind_keeps {A} {B} P m k env s before after = go (m env s) refl before
    where
      go :
          (out : Result A × Session V)
          → m env s ≡ out
          → P out.1.db
          → P
              (let (r, t) = out in
                let result : Result B × Session V = elim r [
                  | ok a ↦ k a env t
                  | err e ↦ (err e, t)
                ] in
                result).1.db
      go (ok a, t) e h = after a t e
      go (err x, t) e h = h

  pub guard_keeps :
      {B : Type 0} (P : Db V → Type 0) (c : Bool) (e : Error) (k : M V B) (env : Env)
      (s : Session V)
      → P s.db
      → P (k env s).1.db
      → P ((fail_if c e >> k) env s).1.db
  unfolding ◌>>=◌
  guard_keeps P true e k env s before after = before
  guard_keeps P false e k env s before after = after

  -- An insert writes nothing, or its row under an id that is free.
  pub insert_keeps :
      {A : Type 0} (P : Db V → Type 0) (taken : Uuid → Db V → Bool) (new : Uuid → Time → A)
      (write : A → Db V → Db V) (env : Env) (s : Session V)
      → P s.db
      → ((id : Uuid) → taken id s.db ≡ false → P (write (new id env.tx_time) s.db))
      → P (insert taken new write env s).1.db
  unfolding insert
  insert_keeps P taken new write env s before after = elim (Bool-cases (env.refuses s.calls)) [
    | inl refused ↦ rw refused before
    | inr up ↦ elim (Bool-cases (taken (env.new_uuid s.calls) s.db)) [
      | inl old ↦ rw (up, old) before
      | inr free ↦ rw (up, free) (after (env.new_uuid s.calls) free)
    ]
  ]
