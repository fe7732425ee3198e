-- ===== src/UserService/Router/Intact.antt =====
-- What the statements of user-service leave sound.
use mathlib.Core.Path.{subst}
use service_oriented_hw.Common.{◌≡◌, sym, true, some, String, arith}
use service_oriented_hw.Common.Table.{has_key, find_by}
use service_oriented_hw.UserService.{
  Uuid, Time, Error, User, Db, Env, Session, Result, ok, err, M, statement, writing, or_error,
}
use service_oriented_hw.UserService.Repository.{
  user_key, find_email, get_by_email, get_by_id, create_token, get_by_hash, delete_token,
}
use service_oriented_hw.UserService.Auth.{email_free}
use service_oriented_hw.UserService.Router.Steps.{Leaves, statement-Leaves, writing-Leaves}
use service_oriented_hw.UserService.Router.Sound.{IsIntact, add_token-IsIntact, add_token_users}

-- The tables are sound, and the user has a row.
abbrev pub Holds : Uuid → Db → Type 0
Holds id d = IsIntact d × (has_key user_key id d.users ≡ true)

pub create_token-Holds :
    (id : Uuid) (hash : String) (expires : Time) (env : Env) (s : Session)
    → Holds id s.db
    → Leaves (Holds id) (create_token id hash expires env s)
unfolding create_token
create_token-Holds id hash expires env s (sound, there) =
    writing-Leaves (Holds id) _ env s (sound, there)
      λ row now. (
        add_token-IsIntact _ s.db there sound,
        subst (λ us. has_key user_key id us ≡ true) (sym (add_token_users _ s.db)) there,
      )

pub or_error_ok_of :
    {A : Type 0} (e : Error) (m : M A) (env : Env) (s : Session) (a : A) (t : Session)
    → or_error e m env s ≡ (ok a, t)
    → m env s ≡ (ok a, t)
unfolding or_error
or_error_ok_of {A} e m env s a t h = go (m env s) h
  where
    go :
        (out : Result A × Session)
        → (let (r, u) = out in
            let result : Result A × Session = elim r [ ok b ↦ (ok b, u) | err x ↦ (err e, u) ] in
            result)
          ≡ (ok a, t)
        → out ≡ (ok a, t)
    go (ok b, u) h = h
    go (err x, u) h = cc

pub get_by_email_ok :
    (email : String) (env : Env) (s : Session) (u : User) (t : Session)
    → get_by_email email env s ≡ (ok u, t)
    → find_email email (t.db).users ≡ some u
unfolding get_by_email statement
get_by_email_ok email env s u t h = ground arith

pub delete_token_users :
    (hash : String) (env : Env) (s : Session)
    → ((delete_token hash env s).1.db).users ≡ (s.db).users
unfolding delete_token writing
delete_token_users hash env s = ground arith

pub get_by_id_ok :
    (id : Uuid) (env : Env) (s : Session) (u : User) (t : Session)
    → get_by_id id env s ≡ (ok u, t)
    → find_by user_key id (t.db).users ≡ some u
unfolding get_by_id statement
get_by_id_ok id env s u t h = ground arith

pub get_by_email-IsIntact :
    (email : String) (env : Env) (s : Session)
    → IsIntact s.db
    → Leaves IsIntact (get_by_email email env s)
unfolding get_by_email
get_by_email-IsIntact email env s sound = statement-Leaves IsIntact _ env s sound λ id now. sound

pub get_by_id-IsIntact :
    (id : Uuid) (env : Env) (s : Session) → IsIntact s.db → Leaves IsIntact (get_by_id id env s)
unfolding get_by_id
get_by_id-IsIntact id env s sound = statement-Leaves IsIntact _ env s sound λ row now. sound

pub get_by_hash-IsIntact :
    (hash : String) (env : Env) (s : Session)
    → IsIntact s.db
    → Leaves IsIntact (get_by_hash hash env s)
unfolding get_by_hash
get_by_hash-IsIntact hash env s sound = statement-Leaves IsIntact _ env s sound λ row now. sound

-- `email_free` reads only.
pub email_free-IsIntact :
    (email : String) (env : Env) (s : Session)
    → IsIntact s.db
    → Leaves IsIntact (email_free email env s)
unfolding email_free
email_free-IsIntact email env s sound =
    go (get_by_email email env s) (get_by_email-IsIntact email env s sound)
  where
    go :
        (out : Result User × Session)
        → IsIntact out.1.db
        → IsIntact
            (let (r, t) = out in
              let result : Result (Unit {0}) × Session = elim r [
                | ok _ ↦ (err Error.email_taken, t)
                | err _ ↦ (ok tt, t)
              ] in
              result).1.db
    go (ok u, t) h = h
    go (err e, t) h = h
