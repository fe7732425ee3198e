-- ===== src/UserService/Repository.antt =====
-- services/user-service/internal/repository/user.go: the SQL statements on users and refresh tokens.
use service_oriented_hw.Common.{
  not, Option, none, some, List, [], ◌∷◌, ◌++◌, String, if◌then◌else◌, keep_if,
}
use service_oriented_hw.Common.Table.{find_by}
use service_oriented_hw.UserService.{
  Uuid, Time, not_found, internal, Role, User, RefreshToken, Db, M, Result, ok, err, statement,
  writing,
}
use text.Mathlib.Text.{◌==◌ as same_text}

abbrev pub user_key : User → Uuid
user_key u = u.id

-- `SELECT ... WHERE email = $1`
abbrev pub find_email : String → List User → Option User
find_email email [] = none
find_email email (u ∷ us) = if same_text u.email email then some u else find_email email us

-- `SELECT ... WHERE token_hash = $1`
abbrev pub find_hash : String → List RefreshToken → Option RefreshToken
find_hash hash [] = none
find_hash hash (t ∷ ts) = if same_text t.token_hash hash then some t else find_hash hash ts

abbrev pub or_not_found : {A : Type 0} → Option A → Result A
or_not_found none = err not_found
or_not_found (some a) = ok a

-- The column `email` is UNIQUE: a row with the same email refuses the INSERT.
abbrev pub add_user : User → Db → Result User × Db
add_user u db = elim (find_email u.email db.users) [
  | none ↦ (ok u, record db { users = db.users ++ (u ∷ []) })
  | some _ ↦ (err internal, db)
]

unfoldable pub create_user : String → String → Role → M User
create_user email password_hash role = writing (λ id now db.
    add_user
      (record {
        id = id;
        email = email;
        password_hash = password_hash;
        role = role;
        created_at = now;
        updated_at = now;
      })
      db)

unfoldable pub get_by_email : String → M User
get_by_email email = statement (λ _ _ db. (or_not_found (find_email email db.users), db))

unfoldable pub get_by_id : Uuid → M User
get_by_id id = statement (λ _ _ db. (or_not_found (find_by user_key id db.users), db))

-- The column `token_hash` is UNIQUE.
abbrev pub add_token : RefreshToken → Db → Result (Unit {0}) × Db
add_token t db = elim (find_hash t.token_hash db.refresh_tokens) [
  | none ↦ (ok tt, record db { refresh_tokens = db.refresh_tokens ++ (t ∷ []) })
  | some _ ↦ (err internal, db)
]

unfoldable pub create_token : Uuid → String → Time → M (Unit {0})
create_token user_id token_hash expires_at = writing (λ id now db.
    add_token
      (record {
        id = id;
        user_id = user_id;
        token_hash = token_hash;
        expires_at = expires_at;
        created_at = now;
      })
      db)

unfoldable pub get_by_hash : String → M RefreshToken
get_by_hash token_hash =
    statement (λ _ _ db. (or_not_found (find_hash token_hash db.refresh_tokens), db))

abbrev pub without_hash : String → List RefreshToken → List RefreshToken
without_hash hash ts = keep_if (λ t. not (same_text t.token_hash hash)) ts

unfoldable pub delete_token : String → M (Unit {0})
delete_token token_hash =
    writing
      (λ _ _ db. (ok tt, record db { refresh_tokens = without_hash token_hash db.refresh_tokens }))
