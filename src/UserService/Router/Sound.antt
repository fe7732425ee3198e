-- ===== src/UserService/Router/Sound.antt =====
-- What holds of every database of user-service that a chain of requests reaches.
use service_oriented_hw.Common.{
  ◌≡◌, true, Bool-cases, inl, inr, none, some, Option-cases, List, [], ◌∷◌, ◌++◌, String, All,
  All-append, All-map, All-keep_if, arith, not,
}
use service_oriented_hw.Common.Table.{has_key, has_key-append}
use service_oriented_hw.Common.Unique.{IsNew, Unique, append-Unique, keep_if-Unique}
use service_oriented_hw.UserService.{Role, User, RefreshToken, Db, Env, Session}
use service_oriented_hw.UserService.Repository.{
  user_key, find_email, find_hash, add_user, add_token, create_user, delete_token,
}
use service_oriented_hw.UserService.Router.Steps.{Leaves, writing-Leaves}
use text.Mathlib.Text.{◌==◌ as same_text}

abbrev pub email_of : User → String
email_of u = u.email

abbrev pub hash_of : RefreshToken → String
hash_of t = t.token_hash

-- The user of the token has a row.
abbrev pub HasOwner : List User → RefreshToken → Type 0
HasOwner users t = has_key user_key t.user_id users ≡ true

pub record IsIntact (d : Db) : Type 0 where
  -- No two users have one email, and no two refresh tokens one digest.
  pub emails : Unique email_of d.users
  pub hashes : Unique hash_of d.refresh_tokens
  -- Every refresh token is a user's.
  pub owners : All (HasOwner d.users) d.refresh_tokens

find_email-IsNew :
    (email : String) (us : List User) → find_email email us ≡ none → IsNew email_of email us
find_email-IsNew email [] h = tt
find_email-IsNew email (u ∷ us) h = elim (Bool-cases (same_text u.email email)) [
  | inl same ↦ absurd (cc (rw same at h))
  | inr other ↦ (other, find_email-IsNew email us (rw other at h))
]

find_hash-IsNew :
    (hash : String) (ts : List RefreshToken) → find_hash hash ts ≡ none → IsNew hash_of hash ts
find_hash-IsNew hash [] h = tt
find_hash-IsNew hash (t ∷ ts) h = elim (Bool-cases (same_text t.token_hash hash)) [
  | inl same ↦ absurd (cc (rw same at h))
  | inr other ↦ (other, find_hash-IsNew hash ts (rw other at h))
]

-- A user that is found by the email has a row.
pub find_email-has_key :
    (email : String) (us : List User) (u : User)
    → find_email email us ≡ some u
    → has_key user_key u.id us ≡ true
find_email-has_key email [] u h = cc
find_email-has_key email (v ∷ us) u h = ground (arith, find_email-has_key email us u)

HasOwner-append :
    (us : List User) (u : User) (t : RefreshToken) → HasOwner us t → HasOwner (us ++ u ∷ []) t
HasOwner-append us u t h = ground (arith, has_key-append user_key t.user_id us u)

add_user-IsIntact : (u : User) (d : Db) → IsIntact d → IsIntact (add_user u d).1
add_user-IsIntact u d sound = elim (Option-cases (find_email u.email d.users)) [
  | inl free ↦
      rw (free, add_user)
        (record {
          emails =
              append-Unique email_of d.users u sound.emails (find_email-IsNew u.email d.users free);
          hashes = sound.hashes;
          owners =
              All-map (HasOwner d.users) (HasOwner (d.users ++ u ∷ []))
                (λ t h. HasOwner-append d.users u t h) d.refresh_tokens sound.owners;
        })
  | inr (other, taken) ↦ rw (taken, add_user) sound
]

pub add_token-IsIntact :
    (t : RefreshToken) (d : Db) → HasOwner d.users t → IsIntact d → IsIntact (add_token t d).1
add_token-IsIntact t d owned sound = elim (Option-cases (find_hash t.token_hash d.refresh_tokens)) [
  | inl free ↦
      rw (free, add_token)
        (record {
          emails = sound.emails;
          hashes =
              append-Unique hash_of d.refresh_tokens t sound.hashes
                (find_hash-IsNew t.token_hash d.refresh_tokens free);
          owners = All-append (HasOwner d.users) d.refresh_tokens (t ∷ []) sound.owners (owned, tt);
        })
  | inr (other, taken) ↦ rw (taken, add_token) sound
]

pub delete_token-IsIntact :
    (hash : String) (env : Env) (s : Session)
    → IsIntact s.db
    → Leaves IsIntact (delete_token hash env s)
unfolding delete_token
delete_token-IsIntact hash env s sound = writing-Leaves IsIntact _ env s sound λ id now. record {
  emails = sound.emails;
  hashes =
      keep_if-Unique hash_of (λ t. not (same_text t.token_hash hash)) (s.db).refresh_tokens
        sound.hashes;
  owners =
      All-keep_if (HasOwner (s.db).users) (λ t. not (same_text t.token_hash hash))
        (s.db).refresh_tokens sound.owners;
}

pub create_user-IsIntact :
    (email hash : String) (role : Role) (env : Env) (s : Session)
    → IsIntact s.db
    → Leaves IsIntact (create_user email hash role env s)
unfolding create_user
create_user-IsIntact email hash role env s sound =
    writing-Leaves IsIntact _ env s sound λ id now. add_user-IsIntact _ s.db sound

-- A token is no user.
pub add_token_users : (t : RefreshToken) (d : Db) → ((add_token t d).1).users ≡ d.users
add_token_users t d = ground arith
