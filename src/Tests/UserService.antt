-- ===== src/Tests/UserService.antt =====
-- Runs of user-service on a small database, and the theorems at these inputs. The digest of a text
-- is played by the text itself, and a signed token by a fixed text.
pub mod Accounts
pub mod Reached
pub mod Observed
use service_oriented_hw.Common.{
  ◌+◌, ◌≡◌, ◌≢◌, refl, Bool, true, false, none, some, [], ◌∷◌, String, arith, ◌&&◌, if◌then◌else◌,
}
use service_oriented_hw.Common.Int.{pos, ◌+ℤ◌, ◌<ℤ◌}
use service_oriented_hw.UserService.{
  User, Env, Session, Result, ok, err, token_invalid, ◌>>=◌, statement, writing, dropping, or_error,
  read_clock, draw,
}
use service_oriented_hw.UserService.Repository.{get_by_hash, get_by_id, delete_token, create_token}
use service_oriented_hw.UserService.Auth.{
  Lib, AuthUseCase, TokenPair, refresh, settle, expire, rotate, issue_tokens, rejected, accepted,
  hmac, verify_access_token,
}
use service_oriented_hw.UserService.Auth.Access.{ParsesSigned, issue_tokens-verify_access_token}
use service_oriented_hw.UserService.Auth.Tokens.{refresh_once}
use service_oriented_hw.UserService.Auth.Refusals.{login_refused, register_taken}
use service_oriented_hw.UserService.{next_call, invalid_credentials, email_taken}
use service_oriented_hw.UserService.Repository.{find_email}
use service_oriented_hw.UserService.Auth.{login, register}
use text.Mathlib.TextEquality.{eq_iff}
use text.Mathlib.Text.{◌==◌ as same_text}

abbrev pub ann : User
ann = record {
  id = 5;
  email = "ann@example.com";
  password_hash = "h";
  role = "USER";
  created_at = pos 0;
  updated_at = pos 0;
}

-- Only ann's claims are signed.
abbrev pub toy : Lib
toy = record {
  hash_password = λ cost salt password. some password;
  same_password = λ hash password. same_text hash password;
  sha256_hex = λ raw. raw;
  sign = λ secret claims.
      if same_text secret "secret" && same_text claims.sub "5" && same_text claims.role "USER"
      then some "ann's"
      else none;
  parse_jwt = λ keys now token. elim (keys hmac) [
    | none ↦ rejected "token is unverifiable: error while executing keyfunc"
    | some secret ↦
        if same_text secret "secret" && same_text token "ann's"
        then accepted (some "5") (some "USER")
        else rejected "token has invalid claims: token is expired"
  ];
  uuid_text = λ id. "5";
  parse_uuid = λ text. some 5;
  refresh_text = λ id now nonce. "new";
  unix = λ t. t;
}

abbrev pub service : AuthUseCase
service = record {
  jwt_secret = "secret";
  access_ttl = pos 900;
  refresh_ttl = pos 10_000;
  bcrypt_cost = 10;
}

abbrev pub calm : Env
calm = record {
  refuses = λ n. false;
  loses = λ n. false;
  random = λ n. 100 + n;
  clock = λ n. pos 20;
  db_time = λ n. pos 20;
}

abbrev pub opening : Session
opening = record {
  db = record {
    users = ann ∷ [];
    refresh_tokens =
        record { id = 1; user_id = 5; token_hash = "old"; expires_at = pos 500; created_at = pos 0 }
        ∷ [];
  };
  calls = 0;
}

auth_code : Unit {0}
unfolding refresh settle expire rotate issue_tokens get_by_hash get_by_id delete_token create_token
    ◌>>=◌ statement writing dropping or_error read_clock draw ◌+ℤ◌
auth_code = tt

abbrev pub refreshed : Result TokenPair × Session
refreshed = refresh toy service "old" calm opening

abbrev pub new_pair : TokenPair
new_pair = record { access_token = "ann's"; refresh_token = "new" }

refreshed_ok : refreshed ≡ (ok new_pair, refreshed.1)
unfolding auth_code
refreshed_ok = refl

new-ne-old : toy.sha256_hex new_pair.refresh_token ≢ toy.sha256_hex "old"
new-ne-old = ground (arith, eq_iff "new" "old")

refresh_once_example : (refresh toy service "old" calm refreshed.1).0 ≡ err token_invalid
refresh_once_example =
    refresh_once toy service "old" calm opening refreshed.1 new_pair (λ n. refl) new-ne-old
      refreshed_ok

only_hers :
    (a b c : Bool) (t : String)
    → (if a && b && c then some "ann's" else none) ≡ some t
    → (t ≡ "ann's") × (a ≡ true) × (b ≡ true) × (c ≡ true)
only_hers true true true t h = (ground arith, refl, refl, refl)
only_hers true true false t h = absurd (ground arith)
only_hers true false c t h = absurd (ground arith)
only_hers false b c t h = absurd (ground arith)

ann_parses : ParsesSigned toy service (pos 30)
ann_parses keys secret claims t kept signed alive =
    let (is_hers, of_secret, sub, role) =
      only_hers (same_text secret "secret") (same_text claims.sub "5")
        (same_text claims.role "USER") t signed in
    let secret_is = (eq_iff secret "secret").0 of_secret in
    let sub_is = (eq_iff claims.sub "5").0 sub in
    let role_is = (eq_iff claims.role "USER").0 role in
    rw (kept, secret_is, is_hers, sub_is, role_is)

alive : pos 30 <ℤ (pos 20 +ℤ pos 900)
unfolding ◌+ℤ◌
alive = omega arith

issue_code : Unit {0}
unfolding issue_tokens create_token ◌>>=◌ writing read_clock draw ◌+ℤ◌
issue_code = tt

abbrev issued : Result TokenPair × Session
issued = issue_tokens toy service ann calm opening

issued_ok : issued ≡ (ok new_pair, issued.1)
unfolding issue_code
issued_ok = refl

issue_tokens-verify_access_token_example :
    verify_access_token toy service (pos 30) "ann's" ≡ ok (record { user_id = 5; role = "USER" })
issue_tokens-verify_access_token_example =
    issue_tokens-verify_access_token toy service ann calm opening issued.1 new_pair (pos 30)
      ann_parses refl issued_ok alive

wrong_for_all :
    (u : User)
    → find_email "ann@example.com" (opening.db).users ≡ some u
    → toy.same_password u.password_hash "wrong" ≡ false
wrong_for_all u h = let is_ann : u ≡ ann = ground arith in rw is_ann

login_refused_example :
    login toy service "ann@example.com" "wrong" calm opening
    ≡ (err invalid_credentials, next_call opening)
login_refused_example =
    login_refused toy service "ann@example.com" "wrong" calm opening wrong_for_all
