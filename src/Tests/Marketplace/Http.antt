-- ===== src/Tests/Marketplace/Http.antt =====
-- The theorems on handlers, routes, pages, retries and logs at concrete inputs.
use service_oriented_hw.Common.{
  Bool, false, ℕ, ◌≡◌, ◌≤◌, ◌⊎◌, refl, Option, none, some, [], ◌∷◌, length, String, if◌then◌else◌,
}
use service_oriented_hw.Common.Int.{pos}
use service_oriented_hw.Marketplace.Domain.{Error, UserClaims, unauthorized, token_invalid}
use service_oriented_hw.Marketplace.Session.{Session, Result, ok, err}
use service_oriented_hw.Marketplace.Orders.Usecase as Orders
use service_oriented_hw.Marketplace.UserClient.{verify_from, verify_from_bounded}
use service_oriented_hw.Marketplace.Auth.{parse_token, auth_err_info}
use service_oriented_hw.Marketplace.Listing.{Arrange}
use service_oriented_hw.Marketplace.Handlers.{Answer, status_of}
use service_oriented_hw.Marketplace.Handlers.Orders.{
  create_order, get_order, update_order, cancel_order,
}
use service_oriented_hw.Marketplace.Handlers.Statuses.{
  Reports, IsTurnedAway, order_statuses, create_order_once,
}
use service_oriented_hw.Marketplace.Router as Router
use service_oriented_hw.Marketplace.Router.{serve, turned_away}
use service_oriented_hw.Marketplace.Router.Steps.{after_call}
use service_oriented_hw.Marketplace.System as System
use service_oriented_hw.Marketplace.Router.Entry.{call_of, bound, enter, enter_calls}
use service_oriented_hw.Marketplace.Router.Refusals.{serve_unverified}
use service_oriented_hw.Marketplace.System.{Reach, here}
use service_oriented_hw.Marketplace.Logging.{
  Json, string, Fields, field, end_object, object, body_log, mask_sensitive,
}
use service_oriented_hw.Marketplace.Logging.Masked.{value_at, lookup, body_log_hides}
use text.Mathlib.Text.{◌==◌ as same_text}
use service_oriented_hw.Tests.Marketplace.{
  order_code, first_id, four_teas, two_teas, calm, opening, thousandths, buyer,
}
use service_oriented_hw.Tests.Marketplace.Access.{slow_start}

verify_from_bounded_example :
    (1 ≤ length (verify_from slow_start 1 0).1) × (length (verify_from slow_start 1 0).1 ≤ 2)
verify_from_bounded_example = verify_from_bounded slow_start 1 0

abbrev as_stored : Arrange ℕ
as_stored n first rows = rows

order_statuses_example :
    Reports
      (pos 1)
      201
      (create_order (pos 1) (some buyer) two_teas none calm opening).0
      (Orders.create (pos 1) 60 two_teas none calm opening).0
    × Reports
        (pos 1)
        200
        (get_order (some buyer) first_id calm opening).0
        (Orders.get_by_id first_id buyer calm opening).0
    × Reports
        (pos 1)
        200
        (update_order (pos 1) (some buyer) first_id two_teas calm opening).0
        (Orders.update (pos 1) first_id buyer two_teas calm opening).0
    × Reports
        (pos 1)
        200
        (cancel_order (some buyer) first_id calm opening).0
        (Orders.cancel first_id buyer calm opening).0
order_statuses_example = order_statuses (pos 1) buyer first_id two_teas none calm opening

abbrev first_answer : Answer ℕ × Session ℕ
first_answer = create_order (pos 1) (some buyer) four_teas (some "SPRING") calm opening

handler_code : Unit {0}
unfolding order_code create_order
handler_code = tt

first_created : status_of first_answer.0 ≡ 201
unfolding handler_code
first_created = refl

create_order_once_example :
    IsTurnedAway
      (pos 1)
      (create_order (pos 1) (some buyer) two_teas none calm first_answer.1)
      first_answer.1.db
create_order_once_example =
    create_order_once (pos 1) buyer four_teas two_teas (some "SPRING") none calm calm opening
      first_answer.1 first_answer.0 refl first_created (λ n. refl)

abbrev nobody : String → Result UserClaims
nobody token = err token_invalid

abbrev always_buyer : String → Result UserClaims
always_buyer token = ok buyer

abbrev no_text : Error → String
no_text e = ""

no_token : parse_token nobody "" ≡ err unauthorized
unfolding parse_token
no_token = refl

serve_unverified_example :
    (serve
        (pos 1)
        no_text
        as_stored
        nobody
        ""
        (Router.Route.create_order four_teas none)
        calm
        opening
      ≡ (turned_away (auth_err_info unauthorized).0 (auth_err_info unauthorized).1, opening))
    × (((auth_err_info unauthorized).1 ≡ 401) ⊎ ((auth_err_info unauthorized).1 ≡ 503))
serve_unverified_example =
    serve_unverified (pos 1) no_text as_stored nobody "" (Router.Route.create_order four_teas none)
      unauthorized calm opening refl no_token

-- The call is the one of the buyer, whom the token names.
buyer_calls :
    call_of {V = ℕ} always_buyer "Bearer t" (bound (Router.Route.create_order four_teas none))
    ≡ some (System.Request.create_order 60 four_teas none)
unfolding parse_token
buyer_calls = refl

enter_calls_example :
    (enter
      (pos 1)
      no_text
      as_stored
      always_buyer
      "Bearer t"
      (bound (Router.Route.create_order four_teas none))
      calm
      opening).1.db
    ≡ after_call
        (pos 1)
        (call_of always_buyer "Bearer t" (bound (Router.Route.create_order four_teas none)))
        calm
        opening
enter_calls_example =
    enter_calls (pos 1) no_text as_stored always_buyer "Bearer t"
      (bound (Router.Route.create_order four_teas none)) calm opening

-- An object with a password inside of another one, and what makes it lower case.
abbrev lower : String → String
lower key = if same_text key "Password" then "password" else key

abbrev account : Fields
account =
    field "user" (object (field "Password" (string "hunter2") end_object))
      (field "city" (string "Rome") end_object)

abbrev decode : String → Option Fields × Bool
decode body = (some account, false)

abbrev logged_account : Fields
logged_account = mask_sensitive lower account

account_logged : body_log lower decode "POST" "an account" ≡ some logged_account
unfolding body_log
account_logged = refl

-- What the log has for the password.
abbrev shown : Json
unfolding value_at lookup mask_sensitive
shown = elim (value_at ("user" ∷ []) "Password" logged_account) [
  | none ↦ object account
  | some v ↦ v
]

account_password : value_at ("user" ∷ []) "Password" logged_account ≡ some shown
unfolding value_at lookup mask_sensitive
account_password = refl

body_log_hides_example : shown ≡ string "***"
body_log_hides_example =
    body_log_hides lower decode "POST" "an account" logged_account ("user" ∷ []) "Password" shown
      refl account_logged refl account_password
