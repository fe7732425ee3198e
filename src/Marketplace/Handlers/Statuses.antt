-- ===== src/Marketplace/Handlers/Statuses.antt =====
-- The statuses that the order handlers answer with.
use service_oriented_hw.Common.{
  ℕ, ◌<◌, ◌≤◌, ◌≡◌, ◌↔◌, ◌⊎◌, inl, inr, refl, ap, ◌∙◌, true, false, Option, some, List, String,
  arith,
}
use service_oriented_hw.Common.Int.{ℤ}
use service_oriented_hw.Common.Float.{Float64}
use service_oriented_hw.Marketplace.Domain.{Uuid, Order, OrderItemRequest, UserClaims, Error}
use service_oriented_hw.Marketplace.Session.{Env, Session, Db, Result, ok, err}
use service_oriented_hw.Marketplace.Orders.Usecase as Orders
use service_oriented_hw.Marketplace.Orders.Second.{IsTurnedDown, create_once}
use service_oriented_hw.Marketplace.Handlers.{
  Answer, respond, order, finish_with, to_order_response, status_of, is_ok,
}
use service_oriented_hw.Marketplace.Handlers.Orders.{
  create_status, get_status, update_status, cancel_status, create_order, get_order, update_order,
  cancel_order,
}

abbrev IsClientError : (Error → ℕ) → Type 0
IsClientError status = (e : Error) → (400 ≤ status e) × (status e < 500)

create_status-IsClientError : IsClientError create_status
create_status-IsClientError e = ground arith

get_status-IsClientError : IsClientError get_status
get_status-IsClientError e = ground arith

update_status-IsClientError : IsClientError update_status
update_status-IsClientError e = ground arith

cancel_status-IsClientError : IsClientError cancel_status
cancel_status-IsClientError e = ground arith

module _ {V : Type 0} where
  -- A success is answered with `good`, an error with what the handler has for it.
  answered :
      (good : ℕ) (status : Error → ℕ) (out : Result (Order V) × Session V)
      → IsClientError status
      → good < 400
      → (status_of (finish_with (λ o. respond good (order (to_order_response o))) status out).0
            ≡ good
          ↔ is_ok out.0 ≡ true)
        × (status_of (finish_with (λ o. respond good (order (to_order_response o))) status out).0
            < 500)
  answered good status (ok o, s) c small = ((λ e. refl, λ e. refl), omega arith)
  answered good status (err e, s) c small = (
    (
      λ same. absurd (let (lo, hi) = c e in ground (arith, same, lo, small)),
      λ wrong. absurd (ground (arith, wrong)),
    ),
    (c e).1,
  )

module _ {V : Type 0} ⦃f : Float64 V⦄ (limit : ℤ) where
  -- What a status of a handler says of the use case behind it.
  abbrev pub Reports : ℕ → Answer V → Result (Order V) → Type 0
  Reports good answer out = (status_of answer ≡ good ↔ is_ok out ≡ true) × (status_of answer < 500)

  -- For a caller whose token was verified, `CreateOrder` answers 201, and `GetOrder`, `UpdateOrder`
  -- and `CancelOrder` answer 200, if and only if the use case has ended without an error; and no
  -- error of a use case, a failure of the database among them, is answered with a status of 500 or
  -- above.
  pub order_statuses :
      (claims : UserClaims) (id : Uuid) (items : List OrderItemRequest) (code : Option String)
      (env : Env) (s : Session V)
      → Reports 201
          (create_order limit (some claims) items code env s).0
          (Orders.create limit claims.user_id items code env s).0
        × Reports 200 (get_order (some claims) id env s).0 (Orders.get_by_id id claims env s).0
        × Reports 200
            (update_order limit (some claims) id items env s).0
            (Orders.update limit id claims items env s).0
        × Reports 200 (cancel_order (some claims) id env s).0 (Orders.cancel id claims env s).0
  unfolding create_order get_order update_order cancel_order
  order_statuses claims id items code env s = (
    answered 201 create_status (Orders.create limit claims.user_id items code env s)
        create_status-IsClientError (omega arith),
    answered 200 get_status (Orders.get_by_id id claims env s) get_status-IsClientError
        (omega arith),
    answered 200 update_status (Orders.update limit id claims items env s)
        update_status-IsClientError (omega arith),
    answered 200 cancel_status (Orders.cancel id claims env s) cancel_status-IsClientError
        (omega arith),
  )

  abbrev created_answer : Result (Order V) × Session V → Answer V × Session V
  created_answer out =
      finish_with (λ o. respond 201 (order (to_order_response o))) create_status out

  -- The answer has the status 429 or 409, and the database is this one.
  abbrev pub IsTurnedAway : Answer V × Session V → Db V → Type 0
  IsTurnedAway out d = ((status_of out.0 ≡ 429) ⊎ (status_of out.0 ≡ 409)) × (out.1.db ≡ d)

  created_answer-IsTurnedAway :
      (out : Result (Order V) × Session V) (d : Db V)
      → IsTurnedDown out d
      → IsTurnedAway (created_answer out) d
  created_answer-IsTurnedAway (ok o, t) d (inl bad, _) = absurd (ground (arith, bad))
  created_answer-IsTurnedAway (ok o, t) d (inr bad, _) = absurd (ground (arith, bad))
  created_answer-IsTurnedAway (err e, t) d (inl is, same) = (inl (ground (arith, is)), same)
  created_answer-IsTurnedAway (err e, t) d (inr is, same) = (inr (ground (arith, is)), same)

  succeeded :
      (out : Result (Order V) × Session V)
      → is_ok out.0 ≡ true
      → (o : Order V) × (out ≡ (ok o, (created_answer out).1))
  succeeded (ok o, s') h = (o, refl)
  succeeded (err e, s') h = absurd (ground (arith, h))

  -- After a `CreateOrder` that was answered with 201, the next one of the same caller, whatever it
  -- orders, is answered with 429 or 409, and leaves the database as it is, if none of its statements
  -- is refused.
  pub create_order_once :
      (claims : UserClaims) (items items' : List OrderItemRequest) (code code' : Option String)
      (env env' : Env) (s s' : Session V) (a : Answer V)
      → create_order limit (some claims) items code env s ≡ (a, s')
      → status_of a ≡ 201
      → ((n : ℕ) → env'.refuses n ≡ false)
      → IsTurnedAway (create_order limit (some claims) items' code' env' s') s'.db
  unfolding create_order
  create_order_once claims items items' code code' env env' s s' a run created up =
      let first = Orders.create limit claims.user_id items code env s in
      let made =
        (answered 201 create_status first create_status-IsClientError (omega arith)).0.0
          (ap (λ (out : Answer V × Session V). status_of out.0) run ∙ created) in
      let (o, is) = succeeded first made in
      let left = ap (λ (out : Answer V × Session V). out.1) run in
      created_answer-IsTurnedAway (Orders.create limit claims.user_id items' code' env' s') s'.db (
        create_once limit claims.user_id items items' code code' env env' s s' o
          (is ∙ ap (λ (t : Session V). (ok o, t)) left) up)
