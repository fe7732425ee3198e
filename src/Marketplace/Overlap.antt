-- ===== src/Marketplace/Overlap.antt =====
-- Requests for orders that overlap in time. In PostgreSQL's default isolation level, which `WithTx`
-- of internal/repository/order.go keeps, the two guards of `Create` read what is committed and lock
-- nothing. Behind them every read is a `SELECT ... FOR UPDATE`, and so what follows runs as if in
-- one step, in the order of the commits; so do `Update` and `Cancel`, which lock their order first
-- (the rate limit of `Update` is read without a lock).
pub mod Phases
pub mod Twice
pub mod Stock
pub mod Stocked
pub mod Promos
use service_oriented_hw.Common.{All, ℕ, ◌≡◌, Option, List, [], ◌∷◌, ◌++◌, String}
use service_oriented_hw.Common.Int.{ℤ}
use service_oriented_hw.Common.Float.{Float64}
use service_oriented_hw.Marketplace.Domain.{
  Uuid, Order, OrderItemRequest, UserClaims, create_order, order_limit_exceeded,
  active_order_exists,
}
use service_oriented_hw.Marketplace.Session.{Db, Env, Session, Result, ok, M, ◌>>=◌, ◌>>◌, fail_if}
use service_oriented_hw.Marketplace.Repository.Orders.{rate_limit_check, has_active_order}
use service_oriented_hw.Marketplace.Repository.Tx.{finish}
use service_oriented_hw.Marketplace.Orders.Placing.{IsCount}
use service_oriented_hw.Marketplace.Orders.Usecase.{
  reserve_items, promo_for, place_order, update, cancel,
}

module _ {V : Type 0} where
  -- The first part of `Create`.
  unfoldable pub create_guards : ℤ → Uuid → M V (Unit {0})
  create_guards rate_limit_minutes user_id = do
    limited ← rate_limit_check user_id create_order rate_limit_minutes
    fail_if limited order_limit_exceeded
    has_active ← has_active_order user_id
    fail_if has_active active_order_exists

module _ {V : Type 0} ⦃f : Float64 V⦄ where
  -- The rest of it.
  unfoldable pub create_rest : Uuid → List OrderItemRequest → Option String → M V (Order V)
  create_rest user_id reqs promo_code = do
    reserved ← reserve_items reqs
    promo ← promo_for promo_code reserved.1
    place_order user_id reserved.0 reserved.1 promo

-- What the validation of a request against api/openapi.yaml ensures: `quantity` has a minimum.
abbrev pub Validated : List OrderItemRequest → Type 0
Validated reqs = All IsCount reqs

-- A call of `Create` that is behind its guards.
pub record Pending : Type 0 where
  pub user_id : Uuid
  pub reqs : List OrderItemRequest
  pub code : Option String
  pub env : Env
  pub calls : ℕ

-- The committed database, and the calls that are behind their guards.
pub record State (V : Type 0) : Type 0 where
  pub db : Db V
  pub waiting : List Pending

module _ {V : Type 0} ⦃f : Float64 V⦄ where
  -- The database once the call has committed or rolled back.
  unfoldable pub settle : Pending → Db V → Db V
  settle c d =
      let s : Session V = record { db = d; calls = c.calls } in
      (finish c.env.commit s (create_rest c.user_id c.reqs c.code c.env s)).1.db

module _ {V : Type 0} ⦃f : Float64 V⦄ (limit : ℤ) where
  pub data Step (t : State V) : State V → Type 0 where
    -- A call of `Create` gets past its guards.
    pass :
        (c : Pending) (calls : ℕ) {s : Session V}
        → Validated c.reqs
        → create_guards limit c.user_id c.env (record { db = t.db; calls = calls }) ≡ (ok tt, s)
        → s.calls ≡ c.calls
        → Step t (record t { waiting = c ∷ t.waiting })
    -- One of those that wait comes to its end.
    settles :
        (before after : List Pending) (c : Pending)
        → t.waiting ≡ before ++ c ∷ after
        → Step t (record { db = settle c t.db; waiting = before ++ after })
    updates :
        (order_id : Uuid) (claims : UserClaims) (reqs : List OrderItemRequest) (env : Env)
        (calls : ℕ)
        → Validated reqs
        → Step t (record t {
          db = (update limit order_id claims reqs env (record { db = t.db; calls = calls })).1.db;
        })
    cancels :
        (order_id : Uuid) (claims : UserClaims) (env : Env) (calls : ℕ)
        → Step t (record t {
          db = (cancel order_id claims env (record { db = t.db; calls = calls })).1.db;
        })

  pub data Reach (start : State V) : State V → Type 0 where
    here : Reach start start
    next : {t t' : State V} → Reach start t → Step t t' → Reach start t'
