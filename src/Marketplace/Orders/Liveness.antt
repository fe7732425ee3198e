-- ===== src/Marketplace/Orders/Liveness.antt =====
-- `Cancel` comes to its end.
use service_oriented_hw.Common.{
  ℕ, ◌≡◌, refl, ap, ◌∙◌, Bool, true, false, Option, some, none, List, [], ◌∷◌, arith, keep_if,
}
use service_oriented_hw.Common.Int.{ℤ}
use service_oriented_hw.Common.Table.{find_by, key_of_found}
use service_oriented_hw.Marketplace.Domain.{Uuid, Order, OrderItem, UserClaims, canceled}
use service_oriented_hw.Marketplace.Domain.Status.{cancellable}
use service_oriented_hw.Marketplace.Session.{
  Db, Env, Session, acknowledged, Result, ok, ◌>>=◌, query, exec, returning, next_call,
}
use service_oriented_hw.Marketplace.Session.Steps.{bind_ok}
use service_oriented_hw.Marketplace.Repository.Orders.{
  order_key, get_order_for_update, get_order_items, increase_stock, decrement_promo_uses,
  belongs_to, cancel_order_tx, has_order,
}
use service_oriented_hw.Marketplace.Repository.Tx.{with_tx, finish}
use service_oriented_hw.Marketplace.Orders.Usecase.{
  cancel, cancel_body, restore_items, release_promo, may_touch,
}

still_there :
    {V : Type 0} (id : Uuid) (o : Order V) (before after : Db V)
    → after.orders ≡ before.orders
    → find_by order_key id before.orders ≡ some o
    → has_order o.id after ≡ true
still_there {V} id o before after same row =
    let same_id : o.id ≡ id = key_of_found order_key id before.orders o row in
    let found : find_by order_key o.id after.orders ≡ some o =
      ap (λ k. find_by order_key k after.orders) same_id
      ∙ ap (λ xs. find_by order_key id xs) same
      ∙ row in
    ap (λ (r : Option (Order V)). let b : Bool = elim r [ none ↦ false | some _ ↦ true ] in b) found

module _ {V : Type 0} (env : Env) (up : (n : ℕ) → env.refuses n ≡ false) where
  -- A step that gives such a result and leaves the table of orders alone.
  abbrev Runs : {A : Type 0} → Result A × Session V → A → Session V → Type 0
  Runs out a s = (t : Session V) × (out ≡ (ok a, t)) × (t.db.orders ≡ s.db.orders)

  increase_stock-Runs : (p : Uuid) (q : ℤ) (s : Session V) → Runs (increase_stock p q env s) tt s
  unfolding increase_stock exec
  increase_stock-Runs p q s = ((increase_stock p q env s).1, rw (up s.calls), rw (up s.calls))

  restore_items-Runs :
      (items : List (OrderItem V)) (s : Session V) → Runs (restore_items items env s) tt s
  unfolding restore_items
  restore_items-Runs [] s = (s, refl, refl)
  restore_items-Runs (it ∷ items) s =
      let (t, e, o) = increase_stock-Runs it.product_id it.quantity s in
      let (t', e', o') = restore_items-Runs items t in (t', bind_ok _ _ env s e ∙ e', o' ∙ o)

  release_promo-Runs : (promo : Option Uuid) (s : Session V) → Runs (release_promo promo env s) tt s
  unfolding release_promo decrement_promo_uses exec
  release_promo-Runs none s = (s, refl, refl)
  release_promo-Runs (some id) s =
      ((decrement_promo_uses id env s).1, rw (up s.calls), rw (up s.calls))

  get_order_runs :
      (id : Uuid) (o : Order V) (s : Session V)
      → find_by order_key id s.db.orders ≡ some o
      → get_order_for_update id env s ≡ (ok o, next_call s)
  unfolding get_order_for_update query ◌>>=◌
  get_order_runs id o s row = let u = up s.calls in ground arith

  get_items_runs :
      (id : Uuid) (s : Session V)
      → get_order_items id env s ≡ (ok (keep_if (belongs_to id) s.db.order_items), next_call s)
  unfolding get_order_items query
  get_items_runs id s = rw (up s.calls)

  cancel_order_tx_runs :
      (o : Order V) (s : Session V)
      → has_order o.id s.db ≡ true
      → (t : Session V) × (cancel_order_tx o env s
          ≡ (ok (record o { status = canceled; updated_at = env.tx_time }), t))
  unfolding cancel_order_tx returning ◌>>=◌
  cancel_order_tx_runs o s there = ((cancel_order_tx o env s).1, let u = up s.calls in ground arith)

  cancel_body_runs :
      (id : Uuid) (claims : UserClaims) (o : Order V) (s : Session V)
      → find_by order_key id s.db.orders ≡ some o
      → may_touch claims o.user_id ≡ true
      → cancellable o.status ≡ true
      → (t : Session V) × (cancel_body id claims env s ≡ (
        ok (record o {
          status = canceled;
          updated_at = env.tx_time;
          items = keep_if (belongs_to id) s.db.order_items;
        }),
        t,
      ))
  unfolding cancel_body
  cancel_body_runs id claims o s row allowed live =
      let s1 = next_call s in
      let s2 = next_call s1 in
      let items = keep_if (belongs_to id) s.db.order_items in
      let (s3, e3, o3) = restore_items-Runs items s2 in
      let (s4, e4, o4) = release_promo-Runs o.promo_code_id s3 in
      let there : has_order o.id s4.db ≡ true = still_there id o s.db s4.db (o4 ∙ o3) row in
      let (s5, e5) = cancel_order_tx_runs o s4 there in
      (
        s5,
        bind_ok _ _ env s (get_order_runs id o s row)
            ∙ bind_ok _ _ env s1 (rw allowed)
            ∙ bind_ok _ _ env s1 (rw live)
            ∙ bind_ok _ _ env s1 (get_items_runs id s1)
            ∙ bind_ok _ _ env s2 e3
            ∙ bind_ok _ _ env s3 e4
            ∙ bind_ok _ _ env s4 e5,
      )

  -- If no statement is refused and the commit is acknowledged, `Cancel` succeeds on an order that is
  -- there, may be touched by the caller and is in a cancellable status: it returns the order with
  -- its items and the status CANCELED.
  pub cancel_succeeds :
      (id : Uuid) (claims : UserClaims) (o : Order V) (s : Session V)
      → env.commit ≡ acknowledged
      → find_by order_key id s.db.orders ≡ some o
      → may_touch claims o.user_id ≡ true
      → cancellable o.status ≡ true
      → (cancel id claims env s).0
        ≡ ok (record o {
          status = canceled;
          updated_at = env.tx_time;
          items = keep_if (belongs_to id) s.db.order_items;
        })
  unfolding cancel with_tx finish
  cancel_succeeds id claims o s commits row allowed live =
      let (t, e) = cancel_body_runs id claims o (next_call s) row allowed live in
      rw (up s.calls, e, commits)
