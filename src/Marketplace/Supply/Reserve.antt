-- ===== src/Marketplace/Supply/Reserve.antt =====
-- What `reserveItems` has done when it ends without an error.
use service_oriented_hw.Common.{
  ◌≡◌, refl, ap, ◌∙◌, true, some, List, [], ◌∷◌, ◌++◌, ◌==◌, if◌then◌else◌, All, All-append, arith,
  Bool-cases, inl, inr, ==_iff,
}
use service_oriented_hw.Common.Int.{pos, ◌+ℤ◌, ◌-ℤ◌, ◌≤ℤ◌, int_laws}
use service_oriented_hw.Common.Float.{Float64}
use service_oriented_hw.Common.Table.{find_by, has_key}
use service_oriented_hw.Marketplace.Domain.{Uuid, Time, Product, OrderItem, OrderItemRequest}
use service_oriented_hw.Marketplace.Session.{Db, Env, Session, ok}
use service_oriented_hw.Marketplace.Session.Steps.{after_bind, after_guard, pure_ok, exec_ok}
use service_oriented_hw.Marketplace.Repository.Orders.{product_key, decrease_stock}
use service_oriented_hw.Marketplace.Orders.Usecase.{
  is_on_sale, order_line, reserve_item, reserve_from, add_line,
}
use service_oriented_hw.Marketplace.Supply.{stock_in, ordered}
use service_oriented_hw.Marketplace.Supply.Tables.{stock_in_write, ordered-append}
use service_oriented_hw.Marketplace.Supply.Effects.{
  KeepsOrders, HasProduct, KeepsOrders-refl, KeepsOrders-trans, write-KeepsOrders, lock_product_ok,
  taken_from, moved-HasProduct,
}

module _ {V : Type 0} ⦃f : Float64 V⦄ where
  -- What a round of the loop of `reserveItems` has found and done.
  pub record Reserves (req : OrderItemRequest) (now : Time) (d d' : Db V) (it : OrderItem V)
      : Type 0 where
    pub product : Product V
    pub row : find_by product_key req.product_id d.products ≡ some product
    pub on_sale : is_on_sale product.status ≡ true
    pub covered : req.quantity ≤ℤ product.stock
    pub line : it ≡ order_line req product.price
    pub taken : d' ≡ taken_from req now d

  pub reserve_item_ok :
      (req : OrderItemRequest) (env : Env) (s : Session V) {it : OrderItem V} {s' : Session V}
      → reserve_item req env s ≡ (ok it, s')
      → Reserves req env.tx_time s.db s'.db it
  unfolding reserve_item decrease_stock
  reserve_item_ok req env s h = after_bind _ _ env s h λ q t e rest.
      after_guard _ _ _ env t rest λ on_sale rest1. after_guard _ _ _ env t rest1 λ covered rest2.
        after_bind _ _ env t rest2 λ _ t1 e1 rest3.
          let (row, same) = lock_product_ok req.product_id env s e in
          let (line, stay) = pure_ok _ env t1 rest3 in
          record {
            product = q;
            row = row;
            on_sale = ground arith;
            covered = ground arith;
            line = line;
            taken =
                ap (λ (x : Session V). x.db) stay
                ∙ exec_ok _ env t e1
                ∙ ap (taken_from req env.tx_time) same;
          }

  -- What the loop over the requests has done, from a list of lines to a longer one.
  pub record Reserved (d d' : Db V) (done items : List (OrderItem V)) : Type 0 where
    pub only : KeepsOrders d d'
    pub balance :
        (p : Uuid)
        → stock_in p d'.products +ℤ ordered p items ≡ stock_in p d.products +ℤ ordered p done
    pub have_products : All (HasProduct d) done → All (HasProduct d') items
    pub not_oversold :
        ((p : Uuid) → pos 0 ≤ℤ stock_in p d.products) → (p : Uuid) → pos 0 ≤ℤ stock_in p d'.products

  -- One round of the loop.
  module _ (req : OrderItemRequest) (now : Time) (d d' : Db V) (it : OrderItem V)
      (r : Reserves req now d d' it) where
    has_row : has_key product_key req.product_id d.products ≡ true
    has_row = rw (r.row, has_key)

    stock_after :
        (p : Uuid)
        → stock_in p d'.products ≡ (
            if req.product_id == p
            then stock_in p d.products -ℤ req.quantity
            else stock_in p d.products)
    stock_after p =
        rw r.taken (stock_in_write p req.product_id (λ n. n -ℤ req.quantity) now d.products has_row)

    round_balance :
        (p : Uuid) (done : List (OrderItem V))
        → stock_in p d'.products +ℤ ordered p (done ++ it ∷ [])
          ≡ stock_in p d.products +ℤ ordered p done
    round_balance p done =
        rw (stock_after p, ordered-append p done (it ∷ []), r.line) (grind int_laws)

    round_not_oversold :
        (p : Uuid) → pos 0 ≤ℤ stock_in p d.products → pos 0 ≤ℤ stock_in p d'.products
    round_not_oversold p h = elim (Bool-cases (req.product_id == p)) [
      | inl same ↦
          rw (stock_after p, same)
            (let e : req.product_id ≡ p = (==_iff req.product_id p).0 same in
              let row = r.row in
              let stock : stock_in p d.products ≡ r.product.stock = rw (← e, row) in
              rw stock (omega (int_laws, r.covered)))
      | inr differs ↦ rw (stock_after p, differs) h
    ]

    only_products : KeepsOrders d d'
    only_products = rw r.taken (write-KeepsOrders req.product_id (λ n. n -ℤ req.quantity) now d)

    round-Reserved : (done : List (OrderItem V)) → Reserved d d' done (done ++ it ∷ [])
    round-Reserved done = record {
      only = only_products;
      balance = λ p. round_balance p done;
      have_products = λ h.
          moved-HasProduct (done ++ it ∷ []) only_products
            (All-append (HasProduct d) done (it ∷ []) h (rw r.line has_row, tt));
      not_oversold = λ h p. round_not_oversold p (h p);
    }

  Reserved-trans :
      {d e g : Db V} {xs ys zs : List (OrderItem V)}
      → Reserved d e xs ys
      → Reserved e g ys zs
      → Reserved d g xs zs
  Reserved-trans a b = record {
    only = KeepsOrders-trans a.only b.only;
    balance = λ p. b.balance p ∙ a.balance p;
    have_products = λ h. b.have_products (a.have_products h);
    not_oversold = λ h. b.not_oversold (a.not_oversold h);
  }

  -- The loop, from any list of lines.
  pub reserve_from-Reserved :
      (done : List (OrderItem V)) (total : V) (reqs : List OrderItemRequest) (env : Env)
      (s : Session V) (out : List (OrderItem V) × V) (s' : Session V)
      → reserve_from done total reqs env s ≡ (ok out, s')
      → Reserved s.db s'.db done out.0
  unfolding reserve_from
  reserve_from-Reserved done total [] env s out s' h =
      let (same_out, same) = pure_ok (done, total) env s h in
      rw (same_out, same)
        (record {
          only = KeepsOrders-refl s.db;
          balance = λ p. refl;
          have_products = λ have. have;
          not_oversold = λ n. n;
        })
  reserve_from-Reserved done total (req ∷ reqs) env s out s' h =
      after_bind _ _ env s h λ it t e rest.
        Reserved-trans
          (round-Reserved req env.tx_time s.db t.db it (reserve_item_ok req env s e) done)
          (reserve_from-Reserved (done ++ it ∷ []) (add_line total it) reqs env t out s' rest)
