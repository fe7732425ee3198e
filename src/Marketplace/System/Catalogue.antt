-- ===== src/Marketplace/System/Catalogue.antt =====
-- What the requests on products and promo codes write.
use service_oriented_hw.Common.{
  ◌≡◌, refl, ap, ◌∙◌, inl, inr, true, arith, Bool-cases, Option-cases, sym,
}
use service_oriented_hw.Common.Float.{Float64}
use service_oriented_hw.Common.Table.{find_by, has_key, has_key-modify_by, has_key-append}
use service_oriented_hw.Marketplace.Domain.{Uuid, Product, UserClaims}
use service_oriented_hw.Marketplace.Session.{Db, Env, Session, Result, ◌>>=◌, query}
use service_oriented_hw.Marketplace.Session.Steps.{bind_keeps, guard_keeps, insert_keeps}
use service_oriented_hw.Marketplace.Repository.Tx.{at_once_keeps}
use mathlib.Core.Path.{subst}
use service_oriented_hw.Marketplace.Repository.Orders.{product_key}
use service_oriented_hw.Marketplace.Products.{
  create, create_row, merge, update, update_row, delete, delete_row, get_by_id, archive_row,
  written_row,
}

-- All tables but the products are the same, and every product keeps its row.
pub record OnlyProducts {V : Type 0} (d d' : Db V) : Type 0 where
  pub orders : d'.orders ≡ d.orders
  pub order_items : d'.order_items ≡ d.order_items
  pub promo_codes : d'.promo_codes ≡ d.promo_codes
  pub rows :
      (k : Uuid)
      → has_key product_key k d.products ≡ true
      → has_key product_key k d'.products ≡ true

module _ {V : Type 0} where
  OnlyProducts-refl : (d : Db V) → OnlyProducts d d
  OnlyProducts-refl d = record {
    orders = refl;
    order_items = refl;
    promo_codes = refl;
    rows = λ k h. h;
  }

  delete_row-OnlyProducts :
      (id : Uuid) (env : Env) (s : Session V) → OnlyProducts s.db (delete_row id env s).1.db
  unfolding delete_row
  delete_row-OnlyProducts id env s = elim (Bool-cases (env.refuses s.calls)) [
    | inl refused ↦ rw refused (OnlyProducts-refl s.db)
    | inr up ↦ elim (Bool-cases (has_key product_key id (s.db).products)) [
      | inl there ↦
          rw (up, there)
            (record {
              orders = refl;
              order_items = refl;
              promo_codes = refl;
              rows = λ k h.
                  has_key-modify_by product_key k id (archive_row env.tx_time) (s.db).products
                    (λ x. refl)
                  ∙ h;
            })
      | inr gone ↦ rw (up, gone) (OnlyProducts-refl s.db)
    ]
  ]

  -- A request that reads, checks, and ends in one statement.
  get_by_id_same : (id : Uuid) (env : Env) (s : Session V) → (get_by_id id env s).1.db ≡ s.db
  unfolding get_by_id query ◌>>=◌
  get_by_id_same id env s = ground arith

  pub delete-OnlyProducts :
      (id : Uuid) (claims : UserClaims) (env : Env) (s : Session V)
      → OnlyProducts s.db (delete id claims env s).1.db
  unfolding delete
  delete-OnlyProducts id claims env s =
      let same = get_by_id_same id env s in
      bind_keeps (OnlyProducts s.db) _ _ env s
        (subst (OnlyProducts s.db) (sym same) (OnlyProducts-refl s.db))
        λ existing t e.
          let here : t.db ≡ s.db =
            ap (λ (x : Result (Product V) × Session V). x.1.db) (sym e) ∙ same in
          guard_keeps (OnlyProducts s.db) _ _ _ env t
            (subst (OnlyProducts s.db) (sym here) (OnlyProducts-refl s.db))
            (at_once_keeps (OnlyProducts s.db) _ env t
              (subst (OnlyProducts s.db) (sym here) (OnlyProducts-refl s.db))
              (subst (λ d. OnlyProducts d (delete_row id env t).1.db) here
                (delete_row-OnlyProducts id env t)))

module _ {V : Type 0} ⦃f : Float64 V⦄ where
  update_row-OnlyProducts :
      (p : Product V) (env : Env) (s : Session V) → OnlyProducts s.db (update_row p env s).1.db
  unfolding update_row
  update_row-OnlyProducts p env s = elim (Bool-cases (env.refuses s.calls)) [
    | inl refused ↦ rw refused (OnlyProducts-refl s.db)
    | inr up ↦ elim (Option-cases (find_by product_key p.id (s.db).products)) [
      | inl gone ↦ rw (up, gone) (OnlyProducts-refl s.db)
      | inr (row, there) ↦
          rw (up, there)
            (record {
              orders = refl;
              order_items = refl;
              promo_codes = refl;
              rows = λ k h.
                  has_key-modify_by product_key k p.id (written_row p env.tx_time) (s.db).products
                    (λ x. refl)
                  ∙ h;
            })
    ]
  ]

  pub update-OnlyProducts :
      (id : Uuid) (claims : UserClaims) (upd : Product V) (env : Env) (s : Session V)
      → OnlyProducts s.db (update id claims upd env s).1.db
  unfolding update
  update-OnlyProducts id claims upd env s =
      let same = get_by_id_same id env s in
      bind_keeps (OnlyProducts s.db) _ _ env s
        (subst (OnlyProducts s.db) (sym same) (OnlyProducts-refl s.db))
        λ existing t e.
          let here : t.db ≡ s.db =
            ap (λ (x : Result (Product V) × Session V). x.1.db) (sym e) ∙ same in
          guard_keeps (OnlyProducts s.db) _ _ _ env t
            (subst (OnlyProducts s.db) (sym here) (OnlyProducts-refl s.db))
            (at_once_keeps (OnlyProducts s.db) _ env t
              (subst (OnlyProducts s.db) (sym here) (OnlyProducts-refl s.db))
              (subst (λ d. OnlyProducts d (update_row (merge existing upd) env t).1.db) here
                (update_row-OnlyProducts (merge existing upd) env t)))

  pub create-OnlyProducts :
      (seller_id : Uuid) (p : Product V) (env : Env) (s : Session V)
      → OnlyProducts s.db (create seller_id p env s).1.db
  unfolding create create_row
  create-OnlyProducts seller_id p env s =
      at_once_keeps (OnlyProducts s.db) _ env s (OnlyProducts-refl s.db) (
        insert_keeps (OnlyProducts s.db) _ _ _ env s (OnlyProducts-refl s.db) λ id free. record {
          orders = refl;
          order_items = refl;
          promo_codes = refl;
          rows = λ k h. has_key-append product_key k (s.db).products _ ∙ rw h;
        })
