-- ===== src/Marketplace/Router/Reads.antt =====
-- The routes that read leave the database as it is.
use service_oriented_hw.Common.{◌≡◌, refl, ap, sym, ◌∙◌, ℕ, Option, none, some, List, arith}
use service_oriented_hw.Marketplace.Domain.{Uuid, ProductFilter, UserClaims, Error}
use service_oriented_hw.Marketplace.Session.{
  Db, Env, Session, Result, ok, err, M, ◌>>=◌, query, query_rows, found,
}
use service_oriented_hw.Marketplace.Session.Steps.{bind_keeps, guard_keeps}
use service_oriented_hw.Marketplace.Listing.{Arrange, ProductList, page_rows, list, or_internal}
use service_oriented_hw.Marketplace.Products.{get_by_id as find_product}
use service_oriented_hw.Marketplace.Repository.Orders.{get_by_id as find_order}
use service_oriented_hw.Marketplace.Orders.Usecase.{get_by_id as find_order_of}
use service_oriented_hw.Marketplace.Handlers.{Answer, finish_with}
use service_oriented_hw.Marketplace.Handlers.Orders.{get_order}
use service_oriented_hw.Marketplace.Handlers.Products.{
  ListProductsParams, to_filter, listed, list_products, get_product,
}

module _ {V : Type 0} where
  pub finish_with_same :
      {A : Type 0} (success : A → Answer V) (status : Error → ℕ) (out : Result A × Session V)
      → (finish_with success status out).1 ≡ out.1
  finish_with_same success status (ok a, s) = refl
  finish_with_same success status (err e, s) = refl

  listed_same :
      (p : ProductFilter) (out : Result (ProductList V) × Session V) → (listed p out).1 ≡ out.1
  listed_same p (ok l, s) = refl
  listed_same p (err e, s) = refl

  query_same :
      {A : Type 0} (read : Db V → A) (env : Env) (s : Session V) → (query read env s).1.db ≡ s.db
  unfolding query
  query_same read env s = ground arith

  found_same :
      {A : Type 0} (row : Option A) (env : Env) (s : Session V) → (found row env s).1.db ≡ s.db
  found_same none env s = refl
  found_same (some a) env s = refl

  or_internal_same :
      {A : Type 0} (row : Option A) (env : Env) (s : Session V)
      → (or_internal row env s).1.db ≡ s.db
  or_internal_same none env s = refl
  or_internal_same (some a) env s = refl

  -- A chain of reads.
  reads :
      {A B : Type 0} (m : M V A) (k : A → M V B)
      → ((env : Env) (s : Session V) → (m env s).1.db ≡ s.db)
      → ((a : A) (env : Env) (s : Session V) → (k a env s).1.db ≡ s.db)
      → (env : Env) (s : Session V) → ((m >>= k) env s).1.db ≡ s.db
  reads {A} m k first rest env s =
      bind_keeps (λ d. d ≡ s.db) m k env s (first env s)
        λ a t e. rest a env t ∙ ap (λ (out : Result A × Session V). out.1.db) (sym e) ∙ first env s

  query_rows_same :
      {A : Type 0} (read : Db V → List A) (env : Env) (s : Session V)
      → (query_rows read env s).1.db ≡ s.db
  unfolding query_rows
  query_rows_same read env s = query_same _ env s

  page_rows_same :
      (arrange : Arrange V) (p : ProductFilter) (env : Env) (s : Session V)
      → (page_rows arrange p env s).1.db ≡ s.db
  unfolding page_rows
  page_rows_same arrange p env s = query_same _ env s

  list_same :
      (arrange : Arrange V) (p : ProductFilter) (env : Env) (s : Session V)
      → (list arrange p env s).1.db ≡ s.db
  unfolding list
  list_same arrange p = reads _ _ (query_same _) λ total.
      reads _ _ (page_rows_same arrange p)
        λ rows. reads _ _ (or_internal_same rows) λ items env s. refl

  find_product_same : (id : Uuid) (env : Env) (s : Session V) → (find_product id env s).1.db ≡ s.db
  unfolding find_product
  find_product_same id = reads _ _ (query_same _) found_same

  find_order_same : (id : Uuid) (env : Env) (s : Session V) → (find_order id env s).1.db ≡ s.db
  unfolding find_order
  find_order_same id =
      reads _ _ (query_same _)
        λ row. reads _ _ (found_same row) λ o. reads _ _ (query_rows_same _) λ items env s. refl

  find_order_of_same :
      (id : Uuid) (claims : UserClaims) (env : Env) (s : Session V)
      → (find_order_of id claims env s).1.db ≡ s.db
  unfolding find_order_of
  find_order_of_same id claims =
      reads _ _ (find_order_same id) λ o env s. guard_keeps (λ d. d ≡ s.db) _ _ _ env s refl refl

  pub list_products_same :
      (arrange : Arrange V) (p : ListProductsParams) (env : Env) (s : Session V)
      → (list_products arrange p env s).1.db ≡ s.db
  unfolding list_products
  list_products_same arrange p env s =
      ap (λ (x : Session V). x.db) (listed_same (to_filter p) (list arrange (to_filter p) env s))
      ∙ list_same arrange (to_filter p) env s

  pub get_product_same :
      (id : Uuid) (env : Env) (s : Session V) → (get_product id env s).1.db ≡ s.db
  unfolding get_product
  get_product_same id env s =
      ap (λ (x : Session V). x.db) (finish_with_same _ _ (find_product id env s))
      ∙ find_product_same id env s

  pub get_order_same :
      (claims : Option UserClaims) (id : Uuid) (env : Env) (s : Session V)
      → (get_order claims id env s).1.db ≡ s.db
  unfolding get_order
  get_order_same none id env s = refl
  get_order_same (some claims) id env s =
      ap (λ (x : Session V). x.db) (finish_with_same _ _ (find_order_of id claims env s))
      ∙ find_order_of_same id claims env s
