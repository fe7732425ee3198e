-- ===== src/Marketplace/Listing.antt =====
-- internal/repository/product.go, `List`, and `ProductUseCase.List`: the products that a filter
-- selects, page by page. ORDER BY is the parameter `arrange` of the database, which is given the
-- number of the statement and the comparison: which of two products of one time comes first may
-- differ from statement to statement.
pub mod Pages
use service_oriented_hw.Common.{
  ℕ, ◌≡◌, ◌*◌, Bool, true, false, ◌&&◌, ◌||◌, Option, none, some, List, [], String, ◌==◌, count_if,
  keep_if, take, drop, if◌then◌else◌, ltb,
}
use service_oriented_hw.Common.Int.{ℤ, pos, ◌*ℤ◌, ltb_ℤ, leb_ℤ, wrap64, pos_part}
use service_oriented_hw.Marketplace.Domain.{
  Uuid, Product, ProductStatus, unset, active, inactive, archived, other_status, ProductFilter,
  internal,
}
use service_oriented_hw.Marketplace.Session.{Db, M, ◌>>=◌, pure, fail, query, cut_to}
use text.Mathlib.Text.{◌==◌ as same_text}

pub record ProductList (V : Type 0) : Type 0 where
  pub items : List (Product V)
  pub total_elements : ℤ

abbrev pub same_product_status : ProductStatus → ProductStatus → Bool
same_product_status unset unset = true
same_product_status active active = true
same_product_status inactive inactive = true
same_product_status archived archived = true
same_product_status (other_status a) (other_status b) = same_text a b
same_product_status _ _ = false

-- A condition that is there only if the filter has the field.
abbrev pub when_given : {A : Type 0} → (A → Bool) → Option A → Bool
when_given test none = true
when_given test (some a) = test a

-- ORDER BY: the rows in an order of the comparison.
abbrev pub Arrange : Type 0 → Type 0
Arrange V = ℕ → (Product V → Product V → Bool) → List (Product V) → List (Product V)

module _ {V : Type 0} where
  -- created_at DESC: the first one may stand before the other.
  abbrev pub newer : Product V → Product V → Bool
  newer p q = leb_ℤ q.created_at p.created_at

  -- The WHERE clause.
  abbrev pub selects : ProductFilter → Product V → Bool
  selects f p =
      when_given (λ c. same_text p.category c) f.category
      && when_given (λ st. same_product_status p.status st) f.status
      && when_given (λ id. p.seller_id == id) f.seller_id

  -- LIMIT and OFFSET; a negative one is an error of the database.
  abbrev pub limited : ℤ → ℤ → List (Product V) → Option (List (Product V))
  limited size offset rows =
      if ltb_ℤ size (pos 0) || ltb_ℤ offset (pos 0)
      then none
      else some (take (pos_part size) (drop (pos_part offset) rows))

  abbrev pub or_internal : {A : Type 0} → Option A → M V A
  or_internal none = fail internal
  or_internal (some a) = pure a

  -- The loop over `rows.Next()`, behind which `rows.Err()` is not looked at: where the reading breaks
  -- off, the rows so far are all, and an error of the statement is returned by `Query` or not seen.
  abbrev pub read_page : Option ℕ → Option (List (Product V)) → Option (List (Product V))
  read_page cut (some rows) = some (cut_to cut rows)
  read_page none none = none
  read_page (some n) none = some []

  module _ (arrange : Arrange V) where
    -- The rows that the statement of that number selects.
    abbrev pub selected : ℕ → ProductFilter → Db V → List (Product V)
    selected n f db = arrange n newer (keep_if (selects f) db.products)

    -- The second statement.
    unfoldable pub page_rows : ProductFilter → M V (Option (List (Product V)))
    page_rows f env s =
        query
          (λ db.
            read_page (env.cut s.calls)
              (limited f.size (wrap64 (f.page *ℤ f.size)) (selected s.calls f db)))
          env s

    unfoldable pub list : ProductFilter → M V (ProductList V)
    list f = do
      total ← query (λ db. count_if (selects f) db.products)
      rows ← page_rows f
      items ← or_internal rows
      pure (record { items = items; total_elements = pos total })
