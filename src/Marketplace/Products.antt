-- ===== src/Marketplace/Products.antt =====
-- services/marketplace-api: repository/product.go, usecases/product.go and the mapping of a request
-- body in handlers/product.go. These calls use the pool: each statement is a transaction of its own.
pub mod Laws
use service_oriented_hw.Common.{
  ◌≡◌, Bool, true, false, not, ◌&&◌, ◌||◌, Option, none, some, List, [], ◌∷◌, ◌++◌, String, ◌==◌,
  if◌then◌else◌,
}
use service_oriented_hw.Common.Int.{ℤ, pos, ltb_ℤ, leb_ℤ}
use service_oriented_hw.Common.Float.{Float64}
use service_oriented_hw.Common.Table.{find_by, modify_by, has_key}
use service_oriented_hw.Marketplace.Domain.{
  Uuid, Time, Product, ProductStatus, unset, active, archived, UserClaims, Role, seller, admin,
  internal, not_found, forbidden,
}
use service_oriented_hw.Marketplace.Session.{
  Db, M, ok, err, ◌>>=◌, ◌>>◌, pure, fail_if, found, query, insert, next_call,
}
use service_oriented_hw.Marketplace.Repository.Orders.{product_key}
use service_oriented_hw.Marketplace.Repository.Tx.{at_once}
use text.Mathlib.Text.{◌==◌ as same_text}

-- The body of a ProductUpdate request: every field may be left out.
pub record ProductUpdate (V : Type 0) : Type 0 where
  pub name : Option String
  pub description : Option String
  pub price : Option V
  pub stock : Option ℤ
  pub category : Option String
  pub status : Option ProductStatus

abbrev pub is_seller : Role → Bool
is_seller seller = true
is_seller _ = false

-- `claims.Role == RoleSeller && existing.SellerID != claims.UserID`
abbrev pub is_foreign : UserClaims → Uuid → Bool
is_foreign claims owner = is_seller claims.role && not (owner == claims.user_id)

-- `Status == ""`
abbrev pub is_unset : ProductStatus → Bool
is_unset unset = true
is_unset _ = false

-- `==` on two values of type `int`.
abbrev pub same_int : ℤ → ℤ → Bool
same_int a b = leb_ℤ a b && leb_ℤ b a

-- `if p != nil { field = *p }` on a field that holds its zero value.
abbrev pub or_zero : {A : Type 0} → A → Option A → A
or_zero zero none = zero
or_zero zero (some a) = a

module _ {V : Type 0} where
  -- A statement with RETURNING and the product columns: no row is `ErrNotFound`.
  unfoldable pub get_by_id : Uuid → M V (Product V)
  get_by_id id = do row ← query (λ db. find_by product_key id db.products); found row

  abbrev pub archive_row : Time → Product V → Product V
  archive_row now row = record row { status = archived; updated_at = now }

  -- `ProductRepo.Delete`: no affected row is `ErrNotFound`.
  unfoldable pub delete_row : Uuid → M V (Unit {0})
  delete_row id env s =
      if env.refuses s.calls
      then (err internal, next_call s)
      else if has_key product_key id (s.db).products
      then (
        ok tt,
        record {
          db = record (s.db) {
            products = modify_by product_key id (archive_row env.tx_time) (s.db).products;
          };
          calls = (next_call s).calls;
        },
      )
      else (err not_found, next_call s)

  -- `ProductUseCase.Delete`
  unfoldable pub delete : Uuid → UserClaims → M V (Unit {0})
  delete id claims = do
    existing ← get_by_id id
    fail_if (is_foreign claims existing.seller_id) forbidden
    at_once (delete_row id)

module _ {V : Type 0} ⦃f : Float64 V⦄ where
  abbrev pub new_row : Product V → Uuid → Time → Product V
  new_row p id now = record p {
    id = id;
    price = f.decimal_12_2 p.price;
    created_at = now;
    updated_at = now;
  }

  -- `ProductRepo.Create`
  unfoldable pub create_row : Product V → M V (Product V)
  create_row p =
      insert (λ id db. has_key product_key id db.products) (new_row p)
        (λ row db. record db { products = db.products ++ (row ∷ []) })

  -- `ProductUseCase.Create`
  unfoldable pub create : Uuid → Product V → M V (Product V)
  create seller_id p = at_once (
      create_row (record p {
        seller_id = seller_id;
        status = if is_unset p.status then active else p.status;
      }))

  abbrev pub written_row : Product V → Time → Product V → Product V
  written_row p now row = record row {
    name = p.name;
    description = p.description;
    price = f.decimal_12_2 p.price;
    stock = p.stock;
    category = p.category;
    status = p.status;
    updated_at = now;
  }

  -- `ProductRepo.Update`: the row that RETURNING gives back, or `ErrNotFound`.
  unfoldable pub update_row : Product V → M V (Product V)
  update_row p env s =
      if env.refuses s.calls
      then (err internal, next_call s)
      else elim (find_by product_key p.id (s.db).products) [
        | none ↦ (err not_found, next_call s)
        | some row ↦ (
          ok (written_row p env.tx_time row),
          record {
            db = record (s.db) {
              products = modify_by product_key p.id (written_row p env.tx_time) (s.db).products;
            };
            calls = (next_call s).calls;
          },
        )
      ]

  -- The six conditional assignments of `ProductUseCase.Update`.
  unfoldable pub merge : Product V → Product V → Product V
  merge existing upd = record existing {
    name = if same_text upd.name "" then existing.name else upd.name;
    description = elim upd.description [ none ↦ existing.description | some d ↦ some d ];
    price = if f.lt f.zero upd.price then upd.price else existing.price;
    stock =
        if leb_ℤ (pos 0) upd.stock && not (same_int upd.stock existing.stock)
        then upd.stock
        else existing.stock;
    category = if same_text upd.category "" then existing.category else upd.category;
    status = if is_unset upd.status then existing.status else upd.status;
  }

  -- `ProductUseCase.Update`
  unfoldable pub update : Uuid → UserClaims → Product V → M V (Product V)
  update id claims upd = do
    existing ← get_by_id id
    fail_if (is_foreign claims existing.seller_id) forbidden
    at_once (update_row (merge existing upd))

  -- The `domain.Product` that the handler `UpdateProduct` fills from the body, from zero values.
  unfoldable pub to_update : ProductUpdate V → Product V
  to_update body = record {
    id = 0;
    name = or_zero "" body.name;
    description = body.description;
    price = or_zero f.zero body.price;
    stock = or_zero (pos 0) body.stock;
    category = or_zero "" body.category;
    status = or_zero unset body.status;
    seller_id = 0;
    created_at = pos 0;
    updated_at = pos 0;
  }
