-- ===== src/Marketplace/Handlers/Products.antt =====
-- services/marketplace-api/internal/handlers/product.go
use service_oriented_hw.Common.{ℕ, Option, none, some, map, String, if◌then◌else◌}
use service_oriented_hw.Common.Int.{ℤ, pos}
use service_oriented_hw.Common.Float.{Float64}
use service_oriented_hw.Marketplace.Domain.{
  Uuid, Product, ProductStatus, unset, ProductFilter, UserClaims, Error, not_found, forbidden,
}
use service_oriented_hw.Marketplace.Session.{Session, Result, ok, err}
use service_oriented_hw.Marketplace.Products as Products
use service_oriented_hw.Marketplace.Products.{ProductUpdate, to_update, or_zero}
use service_oriented_hw.Marketplace.Promos.{may_create}
use service_oriented_hw.Marketplace.Listing.{Arrange, ProductList, list}
use service_oriented_hw.Marketplace.Handlers.{
  Answer, respond, reported, failure, product, product_list, empty, Handler, finish_with,
  to_product_response,
}

pub record CreateProductBody (V : Type 0) : Type 0 where
  pub name : String
  pub description : Option String
  pub price : V
  pub stock : ℤ
  pub category : String
  pub status : Option ProductStatus

-- The query parameters of `ListProducts`.
pub record ListProductsParams : Type 0 where
  pub page : Option ℤ
  pub size : Option ℤ
  pub category : Option String
  pub status : Option ProductStatus
  pub seller_id : Option Uuid

abbrev pub to_filter : ListProductsParams → ProductFilter
to_filter p = record {
  category = p.category;
  status = p.status;
  seller_id = p.seller_id;
  page = or_zero (pos 0) p.page;
  size = or_zero (pos 20) p.size;
}

-- The statuses of `UpdateProduct` and `DeleteProduct` for an error.
abbrev pub update_status : Error → ℕ
update_status not_found = 404
update_status forbidden = 403
update_status _ = 400

abbrev pub delete_status : Error → ℕ
delete_status not_found = 404
delete_status _ = 403

module _ {V : Type 0} where
  -- `err.Error()` of an error is the parameter `describe`.
  abbrev pub created : (Error → String) → Result (Product V) × Session V → Answer V × Session V
  created describe (ok p, s) = (respond 201 (product (to_product_response p)), s)
  created describe (err e, s) = (respond 400 (failure "INTERNAL_ERROR" (describe e)), s)

  unfoldable pub get_product : Uuid → Handler V
  get_product id env s =
      finish_with (λ p. respond 200 (product (to_product_response p))) (λ _. 404)
        (Products.get_by_id id env s)

  unfoldable pub delete_product : Option UserClaims → Uuid → Handler V
  delete_product none id env s =
      (respond 403 (failure "ACCESS_DENIED" "authentication required"), s)
  delete_product (some claims) id env s =
      finish_with (λ _. respond 204 empty) delete_status (Products.delete id claims env s)

  -- An error of `List` is handed to the generated server.
  abbrev pub listed : ProductFilter → Result (ProductList V) × Session V → Answer V × Session V
  listed f (ok l, s) = (
    respond 200 (
        product_list (record {
          items = map to_product_response l.items;
          total_elements = l.total_elements;
          page = f.page;
          size = f.size;
        })),
    s,
  )
  listed f (err e, s) = (reported e, s)

  unfoldable pub list_products : Arrange V → ListProductsParams → Handler V
  list_products arrange p env s = listed (to_filter p) (list arrange (to_filter p) env s)

module _ {V : Type 0} ⦃f : Float64 V⦄ where
  -- The `domain.Product` that `CreateProduct` fills from the body.
  abbrev pub to_product : CreateProductBody V → Product V
  to_product body = record {
    id = 0;
    name = body.name;
    description = body.description;
    price = body.price;
    stock = body.stock;
    category = body.category;
    status = or_zero unset body.status;
    seller_id = 0;
    created_at = pos 0;
    updated_at = pos 0;
  }

  abbrev pub sellers_only : Answer V
  sellers_only = respond 403 (failure "ACCESS_DENIED" "only SELLER or ADMIN can create products")

  unfoldable pub create_product :
      (Error → String) → Option UserClaims → CreateProductBody V → Handler V
  create_product describe none body env s = (sellers_only, s)
  create_product describe (some claims) body env s =
      if may_create claims.role
      then created describe (Products.create claims.user_id (to_product body) env s)
      else (sellers_only, s)

  unfoldable pub update_product : Option UserClaims → Uuid → ProductUpdate V → Handler V
  update_product none id body env s =
      (respond 403 (failure "ACCESS_DENIED" "authentication required"), s)
  update_product (some claims) id body env s =
      finish_with (λ p. respond 200 (product (to_product_response p))) update_status
        (Products.update id claims (to_update body) env s)
