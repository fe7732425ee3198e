-- ===== src/Tests/Marketplace/Pages.antt =====
-- Two pages of a listing, by a database that arranges rows by insertion.
use mathlib.Core.List.{Permᴰ}
use mathlib.Core.List.Permᴰ
use service_oriented_hw.Common.{Bool, none, List, [], ◌∷◌, ℕ, if◌then◌else◌}
use service_oriented_hw.Common.Int.{pos}
use service_oriented_hw.Common.Arranged.{Arranged}
use service_oriented_hw.Marketplace.Domain.{ProductFilter}
use service_oriented_hw.Marketplace.Session.{Db}
use service_oriented_hw.Marketplace.Listing.{Arrange}
use service_oriented_hw.Tests.Marketplace.{shop, tea}

module _ {A : Type 0} (first : A → A → Bool) where
  abbrev insert_by : A → List A → List A
  insert_by x [] = x ∷ []
  insert_by x (y ∷ ys) = if first x y then x ∷ y ∷ ys else y ∷ insert_by x ys

  abbrev sort_by : List A → List A
  sort_by [] = []
  sort_by (x ∷ xs) = insert_by x (sort_by xs)

abbrev by_insertion : Arrange ℕ
by_insertion n first rows = sort_by first rows

abbrev every_product : ProductFilter
every_product = record {
  category = none;
  status = none;
  seller_id = none;
  page = pos 0;
  size = pos 0;
}

-- Coffee has come after tea.
abbrev two_products : Db ℕ
two_products = record shop {
  products = tea ∷ record tea { id = 2; name = "coffee"; created_at = pos 60 } ∷ [];
}
