-- ===== src/Marketplace/Listing/Pages.antt =====
-- The pages of a listing.
use service_oriented_hw.Common.{◌⊎◌, All, ℕ, zero, suc, ◌≡◌, Bool, true, ◌||◌, List, [], ◌∷◌, ◌++◌}
use mathlib.Core.List.{Permᴰ}
use service_oriented_hw.Common.Arranged.{Arranged}
use service_oriented_hw.Common.Int.{◌≤ℤ◌, ◌<ℤ◌, pos}
use service_oriented_hw.Marketplace.Domain.{Product, ProductFilter}
use service_oriented_hw.Marketplace.Session.{Db, Env, Session, Result, ok, err}
use service_oriented_hw.Marketplace.Listing.{Arrange, ProductList, list}

-- What is documented of ORDER BY: the rows are rearranged, and one stands before another only where
-- the comparison lets it, if the comparison takes two rows one way or the other.
pub record IsOrderBy {V : Type 0} (arrange : Arrange V) : Type 0 where
  pub rearranges :
      (n : ℕ) (first : Product V → Product V → Bool) (rows : List (Product V))
      → Permᴰ (arrange n first rows) rows
  pub arranges :
      (n : ℕ) (first : Product V → Product V → Bool) (rows : List (Product V))
      → ((p q : Product V) → (first p q || first q p) ≡ true)
      → ((p q r : Product V) → first p q ≡ true → first q r ≡ true → first p r ≡ true)
      → Arranged first (arrange n first rows)

-- No product stands before one that is newer.
abbrev pub NewestFirst : {V : Type 0} → List (Product V) → Type 0
NewestFirst [] = Unit
NewestFirst (p ∷ ps) = All (λ q. q.created_at ≤ℤ p.created_at) ps × NewestFirst ps

-- No two products are of one time.
abbrev pub DistinctTimes : {V : Type 0} → List (Product V) → Type 0
DistinctTimes [] = Unit
DistinctTimes (p ∷ ps) =
    All (λ q. (p.created_at <ℤ q.created_at) ⊎ (q.created_at <ℤ p.created_at)) ps × DistinctTimes ps

-- The pages are asked for one after the other, each in an environment of its own and with calls of
-- its own, and the products stay as they are.
module _ {V : Type 0} (arrange : Arrange V) (envs : ℕ → Env) (calls : ℕ → ℕ) (d : Db V) where
  abbrev pub page_of : ProductFilter → ℕ → ℕ → ProductFilter
  page_of f n k = record f { page = pos k; size = pos n }

  abbrev session : ℕ → Session V
  session k = record { db = d; calls = calls k }

  abbrev pub items_of : Result (ProductList V) → List (Product V)
  items_of (ok l) = l.items
  items_of (err e) = []

  -- The items of so many pages, one after the other.
  abbrev pub first_pages : ProductFilter → ℕ → ℕ → List (Product V)
  first_pages f n zero = []
  first_pages f n (suc k) =
      first_pages f n k ++ items_of (list arrange (page_of f n k) (envs k) (session k)).0
