-- ===== src/Marketplace/Supply/Tables.antt =====
-- How each write to the tables moves the stock and the held quantity.
use mathlib.Core.Option
use service_oriented_hw.Common.{
  ◌≡◌, refl, ap, ◌∙◌, true, false, not, List, [], ◌∷◌, ◌++◌, ◌==◌, if◌then◌else◌, All, keep_if,
  arith, Bool-cases, inl, inr, ==_iff,
}
use service_oriented_hw.Common.Int.{ℤ, ◌+ℤ◌, int_laws}
use service_oriented_hw.Common.Table.{find_by, modify_by, has_key, find_by-modify_by}
use service_oriented_hw.Marketplace.Domain.{Uuid, Time, Product, Order, OrderItem}
use service_oriented_hw.Marketplace.Repository.Orders.{product_key, set_stock, belongs_to}
use service_oriented_hw.Marketplace.Supply.{stock_of, stock_in, ordered, is_open, held}

module _ {V : Type 0} where
  written :
      (p k : Uuid) (new : ℤ → ℤ) (now : Time) (products : List (Product V))
      → has_key product_key k products ≡ true
      → stock_of (
          if k == p
          then Option.map (λ q. set_stock (new q.stock) now q) (find_by product_key p products)
          else find_by product_key p products)
        ≡ (if k == p then new (stock_in p products) else stock_in p products)
  written p k new now products h = ground (arith, ==_iff k p)

  -- A write of one product's stock is seen at that product and nowhere else.
  pub stock_in_write :
      (p k : Uuid) (new : ℤ → ℤ) (now : Time) (products : List (Product V))
      → has_key product_key k products ≡ true
      → stock_in p (modify_by product_key k (λ q. set_stock (new q.stock) now q) products)
        ≡ (if k == p then new (stock_in p products) else stock_in p products)
  stock_in_write p k new now products h =
      ap stock_of (
        find_by-modify_by product_key p k (λ q. set_stock (new q.stock) now q) products (λ q. refl))
      ∙ written p k new now products h

  pub ordered-append :
      (p : Uuid) (xs ys : List (OrderItem V)) → ordered p (xs ++ ys) ≡ ordered p xs +ℤ ordered p ys
  ordered-append p [] ys = omega int_laws
  ordered-append p (x ∷ xs) ys = grind (int_laws, ordered-append p xs ys)

  pub held-append :
      (p : Uuid) (orders : List (Order V)) (xs ys : List (OrderItem V))
      → held p orders (xs ++ ys) ≡ held p orders xs +ℤ held p orders ys
  held-append p orders [] ys = omega int_laws
  held-append p orders (x ∷ xs) ys = grind (int_laws, held-append p orders xs ys)

  -- All items of one open order are held.
  pub held_of_open :
      (p id : Uuid) (orders : List (Order V)) (items : List (OrderItem V))
      → is_open id orders ≡ true
      → All (λ it. it.order_id ≡ id) items
      → held p orders items ≡ ordered p items
  held_of_open p id orders [] o h = refl
  held_of_open p id orders (it ∷ items) o h =
      rw (h.0, o) (grind (arith, held_of_open p id orders items o h.1))

  -- Orders that agree on which of the items' orders are open hold the same.
  pub held_congr :
      (p : Uuid) (orders orders' : List (Order V)) (items : List (OrderItem V))
      → All (λ it. is_open it.order_id orders' ≡ is_open it.order_id orders) items
      → held p orders' items ≡ held p orders items
  held_congr p orders orders' [] h = refl
  held_congr p orders orders' (it ∷ items) h = rw (h.0, held_congr p orders orders' items h.1)

  -- The items of one open order, taken apart from the others.
  pub held_split :
      (p id : Uuid) (orders : List (Order V)) (items : List (OrderItem V))
      → is_open id orders ≡ true
      → held p orders items
        ≡ held p orders (keep_if (λ it. not (belongs_to id it)) items)
          +ℤ ordered p (keep_if (belongs_to id) items)
  held_split p id orders [] o = omega int_laws
  held_split p id orders (it ∷ items) o = elim (Bool-cases (belongs_to id it)) [
    | inl mine ↦
        rw (mine, (==_iff it.order_id id).0 mine, o)
          (grind (int_laws, held_split p id orders items o))
    | inr other ↦ rw other (grind (int_laws, held_split p id orders items o))
  ]

  -- Without an order, its items are held no longer, and nothing else changes.
  pub held_without :
      (p id : Uuid) (orders orders' : List (Order V)) (items : List (OrderItem V))
      → is_open id orders' ≡ false
      → ((j : Uuid) → (id == j) ≡ false → is_open j orders' ≡ is_open j orders)
      → held p orders' items ≡ held p orders (keep_if (λ it. not (belongs_to id it)) items)
  held_without p id orders orders' [] c same = refl
  held_without p id orders orders' (it ∷ items) c same =
      grind (arith, held_without p id orders orders' items c same)
