-- ===== src/Tests/Marketplace/Placing.antt =====
-- An order that succeeds.
use service_oriented_hw.Common.{ℕ, ◌≡◌, refl, none, arith}
use service_oriented_hw.Common.Int.{pos, +ℤ_parts}
use service_oriented_hw.Marketplace.Domain.{Order}
use service_oriented_hw.Marketplace.Session.{ok}
use service_oriented_hw.Marketplace.Orders.Usecase.{create}
use service_oriented_hw.Marketplace.Orders.Placing.{Covers, priced}
use service_oriented_hw.Marketplace.Orders.Placing.Create.{create_succeeds}
use service_oriented_hw.Marketplace.Orders.Placing.Rows.{IsPlaced}
use service_oriented_hw.Tests.Marketplace.{four_teas, shop, calm, opening, thousandths}

shop-Covers : Covers shop.products four_teas
shop-Covers = record {
  on_sale = (refl, tt);
  counts = (ground arith, tt);
  enough = λ p. ground (arith, +ℤ_parts (pos 4) (pos 0));
}

create_succeeds_example :
    (o : Order ℕ) × ((create (pos 1) 60 four_teas none calm opening).0 ≡ ok o)
    × IsPlaced 60 (priced shop.products four_teas) o
create_succeeds_example =
    create_succeeds calm (λ n. refl) (λ m n same. omega (arith, same)) (pos 1) 60 four_teas opening
      refl refl refl shop-Covers (λ n. refl) (λ n. refl)
