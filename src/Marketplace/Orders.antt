-- ===== src/Marketplace/Orders.antt =====
-- services/marketplace-api/internal/usecases/order.go: the order use cases.
pub mod Discount
pub mod Usecase
pub mod Access
pub mod Liveness
pub mod Second
pub mod RateLimit
pub mod Placing
