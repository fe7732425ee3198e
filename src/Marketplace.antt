-- ===== src/Marketplace.antt =====
-- marketplace-api (services/marketplace-api): the catalogue, orders and promo codes.
pub mod Domain
pub mod Config
pub mod Session
pub mod Repository
pub mod Orders
pub mod Supply
pub mod Usage
pub mod Products
pub mod Promos
pub mod Listing
pub mod Handlers
pub mod System
pub mod UserClient
pub mod Auth
pub mod Router
pub mod Overlap
pub mod Logging
pub mod Metrics
