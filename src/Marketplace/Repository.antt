-- ===== src/Marketplace/Repository.antt =====
-- services/marketplace-api/internal/repository: the SQL statements, one function for each.
pub mod Orders
pub mod Tx
