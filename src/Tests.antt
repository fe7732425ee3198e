-- ===== src/Tests.antt =====
-- The theorems at concrete inputs, and runs of the model on them.
mod Marketplace
mod UserService
mod Services
pub mod Metrics
