-- ===== src/Contracts.antt =====
-- packages/contracts: what the platform and the runners exchange.
pub mod Events
pub mod Job
pub mod Package
