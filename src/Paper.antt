-- ===== src/Paper.antt =====
-- packages/papertrade: the simulated account. Orders wait for the next trading day's open, are
-- filled or rejected, and every account is valued at the close.
pub mod Models
pub mod Engine
pub mod Repo
pub mod Ports
pub mod Service
mod Rounds
mod Table
pub mod Reconcile
pub mod Distinct
pub mod Invariant
pub mod Reach
pub mod Decided
pub mod Filled
pub mod Measures
pub mod Valued
pub mod Settle
pub mod Placing
mod Tests
