-- ===== src/Live.antt =====
-- packages/live: orders for the real broker wait in a queue until a person confirms them.
pub mod Models
pub mod Repo
pub mod Broker
pub mod Miniqmt
pub mod Service
mod Table
mod Writes
pub mod Final
pub mod Once
pub mod Handed
pub mod Rows
pub mod Confirm
mod Tests
