-- ===== src/Datahub.antt =====
-- packages/datahub: market data: the codes of symbols.py, the tables, and their synchronisation.
pub mod Symbols
pub mod Forms
pub mod Upsert
pub mod Repo
pub mod Sync
pub mod Account
pub mod Unrecorded
mod Tests
mod Syncs
