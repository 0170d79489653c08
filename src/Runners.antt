-- ===== src/Runners.antt =====
-- runners/: the process that runs a research job elsewhere and reports to the platform, with the
-- frameworks replaced by their stubs.
pub mod Reporter
pub mod Runner
pub mod Steps
pub mod Numbered
pub mod Ending
pub mod Completed
pub mod Delivered
mod Tests
mod Deliveries
