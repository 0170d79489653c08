-- ===== src/Research.antt =====
-- packages/research: research jobs, run elsewhere by a runner that reports by signed messages, and
-- the strategies that come of them.
pub mod Models
pub mod Repo
pub mod Ports
pub mod Session
pub mod Create
pub mod Jobs
pub mod Decode
pub mod Reports
pub mod Probe
pub mod Expr
pub mod Validator
pub mod Ranking
pub mod Strategies
pub mod Calls
mod Table
pub mod Replay
mod Induct
mod Moves
pub mod Probing
mod Life
mod Course
pub mod Fate
pub mod Specs
pub mod Unique
pub mod Reach
pub mod Finished
pub mod Ssh
pub mod Remote
pub mod Named
pub mod Secret
pub mod Local
mod Began
pub mod Reconnect
pub mod Cleaned
mod Steady
pub mod Closed
mod Tests
mod Remotes
mod Locals
