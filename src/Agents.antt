-- ===== src/Agents.antt =====
-- packages/agents: which symbols are looked at, what is decided about each by rules or by a language
-- model, and the runs that store the decisions.
pub mod Pool
pub mod Rules
pub mod Snapshot
pub mod Llm
pub mod Repo
pub mod Service
pub mod Adopt
pub mod Chosen
pub mod Risk
pub mod Steps
pub mod Debate
pub mod Settled
pub mod Budget
mod Tests
mod Runs
