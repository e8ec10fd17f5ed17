-- ===== src/State.antt =====
-- internal/state: the run's state, its task stack, its plans and its journal.
pub mod Types
pub mod Records
pub mod Store
pub mod Tasks
pub mod Attempt
pub mod AgentWork
pub mod HostWork
pub mod Mutation
pub mod Http
pub mod Admission
pub mod Turns
pub mod Drain
pub mod Reports
pub mod Opening
pub mod Evidence
pub mod Plan
pub mod Reach
pub mod Journal
