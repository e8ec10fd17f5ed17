-- ===== src/Loop.antt =====
-- internal/loop: the chain of providers of one cycle, and the plans of the active task.
pub mod Process
pub mod Gate
pub mod Intent
pub mod Patch
pub mod Reconciliation
pub mod Planning
