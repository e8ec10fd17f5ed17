-- ===== src/State/Plan.antt =====
-- internal/state/plan.go: the plan of a reasoning task, its cursor, the check of a proposal and its
-- acceptance. `reflect.DeepEqual` on a plan or a step is `same_plan` or `same_step`.
pub mod Fields
pub mod Equality
pub mod Cursor
pub mod Steps
pub mod Check
pub mod Revise
pub mod CursorLaws
pub mod EqualityLaws
pub mod History
pub mod Acceptance
pub mod Claims
pub mod Completion
