-- ===== src/Loop/Gate.antt =====
-- internal/loop/plan_gate.go: whether a plan has work left, and what the actor is asked for if not; and
-- requireSnapshotSteps of plan_patch.go.
use text.Mathlib.Text.{◌==◌ as str_eq}
use grodt.Prelude.{Bool, false, Option, none, some, any, all, is_nil, if◌then◌else◌}
use grodt.State.Types.{Plan}
use grodt.State.Plan.Fields.{is_satisfied, is_open}

abbrev pub plan_has_unresolved_steps : Option Plan → Bool
plan_has_unresolved_steps none = false
plan_has_unresolved_steps (some plan) = any (λ step. is_open step.status) plan.steps

-- The three messages.
pub data PlanRequest : Type 0 where
  write_first_plan write_next_steps goal_not_finished : PlanRequest

abbrev pub plan_required_message : Option Plan → PlanRequest
plan_required_message none = write_first_plan
plan_required_message (some plan) =
    if is_nil plan.steps
    then write_first_plan
    else if all (λ step. is_satisfied step.status) plan.steps
    then goal_not_finished
    else write_next_steps

-- requireSnapshotSteps, true for no error: no step of the accepted plan is left out.
abbrev pub require_snapshot_steps : Option Plan → Plan → Bool
require_snapshot_steps none next = Bool.true
require_snapshot_steps (some old) next =
    all (λ step. any (λ s. str_eq s.id step.id) next.steps) old.steps
