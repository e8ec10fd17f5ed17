-- ===== src/State/Plan/Check.antt =====
-- CheckPlan of internal/state/plan.go: whether a proposal may replace the accepted plan.
use text.Mathlib.Text.{◌==◌ as str_eq}
use grodt.Prelude.{
  ℕ, String, Bool, true, false, not, ◌&&◌, ◌||◌, Option, none, some, List, [], length, all, any,
  leb, ◌==◌, is_empty, is_nil, is_some, if◌then◌else◌,
}
use grodt.State.Types.{elems, PlanStatus, Step, Plan, Task}
use grodt.State.Store.{
  Error, Store, no_reasoning_task, oversized_plan, revision_conflict, completed_plan_immutable,
  plan_satisfaction_claim, evidence_unresolved, removed_step_history, current_step_resolved,
  current_step_missing, plan_unresolved_steps,
}
use grodt.State.Plan.Fields.{
  bounded_text, valid_plan_status, is_satisfied, is_invalidated, is_settled, is_open, valid_gaps,
}
use grodt.State.Plan.Equality.{same_status, same_plan}
use grodt.State.Plan.Cursor.{selects_resolved}
use grodt.State.Plan.Steps.{step_at, resolves, supported, check_steps}
use grodt.State.Tasks.{active}
use grodt.State.Evidence.{Json}

-- A new step that reopens a settled plan.
abbrev pub is_renewal : Plan → Plan → Bool
is_renewal old plan =
    (elim plan.status [ PlanStatus.active ↦ true | PlanStatus.partial ↦ true | _ ↦ false ])
    && any (λ step. not (any (λ o. str_eq o.id step.id) old.steps) && is_open step.status)
        plan.steps

-- `plan` differs from a settled `old` in more than an invalidation, and renews nothing.
abbrev pub rewrites_settled : Plan → Plan → Bool
rewrites_settled old plan =
    is_settled old.status
    && not (is_renewal old plan)
    && (not (same_plan (record plan { status = old.status }) old)
        || (not (same_status plan.status old.status) && not (is_invalidated plan.status)))

-- No settled step of the accepted plan is left out. The map keeps the last step of an id.
abbrev pub removes_settled : List Step → List Step → Bool
removes_settled old steps =
    any
      (λ step.
        (elim (step_at step.id old) [ none ↦ false | some last ↦ is_settled last.status ])
        && not (any (λ o. str_eq o.id step.id) steps))
      old

unfoldable pub check_current : Plan → Option Error
check_current plan =
    if is_empty plan.current_step
    then none
    else if selects_resolved plan.current_step plan.steps
    then some current_step_resolved
    else if any (λ step. str_eq step.id plan.current_step) plan.steps
    then none
    else some current_step_missing

abbrev pub well_formed_plan : Plan → Bool
well_formed_plan plan =
    bounded_text plan.unresolved_focus false
    && bounded_text plan.description true
    && bounded_text plan.completion_criteria false
    && bounded_text plan.outcome false
    && valid_plan_status plan.status
    && valid_gaps (elems plan.information_gaps)
    && not (is_nil plan.steps)
    && leb (length plan.steps) 32
    && leb (length (elems plan.evidence)) 8

abbrev pub steps_of : Option Plan → List Step
steps_of none = []
steps_of (some plan) = plan.steps

abbrev pub revision_of : Option Plan → ℕ
revision_of none = 0
revision_of (some plan) = plan.revision

abbrev pub rewrites : Option Plan → Plan → Bool
rewrites none plan = false
rewrites (some old) plan = rewrites_settled old plan

-- The checks of the plan's own claim.
abbrev pub unsupported_plan : Plan → Bool
unsupported_plan plan =
    is_satisfied plan.status
    && not (
        supported plan.outcome plan.evidence plan.information_gaps
        && is_empty plan.unresolved_focus)

-- The checks after the loop over the steps.
unfoldable pub check_result : List Step → Plan → Option Error
unfolding check_current
check_result old plan =
    if removes_settled old plan.steps
    then some removed_step_history
    else elim (check_current plan) [
      | some e ↦ some e
      | none ↦
          if is_satisfied plan.status && not (all (λ step. is_satisfied step.status) plan.steps)
          then some plan_unresolved_steps
          else none
    ]

unfoldable pub check_against : (String → Option Json) → Store → Option Plan → Plan → Option Error
check_against decode s old plan =
    if not (well_formed_plan plan)
    then some oversized_plan
    else if not (plan.revision == revision_of old)
    then some revision_conflict
    else if rewrites old plan
    then some completed_plan_immutable
    else if unsupported_plan plan
    then some plan_satisfaction_claim
    else if not (resolves decode s (elems plan.evidence))
    then some evidence_unresolved
    else elim (check_steps decode s (steps_of old) [] plan.steps) [
      | some e ↦ some e
      | none ↦ check_result (steps_of old) plan
    ]

-- `!ok || t.AgentWork != nil || t.Work != nil`
abbrev pub is_reasoning : Task → Bool
is_reasoning t = not (is_some t.agent_work) && not (is_some t.work)

-- CheckPlan: `none` accepts.
unfoldable pub check_plan : (String → Option Json) → Store → Plan → Option Error
check_plan decode s plan = elim (active s) [
  | none ↦ some no_reasoning_task
  | some t ↦ if is_reasoning t then check_against decode s t.plan plan else some no_reasoning_task
]
