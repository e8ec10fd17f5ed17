-- ===== src/Loop/Planning.antt =====
-- internal/loop/planning.go: validatePlanCommand, acceptPlan, acceptReconciliationPlan and
-- acceptPlanWithContext; and validatePlanIntent of plan_intent.go. The evaluators and the size of what
-- is sent to them are parameters; a refusal is given without its text.
pub mod Claims
pub mod Manage
pub mod Children
pub mod Shape
pub mod Commands
use Prim.Native.String.{len}
use text.Mathlib.Text.{◌==◌ as str_eq}
use mathlib.Core.Option.{get_or}
use grodt.Prelude.{
  ℕ, ◌-◌, String, Bool, true, false, not, ◌&&◌, ◌||◌, Option, none, some, List, [], ◌∷◌, ◌++◌, any,
  ltb, ◌==◌, is_nil, is_empty, is_some, if◌then◌else◌,
}
use grodt.State.Types.{TaskId, Task, zero_task, elems, EvidenceReference, Step, Plan, PlanStatus}
use grodt.State.Store.{Context, Store, Result, ok, err}
use grodt.State.Tasks.{is_blank, active}
use grodt.State.Evidence.{Json, resolve_evidence}
use grodt.State.Plan.Fields.{is_satisfied}
use grodt.State.Plan.Cursor.{normalize_current_step}
use grodt.State.Plan.Steps.{step_at}
use grodt.State.Plan.Equality.{same_plan}
use grodt.State.Plan.Check.{check_plan, steps_of}
use grodt.State.Plan.Revise.{revise_plan, record_plan_evaluation}
use grodt.Loop.Gate.{plan_has_unresolved_steps}
use grodt.Loop.Intent.{plan_intent_changes}
use grodt.Loop.Patch.{PlanPatch}
use grodt.Loop.Reconciliation.Proposal.{retained_plan}

pub record PlanCommand : Type 0 where
  pub action : String
  pub revision_reason : String
  pub patch : Option PlanPatch
  pub plan : Option Plan
  pub description : String
  pub completion_criteria : String

pub data CommandProblem : Type 0 where
  reason_not_allowed patch_not_allowed reason_too_long invalid_fields : CommandProblem

abbrev pub has_texts : PlanCommand → Bool
has_texts c = not (is_empty c.description) || not (is_empty c.completion_criteria)

-- The `switch` on the action.
abbrev pub check_action : PlanCommand → Option CommandProblem
check_action c =
    if str_eq c.action "patch"
    then (if is_some c.patch
          && not (is_some c.plan)
          && not (has_texts c)
          && not (ltb 512 (len c.revision_reason))
        then none
        else some invalid_fields)
    else if str_eq c.action "revise"
    then (if ltb 512 (len c.revision_reason)
        then some reason_too_long
        else if is_some c.plan && not (has_texts c)
        then none
        else some invalid_fields)
    else if str_eq c.action "create_child"
    then (if not (is_some c.plan)
          && not (is_empty c.description)
          && not (ltb 512 (len c.description))
          && not (ltb 512 (len c.completion_criteria))
        then none
        else some invalid_fields)
    else if str_eq c.action "complete_child" || str_eq c.action "abandon_child"
    then (if not (is_some c.plan) && not (has_texts c) then none else some invalid_fields)
    else some invalid_fields

unfoldable pub validate_plan_command : PlanCommand → Option CommandProblem
validate_plan_command c =
    if not (str_eq c.action "revise")
      && not (str_eq c.action "patch")
      && not (is_empty c.revision_reason)
    then some reason_not_allowed
    else if not (str_eq c.action "patch") && is_some c.patch
    then some patch_not_allowed
    else check_action c

-- What an evaluator decides, with the texts that are recorded.
pub record Judgement : Type 0 where
  pub continuity_valid : Bool
  pub purpose_preserved : Bool
  pub satisfied : Bool
  pub observation : String
  pub json : String

pub record RevisionJudgement : Type 0 where
  pub valid : Bool
  pub observation : String
  pub json : String

-- The completion evaluator on a plan, its new claims and whether there is a continuity to judge, and
-- the revision evaluator on both plans, the reason and the changes; `none` is an error of Generate. A
-- store may have moved on when an answer is there. The sizes are of the revision evaluator's input
-- without and with the evidence.
pub record Evaluators : Type 0 where
  pub is_given : Bool
  pub complete : Plan → List Step → Bool → Store → Store × Option Judgement
  pub revise : Option Plan → Plan → String → List String → Store → Store × Option RevisionJudgement
  pub base_size : Option Plan → Plan → String → List String → ℕ
  pub full_size : Option Plan → Plan → String → List String → Store → ℕ

pub data Acceptance : Type 0 where
  accepted no_open_step plan_refused store_refused evidence_unresolved : Acceptance
  no_evaluator evaluator_failed continuity_rejected completion_rejected : Acceptance
  task_changed intent_unexplained reason_over_limit input_over_limit revision_rejected : Acceptance

abbrev pub max_plan_intent_input : ℕ
max_plan_intent_input = 131072

-- `p.Store.Active()` without its flag.
abbrev pub active_task : Store → Task
active_task s = get_or (active s) zero_task

-- `!ok || current.ID != active.ID`
abbrev pub has_moved : Task → Store → Bool
has_moved t s = elim (active s) [ none ↦ true | some current ↦ not (current.id == t.id) ]

-- The satisfied steps that were not, each id by the last accepted step of it.
abbrev pub was_satisfied : Option Plan → Step → Bool
was_satisfied old step = elim (step_at step.id (steps_of old)) [
  | none ↦ false
  | some previous ↦ is_satisfied previous.status
]

unfoldable pub new_claims : Option Plan → List Step → List Step
unfolding step_at
new_claims old [] = []
new_claims old (step ∷ steps) =
    let rest = new_claims old steps in
    if is_satisfied step.status && not (was_satisfied old step) then step ∷ rest else rest

abbrev pub claims_plan : Option Plan → Plan → Bool
claims_plan none plan = is_satisfied plan.status
claims_plan (some old) plan = is_satisfied plan.status && not (is_satisfied old.status)

unfoldable pub claim_references : List Step → List EvidenceReference
claim_references [] = []
claim_references (step ∷ steps) = elems step.evidence ++ claim_references steps

abbrev pub all_references : Bool → List Step → Plan → List EvidenceReference
all_references whole claims plan =
    claim_references claims ++ (if whole then elems plan.evidence else [])

abbrev pub is_unresolved : (String → Option Json) → Store → List EvidenceReference → Bool
is_unresolved decode s refs = any (λ ref. not (is_some (resolve_evidence decode s ref))) refs

abbrev pub is_unchanged_plan : Option Plan → Plan → Bool
is_unchanged_plan none plan = false
is_unchanged_plan (some old) plan = same_plan plan old

-- The end of acceptPlanWithContext, for the task `t` of its start.
unfoldable pub store_plan :
    (String → Option Json) → Context → Task → Plan → Bool → Bool → Store → Store × Acceptance
store_plan decode c t plan continuity unchanged s =
    if has_moved t s
    then (s, task_changed)
    else if continuity && (unchanged || is_unchanged_plan t.plan plan)
    then (s, accepted)
    else let (s', r) = revise_plan decode c plan s in
      elim r [ ok u ↦ (s', accepted) | err e ↦ (s', store_refused) ]

-- What follows the evaluator's answer; `claiming` says that there are new claims.
unfoldable pub judge_plan :
    (String → Option Json)
    → Context
    → Task
    → Plan
    → Bool
    → Bool
    → Bool
    → Option Judgement
    → Store
    → Store × Acceptance
unfolding store_plan
judge_plan decode c t plan claiming continuity unchanged none s = (s, evaluator_failed)
judge_plan decode c t plan claiming continuity unchanged (some d) s =
    let s' = (record_plan_evaluation d.observation d.json s).0 in
    let rejected = claiming && not d.satisfied in
    if continuity && (not d.continuity_valid || not d.purpose_preserved || rejected)
    then (s', continuity_rejected)
    else if rejected
    then (s', completion_rejected)
    else store_plan decode c t plan continuity unchanged s'

-- The part of acceptPlanWithContext on a normalized plan that has been checked.
unfoldable pub evaluate_plan :
    (String → Option Json)
    → Evaluators
    → Context
    → Task
    → Plan
    → Bool
    → Bool
    → Store
    → Store × Acceptance
unfolding new_claims claim_references judge_plan store_plan
evaluate_plan decode ask c t plan continuity unchanged s =
    let claims = new_claims t.plan plan.steps in
    let whole = claims_plan t.plan plan in
    let claiming = not (is_nil claims) || whole in
    if claiming || continuity
    then (if not ask.is_given
        then (s, no_evaluator)
        else if not continuity && is_unresolved decode s (all_references whole claims plan)
        then (s, evidence_unresolved)
        else let (s', o) = ask.complete plan claims continuity s in
          judge_plan decode c t plan claiming continuity unchanged o s')
    else store_plan decode c t plan continuity unchanged s

-- acceptPlanWithContext; `continuity` says that there is a reconciliation's input.
unfoldable pub accept_plan_with_context :
    (String → Option Json) → Evaluators → Context → Plan → Bool → Bool → Store → Store × Acceptance
unfolding evaluate_plan
accept_plan_with_context decode ask c plan continuity unchanged s =
    let t = active_task s in
    let plan' = normalize_current_step plan t.plan in
    if not unchanged && is_some (check_plan decode s plan')
    then (s, plan_refused)
    else evaluate_plan decode ask c t plan' continuity unchanged s

-- acceptReconciliationPlan on the plan that a decision proposes, `none` for no change.
unfoldable pub accept_reconciliation_plan :
    (String → Option Json)
    → Evaluators
    → Context
    → Option Plan
    → TaskId
    → Store
    → Store × Acceptance
unfolding accept_plan_with_context
accept_reconciliation_plan decode ask c delta id s = elim (active s) [
  | none ↦ (s, task_changed)
  | some t ↦
      if not (t.id == id)
      then (s, task_changed)
      else let plan = get_or delta (retained_plan t) in
        accept_plan_with_context decode ask c plan true (not (is_some delta)) s
]

-- validatePlanIntent, `accepted` for no error.
unfoldable pub validate_plan_intent :
    Evaluators → Option Plan → Plan → String → String → Store → Store × Acceptance
unfolding is_blank
validate_plan_intent ask old proposed reason source s =
    let changes = plan_intent_changes old (some proposed) source in
    if is_nil changes
    then (s, accepted)
    else if is_blank reason
    then (s, intent_unexplained)
    else if ltb 512 (len reason)
    then (s, reason_over_limit)
    else if not ask.is_given
    then (s, no_evaluator)
    else if ltb (max_plan_intent_input - 1024) (ask.base_size old proposed reason changes)
        || ltb max_plan_intent_input (ask.full_size old proposed reason changes s)
    then (s, input_over_limit)
    else let t = active_task s in
      let (s', o) = ask.revise old proposed reason changes s in
      elim o [
        | none ↦ (s', evaluator_failed)
        | some d ↦
            if has_moved t s'
            then (s', task_changed)
            else let s'' = (record_plan_evaluation d.observation d.json s').0 in
              if d.valid then (s'', accepted) else (s'', revision_rejected)
      ]

-- acceptPlan
unfoldable pub accept_plan :
    (String → Option Json) → Evaluators → Context → Plan → String → Store → Store × Acceptance
unfolding validate_plan_intent accept_plan_with_context
accept_plan decode ask c plan reason s =
    let t = active_task s in
    if is_nil plan.steps
      || not (plan_has_unresolved_steps (some plan)) && not (plan_has_unresolved_steps t.plan)
    then (s, no_open_step)
    else let (s', a) = validate_plan_intent ask t.plan plan reason "accepted_plan" s in
      elim a [
        | accepted ↦
            if has_moved t s'
            then (s', task_changed)
            else accept_plan_with_context decode ask c plan false false s'
        | problem ↦ (s', problem)
      ]
