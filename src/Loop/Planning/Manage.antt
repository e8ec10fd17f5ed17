-- ===== src/Loop/Planning/Manage.antt =====
-- managePlan and decodePlanningCommand of internal/loop/planning.go.
use Prim.Native.String.{len, ◌++◌}
use text.Mathlib.Text.{◌==◌ as str_eq}
use grodt.Prelude.{
  ℕ, ◌+◌, String, Bool, true, false, not, ◌&&◌, Option, none, some, List, [], ◌∷◌, any, length, ltb,
  leb, ◌==◌, is_empty, is_some, if◌then◌else◌,
}
use grodt.State.Types.{TaskId, Task, Plan}
use grodt.State.Records.{Records}
use grodt.State.Store.{Error, Context, Store, Result, ok, err}
use grodt.State.Tasks.{push, complete, active}
use grodt.State.Evidence.{Json}
use grodt.State.Plan.Fields.{is_satisfied}
use grodt.State.Plan.Revise.{abandon_child}
use grodt.State.Reports.{record_planning_stage}
use grodt.Loop.Gate.{require_snapshot_steps}
use grodt.Loop.Patch.{Merge, Refusal, done, refuse, apply_plan_patch}
use grodt.Loop.Planning.{
  PlanCommand, CommandProblem, validate_plan_command, Evaluators, Acceptance, accepted, active_task,
  accept_plan,
}

pub record Call : Type 0 where
  pub id : String
  pub name : String
  pub arguments : String

-- The messages of accepted commands, and the errors.
pub data Handling : Type 0 where
  child_created : TaskId → Handling
  child_abandoned child_completed plan_accepted : Handling
  flush_failed not_alone arguments_limit schema_violated : Handling
  invalid_command : CommandProblem → Handling
  no_reasoning_task lineage_limit task_limit child_not_satisfied : Handling
  store_failed : Error → Handling
  patch_refused : Refusal → Handling
  step_omitted : Handling
  plan_refused : Acceptance → Handling
  unknown_action : Handling

-- What managePlan calls outside of the store: the decoders of the arguments (for their action, and
-- against the schema), the merge of a patch, the evaluators, FlushMilestones (true for no error), a
-- document's decoder, the text of an error and the first 512 bytes of a text.
pub record Planner : Type 0 where
  pub action_of : String → Option String
  pub command_of : String → Option PlanCommand
  pub merge : Merge
  pub ask : Evaluators
  pub flush : Store → Store × Bool
  pub decode : String → Option Json
  pub text_of : Handling → String
  pub cut : String → String

abbrev pub planning_tool : String
planning_tool = "grodt_manage_plan"

abbrev pub max_argument_bytes : ℕ
max_argument_bytes = 65536

abbrev pub is_planning : List Call → Bool
is_planning calls = any (λ (k : Call). str_eq k.name planning_tool) calls

-- The action of the last planning call that has one.
unfoldable pub planned_action : Planner → String → List Call → String
planned_action w action [] = action
planned_action w action (k ∷ calls) =
    let here =
      if str_eq k.name planning_tool
      then (elim (w.action_of k.arguments) [ none ↦ action | some a ↦ a ])
      else action in
    planned_action w here calls

-- The tasks that hold a plan.
unfoldable pub model_tasks : Records → ℕ
model_tasks [] = 0
model_tasks ((k, t) ∷ records) =
    let rest = model_tasks records in if is_some t.plan then 1 + rest else rest

abbrev pub is_reasoning_now : Option Task → Bool
is_reasoning_now none = false
is_reasoning_now (some t) = not (is_some t.agent_work) && not (is_some t.work)

abbrev pub child_objective : PlanCommand → String
child_objective cmd =
    if is_empty cmd.completion_criteria
    then cmd.description
    else cmd.description ++ "\nCompletion criteria: " ++ cmd.completion_criteria

unfoldable pub create_child : Planner → Context → PlanCommand → Store → Store × Handling
unfolding model_tasks
create_child w c cmd s =
    if not (is_reasoning_now (active s))
    then (s, no_reasoning_task)
    else if leb 8 (length s.tasks.stack)
    then (s, lineage_limit)
    else if leb 64 (model_tasks s.tasks.records)
    then (s, task_limit)
    else let (s', r) = push c (child_objective cmd) "" s in
      elim r [ ok id ↦ (s', child_created id) | err e ↦ (s', store_failed e) ]

abbrev pub finished_with : Handling → Store × Result (Unit {0}) → Store × Handling
finished_with message (s, ok u) = (s, message)
finished_with message (s, err e) = (s, store_failed e)

-- The outcome of a child whose plan is satisfied.
abbrev pub satisfied_outcome : Option Task → Option String
satisfied_outcome none = none
satisfied_outcome (some t) = elim t.plan [
  | none ↦ none
  | some plan ↦
      if not (t.parent_id == 0) && is_satisfied plan.status then some plan.outcome else none
]

unfoldable pub complete_child : Context → Store → Store × Handling
complete_child c s = elim (satisfied_outcome (active s)) [
  | none ↦ (s, child_not_satisfied)
  | some outcome ↦ finished_with child_completed (complete c outcome s)
]

abbrev pub answered_with : Store × Acceptance → Store × Handling
answered_with (s, accepted) = (s, plan_accepted)
answered_with (s, problem) = (s, plan_refused problem)

unfoldable pub patch_plan : Planner → Context → PlanCommand → Store → Store × Handling
unfolding apply_plan_patch accept_plan
patch_plan w c cmd s = elim (apply_plan_patch w.merge (active_task s).plan cmd.patch) [
  | refuse e ↦ (s, patch_refused e)
  | done plan ↦ answered_with (accept_plan w.decode w.ask c plan cmd.revision_reason s)
]

-- The plan of a revision is there, by validatePlanCommand.
unfoldable pub revise_with :
    Planner → Context → PlanCommand → Option Plan → Store → Store × Handling
unfolding accept_plan
revise_with w c cmd none s = (s, invalid_command CommandProblem.invalid_fields)
revise_with w c cmd (some plan) s =
    if not (require_snapshot_steps (active_task s).plan plan)
    then (s, step_omitted)
    else answered_with (accept_plan w.decode w.ask c plan cmd.revision_reason s)

-- The `switch` on the action.
unfoldable pub run_command : Planner → Context → PlanCommand → Store → Store × Handling
unfolding create_child complete_child patch_plan revise_with
run_command w c cmd s =
    if str_eq cmd.action "create_child"
    then create_child w c cmd s
    else if str_eq cmd.action "abandon_child"
    then finished_with child_abandoned (abandon_child c s)
    else if str_eq cmd.action "complete_child"
    then complete_child c s
    else if str_eq cmd.action "patch"
    then patch_plan w c cmd s
    else if str_eq cmd.action "revise"
    then revise_with w c cmd cmd.plan s
    else (s, unknown_action)

-- decodePlanningCommand, and the command if it is valid.
unfoldable pub run_arguments : Planner → Context → String → Store → Store × Handling
unfolding run_command validate_plan_command
run_arguments w c arguments s =
    if ltb max_argument_bytes (len arguments)
    then (s, arguments_limit)
    else elim (w.command_of arguments) [
      | none ↦ (s, schema_violated)
      | some cmd ↦ elim (validate_plan_command cmd) [
        | some e ↦ (s, invalid_command e)
        | none ↦ run_command w c cmd s
      ]
    ]

abbrev pub run_alone : Planner → Context → List Call → Store → Store × Handling
run_alone w c (k ∷ []) s = if is_empty k.id then (s, not_alone) else run_arguments w c k.arguments s
run_alone w c _ s = (s, not_alone)

abbrev pub run_flushed : Planner → Context → List Call → Store → Store × Handling
run_flushed w c calls s =
    let (s', flushed) = w.flush s in if flushed then run_alone w c calls s' else (s', flush_failed)

abbrev pub is_error : Handling → Bool
is_error (child_created id) = false
is_error child_abandoned = false
is_error child_completed = false
is_error plan_accepted = false
is_error _ = true

abbrev pub stage_status : Handling → String
stage_status h = if is_error h then "rejected" else "accepted"

abbrev pub stage_reason : Planner → Handling → String
stage_reason w h = if is_error h then w.text_of h else ""

-- managePlan; `none` if there is no planning call.
unfoldable pub manage_plan : Planner → Context → List Call → Store → Store × Option Handling
unfolding planned_action run_arguments record_planning_stage
manage_plan w c calls s =
    if not (is_planning calls)
    then (s, none)
    else let t = active_task s in
      let action = planned_action w "unknown" calls in
      let started = (record_planning_stage w.cut t.id action "started" "" s).0 in
      let (s', h) = run_flushed w c calls started in
      let recorded =
        (record_planning_stage w.cut t.id action (stage_status h) (stage_reason w h) s').0 in
      (recorded, some h)
