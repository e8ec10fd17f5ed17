-- ===== src/State/Plan/Revise.antt =====
-- internal/state/plan.go: acceptance of a plan, abandoning a child and completing the objective.
use grodt.Prelude.{
  ℕ, zero, suc, ◌+◌, String, Bool, false, not, ◌&&◌, Option, none, some, [], ◌∷◌, length, map, ◌==◌,
  u64, if◌then◌else◌,
}
use grodt.State.Types.{TaskId, Slice, Status, Step, Plan, Task}
use grodt.State.Records.{insert, record_at}
use grodt.State.Store.{
  Context, of_evaluation, task_entry, Op, ◌>>=◌, ◌>>◌, raise, raise_if, refuse, choose, get,
  append_entry, check, commit_tasks, not_reasoning_child, no_active_objective,
  active_execution_work, out_of_fuel,
}
use grodt.State.Tasks.{top, active, finish, complete}
use grodt.State.Plan.Fields.{is_satisfied}
use grodt.State.Plan.Cursor.{advance_current_step, normalize_current_step}
use grodt.State.Plan.Check.{is_reasoning, check_plan}
use grodt.State.Evidence.{Json}

-- The copy by an encoding round trip: `omitempty` leaves an empty slice out, and it comes back nil.
abbrev pub owned_slice : {A : Type 0} → Slice A → Slice A
owned_slice none = none
owned_slice (some []) = none
owned_slice (some (x ∷ xs)) = some (x ∷ xs)

abbrev pub owned_step : Step → Step
owned_step step = record step {
  evidence = owned_slice step.evidence;
  information_gaps = owned_slice step.information_gaps;
}

abbrev pub owned : Plan → Plan
owned plan = record plan {
  evidence = owned_slice plan.evidence;
  information_gaps = owned_slice plan.information_gaps;
  steps = map owned_step plan.steps;
}

-- `active, _ := s.Active(); active.Plan`
abbrev pub active_plan : Option Task → Option Plan
active_plan none = none
active_plan (some t) = t.plan

-- The plan that RevisePlan stores for a checked proposal.
abbrev pub accepted : Plan → Plan
accepted plan =
    let advanced = advance_current_step plan in
    owned (record advanced { revision = u64 (advanced.revision + 1) })

unfoldable pub revise_plan : (String → Option Json) → Context → Plan → Op Unit
unfolding check commit_tasks
revise_plan decode c plan = do
  check c
  s ← get
  let proposal = normalize_current_step plan (active_plan (active s))
  raise_if (check_plan decode s proposal)
  let id = top s.tasks.stack
  let t = record (record_at s.tasks.records id) { plan = some (accepted proposal) }
  commit_tasks c (record s.tasks { records = insert id t s.tasks.records }) "task_plan_revised" id

-- `!ok || t.ParentID == "" || t.AgentWork != nil || t.Work != nil`
abbrev pub is_reasoning_child : Option Task → Bool
is_reasoning_child none = false
is_reasoning_child (some t) = not (t.parent_id == 0) && is_reasoning t

unfoldable pub abandon_child : Context → Op Unit
abandon_child c = do
  s ← get
  refuse (not (is_reasoning_child (active s))) not_reasoning_child
  finish c Status.incomplete "" "abandoned"

abbrev pub id_of : Option Task → TaskId
id_of none = 0
id_of (some t) = t.id

unfoldable pub record_plan_evaluation : String → String → Op Unit
unfolding append_entry active
record_plan_evaluation proposal decision = do
  s ← get
  append_entry
      (task_entry "task_plan_evaluated" (id_of (active s)) (of_evaluation proposal decision))

-- The outcome of a satisfied plan.
abbrev pub satisfied_outcome : Option Plan → Option String
satisfied_outcome none = none
satisfied_outcome (some plan) = if is_satisfied plan.status then some plan.outcome else none

abbrev pub close_child : Context → Option String → Op Unit
close_child c none = abandon_child c
close_child c (some outcome) = complete c outcome

-- The body of the loop of CompleteObjective: `again` is the next turn.
abbrev pub complete_turn : Context → String → Op Unit → Option Task → Op Unit
complete_turn c result again none = raise no_active_objective
complete_turn c result again (some t) = choose (t.parent_id == 0) (complete c result) (
    choose (not (is_reasoning t)) (raise active_execution_work)
      (close_child c (satisfied_outcome t.plan) >> again))

-- The loop, with fuel.
unfoldable pub complete_turns : ℕ → Context → String → Op Unit
complete_turns zero c result = raise out_of_fuel
complete_turns (suc fuel) c result = do
  s ← get
  complete_turn c result (complete_turns fuel c result) (active s)

-- A turn for each task of the stack, and one that finds none.
unfoldable pub complete_objective : Context → String → Op Unit
unfolding complete_turns
complete_objective c result s = complete_turns (suc (length s.tasks.stack)) c result s
