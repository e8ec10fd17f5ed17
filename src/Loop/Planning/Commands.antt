-- ===== src/Loop/Planning/Commands.antt =====
-- The task state under the commands of managePlan (internal/loop/planning.go).
use Prim.Native.String.{len}
use text.Mathlib.Text.{◌==◌ as str_eq}
use grodt.Prelude.{
  ◌+◌, ◌<◌, String, Bool, true, false, not, Option, none, some, List, [], ◌∷◌, inl, inr, ◌≡◌, refl,
  if◌then◌else◌, ltb, leb, length, is_empty, Option-cases,
}
use grodt.State.Types.{TaskId, Plan, Status}
use grodt.State.Store.{
  Context, Store, Result, Entry, ok, err, when, append_entry, task_entry, of_stage,
}
use grodt.State.Tasks.{push, complete, active}
use grodt.State.Tasks.Push.{push-IsWellFormed}
use grodt.State.Tasks.Finish.{finish-IsWellFormed}
use grodt.State.Plan.Revise.{abandon_child}
use grodt.State.Plan.Completion.{abandon_child-keeps}
use grodt.State.Reports.{record_planning_stage, is_one_of, stage_action}
use grodt.Loop.Gate.{require_snapshot_steps}
use grodt.Loop.Patch.{Outcome, done, refuse, apply_plan_patch}
use grodt.Loop.Planning.{
  PlanCommand, validate_plan_command, Acceptance, accepted, accept_plan, active_task,
}
use grodt.Loop.Planning.Shape.{Shaped, KeepShape, Shaped-if, accept_plan-Shaped}
use grodt.Loop.Planning.Manage.{
  Planner, Call, Handling, child_created, model_tasks, is_reasoning_now, child_objective,
  create_child, finished_with, satisfied_outcome, complete_child, answered_with, patch_plan,
  revise_with, run_command, run_arguments, run_alone, run_flushed, manage_plan, child_abandoned,
  child_completed, store_failed, patch_refused, is_planning, planned_action, stage_status,
  stage_reason, max_argument_bytes,
}

-- A well-formed task state with room for a task.
pub record HasPlace (s : Store) : Type 0 where
  pub shape : Shaped s
  pub room : s.task_sequence + 1 < 18446744073709551616

pushed-Shaped :
    (s : Store) (r : Result TaskId)
    → Shaped s
    → Shaped
        (let x : Store × Handling = elim r [
          | ok id ↦ (s, child_created id)
          | err e ↦ (s, store_failed e)
        ] in
          x).0
pushed-Shaped s (ok id) h = h
pushed-Shaped s (err e) h = h

finished_with-Shaped :
    (message : Handling) (x : Store × Result (Unit {0}))
    → Shaped x.0
    → Shaped (finished_with message x).0
finished_with-Shaped message (s, ok u) h = h
finished_with-Shaped message (s, err e) h = h

answered_with-Shaped : (x : Store × Acceptance) → Shaped x.0 → Shaped (answered_with x).0
answered_with-Shaped (s, accepted) h = h
answered_with-Shaped (s, _) h = h

module _ (w : Planner) (keeps : KeepShape w.ask) (c : Context) where
  create_child-Shaped :
      (cmd : PlanCommand) (s : Store) → HasPlace s → Shaped (create_child w c cmd s).0
  unfolding create_child
  create_child-Shaped cmd s h = Shaped-if (not (is_reasoning_now (active s))) _ _ h.shape (
      Shaped-if (leb 8 (length s.tasks.stack)) _ _ h.shape (
        Shaped-if (leb 64 (model_tasks s.tasks.records)) _ _ h.shape (
          pushed-Shaped (push c (child_objective cmd) "" s).0 (push c (child_objective cmd) "" s).1
            (push-IsWellFormed c (child_objective cmd) "" s h.room h.shape))))

  abandon_child-Shaped : (s : Store) → Shaped s → Shaped (abandon_child c s).0
  abandon_child-Shaped s h =
      abandon_child-keeps Shaped c
        (λ status result code s over h. finish-IsWellFormed c status result code s over h) s h

  complete_child-Shaped : (s : Store) → Shaped s → Shaped (complete_child c s).0
  unfolding complete complete_child
  complete_child-Shaped s h = elim (Option-cases (satisfied_outcome (active s))) [
    | inl missing ↦ rw (missing, complete_child) h
    | inr (outcome, found) ↦
        rw (found, complete_child)
          (finished_with-Shaped child_completed (complete c outcome s)
            (finish-IsWellFormed c Status.completed outcome "" s refl h))
  ]

  patch_plan-Shaped : (cmd : PlanCommand) (s : Store) → Shaped s → Shaped (patch_plan w c cmd s).0
  unfolding patch_plan
  patch_plan-Shaped cmd s h = by_patch (apply_plan_patch w.merge (active_task s).plan cmd.patch)
    where
      by_patch :
          (o : Outcome Plan)
          → Shaped
              (let x : Store × Handling = elim o [
                | refuse e ↦ (s, patch_refused e)
                | done plan ↦
                    answered_with (accept_plan w.decode w.ask c plan cmd.revision_reason s)
              ] in
                x).0
      by_patch (refuse e) = h
      by_patch (done plan) =
          answered_with-Shaped _
            (accept_plan-Shaped w.ask keeps w.decode c plan cmd.revision_reason s h)

  revise_with-Shaped :
      (cmd : PlanCommand) (o : Option Plan) (s : Store)
      → Shaped s
      → Shaped (revise_with w c cmd o s).0
  unfolding revise_with
  revise_with-Shaped cmd none s h = h
  revise_with-Shaped cmd (some plan) s h =
      Shaped-if (not (require_snapshot_steps (active_task s).plan plan)) _ _ h (
        answered_with-Shaped (accept_plan w.decode w.ask c plan cmd.revision_reason s)
          (accept_plan-Shaped w.ask keeps w.decode c plan cmd.revision_reason s h))

  run_command-Shaped :
      (cmd : PlanCommand) (s : Store) → HasPlace s → Shaped (run_command w c cmd s).0
  unfolding run_command
  run_command-Shaped cmd s h =
      Shaped-if (str_eq cmd.action "create_child") _ _ (create_child-Shaped cmd s h) (
        Shaped-if (str_eq cmd.action "abandon_child") _ _
          (finished_with-Shaped child_abandoned (abandon_child c s)
            (abandon_child-Shaped s h.shape))
          (Shaped-if (str_eq cmd.action "complete_child") _ _ (complete_child-Shaped s h.shape) (
            Shaped-if (str_eq cmd.action "patch") _ _ (patch_plan-Shaped cmd s h.shape) (
              Shaped-if (str_eq cmd.action "revise") _ _ (revise_with-Shaped cmd cmd.plan s h.shape)
                h.shape))))

  run_arguments-Shaped :
      (arguments : String) (s : Store) → HasPlace s → Shaped (run_arguments w c arguments s).0
  unfolding run_arguments
  run_arguments-Shaped arguments s h =
      Shaped-if (ltb max_argument_bytes (len arguments)) _ _ h.shape
        (elim (Option-cases (w.command_of arguments)) [
          | inl missing ↦ rw missing h.shape
          | inr (cmd, found) ↦ elim (Option-cases (validate_plan_command cmd)) [
            | inl fine ↦ rw (found, fine) (run_command-Shaped cmd s h)
            | inr (e, bad) ↦ rw (found, bad) h.shape
          ]
        ])

  run_alone-Shaped : (calls : List Call) (s : Store) → HasPlace s → Shaped (run_alone w c calls s).0
  run_alone-Shaped [] s h = h.shape
  run_alone-Shaped (k ∷ []) s h =
      Shaped-if (is_empty k.id) _ _ h.shape (run_arguments-Shaped k.arguments s h)
  run_alone-Shaped (k ∷ l ∷ calls) s h = h.shape

when-append_entry :
    (b : Bool) (e : Entry) (s : Store)
    → ((when b (append_entry e) s).0.tasks ≡ s.tasks)
      × ((when b (append_entry e) s).0.task_sequence ≡ s.task_sequence)
unfolding append_entry
when-append_entry true e s = (refl, refl)
when-append_entry false e s = (refl, refl)

record_planning_stage_same :
    (cut : String → String) (id : TaskId) (action status reason : String) (s : Store)
    → ((record_planning_stage cut id action status reason s).0.tasks ≡ s.tasks)
      × ((record_planning_stage cut id action status reason s).0.task_sequence ≡ s.task_sequence)
unfolding record_planning_stage
record_planning_stage_same cut id action status reason s =
    when-append_entry (is_one_of ("started" ∷ "accepted" ∷ "rejected" ∷ []) status)
      (task_entry "planning_stage" id (
        of_stage (stage_action action) status
          (if ltb 512 (len reason) then cut reason else reason)))
      s

-- If the task state is well formed with room for a task, the flush of the milestones keeps it so,
-- and the evaluators leave a well-formed task state well formed, then managePlan leaves the task
-- state well formed, whatever the calls are and whether they are refused or not.
pub manage_plan-Shaped :
    (w : Planner) (c : Context) (calls : List Call) (s : Store)
    → KeepShape w.ask
    → ((s : Store) → HasPlace s → HasPlace (w.flush s).0)
    → HasPlace s
    → Shaped (manage_plan w c calls s).0
unfolding manage_plan
manage_plan-Shaped w c calls s keeps flushes h =
    let t = active_task s in
    let action = planned_action w "unknown" calls in
    let (tasks, numbers) = record_planning_stage_same w.cut t.id action "started" "" s in
    let started = (record_planning_stage w.cut t.id action "started" "" s).0 in
    let place : HasPlace started = record {
      shape = rw (tasks, numbers) h.shape;
      room = rw numbers h.room;
    } in
    let flushed = flushes started place in
    let run = run_flushed w c calls started in
    let kept : Shaped run.0 =
      Shaped-if (w.flush started).1 _ _
        (run_alone-Shaped w keeps c calls (w.flush started).0 flushed) flushed.shape in
    let (tasks', numbers') =
      record_planning_stage_same w.cut t.id action (stage_status run.1) (stage_reason w run.1)
        run.0 in
    Shaped-if (not (is_planning calls)) _ _ h.shape (rw (tasks', numbers') kept)
