-- ===== src/Loop/Planning/Children.antt =====
-- The child tasks of the planning commands (internal/loop/planning.go).
use grodt.Prelude.{
  ◌≤◌, ◌<◌, String, true, false, Option, none, some, ◌∷◌, inl, inr, length, leb, ◌≡◌, refl, arith,
  Bool-cases, Option-cases,
}
use mathlib.Core.Logic.{◌≢◌}
use text.Mathlib.Text.{◌==◌ as str_eq}
use grodt.State.Types.{TaskId, Status, Plan}
use grodt.State.Records.{find-insert, record_at}
use grodt.State.Store.{Context, Store, Result, ok, err, Result-cases}
use grodt.State.Tasks.{push, active, top, complete, pushed, pushed_task, set_top_status}
use grodt.State.Tasks.Push.{push-ok}
use grodt.State.Plan.Revise.{abandon_child}
use grodt.Loop.Gate.{require_snapshot_steps}
use grodt.Loop.Patch.{Outcome, done, refuse, apply_plan_patch}
use grodt.Loop.Planning.{PlanCommand, Acceptance, accept_plan, active_task}
use grodt.Loop.Planning.Manage.{
  Planner, Handling, child_created, model_tasks, is_reasoning_now, child_objective, create_child,
  finished_with, satisfied_outcome, complete_child, answered_with, patch_plan, revise_with,
  run_command, child_abandoned, child_completed, patch_refused,
}

-- The child is on top of the stack under the task that asked for it, within the limits.
pub record IsNewChild (s s' : Store) (id : TaskId) : Type 0 where
  pub asked : is_reasoning_now (active s) ≡ true
  pub stack : s'.tasks.stack ≡ id ∷ s.tasks.stack
  pub depth : length s'.tasks.stack ≤ 8
  pub tasks : model_tasks s.tasks.records < 64
  pub parent : (record_at s'.tasks.records id).parent_id ≡ top s.tasks.stack
  pub unplanned : (record_at s'.tasks.records id).plan ≡ none

pushed-IsNewChild :
    (s s' : Store) (id : TaskId) (objective : String)
    → is_reasoning_now (active s) ≡ true
    → length s.tasks.stack < 8
    → model_tasks s.tasks.records < 64
    → s'.tasks ≡ pushed s id objective "" (s.now s.tick)
    → IsNewChild s s' id
pushed-IsNewChild s s' id objective asked room few h =
    let found =
      find-insert id id (pushed_task id (top s.tasks.stack) objective "" (s.now s.tick))
        (set_top_status Status.waiting s.tasks.stack s.tasks.records) in
    record {
      asked = asked;
      stack = rw h refl;
      depth = rw h (omega (arith, room));
      tasks = few;
      parent = rw h (ground (arith, found));
      unplanned = rw h (ground (arith, found));
    }

create_child-IsNewChild :
    (w : Planner) (c : Context) (cmd : PlanCommand) (s : Store) (id : TaskId)
    → (create_child w c cmd s).1 ≡ child_created id
    → IsNewChild s (create_child w c cmd s).0 id
unfolding create_child
create_child-IsNewChild w c cmd s id h = elim (Bool-cases (is_reasoning_now (active s))) [
  | inr idle ↦ absurd (ground (arith, h, idle))
  | inl asked ↦ elim (Bool-cases (leb 8 (length s.tasks.stack))) [
    | inl deep ↦ absurd (ground (arith, h, asked, deep))
    | inr room ↦ elim (Bool-cases (leb 64 (model_tasks s.tasks.records))) [
      | inl many ↦ absurd (ground (arith, h, asked, room, many))
      | inr few ↦ elim (Result-cases (push c (child_objective cmd) "" s).1) [
        | inr (e, failed) ↦ absurd (ground (arith, h, asked, room, few, failed))
        | inl (n, pushed_now) ↦
            let (number, tasks, seq) = push-ok c (child_objective cmd) "" s pushed_now in
            let same : n ≡ id = ground (arith, h, asked, room, few, pushed_now) in
            rw (asked, room, few, pushed_now)
              (pushed-IsNewChild s (push c (child_objective cmd) "" s).0 id (child_objective cmd)
                asked (ground (arith, room)) (ground (arith, few)) (rw same at tasks))
      ]
    ]
  ]
]

finished_with-message :
    (message : Handling) (x : Store × Result (Unit {0})) (id : TaskId)
    → message ≢ child_created id
    → (finished_with message x).1 ≢ child_created id
finished_with-message message (s, ok u) id other h = other h
finished_with-message message (s, err e) id other h = absurd (ground (arith, h))

answered_with_otherwise :
    (x : Store × Acceptance) (id : TaskId) → (answered_with x).1 ≢ child_created id
answered_with_otherwise x id h = ground (arith, h)

complete_child_otherwise :
    (c : Context) (s : Store) (id : TaskId) → (complete_child c s).1 ≢ child_created id
unfolding complete_child
complete_child_otherwise c s id h = elim (Option-cases (satisfied_outcome (active s))) [
  | inl missing ↦ absurd (ground (arith, h, missing))
  | inr (outcome, found) ↦
      finished_with-message child_completed (complete c outcome s) id
        (λ e. absurd (ground (arith, e))) (rw (found, complete_child) at h)
]

patch_plan_otherwise :
    (w : Planner) (c : Context) (cmd : PlanCommand) (s : Store) (id : TaskId)
    → (patch_plan w c cmd s).1 ≢ child_created id
unfolding patch_plan
patch_plan_otherwise w c cmd s id h =
    by_patch (apply_plan_patch w.merge (active_task s).plan cmd.patch) h
  where
    by_patch :
        (o : Outcome Plan)
        → (let x : Store × Handling = elim o [
          | refuse e ↦ (s, patch_refused e)
          | done plan ↦ answered_with (accept_plan w.decode w.ask c plan cmd.revision_reason s)
        ] in
            x).1
          ≢ child_created id
    by_patch (refuse e) h = absurd (ground (arith, h))
    by_patch (done plan) h = answered_with_otherwise _ id h

revise_with_otherwise :
    (w : Planner) (c : Context) (cmd : PlanCommand) (o : Option Plan) (s : Store) (id : TaskId)
    → (revise_with w c cmd o s).1 ≢ child_created id
unfolding revise_with
revise_with_otherwise w c cmd none s id h = absurd (ground (arith, h))
revise_with_otherwise w c cmd (some plan) s id h =
    let answer = accept_plan w.decode w.ask c plan cmd.revision_reason s in
    elim (Bool-cases (require_snapshot_steps (active_task s).plan plan)) [
      | inl kept ↦ answered_with_otherwise answer id (ground (arith, h, kept))
      | inr omitted ↦ absurd (ground (arith, h, omitted))
    ]

-- No other action creates a child.
run_others :
    (w : Planner) (c : Context) (cmd : PlanCommand) (s : Store) (id : TaskId)
    → str_eq cmd.action "create_child" ≡ false
    → (run_command w c cmd s).1 ≢ child_created id
unfolding run_command
run_others w c cmd s id other h =
    let abandoned =
      finished_with-message child_abandoned (abandon_child c s) id
        (λ e. absurd (ground (arith, e))) in
    let completed = complete_child_otherwise c s id in
    let changed = patch_plan_otherwise w c cmd s id in
    let revised = revise_with_otherwise w c cmd cmd.plan s id in
    elim (Bool-cases (str_eq cmd.action "abandon_child")) [
      | inl abandons ↦ abandoned (ground (arith, h, other, abandons))
      | inr other' ↦ elim (Bool-cases (str_eq cmd.action "complete_child")) [
        | inl completes ↦ completed (ground (arith, h, other, other', completes))
        | inr others ↦ elim (Bool-cases (str_eq cmd.action "patch")) [
          | inl patches ↦ changed (ground (arith, h, other, other', others, patches))
          | inr last ↦ elim (Bool-cases (str_eq cmd.action "revise")) [
            | inl revises ↦ revised (ground (arith, h, other, other', others, last, revises))
            | inr none_left ↦ absurd (ground (arith, h, other, other', others, last, none_left))
          ]
        ]
      ]
    ]

-- If a planning command answers that a child was created, the active task was a reasoning task,
-- fewer than 64 tasks held a plan, and the child is on top of the old stack, which is then at most
-- 8 deep, under the old top and without a plan.
pub run_command-IsNewChild :
    (w : Planner) (c : Context) (cmd : PlanCommand) (s : Store) (id : TaskId)
    → (run_command w c cmd s).1 ≡ child_created id
    → IsNewChild s (run_command w c cmd s).0 id
unfolding run_command
run_command-IsNewChild w c cmd s id h = elim (Bool-cases (str_eq cmd.action "create_child")) [
  | inl creates ↦ rw creates (create_child-IsNewChild w c cmd s id (rw creates at h))
  | inr other ↦ absurd (run_others w c cmd s id other h)
]
