-- ===== src/State/Tasks/Return.antt =====
-- Push of internal/state/tasks.go followed by Complete.
use grodt.Prelude.{◌+◌, ◌≤◌, ◌<◌, String, some, List, ◌∷◌, ◌≡◌, ap, ◌∙◌, arith}
use mathlib.Core.Path.{subst}
use mathlib.Core.Logic.{◌≢◌}
use grodt.State.Types.{TaskId, Status, Task}
use grodt.State.Records.{Records, insert, find-insert, record_at}
use grodt.State.Store.{ok, Context, Store, TaskState}
use grodt.State.Tasks.{push, complete, set_top_status, pushed_task, ended}
use grodt.State.Tasks.Invariant.{IsWellFormed, IsLineage, entry_of_status}
use grodt.State.Tasks.Push.{push-ok}
use grodt.State.Tasks.Finish.{finish-ok}

record_at-insert_self :
    (k : TaskId) (v : Task) (records : Records) → record_at (insert k v records) k ≡ v
record_at-insert_self k v records = ground (arith, find-insert k k v records)

record_at-insert_ne :
    (k j : TaskId) (v : Task) (records : Records)
    → k ≢ j
    → record_at (insert k v records) j ≡ record_at records j
record_at-insert_ne k j v records h = ground (arith, find-insert k j v records)

-- The four writes: the parent waits, the child is stored, the child ends, the parent runs.
child_returns :
    (records : Records) (x id : TaskId) (child : Task) (over : Task → Task)
    → (record_at records x).status ≡ some Status.running
    → x < id
    → let r₁ =
        insert id child
          (insert x (record (record_at records x) { status = some Status.waiting }) records) in
      let r₂ = insert id (over (record_at r₁ id)) r₁ in
      let r₃ = insert x (record (record_at r₂ x) { status = some Status.running }) r₂ in
      (record_at r₃ x ≡ record_at records x) × (record_at r₃ id ≡ over child)
child_returns records x id child over running older =
    let waits = record (record_at records x) { status = some Status.waiting } in
    let r₀ = insert x waits records in
    let r₁ = insert id child r₀ in
    let r₂ = insert id (over (record_at r₁ id)) r₁ in
    let there : record_at r₂ x ≡ waits =
      record_at-insert_ne id x (over (record_at r₁ id)) r₁ (omega arith)
      ∙ record_at-insert_ne id x child r₀ (omega arith)
      ∙ record_at-insert_self x waits records in
    (
      record_at-insert_self x (record (record_at r₂ x) { status = some Status.running }) r₂
          ∙ ground (arith, there, running),
      record_at-insert_ne x id (record (record_at r₂ x) { status = some Status.running }) r₂
            (omega arith)
          ∙ record_at-insert_self id (over (record_at r₁ id)) r₁
          ∙ ap over (record_at-insert_self id child r₀),
    )

-- The same over the stack of the store.
returns :
    (records grown : Records) (x id : TaskId) (stack stack' : List TaskId) (child : Task)
    (over : Task → Task)
    → (record_at records x).status ≡ some Status.running
    → x < id
    → stack' ≡ x ∷ stack
    → grown ≡ insert id child (set_top_status Status.waiting stack' records)
    → let r₃ = set_top_status Status.running stack' (insert id (over (record_at grown id)) grown) in
      (record_at r₃ x ≡ record_at records x) × (record_at r₃ id ≡ over child)
returns records grown x id stack stack' child over running older p e =
    rw (e, p) (child_returns records x id child over running older)

-- In a well-formed store with room for a number, a child that is pushed on a running parent and
-- then completed leaves the stack and the parent's record as they were, and its own record as Push
-- made it, completed with the result.
pub complete-push :
    (c c' : Context) (objective input result : String) (s : Store) (x id : TaskId)
    (stack : List TaskId)
    → IsWellFormed s.tasks s.task_sequence
    → s.task_sequence + 1 < 18446744073709551616
    → s.tasks.stack ≡ x ∷ stack
    → (push c objective input s).1 ≡ ok id
    → (complete c' result (push c objective input s).0).1 ≡ ok tt
    → let after = (complete c' result (push c objective input s).0).0.tasks in
      (after.stack ≡ s.tasks.stack)
      × (record_at after.records x ≡ record_at s.tasks.records x)
      × (record_at after.records id
          ≡ ended Status.completed result ""
              ((push c objective input s).0.now (push c objective input s).0.tick)
              (pushed_task id x objective input (s.now s.tick)))
unfolding complete
complete-push c c' objective input result s x id stack w room p pushed_ok completed_ok =
    let s' = (push c objective input s).0 in
    let (number, tasks, seq) = push-ok c objective input s pushed_ok in
    let grown : s'.tasks.stack ≡ id ∷ s.tasks.stack = ground (arith, tasks) in
    let (tasks', _, _) =
      finish-ok c' Status.completed result "" s' id s.tasks.stack grown completed_ok in
    let lineage = subst (IsLineage s.tasks.records Status.running) p w.lineage in
    let known : x ≤ s.task_sequence =
      (w.entries x (record_at s.tasks.records x)
        (entry_of_status s.tasks.records x Status.running lineage.0)).numbered in
    let r =
      returns s.tasks.records s'.tasks.records x id stack s.tasks.stack
        (pushed_task id x objective input (s.now s.tick))
        (ended Status.completed result "" (s'.now s'.tick)) lineage.0 (omega (arith, number, known))
        p (ground (arith, tasks, p)) in
    (
      ap (λ (t : TaskState). t.stack) tasks',
      ap (λ (t : TaskState). record_at t.records x) tasks' ∙ r.0,
      ap (λ (t : TaskState). record_at t.records id) tasks' ∙ r.1,
    )
