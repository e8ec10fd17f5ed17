-- ===== src/State/Tasks/Activate.antt =====
-- activate of internal/state/host.go and BeginCycle of tasks.go: their results on each path.
use mathlib.Core.Path.{subst}
use mathlib.Core.Logic.{◌≢◌}
use grodt.Prelude.{
  ℕ, ◌+◌, ◌≤◌, true, ◌⊎◌, inl, inr, some, List, [], ◌∷◌, ◌≡◌, sym, refl, arith, ◌==◌, u64, is_some,
  Bool-cases,
}
use grodt.State.Types.{TaskId, Status, Task}
use grodt.State.Records.{Records, find, insert, find-insert, record_at}
use grodt.State.Store.{Error, ok, err, Context, Store, TaskState, Result-cases}
use grodt.State.Tasks.{set_top_status, is_pending, activate, begin_cycle}
use grodt.State.Tasks.Invariant.{
  IsEntry, Entries, IsLineage, Executing, IsWellFormed, Entries-insert, IsLineage-insert,
  entry_of_status,
}
use grodt.State.Tasks.TopStatus.{
  Entries-set_top_status, IsLineage-set_top_status, Executing-set_top_status, top_known,
}
use grodt.State.Tasks.Writes.{touch-IsWellFormed}

-- The record that activate stores for the task.
abbrev pub started : Store → TaskId → Task
started s id = record (record_at s.tasks.records id) {
  started_at = some (s.now s.tick);
  status = some Status.running;
}

-- The task state that activate commits when `x` is the top over `stack`.
abbrev pub activated : Store → TaskId → TaskId → List TaskId → TaskState
activated s id x stack = record {
  records = insert id (started s id) (set_top_status Status.waiting (x ∷ stack) s.tasks.records);
  stack = id ∷ x ∷ stack;
}

module _ (c : Context) (id : TaskId) (s : Store) where
  pub activate-err :
      {e : Error}
      → (activate c id s).1 ≡ err e
      → ((activate c id s).0.tasks ≡ s.tasks)
        × ((activate c id s).0.task_sequence ≡ s.task_sequence)
        × ((activate c id s).0.journal ≡ s.journal)
  unfolding activate
  activate-err h = ground arith

  pub activate_nil : s.tasks.stack ≡ [] → (activate c id s).1 ≢ ok tt
  unfolding activate
  activate_nil p h = ground arith

  -- A success of activate: the task was pending under the top, which now waits below it.
  pub activate-ok :
      (x : TaskId) (stack : List TaskId)
      → s.tasks.stack ≡ x ∷ stack
      → (record_at s.tasks.records x).id ≡ x
      → (activate c id s).1 ≡ ok tt
      → ((activate c id s).0.tasks ≡ activated s id x stack)
        × ((activate c id s).0.task_sequence ≡ s.task_sequence)
        × (is_pending (record_at s.tasks.records id).status ≡ true)
        × ((record_at s.tasks.records id).parent_id ≡ x)
  unfolding activate
  activate-ok x stack p key h = ground arith

activated-IsWellFormed :
    (s : Store) (id x : TaskId) (stack : List TaskId)
    → is_pending (record_at s.tasks.records id).status ≡ true
    → (record_at s.tasks.records id).parent_id ≡ x
    → s.tasks.stack ≡ x ∷ stack
    → IsWellFormed s.tasks s.task_sequence
    → IsWellFormed (activated s id x stack) s.task_sequence
activated-IsWellFormed s id x stack pending child p w = record {
  entries = Entries-insert seq records id t entries (record {
    id_key = entry.id_key;
    order_key = entry.order_key;
    positive = entry.positive;
    numbered = entry.numbered;
    parent_older = entry.parent_older;
    parent_known =
        subst (λ (q : ℕ). (q ≡ 0) ⊎ (is_some (find q records) ≡ true)) (sym child) known.0;
  });
  lineage = (
    ground (arith, find-insert id id t records),
    ground (arith, find-insert id id t records),
    IsLineage-insert seq records id t Status.waiting (x ∷ stack) entries
        (omega (arith, child, entry.parent_older)) waiting,
  );
  executing = λ k e. elim (Bool-cases (id == k)) [
    | inl same ↦ inl (ground arith)
    | inr other ↦ inr (
        Executing-set_top_status s.tasks.records Status.waiting (x ∷ stack) (x ∷ stack) (λ j h. h)
          (subst (Executing s.tasks.records) p w.executing) k
          (ground (arith, find-insert id k t records)))
  ];
}
  where
    seq : ℕ
    seq = s.task_sequence

    t : Task
    t = started s id

    records : Records
    records = set_top_status Status.waiting (x ∷ stack) s.tasks.records

    lineage : IsLineage s.tasks.records Status.running (x ∷ stack)
    lineage = subst (IsLineage s.tasks.records Status.running) p w.lineage

    entry : IsEntry seq s.tasks.records id (record_at s.tasks.records id)
    entry = w.entries id (record_at s.tasks.records id) (ground arith)

    entries : Entries seq records
    entries =
        Entries-set_top_status seq s.tasks.records w.entries Status.running Status.waiting
          (x ∷ stack) lineage

    waiting : IsLineage records Status.waiting (x ∷ stack)
    waiting =
        IsLineage-set_top_status seq s.tasks.records w.entries Status.running Status.waiting
          (x ∷ stack) lineage

    known : ((x ≡ 0) ⊎ (is_some (find x records) ≡ true)) × (x ≤ seq)
    known = top_known seq records entries Status.waiting (x ∷ stack) waiting

-- The top of the stack names its own key.
pub top-id :
    (s : Store) (x : TaskId) (stack : List TaskId)
    → s.tasks.stack ≡ x ∷ stack
    → IsWellFormed s.tasks s.task_sequence
    → ((record_at s.tasks.records x).id ≡ x) × (is_some (find x s.tasks.records) ≡ true)
top-id s x stack p w =
    let l = subst (IsLineage s.tasks.records Status.running) p w.lineage in
    let there = entry_of_status s.tasks.records x Status.running l.0 in
    ((w.entries x (record_at s.tasks.records x) there).id_key, ground arith)

-- activate keeps the task state well formed, on every path.
pub activate-IsWellFormed :
    (c : Context) (id : TaskId) (s : Store)
    → IsWellFormed s.tasks s.task_sequence
    → IsWellFormed (activate c id s).0.tasks (activate c id s).0.task_sequence
activate-IsWellFormed c id s w = by_stack s.tasks.stack refl (Result-cases (activate c id s).1)
  where
    by_stack :
        (stack : List TaskId)
        → s.tasks.stack ≡ stack
        → ((u : Unit {0}) × ((activate c id s).1 ≡ ok u))
          ⊎ ((e : Error) × ((activate c id s).1 ≡ err e))
        → IsWellFormed (activate c id s).0.tasks (activate c id s).0.task_sequence
    by_stack stack p (inr (e, h)) = let (tasks, seq, _) = activate-err c id s h in rw (tasks, seq) w
    by_stack [] p (inl (u, h)) = absurd (activate_nil c id s p h)
    by_stack (x ∷ stack) p (inl (u, h)) =
        let (tasks, seq, pending, child) =
          activate-ok c id s x stack p (top-id s x stack p w).0 h in
        rw (tasks, seq) (activated-IsWellFormed s id x stack pending child p w)

-- The task state of a started cycle.
abbrev pub cycled : Store → TaskId → TaskState
cycled s id =
    let t = record_at s.tasks.records id in
    record s.tasks {
      records = insert id (record t { cycles = u64 (t.cycles + 1) }) s.tasks.records;
    }

module _ (c : Context) (s : Store) where
  -- An error of BeginCycle changes no task, no counter and no entry.
  pub begin_cycle-err :
      (stack : List TaskId) {e : Error}
      → s.tasks.stack ≡ stack
      → (begin_cycle c s).1 ≡ err e
      → (begin_cycle c s).0 ≡ s
  unfolding begin_cycle
  begin_cycle-err [] p h = ground arith
  begin_cycle-err (id ∷ stack) p h = ground arith

  -- A success counts one cycle for the run and one for the top task.
  pub begin_cycle-ok :
      (id : TaskId) (stack : List TaskId)
      → s.tasks.stack ≡ id ∷ stack
      → (begin_cycle c s).1 ≡ ok tt
      → ((begin_cycle c s).0.tasks ≡ cycled s id)
        × ((begin_cycle c s).0.task_sequence ≡ s.task_sequence)
        × ((begin_cycle c s).0.global_cycle ≡ u64 (s.global_cycle + 1))
  unfolding begin_cycle
  begin_cycle-ok id stack p h = ground arith

  begin_cycle_nil : s.tasks.stack ≡ [] → (begin_cycle c s).1 ≢ ok tt
  unfolding begin_cycle
  begin_cycle_nil p h = ground arith

-- BeginCycle keeps the task state well formed, on every path.
pub begin_cycle-IsWellFormed :
    (c : Context) (s : Store)
    → IsWellFormed s.tasks s.task_sequence
    → IsWellFormed (begin_cycle c s).0.tasks (begin_cycle c s).0.task_sequence
begin_cycle-IsWellFormed c s w = by_stack s.tasks.stack refl (Result-cases (begin_cycle c s).1)
  where
    by_stack :
        (stack : List TaskId)
        → s.tasks.stack ≡ stack
        → ((u : Unit {0}) × ((begin_cycle c s).1 ≡ ok u))
          ⊎ ((e : Error) × ((begin_cycle c s).1 ≡ err e))
        → IsWellFormed (begin_cycle c s).0.tasks (begin_cycle c s).0.task_sequence
    by_stack stack p (inr (e, h)) = rw (begin_cycle-err c s stack p h) w
    by_stack [] p (inl (u, h)) = absurd (begin_cycle_nil c s p h)
    by_stack (x ∷ stack) p (inl (u, h)) =
        let (tasks, seq, _) = begin_cycle-ok c s x stack p h in
        rw (tasks, seq)
          (touch-IsWellFormed s.tasks.records s.tasks.stack s.task_sequence x _
            (top-id s x stack p w).1
            (record { id = refl; order = refl; parent = refl; status = refl }) w)
