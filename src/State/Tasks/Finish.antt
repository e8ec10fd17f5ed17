-- ===== src/State/Tasks/Finish.antt =====
-- finish of internal/state/tasks.go: its result on each path.
use grodt.Prelude.{
  ℕ, String, true, false, ◌⊎◌, inl, inr, some, List, [], ◌∷◌, ◌≡◌, refl, arith, ◌==◌, is_some,
  Bool-cases,
}
use mathlib.Core.Path.{subst}
use mathlib.Core.Logic.{◌≢◌}
use grodt.State.Types.{TaskId, Status, Task}
use grodt.State.Records.{Records, insert, find-insert, record_at}
use grodt.State.Store.{Error, ok, err, Context, Store, TaskState, Result-cases}
use grodt.State.Tasks.{top, set_top_status, ended, pending_child, finish}
use grodt.State.Tasks.Invariant.{
  IsEntry, Entries, IsLineage, OnStack, IsWellFormed, Entries-insert, IsLineage-insert,
  is_executing, entry_of_status,
}
use grodt.State.Tasks.TopStatus.{
  Entries-set_top_status, IsLineage-set_top_status, Executing-set_top_status,
}

-- The task state that finish commits when `id` is the top over `stack`.
abbrev pub finished : Store → Status → String → String → TaskId → List TaskId → TaskState
finished s status result code id stack = record {
  records = set_top_status Status.running stack (
      insert id (ended status result code (s.now s.tick) (record_at s.tasks.records id))
        s.tasks.records);
  stack = stack;
}

module _ (c : Context) (status : Status) (result code : String) (s : Store) where
  -- An error of finish leaves the tasks, their numbers and the journal alone.
  pub finish-err :
      (stack : List TaskId) {e : Error}
      → s.tasks.stack ≡ stack
      → (finish c status result code s).1 ≡ err e
      → ((finish c status result code s).0.tasks ≡ s.tasks)
        × ((finish c status result code s).0.task_sequence ≡ s.task_sequence)
        × ((finish c status result code s).0.journal ≡ s.journal)
  unfolding finish
  finish-err [] p h = ground arith
  finish-err (id ∷ stack) p h = ground arith

  -- A success of finish pops the top, which had no pending child.
  pub finish-ok :
      (id : TaskId) (stack : List TaskId)
      → s.tasks.stack ≡ id ∷ stack
      → (finish c status result code s).1 ≡ ok tt
      → ((finish c status result code s).0.tasks ≡ finished s status result code id stack)
        × ((finish c status result code s).0.task_sequence ≡ s.task_sequence)
        × (is_some (pending_child s id) ≡ false)
  unfolding finish
  finish-ok id stack p h = ground arith

  pub finish_nil : s.tasks.stack ≡ [] → (finish c status result code s).1 ≢ ok tt
  unfolding finish
  finish_nil p h = ground arith

finished-IsWellFormed :
    (s : Store) (status : Status) (result code : String) (id : TaskId) (stack : List TaskId)
    → is_executing (some status) ≡ false
    → s.tasks.stack ≡ id ∷ stack
    → IsWellFormed s.tasks s.task_sequence
    → IsWellFormed (finished s status result code id stack) s.task_sequence
finished-IsWellFormed s status result code id stack over p w = record {
  entries = Entries-set_top_status seq records entries Status.waiting Status.running stack waiting;
  lineage =
      IsLineage-set_top_status seq records entries Status.waiting Status.running stack waiting;
  executing =
      Executing-set_top_status records Status.running stack stack (λ k h. h)
        λ k e. elim (Bool-cases (id == k)) [
          | inl same ↦ absurd (ground (arith, find-insert id k t s.tasks.records))
          | inr other ↦ elim (on_stack k (ground (arith, find-insert id k t s.tasks.records))) [
            | inl top ↦ absurd (ground arith)
            | inr below ↦ below
          ]
        ];
}
  where
    seq : ℕ
    seq = s.task_sequence

    t : Task
    t = ended status result code (s.now s.tick) (record_at s.tasks.records id)

    records : Records
    records = insert id t s.tasks.records

    lineage : IsLineage s.tasks.records Status.running (id ∷ stack)
    lineage = subst (IsLineage s.tasks.records Status.running) p w.lineage

    entry : IsEntry seq s.tasks.records id (record_at s.tasks.records id)
    entry =
        w.entries id (record_at s.tasks.records id)
          (entry_of_status s.tasks.records id Status.running lineage.0)

    entries : Entries seq records
    entries = Entries-insert seq s.tasks.records id t w.entries (record {
      id_key = entry.id_key;
      order_key = entry.order_key;
      positive = entry.positive;
      numbered = entry.numbered;
      parent_older = entry.parent_older;
      parent_known = entry.parent_known;
    })

    waiting : IsLineage records Status.waiting stack
    waiting =
        IsLineage-insert seq s.tasks.records id t Status.waiting stack w.entries
          (omega (arith, lineage.1, entry.parent_older)) lineage.2

    on_stack :
        (k : TaskId)
        → is_executing (record_at s.tasks.records k).status ≡ true
        → OnStack k (id ∷ stack)
    on_stack k e = subst (OnStack k) p (w.executing k e)

-- finish with a status of an ended task keeps the task state well formed, on every path.
pub finish-IsWellFormed :
    (c : Context) (status : Status) (result code : String) (s : Store)
    → is_executing (some status) ≡ false
    → IsWellFormed s.tasks s.task_sequence
    → IsWellFormed
        (finish c status result code s).0.tasks
        (finish c status result code s).0.task_sequence
finish-IsWellFormed c status result code s over w =
    by_stack s.tasks.stack refl (Result-cases (finish c status result code s).1)
  where
    by_stack :
        (stack : List TaskId)
        → s.tasks.stack ≡ stack
        → ((u : Unit {0}) × ((finish c status result code s).1 ≡ ok u))
          ⊎ ((e : Error) × ((finish c status result code s).1 ≡ err e))
        → IsWellFormed
            (finish c status result code s).0.tasks
            (finish c status result code s).0.task_sequence
    by_stack stack p (inr (e, h)) =
        let (tasks, seq, _) = finish-err c status result code s stack p h in rw (tasks, seq) w
    by_stack [] p (inl (u, h)) = absurd (finish_nil c status result code s p h)
    by_stack (id ∷ stack) p (inl (u, h)) =
        let (tasks, seq, _) = finish-ok c status result code s id stack p h in
        rw (tasks, seq) (finished-IsWellFormed s status result code id stack over p w)
