-- ===== src/State/Tasks/Push.antt =====
-- Push of internal/state/tasks.go: its result on each path.
use grodt.Prelude.{
  ℕ, ◌+◌, ◌≤◌, ◌<◌, String, true, ◌⊎◌, inl, inr, List, ◌≡◌, refl, arith, ◌==◌, u64, is_some,
  Bool-cases,
}
use grodt.State.Types.{TaskId, Time, Status, Task}
use grodt.State.Records.{Records, find, find-insert}
use grodt.State.Store.{Error, ok, err, Context, Store, Result-cases}
use grodt.State.Tasks.{top, set_top_status, pushed_task, pushed, push}
use grodt.State.Tasks.Invariant.{
  Entries, IsLineage, IsWellFormed, Entries-mono, Entries-insert, IsLineage-insert,
}
use grodt.State.Tasks.TopStatus.{
  Entries-set_top_status, IsLineage-set_top_status, Executing-set_top_status, top_known,
}

-- The task state of Push is well formed, for the next number as the new task's.
pub pushed-IsWellFormed :
    (s : Store) (objective input : String) (at : Time)
    → IsWellFormed s.tasks s.task_sequence
    → IsWellFormed (pushed s (s.task_sequence + 1) objective input at) (s.task_sequence + 1)
pushed-IsWellFormed s objective input at w = record {
  entries = Entries-insert (seq + 1) records id new wait_entries (record {
    id_key = refl;
    order_key = refl;
    positive = omega arith;
    numbered = omega arith;
    parent_older = omega (arith, known.1);
    parent_known = known.0;
  });
  lineage = (
    ground (arith, find-insert id id new records),
    ground (arith, find-insert id id new records),
    IsLineage-insert (seq + 1) records id new Status.waiting stack wait_entries
        (omega (arith, known.1)) waiting,
  );
  executing = λ k e. elim (Bool-cases (id == k)) [
    | inl same ↦ inl (ground arith)
    | inr other ↦ inr (
        Executing-set_top_status s.tasks.records Status.waiting stack stack (λ j h. h) w.executing k
          (ground (arith, find-insert id k new records)))
  ];
}
  where
    seq : ℕ
    seq = s.task_sequence

    id : TaskId
    id = seq + 1

    stack : List TaskId
    stack = s.tasks.stack

    records : Records
    records = set_top_status Status.waiting stack s.tasks.records

    new : Task
    new = pushed_task id (top stack) objective input at

    waiting : IsLineage records Status.waiting stack
    waiting =
        IsLineage-set_top_status seq s.tasks.records w.entries Status.running Status.waiting stack
          w.lineage

    entries : Entries seq records
    entries =
        Entries-set_top_status seq s.tasks.records w.entries Status.running Status.waiting stack
          w.lineage

    wait_entries : Entries (seq + 1) records
    wait_entries = Entries-mono seq (seq + 1) records (omega arith) entries

    known : ((top stack ≡ 0) ⊎ (is_some (find (top stack) records) ≡ true)) × (top stack ≤ seq)
    known = top_known seq records entries Status.waiting stack waiting

-- An error of Push leaves the tasks, their numbers and the journal alone.
pub push-err :
    (c : Context) (objective input : String) (s : Store) {e : Error}
    → (push c objective input s).1 ≡ err e
    → ((push c objective input s).0.tasks ≡ s.tasks)
      × ((push c objective input s).0.task_sequence ≡ s.task_sequence)
      × ((push c objective input s).0.journal ≡ s.journal)
unfolding push
push-err c objective input s h = ground arith

-- A success of Push returns the next number and has stored the new task under it, over the old top.
pub push-ok :
    (c : Context) (objective input : String) (s : Store) {id : TaskId}
    → (push c objective input s).1 ≡ ok id
    → (id ≡ u64 (s.task_sequence + 1))
      × ((push c objective input s).0.tasks ≡ pushed s id objective input (s.now s.tick))
      × ((push c objective input s).0.task_sequence ≡ id)
unfolding push
push-ok c objective input s h = ground arith

-- Push keeps the task state well formed, whether it succeeds or not, while numbers are left.
pub push-IsWellFormed :
    (c : Context) (objective input : String) (s : Store)
    → s.task_sequence + 1 < 18446744073709551616
    → IsWellFormed s.tasks s.task_sequence
    → IsWellFormed (push c objective input s).0.tasks (push c objective input s).0.task_sequence
push-IsWellFormed c objective input s room w = elim (Result-cases (push c objective input s).1) [
  | inl (id, h) ↦
      let (number, tasks, seq) = push-ok c objective input s h in
      let next : id ≡ s.task_sequence + 1 = omega (arith, number) in
      rw (tasks, seq, next) (pushed-IsWellFormed s objective input (s.now s.tick) w)
  | inr (e, h) ↦ let (tasks, seq, _) = push-err c objective input s h in rw (tasks, seq) w
]
