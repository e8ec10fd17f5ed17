-- ===== src/State/Tasks/End.antt =====
-- End of internal/state/tasks.go: the tasks that it ends and the state that it leaves.
use grodt.Prelude.{
  Bool, true, false, ◌||◌, ◌⊎◌, inl, inr, some, List, [], ◌∷◌, map, ◌≡◌, refl, arith, ◌==◌, is_some,
  any, Bool-cases, if◌then◌else◌,
}
use grodt.State.Types.{TaskId, Time, Status, Task}
use grodt.State.Records.{Records, find, insert, find-insert, record_at}
use grodt.State.Store.{Error, ok, err, Context, Store, TaskState, Result-cases}
use grodt.State.Tasks.{
  is_live, is_end_status, status_text, insert_by_order, live_tasks, end_all, append_ended, end,
}
use grodt.State.Tasks.Invariant.{IsEntry, IsWellFormed}

abbrev has : TaskId → List TaskId → Bool
has k ids = any (λ j. j == k) ids

abbrev ids_of : List Task → List TaskId
ids_of = map (λ t. t.id)

-- The record that End stores for a live task.
abbrev pub stopped : Status → Time → Task → Task
stopped status at t = record t {
  status = some status;
  finished_at = some at;
  error = status_text status;
}

has-insert_by_order :
    (k : TaskId) (t : Task) (us : List Task)
    → has k (ids_of (insert_by_order t us)) ≡ (t.id == k || has k (ids_of us))
unfolding insert_by_order
has-insert_by_order k t [] = refl
has-insert_by_order k t (u ∷ us) = ground (arith, has-insert_by_order k t us)

-- The loop finds every live task, and only known ones.
has-live_tasks :
    (k : TaskId) (records : Records)
    → is_live (record_at records k).status ≡ true
    → has k (ids_of (live_tasks records)) ≡ true
unfolding live_tasks find
has-live_tasks k [] h = cc
has-live_tasks k ((j, t) ∷ records) h = ground (
  arith,
  has-live_tasks k records,
  has-insert_by_order k (record t { id = j }) (live_tasks records),
)

known-live_tasks :
    (k : TaskId) (records : Records)
    → has k (ids_of (live_tasks records)) ≡ true
    → is_some (find k records) ≡ true
unfolding live_tasks find
known-live_tasks k [] h = cc
known-live_tasks k ((j, t) ∷ records) h = ground (
  arith,
  known-live_tasks k records,
  has-insert_by_order k (record t { id = j }) (live_tasks records),
)

find-end_all :
    (status : Status) (at : Time) (ids : List TaskId) (records : Records) (k : TaskId)
    → find k (end_all status at ids records)
      ≡ (if has k ids then some (stopped status at (record_at records k)) else find k records)
unfolding end_all
find-end_all status at [] records k = refl
find-end_all status at (j ∷ ids) records k =
    let records' = insert j (stopped status at (record_at records j)) records in
    ground (
      arith,
      find-end_all status at ids records' k,
      find-insert j k (stopped status at (record_at records j)) records,
    )

append_ended_lem :
    (status : Status) (records : Records) (ids : List TaskId) (s : Store)
    → ((append_ended status records ids s).1 ≡ ok tt)
      × ((append_ended status records ids s).0.tasks ≡ s.tasks)
      × ((append_ended status records ids s).0.task_sequence ≡ s.task_sequence)
unfolding append_ended
append_ended_lem status records [] s = (refl, refl, refl)
append_ended_lem status records (id ∷ ids) s = append_ended_lem status records ids _

-- The task state that End commits.
abbrev pub all_stopped : Store → Status → TaskState
all_stopped s status = record {
  records =
      end_all status (s.now s.tick) (map (λ t. t.id) (live_tasks s.tasks.records)) s.tasks.records;
  stack = [];
}

module _ (c : Context) (status : Status) (s : Store) where
  pub end-err :
      {e : Error}
      → (end c status s).1 ≡ err e
      → ((end c status s).0.tasks ≡ s.tasks)
        × ((end c status s).0.task_sequence ≡ s.task_sequence)
        × ((end c status s).0.journal ≡ s.journal)
  unfolding end
  end-err h = grind (arith, append_ended_lem)

  pub end-ok :
      (end c status s).1 ≡ ok tt
      → ((end c status s).0.tasks ≡ all_stopped s status)
        × ((end c status s).0.task_sequence ≡ s.task_sequence)
        × (is_end_status status ≡ true)
  unfolding end
  end-ok h = grind (arith, append_ended_lem)

-- No task of the committed state is live.
stopped_all :
    (s : Store) (status : Status) (k : TaskId)
    → is_end_status status ≡ true
    → is_live (record_at (all_stopped s status).records k).status ≡ false
stopped_all s status k over = ground (
  arith,
  has-live_tasks k s.tasks.records,
  find-end_all status (s.now s.tick) (ids_of (live_tasks s.tasks.records)) s.tasks.records k,
)

stopped-IsWellFormed :
    (s : Store) (status : Status)
    → is_end_status status ≡ true
    → IsWellFormed s.tasks s.task_sequence
    → IsWellFormed (all_stopped s status) s.task_sequence
stopped-IsWellFormed s status over w = record {
  entries = λ k t e. stopped_entry k t e;
  lineage = tt;
  executing = λ k e. ground (arith, stopped_all s status k over);
}
  where
    ids : List TaskId
    ids = ids_of (live_tasks s.tasks.records)

    records : Records
    records = (all_stopped s status).records

    still :
        (p : TaskId)
        → (p ≡ 0) ⊎ (is_some (find p s.tasks.records) ≡ true)
        → (p ≡ 0) ⊎ (is_some (find p records) ≡ true)
    still p h = ground (arith, find-end_all status (s.now s.tick) ids s.tasks.records p)

    stopped_entry :
        (k : TaskId) (t : Task) → find k records ≡ some t → IsEntry s.task_sequence records k t
    stopped_entry k t e = elim (Bool-cases (has k ids)) [
      | inl live ↦
          let old =
            w.entries k (record_at s.tasks.records k)
              (ground (arith, known-live_tasks k s.tasks.records)) in
          let new : t ≡ stopped status (s.now s.tick) (record_at s.tasks.records k) =
            ground (arith, find-end_all status (s.now s.tick) ids s.tasks.records k) in
          rw new (record {
            id_key = old.id_key;
            order_key = old.order_key;
            positive = old.positive;
            numbered = old.numbered;
            parent_older = old.parent_older;
            parent_known = still _ old.parent_known;
          })
      | inr ended ↦
          let old =
            w.entries k t
              (ground (arith, find-end_all status (s.now s.tick) ids s.tasks.records k)) in
          record {
            id_key = old.id_key;
            order_key = old.order_key;
            positive = old.positive;
            numbered = old.numbered;
            parent_older = old.parent_older;
            parent_known = still _ old.parent_known;
          }
    ]

-- After a successful End no task is pending, running or waiting, and the stack is empty.
pub end_stops :
    (c : Context) (status : Status) (s : Store)
    → (end c status s).1 ≡ ok tt
    → ((k : TaskId) → is_live (record_at (end c status s).0.tasks.records k).status ≡ false)
      × ((end c status s).0.tasks.stack ≡ [])
end_stops c status s h =
    let (tasks, _, over) = end-ok c status s h in
    (λ k. rw tasks (stopped_all s status k over), rw tasks)

-- End keeps the task state well formed, on every path.
pub end-IsWellFormed :
    (c : Context) (status : Status) (s : Store)
    → IsWellFormed s.tasks s.task_sequence
    → IsWellFormed (end c status s).0.tasks (end c status s).0.task_sequence
end-IsWellFormed c status s w = elim (Result-cases (end c status s).1) [
  | inl (u, h) ↦
      let (tasks, seq, over) = end-ok c status s h in
      rw (tasks, seq) (stopped-IsWellFormed s status over w)
  | inr (e, h) ↦ let (tasks, seq, _) = end-err c status s h in rw (tasks, seq) w
]
