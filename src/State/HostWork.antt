-- ===== src/State/HostWork.antt =====
-- internal/state/host.go: the requests of a module's result as pending child tasks of the causal task.
-- `deep_equal` is reflect.DeepEqual on decoded documents, and `decode` the decoder on a payload.
pub mod Once
use text.Mathlib.Text.{◌==◌ as str_eq}
use grodt.Prelude.{
  ℕ, ◌+◌, String, Bool, true, false, not, ◌&&◌, Option, none, some, List, [], ◌∷◌, ◌==◌, u64,
  if◌then◌else◌,
}
use grodt.State.Types.{TaskId, Time, Status, HostRequest, HostWork, Task, zero_task, Event}
use grodt.State.Records.{Records, insert}
use grodt.State.Store.{
  Error, Context, of_request, task_entry, Store, Op, ◌>>=◌, ◌>>◌, pure, raise, get, modify,
  read_clock, append_entry, commit_tasks, request_without_task, conflicting_request,
}
use grodt.State.Evidence.{Json}

abbrev pub equal_documents : (Json → Json → Bool) → Option Json → Option Json → Bool
equal_documents deep_equal (some x) (some y) = deep_equal x y
equal_documents deep_equal _ _ = false

abbrev pub same_request :
    (Json → Json → Bool) → (String → Option Json) → HostRequest → HostRequest → Bool
same_request deep_equal decode a b =
    str_eq a.kind b.kind && equal_documents deep_equal (decode a.payload) (decode b.payload)

-- `t.Work != nil && t.Work.Partition == partition && t.Work.Request.ID == id`
abbrev pub is_request : String → String → Task → Bool
is_request partition id t = elim t.work [
  | none ↦ false
  | some work ↦ str_eq work.partition partition && str_eq work.request.id id
]

unfoldable pub existing_request : String → String → Records → Option Task
existing_request partition id [] = none
existing_request partition id ((k, t) ∷ records) =
    if is_request partition id t then some t else existing_request partition id records

abbrev pub conflicts :
    (Json → Json → Bool) → (String → Option Json) → HostRequest → Option Task → Bool
conflicts deep_equal decode r none = false
conflicts deep_equal decode r (some t) = elim t.work [
  | none ↦ false
  | some work ↦ not (same_request deep_equal decode work.request r)
]

-- checkRequests: `none` accepts.
unfoldable pub check_requests :
    (Json → Json → Bool)
    → (String → Option Json)
    → String
    → Event
    → List HostRequest
    → Store
    → Option Error
unfolding existing_request
check_requests deep_equal decode partition e [] s = none
check_requests deep_equal decode partition e (r ∷ requests) s =
    let rest = check_requests deep_equal decode partition e requests s in
    if e.task_id == 0
    then some request_without_task
    else if conflicts deep_equal decode r (existing_request partition r.id s.tasks.records)
    then some conflicting_request
    else rest

abbrev pub host_task : TaskId → Event → String → HostRequest → Time → Task
host_task id e partition r at = record zero_task {
  id = id;
  order = id;
  parent_id = e.task_id;
  objective = "Execute HTTP host request";
  input = r.payload;
  status = some Status.pending;
  created_at = at;
  work = some record { partition = partition; event_id = e.id; request = r };
}

-- The body of the loop of queueRequests, on what existingRequest finds.
abbrev pub queue_found : Context → String → Event → HostRequest → Option Task → Op Unit
queue_found c partition e r (some t) =
    append_entry (record (task_entry "host_request_duplicate" t.id (of_request r)) {
      event_id = e.id;
      partition = partition;
    })
queue_found c partition e r none = do
  s ← get
  let id = u64 (s.task_sequence + 1)
  modify (λ s. record s { task_sequence = id })
  at ← read_clock
  let records = insert id (host_task id e partition r at) s.tasks.records
  commit_tasks c (record s.tasks { records = records }) "task_created" id

unfoldable pub queue_requests : Context → String → Event → List HostRequest → Op Unit
unfolding existing_request commit_tasks read_clock append_entry
queue_requests c partition e [] = pure tt
queue_requests c partition e (r ∷ requests) = do
  s ← get
  queue_found c partition e r (existing_request partition r.id s.tasks.records)
  queue_requests c partition e requests
