-- ===== src/State/Tasks.antt =====
-- internal/state/tasks.go, and pendingChild and activate of host.go: the task stack.
-- `Snapshot()` copies by an encoding round trip; the model reads the value itself.
pub mod Invariant
pub mod TopStatus
pub mod Writes
pub mod Push
pub mod Finish
pub mod Activate
pub mod End
pub mod Numbers
pub mod Pending
pub mod Return
use Prim.Native.Char.{code}
use grodt.Prelude.{
  ℕ, ◌+◌, String, Bool, true, false, not, ◌&&◌, ◌||◌, Option, none, some, List, [], ◌∷◌, map, ltb,
  leb, ◌==◌, u64, is_nil, is_some, if◌then◌else◌,
}
use grodt.State.Types.{TaskId, Time, Status, Task, zero_task}
use grodt.State.Records.{Records, insert, record_at}
use grodt.State.Store.{
  TaskState, Context, of_task, of_cycles, task_entry, Store, Op, ◌>>=◌, ◌>>◌, pure, raise, refuse,
  get, modify, read_clock, append_entry, check, validate_tasks, commit_tasks, objective_required,
  root_task_exists, no_active_task, pending_work, invalid_terminal_status, invalid_task_activation,
}

-- unicode.IsSpace
abbrev pub is_space : ℕ → Bool
is_space c =
    (leb 9 c && leb c 13)
    || c == 0x20
    || c == 0x85
    || c == 0xA0
    || c == 0x1680
    || (leb 0x2000 c && leb c 0x200A)
    || c == 0x2028
    || c == 0x2029
    || c == 0x202F
    || c == 0x205F
    || c == 0x3000

-- strings.TrimSpace(text) == ""
unfoldable pub is_blank : String → Bool
is_blank String.[] = true
is_blank (String.◌∷◌ c text) = is_space (code c) && is_blank text

abbrev pub is_pending : Option Status → Bool
is_pending (some Status.pending) = true
is_pending _ = false

-- The three statuses of a task that has not ended.
abbrev pub is_live : Option Status → Bool
is_live (some Status.pending) = true
is_live (some Status.running) = true
is_live (some Status.waiting) = true
is_live _ = false

abbrev pub status_text : Status → String
status_text Status.pending = "pending"
status_text Status.running = "running"
status_text Status.waiting = "waiting"
status_text Status.completed = "completed"
status_text Status.failed = "failed"
status_text Status.cancelled = "cancelled"
status_text Status.incomplete = "incomplete"

-- The text "task_" + status.
abbrev pub task_kind : Status → String
task_kind Status.pending = "task_pending"
task_kind Status.running = "task_running"
task_kind Status.waiting = "task_waiting"
task_kind Status.completed = "task_completed"
task_kind Status.failed = "task_failed"
task_kind Status.cancelled = "task_cancelled"
task_kind Status.incomplete = "task_incomplete"

-- The top of the stack, "" if there is none.
abbrev pub top : List TaskId → TaskId
top [] = 0
top (id ∷ stack) = id

-- `p := records[id]; p.Status = status; records[id] = p`
abbrev pub set_status : Status → TaskId → Records → Records
set_status status id records =
    insert id (record (record_at records id) { status = some status }) records

-- The same for the top, if there is one.
abbrev pub set_top_status : Status → List TaskId → Records → Records
set_top_status status [] records = records
set_top_status status (id ∷ stack) records = set_status status id records

-- The new record of Push.
abbrev pub pushed_task : TaskId → TaskId → String → String → Time → Task
pushed_task id parent objective input at = record zero_task {
  id = id;
  parent_id = parent;
  objective = objective;
  input = input;
  status = some Status.running;
  created_at = at;
  started_at = some at;
  order = id;
}

abbrev pub pushed : Store → TaskId → String → String → Time → TaskState
pushed s id objective input at = record {
  records =
      insert id (pushed_task id (top s.tasks.stack) objective input at)
        (set_top_status Status.waiting s.tasks.stack s.tasks.records);
  stack = id ∷ s.tasks.stack;
}

unfoldable pub push : Context → String → String → Op TaskId
unfolding check is_blank read_clock commit_tasks
push c objective input = do
  check c
  refuse (is_blank objective) objective_required
  s ← get
  refuse (is_nil s.tasks.stack && not (is_nil s.tasks.records)) root_task_exists
  at ← read_clock
  let id = u64 (s.task_sequence + 1)
  commit_tasks c (pushed s id objective input at) "task_created" id
  modify (λ s. record s { task_sequence = u64 (s.task_sequence + 1) })
  pure id

unfoldable pub active : Store → Option Task
active s = elim s.tasks.stack [ [] ↦ none | id ∷ stack ↦ some (record_at s.tasks.records id) ]

unfoldable pub begin_cycle_of : Context → List TaskId → Op Unit
unfolding validate_tasks append_entry
begin_cycle_of c [] = raise no_active_task
begin_cycle_of c (id ∷ stack) = do
  s ← get
  let t = record_at s.tasks.records id
  let t' = record t { cycles = u64 (t.cycles + 1) }
  let tasks' = record s.tasks { records = insert id t' s.tasks.records }
  validate_tasks c tasks'
  let n = u64 (s.global_cycle + 1)
  modify (λ s. record s { tasks = tasks'; global_cycle = n })
  append_entry (task_entry "cycle_started" id (of_cycles n t'.cycles))

unfoldable pub begin_cycle : Context → Op Unit
unfolding check begin_cycle_of
begin_cycle c = do check c; s ← get; begin_cycle_of c s.tasks.stack

-- The body of the loop of pendingChild: `next` is the oldest pending child so far, its id "" if none.
abbrev pub older_child : TaskId → Task → Task → Task
older_child parent next t =
    if t.parent_id == parent && is_pending t.status && (next.id == 0 || ltb t.order next.order)
    then t
    else next

unfoldable pub pending_child_from : TaskId → Task → Records → Task
pending_child_from parent next [] = next
pending_child_from parent next ((k, t) ∷ records) =
    pending_child_from parent (older_child parent next t) records

unfoldable pub pending_child : Store → TaskId → Option Task
unfolding pending_child_from
pending_child s parent =
    let next = pending_child_from parent zero_task s.tasks.records in
    if next.id == 0 then none else some next

-- The record of a task that ends.
abbrev pub ended : Status → String → String → Time → Task → Task
ended status result code at t = record t {
  status = some status;
  error = code;
  finished_at = some at;
  result = result;
}

unfoldable pub finish_of : Context → Status → String → String → List TaskId → Op Unit
unfolding read_clock pending_child commit_tasks
finish_of c status result code [] = raise no_active_task
finish_of c status result code (id ∷ stack) = do
  s ← get
  at ← read_clock
  refuse (is_some (pending_child s id)) pending_work
  let t = ended status result code at (record_at s.tasks.records id)
  let records = set_top_status Status.running stack (insert id t s.tasks.records)
  commit_tasks c (record { records = records; stack = stack }) (task_kind status) id

unfoldable pub finish : Context → Status → String → String → Op Unit
unfolding check finish_of
finish c status result code = do check c; s ← get; finish_of c status result code s.tasks.stack

unfoldable pub complete : Context → String → Op Unit
complete c result = finish c Status.completed result ""

-- sort.Slice by `Order`, as an insertion sort: the orders of tasks are distinct.
unfoldable pub insert_by_order : Task → List Task → List Task
insert_by_order t [] = t ∷ []
insert_by_order t (u ∷ us) = if leb t.order u.order then t ∷ u ∷ us else u ∷ insert_by_order t us

-- The ids of the live tasks, in the order of creation: the record's key is carried along.
unfoldable pub live_tasks : Records → List Task
unfolding insert_by_order
live_tasks [] = []
live_tasks ((k, t) ∷ records) =
    let rest = live_tasks records in
    if is_live t.status then insert_by_order (record t { id = k }) rest else rest

-- `for _, id := range ids { ...; tasks.Records[id] = t }`
unfoldable pub end_all : Status → Time → List TaskId → Records → Records
end_all status at [] records = records
end_all status at (id ∷ ids) records =
    let t = record_at records id in
    end_all status at ids (
      insert id
        (record t { status = some status; finished_at = some at; error = status_text status })
        records)

-- One "task_<status>" entry for each id, with the task as it ended.
unfoldable pub append_ended : Status → Records → List TaskId → Op Unit
unfolding append_entry
append_ended status records [] = pure tt
append_ended status records (id ∷ ids) = do
  append_entry (task_entry (task_kind status) id (of_task (record_at records id)))
  append_ended status records ids

abbrev pub is_end_status : Status → Bool
is_end_status Status.failed = true
is_end_status Status.cancelled = true
is_end_status Status.incomplete = true
is_end_status _ = false

unfoldable pub end : Context → Status → Op Unit
unfolding check read_clock validate_tasks
end c status = do
  check c
  refuse (not (is_end_status status)) invalid_terminal_status
  s ← get
  at ← read_clock
  let ids = map (λ t. t.id) (live_tasks s.tasks.records)
  let records = end_all status at ids s.tasks.records
  let tasks' : TaskState = record { records = records; stack = [] }
  validate_tasks c tasks'
  modify (λ s. record s { tasks = tasks' })
  append_ended status records ids

unfoldable pub activate : Context → TaskId → Op Unit
unfolding read_clock commit_tasks
activate c id = do
  s ← get
  let t = record_at s.tasks.records id
  refuse
      (is_nil s.tasks.stack || not (is_pending t.status) || not (top s.tasks.stack == t.parent_id))
      invalid_task_activation
  let p = record_at s.tasks.records t.parent_id
  at ← read_clock
  let t' = record t { started_at = some at; status = some Status.running }
  let records =
      insert id t' (insert p.id (record p { status = some Status.waiting }) s.tasks.records)
  commit_tasks c (record { records = records; stack = id ∷ s.tasks.stack }) "task_started" id
