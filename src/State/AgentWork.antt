-- ===== src/State/AgentWork.antt =====
-- internal/state/agent.go: external tool calls as child tasks of the reasoning task.
-- `valid_json` is encoding/json's `Valid` on the texts of the run.
pub mod Batch
pub mod Queue
pub mod Rounds
pub mod Outcome
use grodt.Prelude.{
  ℕ, ◌+◌, String, Bool, true, false, not, ◌||◌, Option, none, some, List, [], ◌∷◌, length, ◌==◌,
  u64, is_empty, is_nil, is_some, if◌then◌else◌,
}
use grodt.State.Types.{TaskId, Time, Status, AgentWork, Plan, Task, zero_task}
use grodt.State.Records.{Records, find, insert, record_at}
use grodt.State.Store.{
  TaskState, Context, of_task, of_attempt, task_entry, Store, Op, ◌>>=◌, ◌>>◌, pure, raise, refuse,
  when, get, modify, read_clock, append_entry, check, validate_tasks, commit_tasks,
  agent_work_requires_parent, not_agent_work, agent_work_out_of_order, invalid_agent_outcome,
  invalid_agent_result, missing_agent_outcome,
}
use grodt.State.Tasks.{active, pending_child, activate, finish}
use grodt.State.Attempt.{begin_attempt}

abbrev pub agent_task : TaskId → TaskId → AgentWork → Time → Task
agent_task id parent w at = record zero_task {
  id = id;
  parent_id = parent;
  order = id;
  objective = "Invoke external tool";
  input = w.arguments;
  status = some Status.pending;
  created_at = at;
  agent_work = some w;
}

-- The loop over the batch: a pending record and an id for each call, from number `seq + i + 1` on.
unfoldable pub add_agent_work :
    TaskId → ℕ → List AgentWork → ℕ → Records → Op (Records × List TaskId)
unfolding read_clock insert
add_agent_work parent seq [] i records = pure (records, [])
add_agent_work parent seq (w ∷ work) i records = do
  at ← read_clock
  let id = u64 (seq + i + 1)
  rest ← add_agent_work parent seq work (i + 1) (insert id (agent_task id parent w at) records)
  pure (rest.0, id ∷ rest.1)

-- `beginAttempt(&active, ids)` and the write of the task, if there is work and a plan.
abbrev pub with_attempt : Task → List TaskId → Task
with_attempt t [] = t
with_attempt t (id ∷ ids) = elim t.plan [ none ↦ t | some plan ↦ begin_attempt plan t (id ∷ ids) ]

abbrev pub attempt_begins : Task → List TaskId → Bool
attempt_begins t ids = if is_nil ids then false else is_some t.plan

-- One "task_created" entry for each id.
unfoldable pub append_created : Records → List TaskId → Op Unit
unfolding append_entry
append_created records [] = pure tt
append_created records (id ∷ ids) = do
  append_entry (task_entry "task_created" id (of_task (record_at records id)))
  append_created records ids

abbrev pub append_attempt : Task → Op Unit
append_attempt t = elim t.attempts [
  | none ↦ pure tt
  | some a ↦ append_entry (task_entry "step_attempt_started" t.id (of_attempt a))
]

unfoldable pub queue_under : Context → List AgentWork → Option Task → Op (List TaskId)
unfolding validate_tasks append_entry
queue_under c work none = raise agent_work_requires_parent
queue_under c work (some parent) = do
  s ← get
  added ← add_agent_work parent.id s.task_sequence work 0 s.tasks.records
  let begins = attempt_begins parent added.1
  let parent' = with_attempt parent added.1
  let records = if begins then insert parent.id parent' added.0 else added.0
  let tasks' = record s.tasks { records = records }
  validate_tasks c tasks'
  modify λ s. record s { tasks = tasks'; task_sequence = u64 (s.task_sequence + length work) }
  when begins (append_attempt parent')
  append_created records added.1
  pure added.1

unfoldable pub queue_agent_work : Context → List AgentWork → Op (List TaskId)
unfolding check queue_under
queue_agent_work c work = do check c; s ← get; queue_under c work (active s)

-- `next, ok := pendingChild(parent); !ok || next.ID != id`
abbrev pub is_next : Option Task → TaskId → Bool
is_next none id = false
is_next (some next) id = next.id == id

unfoldable pub activate_found : Context → TaskId → Option Task → Op Unit
activate_found c id none = raise not_agent_work
activate_found c id (some t) = do
  refuse (not (is_some t.agent_work)) not_agent_work
  s ← get
  refuse (not (is_next (pending_child s t.parent_id) id)) agent_work_out_of_order
  activate c id

unfoldable pub activate_agent_work : Context → TaskId → Op Unit
unfolding check activate_found
activate_agent_work c id = do check c; s ← get; activate_found c id (find id s.tasks.records)

unfoldable pub record_under : (String → Bool) → Context → String → String → Option Task → Op Unit
unfolding commit_tasks
record_under valid_json c result code none = raise invalid_agent_outcome
record_under valid_json c result code (some t) = do
  refuse (not (is_some t.agent_work) || not (is_empty t.result)) invalid_agent_outcome
  refuse (not (valid_json result)) invalid_agent_result
  s ← get
  let t' = record t { result = result; error = code }
  commit_tasks c (record s.tasks { records = insert t.id t' s.tasks.records })
      "agent_execution_finished" t.id

unfoldable pub record_agent_outcome : (String → Bool) → Context → String → String → Op Unit
unfolding check record_under
record_agent_outcome valid_json c result code = do
  check c
  s ← get
  record_under valid_json c result code (active s)

unfoldable pub finish_under : Context → Option Task → Op Unit
finish_under c none = raise missing_agent_outcome
finish_under c (some t) = do
  refuse (not (is_some t.agent_work) || is_empty t.result) missing_agent_outcome
  finish c (if is_empty t.error then Status.completed else Status.failed) t.result t.error

unfoldable pub finish_agent_work : Context → Op Unit
unfolding finish_under
finish_agent_work c = do s ← get; finish_under c (active s)
