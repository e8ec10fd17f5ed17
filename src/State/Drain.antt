-- ===== src/State/Drain.antt =====
-- drainHostWork of internal/state/host.go, with Admit of store.go and AdmitAgentOutcome of agent.go,
-- which run it.
pub mod Turn
pub mod Execute
pub mod Finishes
pub mod Admit
use grodt.Prelude.{
  ℕ, zero, suc, ◌+◌, ◌-◌, ◌*◌, String, Bool, true, false, not, ◌&&◌, ◌||◌, Option, none, some, List,
  [], ◌∷◌, length, leb, u64, is_empty, is_some, if◌then◌else◌,
}
use grodt.State.Types.{
  TaskId, Status, HostWork, Task, SourceKind, Source, Correlation, Event, AgentWork,
}
use grodt.State.Records.{Records, insert, record_at}
use grodt.State.Store.{
  Result, ok, err, Context, Store, Op, ◌>>=◌, ◌>>◌, pure, raise, refuse, choose, get, modify,
  append_entry, check, commit_tasks, task_entry, of_work, of_code, without_cancel, host_budget,
  out_of_fuel, missing_agent_outcome, invalid_agent_observation,
}
use grodt.State.Tasks.{active, pending_child, activate, finish, end, is_live, is_pending}
use grodt.State.Mutation.{max_requests_per_result}
use grodt.State.Http.{HttpResult, execute_http}
use grodt.State.Turns.{all_turns}
use grodt.State.Admission.{World, refuse_done, admit}

abbrev pub max_host_executions : ℕ
max_host_executions = 32

-- A child that waits for the host.
abbrev pub host_child : Option Task → Option Task
host_child none = none
host_child (some t) = if is_some t.work then some t else none

abbrev pub finish_status : String → Status
finish_status error = if is_empty error then Status.completed else Status.failed

-- The result and the error of an executed task.
abbrev pub outcome_error : HttpResult → String
outcome_error o = if is_empty o.error && leb 400 o.status_code then "http_status" else o.error

abbrev pub executed : String → HttpResult → Task → Task
executed text o t = record t { result = text; error = outcome_error o }

-- The budget is used up: all work ends as failed.
unfoldable pub exhaust : Context → Task → Op Unit
exhaust c t = do
  modify λ s. record s { host_exhausted = true }
  append_entry (task_entry "runtime_failure" t.id (of_code "host_execution_budget_exhausted" none))
  end (without_cancel c) Status.failed
  raise host_budget

-- One execution, its outcome kept before it is admitted. The call counts as a tick.
unfoldable pub execute : World → Context → Task → HostWork → Op Unit
execute w c t work = do
  modify λ s. record s { host_executions = u64 (s.host_executions + 1) }
  append_entry (task_entry "host_execution_started" t.id (of_work work))
  s ← get
  let outcome = execute_http w.http w.allow_http s.tick c work.request.payload
  modify λ s. record s { tick = s.tick + 1 }
  let t' = executed (w.http.encode outcome) outcome (record_at s.tasks.records t.id)
  commit_tasks (without_cancel c) (record s.tasks { records = insert t'.id t' s.tasks.records })
      "host_execution_finished" t'.id
  refuse_done c
  admit w c (record { kind = SourceKind.http; id = w.task_text t'.id }) t'.result
      (some record {
        partition = work.partition;
        request_id = work.request.id;
        operation_id = "";
        turn = 0;
      })
  pure tt

-- A run of the loop; `none` if the fuel is used up before the loop ends.
abbrev pub Run : Type 0
Run = Store → Option (Store × Result Unit)

-- `if err := m; err != nil { return err }`, and then the next turn.
abbrev pub go_on : {A : Type 0} → Op A → Run → Run
go_on m again s = let (s', r) = m s in elim r [ ok a ↦ again s' | err e ↦ some (s', err e) ]

abbrev pub return : Op Unit → Run
return m s = some (m s)

-- The last part of the body of the loop, on the active task; `again` is the next turn.
unfoldable pub drain_work : World → Context → Run → Task → Option HostWork → Run
drain_work w c again t none s = return (pure tt) s
drain_work w c again t (some work) s =
    if not (is_empty t.result)
    then go_on (finish c (finish_status t.error) t.result t.error) again s
    else if leb max_host_executions s.host_executions
    then return (exhaust c t) s
    else go_on (execute w c t work) again s

abbrev pub drain_child : World → Context → Run → Task → Option Task → Run
drain_child w c again t (some child) = go_on (activate c child.id) again
drain_child w c again t none = drain_work w c again t t.work

abbrev pub drain_active : World → Context → Run → Option Task → Run
drain_active w c again none s = return (pure tt) s
drain_active w c again (some t) s = drain_child w c again t (host_child (pending_child s t.id)) s

-- The condition at the head of the loop.
unfoldable pub drain_head : Context → Op Unit
drain_head c = do check c; s ← get; refuse s.host_exhausted host_budget

-- The loop, with fuel.
unfoldable pub drain_turns : ℕ → World → Context → Run
drain_turns zero w c s = none
drain_turns (suc fuel) w c s =
    let again = drain_turns fuel w c in
    go_on (drain_head c) (λ s'. drain_active w c again (active s') s') s

-- The most tasks that one event can queue.
abbrev pub event_tasks : World → ℕ
event_tasks w = length w.definitions * max_requests_per_result

abbrev pub drain_fuel : World → Store → ℕ
drain_fuel w s =
    1
    + all_turns s.tasks.records
    + (max_host_executions - s.host_executions) * (event_tasks w * 3 + 1)

unfoldable pub drain_host_work : World → Context → Op Unit
unfolding drain_turns
drain_host_work w c s = elim (drain_turns (drain_fuel w s) w c s) [
  | none ↦ (s, err out_of_fuel)
  | some r ↦ r
]

-- Admit
unfoldable pub admit_event : World → Context → Source → String → Op Event
admit_event w c source payload = do e ← admit w c source payload none; drain_host_work w c; pure e

unfoldable pub admit_under : World → Context → String → Option Task → Op Event
admit_under w c result none = raise missing_agent_outcome
admit_under w c result (some t) = elim t.agent_work [
  | none ↦ raise missing_agent_outcome
  | some work ↦ do
    refuse (is_empty t.result) missing_agent_outcome
    refuse (not (w.formats.is_valid_json result)) invalid_agent_observation
    e ←
        admit w c (record { kind = SourceKind.mcp; id = work.server })
          (w.encode_outcome work.tool result)
          (some record {
            partition = "";
            request_id = work.call_id;
            operation_id = work.operation_id;
            turn = work.turn;
          })
    drain_host_work w c
    pure e
]

unfoldable pub admit_agent_outcome : World → Context → String → Op Event
admit_agent_outcome w c result = do s ← get; admit_under w c result (active s)
