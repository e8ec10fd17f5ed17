-- ===== src/State/AgentWork/Outcome.antt =====
-- ActivateAgentWork, RecordAgentOutcome and FinishAgentWork of internal/state/agent.go.
use grodt.Prelude.{
  String, Bool, true, false, ◌⊎◌, inl, inr, none, some, List, [], ◌∷◌, ◌≡◌, sym, refl, arith,
  is_some, is_empty, Option-cases, if◌then◌else◌,
}
use grodt.State.Types.{TaskId, Task, Status}
use grodt.State.Records.{insert, find-insert, record_at}
use grodt.State.Store.{Error, ok, err, is_ok, Context, Store, Result-cases}
use grodt.State.Tasks.{active, activate, finish, pending_child}
use mathlib.Core.Logic.{◌≢◌}
use grodt.State.Tasks.Invariant.{IsWellFormed, is_executing}
use grodt.State.Tasks.Writes.{touch-IsWellFormed}
use grodt.State.Tasks.Activate.{top-id, activate-IsWellFormed}
use grodt.State.Tasks.Finish.{finish-IsWellFormed}
use grodt.State.AgentWork.{is_next, activate_agent_work, record_agent_outcome, finish_agent_work}

-- A refused activation changes nothing; else the call is the oldest pending child of its parent, and is
-- activated.
pub activate_agent_work_lem :
    (c : Context) (id : TaskId) (s : Store)
    → (((activate_agent_work c id s).0 ≡ s) × (is_ok (activate_agent_work c id s).1 ≡ false))
      ⊎ ((activate_agent_work c id s ≡ activate c id s)
          × (is_next (pending_child s (record_at s.tasks.records id).parent_id) id ≡ true)
          × (is_some (record_at s.tasks.records id).agent_work ≡ true))
unfolding activate_agent_work
activate_agent_work_lem c id s = ground arith

pub activate_agent_work-IsWellFormed :
    (c : Context) (id : TaskId) (s : Store)
    → IsWellFormed s.tasks s.task_sequence
    → IsWellFormed (activate_agent_work c id s).0.tasks (activate_agent_work c id s).0.task_sequence
activate_agent_work-IsWellFormed c id s w = elim (activate_agent_work_lem c id s) [
  | inl (same, _) ↦ rw same w
  | inr (run, _, _) ↦ rw run (activate-IsWellFormed c id s w)
]

-- `status := "completed"; if t.Error != "" { status = "failed" }`
abbrev pub final_status : Task → Status
final_status t = if is_empty t.error then Status.completed else Status.failed

finish_agent_work_lem :
    (c : Context) (s : Store) (t : Task)
    → active s ≡ some t
    → ((finish_agent_work c s).0 ≡ s)
      ⊎ (finish_agent_work c s ≡ finish c (final_status t) t.result t.error s)
unfolding finish_agent_work
finish_agent_work_lem c s t found = ground (arith, found)

finish_agent_work-none : (c : Context) (s : Store) → active s ≡ none → (finish_agent_work c s).0 ≡ s
unfolding finish_agent_work
finish_agent_work-none c s missing = ground (arith, missing)

pub finish_agent_work-IsWellFormed :
    (c : Context) (s : Store)
    → IsWellFormed s.tasks s.task_sequence
    → IsWellFormed (finish_agent_work c s).0.tasks (finish_agent_work c s).0.task_sequence
finish_agent_work-IsWellFormed c s w = elim (Option-cases (active s)) [
  | inl missing ↦ rw (finish_agent_work-none c s missing) w
  | inr (t, found) ↦ elim (finish_agent_work_lem c s t found) [
    | inl same ↦ rw same w
    | inr run ↦ rw run (finish-IsWellFormed c (final_status t) t.result t.error s (ended t.error) w)
  ]
]
  where
    ended :
        (error : String)
        → is_executing (some (if is_empty error then Status.completed else Status.failed)) ≡ false
    ended error = ground arith

module _ (valid_json : String → Bool) (c : Context) (result code : String) (s : Store) where
  record-err :
      {e : Error}
      → (record_agent_outcome valid_json c result code s).1 ≡ err e
      → ((record_agent_outcome valid_json c result code s).0.tasks ≡ s.tasks)
        × ((record_agent_outcome valid_json c result code s).0.task_sequence ≡ s.task_sequence)
  unfolding record_agent_outcome
  record-err h = ground arith

  record_none : active s ≡ none → (record_agent_outcome valid_json c result code s).1 ≢ ok tt
  unfolding record_agent_outcome
  record_none missing h = ground (arith, missing)

  -- A recorded outcome is the first one of an agent call, and is valid JSON.
  record-ok :
      (t : Task)
      → active s ≡ some t
      → (record_agent_outcome valid_json c result code s).1 ≡ ok tt
      → ((record_agent_outcome valid_json c result code s).0.tasks ≡ record s.tasks {
        records = insert t.id (record t { result = result; error = code }) s.tasks.records;
      })
        × ((record_agent_outcome valid_json c result code s).0.task_sequence ≡ s.task_sequence)
        × (is_empty t.result ≡ true)
        × (is_some t.agent_work ≡ true)
        × (valid_json result ≡ true)
  unfolding record_agent_outcome
  record-ok t found h = ground (arith, found)

pub record_agent_outcome-IsWellFormed :
    (valid_json : String → Bool) (c : Context) (result code : String) (s : Store)
    → IsWellFormed s.tasks s.task_sequence
    → IsWellFormed
        (record_agent_outcome valid_json c result code s).0.tasks
        (record_agent_outcome valid_json c result code s).0.task_sequence
record_agent_outcome-IsWellFormed v c result code s w =
    by_stack s.tasks.stack refl (Result-cases (record_agent_outcome v c result code s).1)
  where
    by_stack :
        (stack : List TaskId)
        → s.tasks.stack ≡ stack
        → ((u : Unit {0}) × ((record_agent_outcome v c result code s).1 ≡ ok u))
          ⊎ ((e : Error) × ((record_agent_outcome v c result code s).1 ≡ err e))
        → IsWellFormed
            (record_agent_outcome v c result code s).0.tasks
            (record_agent_outcome v c result code s).0.task_sequence
    by_stack stack p (inr (e, h)) =
        let (tasks, seq) = record-err v c result code s h in rw (tasks, seq) w
    by_stack [] p (inl (u, h)) =
        absurd (record_none v c result code s (unfold active in ground (arith, p)) h)
    by_stack (x ∷ stack) p (inl (u, h)) =
        let (key, known) = top-id s x stack p w in
        let t = record_at s.tasks.records x in
        let (tasks, seq, _, _, _) =
          record-ok v c result code s t (unfold active in ground (arith, p)) h in
        rw (tasks, seq, key)
          (touch-IsWellFormed s.tasks.records s.tasks.stack s.task_sequence x
            (record t { id = x; result = result; error = code }) known
            (record { id = sym key; order = refl; parent = refl; status = refl }) w)

-- In a well-formed store, once an outcome that is not empty is recorded for the active tool call,
-- recording another one is refused.
pub record_agent_outcome_once :
    (valid_json : String → Bool) (c c' : Context) (result code result' code' : String) (s : Store)
    → IsWellFormed s.tasks s.task_sequence
    → is_empty result ≡ false
    → (record_agent_outcome valid_json c result code s).1 ≡ ok tt
    → (record_agent_outcome valid_json c' result' code'
        (record_agent_outcome valid_json c result code s).0).1
      ≢ ok tt
record_agent_outcome_once v c c' result code result' code' s w full first second =
    by_stack s.tasks.stack refl
  where
    s' : Store
    s' = (record_agent_outcome v c result code s).0

    by_stack : (stack : List TaskId) → s.tasks.stack ≡ stack → ⊥
    by_stack [] p = record_none v c result code s (unfold active in ground (arith, p)) first
    by_stack (x ∷ stack) p =
        let (key, known) = top-id s x stack p w in
        let t = record_at s.tasks.records x in
        let (tasks, _, _, _, _) =
          record-ok v c result code s t (unfold active in ground (arith, p)) first in
        let t' = record t { result = result; error = code } in
        let found : active s' ≡ some t' =
          unfold active in ground (arith, tasks, p, key, find-insert x x t' s.tasks.records) in
        let again = record-ok v c' result' code' s' t' found second in cc (again.2, full)
