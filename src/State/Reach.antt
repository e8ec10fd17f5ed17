-- ===== src/State/Reach.antt =====
-- The task operations of internal/state in any order: the calls, their runs from New's empty
-- store, and the invariant under them.
use grodt.Prelude.{
  ℕ, ◌+◌, ◌<◌, String, Bool, false, Option, some, List, [], ◌∷◌, length, ◌≡◌, refl, arith,
}
use grodt.State.Types.{TaskId, Time, Status, AgentWork, Plan}
use grodt.State.Records.{find}
use grodt.State.Store.{Context, Store, TaskState, Verdict}
use grodt.State.Evidence.{Json}
use grodt.State.Tasks.{push, begin_cycle, finish, complete, end}
use grodt.State.Tasks.Invariant.{IsWellFormed, is_executing}
use grodt.State.Tasks.Push.{push-IsWellFormed}
use grodt.State.Tasks.Finish.{finish-IsWellFormed}
use grodt.State.Tasks.Activate.{begin_cycle-IsWellFormed}
use grodt.State.Tasks.End.{end-IsWellFormed}
use grodt.State.Tasks.Numbers.{
  begin_cycle_number, finish_number, activate_number, push_number, end_number,
}
use grodt.State.Plan.Completion.{abandon_child-keeps, complete_objective-keeps}
use grodt.State.Attempt.{finish_attempt}
use grodt.State.Attempt.Streak.{finish_attempt-IsWellFormed}
use grodt.State.AgentWork.{
  queue_agent_work, activate_agent_work, record_agent_outcome, finish_agent_work,
}
use grodt.State.AgentWork.Queue.{queue_agent_work_keeps}
use grodt.State.AgentWork.Outcome.{
  activate_agent_work-IsWellFormed, record_agent_outcome-IsWellFormed,
  finish_agent_work-IsWellFormed,
}
use grodt.State.Plan.Revise.{abandon_child, complete_objective, revise_plan}
use grodt.State.Plan.Acceptance.{revise_plan-IsWellFormed}

-- The store of New before any task: the literal with its empty task state.
unfoldable pub new_store : (ℕ → Time) → (ℕ → Context → TaskState → Verdict) → Time → Store
new_store now validator started_at = record {
  started_at = started_at;
  host_executions = 0;
  global_cycle = 0;
  event_sequence = 0;
  journal_sequence = 0;
  tasks = record { records = []; stack = [] };
  knowledge = [];
  journal = [];
  task_sequence = 0;
  closed = false;
  host_exhausted = false;
  now = now;
  validator = validator;
  tick = 0;
}

-- The calls of the tasks' operations. A `Context` and the answers of the environment come with each.
pub data Call : Type 0 where
  push_task : Context → String → String → Call
  start_cycle : Context → Call
  complete_task : Context → String → Call
  end_tasks : Context → Status → Call
  queue_work : Context → List AgentWork → Call
  activate_work : Context → TaskId → Call
  record_outcome : (String → Bool) → Context → String → String → Call
  finish_work : Context → Call
  reconcile_attempt : TaskId → Bool → String → Call
  revise : (String → Option Json) → Context → Plan → Call
  abandon : Context → Call
  complete_all : Context → String → Call

unfoldable pub perform : Call → Store → Store
perform (push_task c objective input) s = (push c objective input s).0
perform (start_cycle c) s = (begin_cycle c s).0
perform (complete_task c result) s = (complete c result s).0
perform (end_tasks c status) s = (end c status s).0
perform (queue_work c work) s = (queue_agent_work c work s).0
perform (activate_work c id) s = (activate_agent_work c id s).0
perform (record_outcome v c result code) s = (record_agent_outcome v c result code s).0
perform (finish_work c) s = (finish_agent_work c s).0
perform (reconcile_attempt id made reason) s = (finish_attempt id made reason s).0
perform (revise decode c plan) s = (revise_plan decode c plan s).0
perform (abandon c) s = (abandon_child c s).0
perform (complete_all c result) s = (complete_objective c result s).0

unfoldable pub perform_all : List Call → Store → Store
perform_all [] s = s
perform_all (call ∷ calls) s = perform_all calls (perform call s)

-- The numbers that a call may use up.
abbrev pub new_tasks : Call → ℕ
new_tasks (push_task c objective input) = 1
new_tasks (queue_work c work) = length work
new_tasks _ = 0

abbrev pub all_new_tasks : List Call → ℕ
all_new_tasks [] = 0
all_new_tasks (call ∷ calls) = new_tasks call + all_new_tasks calls

activate_agent_work_number :
    (c : Context) (id : TaskId) (s : Store)
    → (activate_agent_work c id s).0.task_sequence ≡ s.task_sequence
unfolding activate_agent_work
activate_agent_work_number c id s = grind (arith, activate_number)

record_agent_outcome_number :
    (v : String → Bool) (c : Context) (result code : String) (s : Store)
    → (record_agent_outcome v c result code s).0.task_sequence ≡ s.task_sequence
unfolding record_agent_outcome
record_agent_outcome_number v c result code s = ground arith

finish_agent_work_number :
    (c : Context) (s : Store) → (finish_agent_work c s).0.task_sequence ≡ s.task_sequence
unfolding finish_agent_work
finish_agent_work_number c s = grind (arith, finish_number)

finish_attempt_number :
    (id : TaskId) (made : Bool) (reason : String) (s : Store)
    → (finish_attempt id made reason s).0.task_sequence ≡ s.task_sequence
unfolding finish_attempt
finish_attempt_number id made reason s = ground arith

revise_plan_number :
    (decode : String → Option Json) (c : Context) (plan : Plan) (s : Store)
    → (revise_plan decode c plan s).0.task_sequence ≡ s.task_sequence
unfolding revise_plan
revise_plan_number decode c plan s = ground arith

-- The store is well formed and has numbers left for `budget` more tasks.
record IsSound (budget : ℕ) (s : Store) : Type 0 where
  well_formed : IsWellFormed s.tasks s.task_sequence
  room : s.task_sequence + budget < 18446744073709551616

-- A call that creates no task leaves the room.
same_room : (budget : ℕ) (s : Store) → IsSound (0 + budget) s → IsSound budget s
same_room budget s h = record { well_formed = h.well_formed; room = omega (arith, h.room) }

finish-IsSound :
    (budget : ℕ) (c : Context) (status : Status) (result code : String) (s : Store)
    → is_executing (some status) ≡ false
    → IsSound budget s
    → IsSound budget (finish c status result code s).0
finish-IsSound budget c status result code s over h = record {
  well_formed = finish-IsWellFormed c status result code s over h.well_formed;
  room = omega (arith, h.room, finish_number c status result code s);
}

perform-IsSound :
    (budget : ℕ) (call : Call) (s : Store)
    → IsSound (new_tasks call + budget) s
    → IsSound budget (perform call s)
unfolding perform
perform-IsSound budget (push_task c objective input) s h = record {
  well_formed = push-IsWellFormed c objective input s (omega (arith, h.room)) h.well_formed;
  room = omega (arith, h.room, push_number c objective input s);
}
perform-IsSound budget (start_cycle c) s h = record {
  well_formed = begin_cycle-IsWellFormed c s h.well_formed;
  room = omega (arith, h.room, begin_cycle_number c s);
}
perform-IsSound budget (complete_task c result) s h =
    unfold complete in
    finish-IsSound budget c Status.completed result "" s refl (same_room budget s h)
perform-IsSound budget (end_tasks c status) s h = record {
  well_formed = end-IsWellFormed c status s h.well_formed;
  room = omega (arith, h.room, end_number c status s);
}
perform-IsSound budget (queue_work c work) s h = record {
  well_formed = (queue_agent_work_keeps c work s (omega (arith, h.room)) h.well_formed).0;
  room =
      omega
        (arith, h.room, (queue_agent_work_keeps c work s (omega (arith, h.room)) h.well_formed).1);
}
perform-IsSound budget (activate_work c id) s h = record {
  well_formed = activate_agent_work-IsWellFormed c id s h.well_formed;
  room = omega (arith, h.room, activate_agent_work_number c id s);
}
perform-IsSound budget (record_outcome v c result code) s h = record {
  well_formed = record_agent_outcome-IsWellFormed v c result code s h.well_formed;
  room = omega (arith, h.room, record_agent_outcome_number v c result code s);
}
perform-IsSound budget (finish_work c) s h = record {
  well_formed = finish_agent_work-IsWellFormed c s h.well_formed;
  room = omega (arith, h.room, finish_agent_work_number c s);
}
perform-IsSound budget (reconcile_attempt id made reason) s h = record {
  well_formed = finish_attempt-IsWellFormed id made reason s h.well_formed;
  room = omega (arith, h.room, finish_attempt_number id made reason s);
}
perform-IsSound budget (revise decode c plan) s h = record {
  well_formed = revise_plan-IsWellFormed decode c plan s h.well_formed;
  room = omega (arith, h.room, revise_plan_number decode c plan s);
}
perform-IsSound budget (abandon c) s h =
    abandon_child-keeps (IsSound budget) c (finish-IsSound budget c) s (same_room budget s h)
perform-IsSound budget (complete_all c result) s h =
    complete_objective-keeps (IsSound budget) c (finish-IsSound budget c) result s
      (same_room budget s h)

perform_all-IsSound :
    (calls : List Call) (s : Store)
    → IsSound (all_new_tasks calls) s
    → IsSound 0 (perform_all calls s)
unfolding perform_all
perform_all-IsSound [] s h = h
perform_all-IsSound (call ∷ calls) s h =
    perform_all-IsSound calls (perform call s) (perform-IsSound (all_new_tasks calls) call s h)

-- From an empty store, after any calls of the task operations, failed ones included, that create
-- fewer than 2^64 tasks: each task is stored under its own number with an older and known parent,
-- the stack is a lineage whose top runs and whose other tasks wait, and no task off the stack runs
-- or waits.
pub perform_all-IsWellFormed :
    (now : ℕ → Time) (validator : ℕ → Context → TaskState → Verdict) (started_at : Time)
    (calls : List Call)
    → all_new_tasks calls < 18446744073709551616
    → let s = perform_all calls (new_store now validator started_at) in
      IsWellFormed s.tasks s.task_sequence
unfolding new_store
perform_all-IsWellFormed now validator started_at calls room =
    (perform_all-IsSound calls (new_store now validator started_at) (record {
      well_formed = record {
        entries = λ k t e. absurd (unfold find in cc e);
        lineage = tt;
        executing = λ k e. unfold find in cc e;
      };
      room = omega (arith, room);
    })).well_formed
