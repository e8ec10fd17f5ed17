-- ===== src/State/Journal/Calls.antt =====
-- The journal of internal/state/store.go under the operations on the tasks.
use grodt.Prelude.{
  ℕ, zero, suc, ◌+◌, String, Bool, Option, none, some, List, [], ◌∷◌, ◌++◌, length, ◌≡◌,
}
use grodt.State.Types.{TaskId, Status, Task, AgentWork, AttemptSummary, Plan}
use grodt.State.Records.{Records, record_at}
use grodt.State.Store.{
  Context, Entry, Store, Op, pure, when, append_entry, task_entry, of_attempt, of_task,
}
use grodt.State.Evidence.{Json}
use grodt.State.Tasks.{
  active, push, begin_cycle, begin_cycle_of, finish, finish_of, complete, end, append_ended,
  activate, task_kind,
}
use grodt.State.Attempt.{finish_attempt, finish_found, is_in_progress, record_reconciled}
use grodt.State.AgentWork.{
  add_agent_work, append_created, append_attempt, queue_under, queue_agent_work, activate_found,
  activate_agent_work, record_under, record_agent_outcome, finish_under, finish_agent_work,
}
use grodt.State.Plan.Revise.{
  revise_plan, abandon_child, close_child, complete_turn, complete_turns, complete_objective,
}
use grodt.State.Reach.{
  Call, push_task, start_cycle, complete_task, end_tasks, queue_work, activate_work, record_outcome,
  finish_work, reconcile_attempt, revise, abandon, complete_all, perform, perform_all,
}
use grodt.State.Journal.{
  IsNumbered, Grows, Grows-refl, Grows-trans, Logs, journal_rules, Logs-bind, Logs-get, Logs-raise,
  Logs-append_entry, Logs-seq, Logs-choose, Logs-check, Logs-validate_tasks, Logs-commit_tasks,
}

ruleset task_rules = (journal_rules, Logs-check, Logs-validate_tasks, Logs-commit_tasks)

Logs-push : (c : Context) (objective input : String) → Logs (push c objective input)
unfolding push
Logs-push c objective input = search task_rules depth 12

Logs-begin_cycle_of : (c : Context) (stack : List TaskId) → Logs (begin_cycle_of c stack)
unfolding begin_cycle_of
Logs-begin_cycle_of c [] = search task_rules
Logs-begin_cycle_of c (id ∷ stack) = search task_rules depth 12

Logs-begin_cycle : (c : Context) → Logs (begin_cycle c)
unfolding begin_cycle
Logs-begin_cycle c = search (task_rules, Logs-begin_cycle_of)

Logs-finish_of :
    (c : Context) (status : Status) (result code : String) (stack : List TaskId)
    → Logs (finish_of c status result code stack)
unfolding finish_of
Logs-finish_of c status result code [] = search task_rules
Logs-finish_of c status result code (id ∷ stack) = search task_rules depth 12

Logs-finish :
    (c : Context) (status : Status) (result code : String) → Logs (finish c status result code)
unfolding finish
Logs-finish c status result code = search (task_rules, Logs-finish_of)

Logs-activate : (c : Context) (id : TaskId) → Logs (activate c id)
unfolding activate
Logs-activate c id = search task_rules depth 12

Logs-append_ended :
    (status : Status) (records : Records) (ids : List TaskId)
    → Logs (append_ended status records ids)
unfolding append_ended
Logs-append_ended status records [] = search task_rules
Logs-append_ended status records (id ∷ ids) =
    Logs-seq _ _
      (Logs-append_entry (task_entry (task_kind status) id (of_task (record_at records id))))
      (Logs-append_ended status records ids)

Logs-end : (c : Context) (status : Status) → Logs (end c status)
unfolding end
Logs-end c status = search (task_rules, Logs-append_ended) depth 14

Logs-record_reconciled :
    (id : TaskId) (t : Task) (made : Bool) (reason : String) (a : AttemptSummary)
    → Logs (record_reconciled id t made reason a)
unfolding record_reconciled
Logs-record_reconciled id t made reason a = search task_rules

Logs-finish_found :
    (id : TaskId) (made : Bool) (reason : String) (o : Option Task)
    → Logs (finish_found id made reason o)
unfolding finish_found
Logs-finish_found id made reason none = search task_rules
Logs-finish_found id made reason (some t) = by_attempts t.attempts
  where
    by_attempts :
        (o : Option AttemptSummary)
        → Logs (elim o [
          | none ↦ pure tt
          | some a ↦ when (is_in_progress a.outcome) (record_reconciled id t made reason a)
        ])
    by_attempts none = search task_rules
    by_attempts (some a) = search (task_rules, Logs-record_reconciled)

Logs-finish_attempt :
    (id : TaskId) (made : Bool) (reason : String) → Logs (finish_attempt id made reason)
unfolding finish_attempt
Logs-finish_attempt id made reason = search (task_rules, Logs-finish_found)

Logs-add_agent_work :
    (parent seq : ℕ) (work : List AgentWork) (i : ℕ) (records : Records)
    → Logs (add_agent_work parent seq work i records)
unfolding add_agent_work
Logs-add_agent_work parent seq [] i records = search task_rules
Logs-add_agent_work parent seq (w ∷ work) i records =
    let rest = Logs-add_agent_work parent seq work (i + 1) in search (task_rules, rest)

Logs-append_created : (records : Records) (ids : List TaskId) → Logs (append_created records ids)
unfolding append_created
Logs-append_created records [] = search task_rules
Logs-append_created records (id ∷ ids) =
    Logs-seq _ _ (Logs-append_entry (task_entry "task_created" id (of_task (record_at records id))))
      (Logs-append_created records ids)

Logs-append_attempt : (t : Task) → Logs (append_attempt t)
Logs-append_attempt t = by_attempts t.attempts
  where
    by_attempts :
        (o : Option AttemptSummary)
        → Logs (elim o [
          | none ↦ pure tt
          | some a ↦ append_entry (task_entry "step_attempt_started" t.id (of_attempt a))
        ])
    by_attempts none = search task_rules
    by_attempts (some a) = search task_rules

Logs-queue_under :
    (c : Context) (work : List AgentWork) (o : Option Task) → Logs (queue_under c work o)
unfolding queue_under
Logs-queue_under c work none = search task_rules
Logs-queue_under c work (some parent) =
    search (task_rules, Logs-add_agent_work, Logs-append_created, Logs-append_attempt) depth 16

Logs-queue_agent_work : (c : Context) (work : List AgentWork) → Logs (queue_agent_work c work)
unfolding queue_agent_work
Logs-queue_agent_work c work = search (task_rules, Logs-queue_under)

Logs-activate_found : (c : Context) (id : TaskId) (o : Option Task) → Logs (activate_found c id o)
unfolding activate_found
Logs-activate_found c id none = search task_rules
Logs-activate_found c id (some t) = search (task_rules, Logs-activate) depth 8

Logs-activate_agent_work : (c : Context) (id : TaskId) → Logs (activate_agent_work c id)
unfolding activate_agent_work
Logs-activate_agent_work c id = search (task_rules, Logs-activate_found)

Logs-record_under :
    (v : String → Bool) (c : Context) (result code : String) (o : Option Task)
    → Logs (record_under v c result code o)
unfolding record_under
Logs-record_under v c result code none = search task_rules
Logs-record_under v c result code (some t) = search task_rules depth 8

Logs-record_agent_outcome :
    (v : String → Bool) (c : Context) (result code : String)
    → Logs (record_agent_outcome v c result code)
unfolding record_agent_outcome
Logs-record_agent_outcome v c result code = search (task_rules, Logs-record_under)

Logs-finish_under : (c : Context) (o : Option Task) → Logs (finish_under c o)
unfolding finish_under
Logs-finish_under c none = search task_rules
Logs-finish_under c (some t) = search (task_rules, Logs-finish)

Logs-finish_agent_work : (c : Context) → Logs (finish_agent_work c)
unfolding finish_agent_work
Logs-finish_agent_work c = search (task_rules, Logs-finish_under)

Logs-revise_plan :
    (decode : String → Option Json) (c : Context) (plan : Plan) → Logs (revise_plan decode c plan)
unfolding revise_plan
Logs-revise_plan decode c plan = search task_rules depth 8

Logs-abandon_child : (c : Context) → Logs (abandon_child c)
unfolding abandon_child
Logs-abandon_child c = search (task_rules, Logs-finish)

Logs-close_child : (c : Context) (o : Option String) → Logs (close_child c o)
unfolding complete
Logs-close_child c none = Logs-abandon_child c
Logs-close_child c (some outcome) = Logs-finish c Status.completed outcome ""

Logs-complete_turn :
    (c : Context) (result : String) (again : Op Unit) (o : Option Task)
    → Logs again
    → Logs (complete_turn c result again o)
unfolding complete
Logs-complete_turn c result again none h = search task_rules
Logs-complete_turn c result again (some t) h =
    Logs-choose _ _ _ (Logs-finish c Status.completed result "")
      (Logs-choose _ _ _ (Logs-raise _) (Logs-seq _ _ (Logs-close_child c _) h))

Logs-complete_turns :
    (fuel : ℕ) (c : Context) (result : String) → Logs (complete_turns fuel c result)
unfolding complete_turns
Logs-complete_turns zero c result = search task_rules
Logs-complete_turns (suc fuel) c result =
    Logs-bind _ _ Logs-get
      λ s. Logs-complete_turn c result _ (active s) (Logs-complete_turns fuel c result)

perform-Grows : (call : Call) (s : Store) → Grows s (perform call s)
unfolding perform complete_objective complete
perform-Grows (push_task c objective input) s = (Logs-push c objective input).at s
perform-Grows (start_cycle c) s = (Logs-begin_cycle c).at s
perform-Grows (complete_task c result) s = (Logs-finish c Status.completed result "").at s
perform-Grows (end_tasks c status) s = (Logs-end c status).at s
perform-Grows (queue_work c work) s = (Logs-queue_agent_work c work).at s
perform-Grows (activate_work c id) s = (Logs-activate_agent_work c id).at s
perform-Grows (record_outcome v c result code) s = (Logs-record_agent_outcome v c result code).at s
perform-Grows (finish_work c) s = (Logs-finish_agent_work c).at s
perform-Grows (reconcile_attempt id made reason) s = (Logs-finish_attempt id made reason).at s
perform-Grows (revise decode c plan) s = (Logs-revise_plan decode c plan).at s
perform-Grows (abandon c) s = (Logs-abandon_child c).at s
perform-Grows (complete_all c result) s =
    (Logs-complete_turns (suc (length s.tasks.stack)) c result).at s

perform_all-Grows : (calls : List Call) (s : Store) → Grows s (perform_all calls s)
unfolding perform_all
perform_all-Grows [] s = Grows-refl s
perform_all-Grows (call ∷ calls) s =
    Grows-trans s (perform call s) (perform_all calls (perform call s)) (perform-Grows call s)
      (perform_all-Grows calls (perform call s))

-- Any task operations, failed ones included, only append to the journal, and keep its entries
-- numbered 1, 2, … with the counter at the last number, each modulo 2^64.
pub perform_all-IsNumbered :
    (calls : List Call) (s : Store)
    → IsNumbered s
    → ((added : List Entry) × ((perform_all calls s).journal ≡ s.journal ++ added))
      × IsNumbered (perform_all calls s)
perform_all-IsNumbered calls s h =
    let grows = perform_all-Grows calls s in ((grows.added, grows.kept), grows.numbered h)
