-- ===== src/Scenarios/Tasks.antt =====
-- The task stack, its journal and the agent work on concrete stores.
use mathlib.Core.List.{filter}
use grodt.Prelude.{
  length, map, ◌+◌, ◌≤◌, ◌<◌, String, Bool, true, false, some, List, [], ◌∷◌, ◌++◌, ◌≡◌, ◌≢◌, refl,
  arith,
}
use grodt.State.Types.{TaskId, Status, Task}
use grodt.State.Records.{find, insert, record_at}
use grodt.State.Store.{ok, Store, Entry}
use grodt.State.Tasks.{
  push, finish, complete, end, append_ended, live_tasks, is_live, is_pending, pending_child,
  pushed_task, ended, activate, active,
}
use grodt.State.Tasks.Invariant.{IsWellFormed}
use grodt.State.Tasks.Return.{complete-push}
use grodt.State.Tasks.End.{end_stops}
use grodt.State.Tasks.Pending.{Named, pending_child_oldest}
use grodt.State.AgentWork.{
  record_agent_outcome, activate_agent_work, queue_agent_work, add_agent_work, append_created,
}
use grodt.State.AgentWork.Outcome.{record_agent_outcome_once}
use grodt.State.Journal.{IsNumbered}
use grodt.State.Journal.Since.{journal_since, journal_since_resumes, project, dec_selected}
use grodt.State.Journal.Calls.{perform_all-IsNumbered}
use grodt.State.Reach.{new_store, perform, perform_all, perform_all-IsWellFormed}
use grodt.Scenarios.{live, clock, accepts, start, opening, calling, queueing, opened, called}

abbrev valid_json : String → Bool
valid_json text = true

abbrev second_call : Task
second_call = record_at called.tasks.records 3

abbrev child_done : Store
child_done = (complete live "{}" (push live "look" "" opened).0).0

perform_all-IsWellFormed_example : IsWellFormed called.tasks called.task_sequence
perform_all-IsWellFormed_example = perform_all-IsWellFormed clock accepts 0 calling (omega arith)

stack_test : called.tasks.stack ≡ 2 ∷ 1 ∷ []
unfolding perform_all perform new_store push activate_agent_work queue_agent_work active
    add_agent_work find append_created pending_child activate
stack_test = refl

start-IsNumbered : IsNumbered start
unfolding new_store
start-IsNumbered = record { entries = tt; last = refl }

perform_all-IsNumbered_example :
    ((added : List Entry) × (called.journal ≡ start.journal ++ added)) × IsNumbered called
perform_all-IsNumbered_example = perform_all-IsNumbered calling start start-IsNumbered

opened-IsWellFormed : IsWellFormed opened.tasks opened.task_sequence
opened-IsWellFormed = perform_all-IsWellFormed clock accepts 0 opening (omega arith)

child_pushed_test : (push live "look" "" opened).1 ≡ ok 2
unfolding perform_all perform new_store push find insert
child_pushed_test = refl

child_done_test : (complete live "{}" (push live "look" "" opened).0).1 ≡ ok tt
unfolding perform_all perform new_store push find insert complete finish
child_done_test = refl

room_test : opened.task_sequence + 1 < 18446744073709551616
unfolding perform_all perform new_store push find insert
room_test = omega arith

opened_test : opened.tasks.stack ≡ 1 ∷ []
unfolding perform_all perform new_store push
opened_test = refl

complete-push_example :
    (child_done.tasks.stack ≡ opened.tasks.stack)
    × (record_at child_done.tasks.records 1 ≡ record_at opened.tasks.records 1)
    × (record_at child_done.tasks.records 2
        ≡ ended Status.completed "{}" ""
            ((push live "look" "" opened).0.now (push live "look" "" opened).0.tick)
            (pushed_task 2 1 "look" "" (opened.now opened.tick)))
complete-push_example =
    complete-push live live "look" "" "{}" opened 1 2 [] opened-IsWellFormed room_test opened_test
      child_pushed_test child_done_test

called-IsWellFormed : IsWellFormed called.tasks called.task_sequence
called-IsWellFormed = perform_all-IsWellFormed clock accepts 0 calling (omega arith)

recorded_test : (record_agent_outcome valid_json live "{}" "" called).1 ≡ ok tt
unfolding perform_all perform new_store push activate_agent_work queue_agent_work active
    add_agent_work find append_created pending_child activate record_agent_outcome
recorded_test = refl

record_agent_outcome_once_example :
    (record_agent_outcome valid_json live "[]" ""
      (record_agent_outcome valid_json live "{}" "" called).0).1
    ≢ ok tt
record_agent_outcome_once_example =
    record_agent_outcome_once valid_json live live "{}" "" "[]" "" called called-IsWellFormed refl
      recorded_test

ended_test : (end live Status.cancelled called).1 ≡ ok tt
unfolding perform_all perform new_store push activate_agent_work queue_agent_work active
    add_agent_work find append_created pending_child activate end append_ended live_tasks
ended_test = refl

end_stops_example :
    ((k : TaskId)
      → is_live (record_at (end live Status.cancelled called).0.tasks.records k).status ≡ false)
    × ((end live Status.cancelled called).0.tasks.stack ≡ [])
end_stops_example = end_stops live Status.cancelled called ended_test

called-Named : Named called.tasks.records
unfolding perform_all perform new_store push activate_agent_work queue_agent_work active
    add_agent_work find append_created pending_child activate
called-Named = (refl, omega arith, (refl, omega arith, (refl, omega arith, tt)))

second_call_test : find 3 called.tasks.records ≡ some second_call
unfolding perform_all perform new_store push activate_agent_work queue_agent_work active
    add_agent_work find append_created pending_child activate
second_call_test = refl

under_test : second_call.parent_id ≡ 1
unfolding perform_all perform new_store push activate_agent_work queue_agent_work active
    add_agent_work find append_created pending_child activate
under_test = refl

waiting_test : is_pending second_call.status ≡ true
unfolding perform_all perform new_store push activate_agent_work queue_agent_work active
    add_agent_work find append_created pending_child activate
waiting_test = refl

pending_child_oldest_example :
    (next : Task) × (pending_child called 1 ≡ some next)
    × (next.parent_id ≡ 1)
    × (is_pending next.status ≡ true)
    × (next.order ≤ second_call.order)
pending_child_oldest_example =
    pending_child_oldest called 1 3 second_call called-Named second_call_test under_test
      waiting_test

opened-IsNumbered : IsNumbered opened
opened-IsNumbered = (perform_all-IsNumbered opening start start-IsNumbered).1

one_entry_test : length opened.journal ≡ 1
unfolding perform_all perform new_store push
one_entry_test = refl

journal_since_resumes_example :
    ((journal_since 0 ("task_created" ∷ []) opened).0
      ≡ map project (filter (dec_selected 0 ("task_created" ∷ [])) opened.journal))
    × ((journal_since 0 ("task_created" ∷ []) opened).0
          ++ (journal_since
              (journal_since 0 ("task_created" ∷ []) opened).1
              ("task_created" ∷ [])
              (perform_all queueing opened)).0
        ≡ (journal_since 0 ("task_created" ∷ []) (perform_all queueing opened)).0)
journal_since_resumes_example =
    journal_since_resumes 0 ("task_created" ∷ []) queueing opened opened-IsNumbered
      (omega (arith, one_entry_test)) (omega arith)
