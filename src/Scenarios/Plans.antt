-- ===== src/Scenarios/Plans.antt =====
-- Plans, attempts and the objective on concrete stores.
use grodt.Prelude.{◌+◌, ◌<◌, inl, true, false, none, some, [], ◌∷◌, ◌≡◌, ◌≢◌, refl, arith, any}
use grodt.State.Types.{Task, AttemptSummary}
use grodt.State.Records.{find, insert, record_at}
use grodt.State.Store.{Store, ok, err, out_of_fuel}
use grodt.State.Tasks.{push, active}
use grodt.State.Attempt.{first_summary, finish_attempt}
use grodt.State.Attempt.Streak.{finish_attempt_once, finish_attempt-IsWellFormed}
use grodt.State.Tasks.Invariant.{Entries, Executing, IsWellFormed}
use grodt.State.AgentWork.Queue.{queue_agent_work-IsWellFormed}
use grodt.State.AgentWork.Rounds.{
  attempts_at, Counts, Rounds, stopped, dispatched, settled, replan_after_streak,
}
use grodt.State.Plan.Fields.{bounded_text, valid_gaps, matches_name}
use grodt.State.Plan.Cursor.{
  normalize_current_step, step_unresolved, selects_open, advance_current_step,
}
use grodt.State.Plan.CursorLaws.{advance_selects}
use grodt.State.Plan.Check.{
  check_against, check_result, check_current, check_plan, is_reasoning, revision_of, steps_of,
}
use grodt.State.Plan.Claims.{
  IsAcceptable, check_plan-IsAcceptable, revise_all, revise_all-KeepsHistory,
}
use grodt.State.Plan.History.{KeepsHistory}
use grodt.State.Plan.Steps.{step_at, check_open_step, check_step, check_steps}
use grodt.State.Plan.Equality.{same_step, same_reference}
use grodt.State.Evidence.{resolve_evidence}
use grodt.State.Reach.{new_store, perform, perform_all}
use grodt.State.Plan.Revise.{revise_plan, complete_objective}
use grodt.State.AgentWork.{queue_agent_work, add_agent_work, append_created}
use grodt.State.Plan.Completion.{complete_objective_ends}
use grodt.Scenarios.{
  holder, tool_call, live, decode, informed, planned, called, first_plan, second_plan,
}

abbrev root : Task
root = record_at informed.tasks.records 1

revised_test : (revise_all decode live (first_plan ∷ second_plan ∷ []) informed).1 ≡ ok tt
unfolding perform_all perform new_store push find active check_plan check_against check_steps
    check_step check_open_step step_at check_result resolve_evidence revise_all revise_plan
    normalize_current_step advance_current_step same_step insert check_current bounded_text
    valid_gaps matches_name same_reference
revised_test = refl

found_test : active informed ≡ some root
unfolding perform_all perform new_store push find active
found_test = refl

room_test : revision_of root.plan + 2 < 18446744073709551616
unfolding perform_all perform new_store push find active insert
room_test = omega arith

checked_test : check_plan decode informed first_plan ≡ none
unfolding perform_all perform new_store push find active check_plan check_against check_steps
    check_step check_open_step step_at check_result resolve_evidence check_current insert
    bounded_text valid_gaps matches_name
checked_test = refl

revise_all-KeepsHistory_example :
    (t : Task) × (active (revise_all decode live (first_plan ∷ second_plan ∷ []) informed).0
      ≡ some t)
    × (revision_of t.plan ≡ revision_of root.plan + 2)
    × KeepsHistory (steps_of root.plan) (steps_of t.plan)
revise_all-KeepsHistory_example =
    revise_all-KeepsHistory decode live (first_plan ∷ second_plan ∷ []) informed root room_test
      found_test revised_test

check_plan-IsAcceptable_example :
    (t : Task) × (active informed ≡ some t)
    × (is_reasoning t ≡ true)
    × IsAcceptable decode informed t.plan first_plan
check_plan-IsAcceptable_example = check_plan-IsAcceptable decode informed first_plan checked_test

complete_objective_ends_example : (complete_objective live "{}" called).1 ≢ err out_of_fuel
complete_objective_ends_example = complete_objective_ends live "{}" called

advance_selects_example :
    (selects_open (advance_current_step first_plan).current_step first_plan.steps
      ≡ any step_unresolved first_plan.steps)
    × ((advance_current_step first_plan).steps ≡ first_plan.steps)
    × (record (advance_current_step first_plan) { current_step = first_plan.current_step }
        ≡ first_plan)
advance_selects_example = advance_selects first_plan

-- The root task once it has called a tool.
abbrev attempting : Task
attempting = record_at planned.tasks.records 1

abbrev summary : AttemptSummary
summary = first_summary first_plan (2 ∷ []) 0 0

attempting_test : find 1 planned.tasks.records ≡ some attempting
unfolding perform new_store find insert active queue_agent_work add_agent_work append_created
attempting_test = refl

summary_test : attempting.attempts ≡ some summary
unfolding perform new_store find insert active queue_agent_work add_agent_work append_created
summary_test = refl

finish_attempt_once_example :
    (finish_attempt 1 true "" (finish_attempt 1 false "" planned).0).0
    ≡ (finish_attempt 1 false "" planned).0
finish_attempt_once_example =
    finish_attempt_once 1 false true "" "" planned attempting summary attempting_test summary_test
      refl

-- The first attempt ends without progress, the second one begins with a batch of two calls.
abbrev stuck : Store
stuck = (finish_attempt 1 false "the sky is not in sight" planned).0

abbrev again : Store
again = (queue_agent_work live (tool_call ∷ tool_call ∷ []) stuck).0

abbrev retrying : Task
retrying = record_at again.tasks.records 1

abbrev ended : Store
ended = (finish_attempt 1 false "still not" again).0

holding : Entries 1 ((1, holder) ∷ [])
unfolding find
holding k t h = record {
  id_key = ground (arith, h);
  order_key = ground (arith, h);
  positive = ground (arith, h);
  numbered = ground (arith, h);
  parent_older = ground (arith, h);
  parent_known = inl (ground (arith, h));
}

one_running : Executing ((1, holder) ∷ []) (1 ∷ [])
unfolding find
one_running k h = inl (ground (arith, h))

held-IsWellFormed : IsWellFormed (record { records = (1, holder) ∷ []; stack = 1 ∷ [] }) 1
unfolding find
held-IsWellFormed = record {
  entries = holding;
  lineage = (refl, refl, tt);
  executing = one_running;
}

planned-IsWellFormed : IsWellFormed planned.tasks planned.task_sequence
unfolding perform
planned-IsWellFormed =
    queue_agent_work-IsWellFormed live (tool_call ∷ []) _ (omega arith) held-IsWellFormed

stack_test : stuck.tasks.stack ≡ 1 ∷ []
unfolding perform new_store find insert active queue_agent_work add_agent_work append_created
    finish_attempt
stack_test = refl

numbers_test : stuck.task_sequence + 2 < 18446744073709551616
unfolding perform new_store find insert active queue_agent_work add_agent_work append_created
    finish_attempt
numbers_test = omega arith

stuck_plan_test : (record_at stuck.tasks.records 1).plan ≡ some first_plan
unfolding perform new_store find insert active queue_agent_work add_agent_work append_created
    finish_attempt
stuck_plan_test = refl

batch_test : (queue_agent_work live (tool_call ∷ tool_call ∷ []) stuck).1 ≡ ok (3 ∷ 4 ∷ [])
unfolding perform new_store find insert active queue_agent_work add_agent_work append_created
    finish_attempt
batch_test = refl

retrying_test :
    (find 1 again.tasks.records ≡ some retrying)
    × (retrying.attempts ≡ some (first_summary first_plan (3 ∷ 4 ∷ []) 1 1))
unfolding perform new_store find insert active queue_agent_work add_agent_work append_created
    finish_attempt
retrying_test = (refl, refl)

planned-Counts : Counts 0 (attempts_at 1 planned)
unfolding perform new_store find insert active queue_agent_work add_agent_work append_created
planned-Counts = (refl, refl)

two_rounds : Rounds 1 (false ∷ false ∷ []) planned ended
two_rounds =
    settled false "the sky is not in sight" attempting summary attempting_test summary_test refl (
      dispatched live (tool_call ∷ tool_call ∷ []) [] first_plan (3 ∷ 4 ∷ [])
        (finish_attempt-IsWellFormed 1 false "the sky is not in sight" planned planned-IsWellFormed)
        numbers_test stack_test stuck_plan_test (omega arith) batch_test
        (settled false "still not" retrying (first_summary first_plan (3 ∷ 4 ∷ []) 1 1)
          retrying_test.0 retrying_test.1 refl stopped))

replan_after_streak_example : Counts 2 (attempts_at 1 ended)
replan_after_streak_example =
    replan_after_streak 1 (false ∷ false ∷ []) planned ended 0 (omega arith) planned-Counts
      two_rounds
