-- ===== src/Scenarios/Procedure.antt =====
-- Proposals, accountings and patches on concrete plans.
use Prim.Native.String.{len}
use text.Mathlib.Text.{◌==◌ as str_eq}
use grodt.Prelude.{
  ◌+◌, ◌<◌, ◌≤◌, arith, List, is_empty, ◌⊎◌, inl, String, true, false, none, some, [], ◌∷◌, ◌≡◌,
  refl,
}
use grodt.State.Types.{Task, Step, Plan, PlanStatus}
use grodt.State.Store.{Store}
use grodt.State.Plan.Cursor.{step_unresolved, advance_current_step, normalize_current_step}
use grodt.Loop.Intent.{plan_intent_changes, changed_steps, shared_ids, join}
use grodt.Loop.Intent.Laws.{IntentKept, intent_kept}
use grodt.Loop.Reconciliation.{ReconciliationDecision, ReconciliationInput}
use grodt.Loop.Reconciliation.Accounting.{
  is_result, validate_result_accounting, check_entries, check_entry,
}
use grodt.Loop.Reconciliation.Accounting.Laws.{times, AllAccounted, accounting_complete}
use grodt.Loop.Reconciliation.Proposal.{
  changed, reconciliation_plan, progress_plan, apply_updates, refuse_update, first_step,
  replace_first, allowed_references,
}
use grodt.Loop.Reconciliation.Proposal.Laws.{KeepsIntent, reconciliation_plan-KeepsIntent}
use grodt.Loop.Patch.{PlanPatch, Merge, done, has_id, apply_plan_patch}
use grodt.Loop.Patch.Laws.{HasStep, holds_id}
use grodt.Loop.Patch.History.{apply_plan_patch_keeps}
use grodt.State.Tasks.{is_blank, active}
use grodt.State.Records.{find, insert}
use grodt.State.Reach.{perform_all-IsWellFormed, new_store, perform, perform_all}
use grodt.State.AgentWork.{queue_agent_work, add_agent_work, append_created}
use grodt.State.Evidence.{resolve_evidence}
use grodt.State.Plan.Fields.{bounded_text, valid_gaps, matches_name}
use grodt.State.Plan.Equality.{same_step, same_reference, same_plan}
use grodt.State.Plan.Steps.{step_at, check_open_step, check_step, check_steps}
use grodt.State.Plan.Revise.{revise_plan, record_plan_evaluation}
use grodt.State.Plan.Check.{check_against, check_result, steps_of, check_current, check_plan}
use grodt.Loop.Gate.{plan_has_unresolved_steps}
use grodt.Loop.Planning.{
  PlanCommand, Evaluators, accepted, active_task, new_claims, evaluate_plan,
  accept_plan_with_context, accept_plan,
}
use grodt.Loop.Planning.Claims.{
  AreConfirmed, IsExplained, accept_plan_with_context-AreConfirmed, accept_plan-IsExplained,
}
use grodt.Loop.Planning.Manage.{Call, manage_plan, Planner, child_created, run_command}
use grodt.Loop.Planning.Shape.{Shaped, KeepShape}
use grodt.Loop.Planning.Commands.{HasPlace, manage_plan-Shaped}
use grodt.Loop.Planning.Children.{IsNewChild, run_command-IsNewChild}
use grodt.State.Tasks.{push}
use grodt.Scenarios.{
  clock, accepts, opening, informed, live, decode, reference, looked, reporting, first_plan,
  second_plan, planned, knowing,
}

unchanged_test : plan_intent_changes (some first_plan) (some second_plan) "accepted_plan" ≡ []
unfolding plan_intent_changes changed_steps shared_ids join step_at
unchanged_test = refl

intent_kept_example :
    IntentKept second_plan.steps first_plan.steps
    × ((is_empty first_plan.unresolved_focus ≡ true)
        ⊎ (str_eq first_plan.unresolved_focus second_plan.unresolved_focus ≡ true))
    × (str_eq first_plan.description second_plan.description ≡ true)
    × (str_eq first_plan.completion_criteria second_plan.completion_criteria ≡ true)
intent_kept_example = intent_kept first_plan second_plan unchanged_test

abbrev told : Step
told = record reporting {
  status = PlanStatus.partial;
  outcome = "the sky is clear";
  evidence = some (reference ∷ []);
}

abbrev input : ReconciliationInput
input = record {
  accepted_results =
      record { result_id = "2"; call_id = "call"; action = "sky.look"; is_error = false } ∷ [];
  omitted_plan_steps = 0;
  task_id = 1;
  plan = some first_plan;
  accepted_evidence = record { reference = reference; value = "clear"; freshness = "current" } ∷ [];
}

abbrev decision : ReconciliationDecision
decision = record {
  reason = "the sky was seen";
  result_accounting =
      record { result_id = "2"; step_id = "report"; disposition = "update"; reason = "seen" } ∷ [];
  action = "progress";
  updates = told ∷ [];
  current_step = "report";
  unresolved_focus = none;
}

accounted_test : validate_result_accounting input decision ≡ none
unfolding validate_result_accounting check_entries check_entry is_blank
accounted_test = refl

accounting_complete_example :
    (is_blank decision.reason ≡ false)
    × (len decision.reason ≤ 512)
    × ((id : String)
        → is_result input.accepted_results id ≡ true
        → times id decision.result_accounting ≡ 1)
    × AllAccounted input decision decision.result_accounting
accounting_complete_example = accounting_complete input decision accounted_test

-- The task of the first plan, with its knowledge.
abbrev ready : Store
ready = knowing planned

abbrev next : Plan
next = record first_plan { steps = looked ∷ told ∷ []; current_step = "report" }

proposed_test : reconciliation_plan decode ready input decision ≡ changed next
unfolding reconciliation_plan active perform queue_agent_work new_store add_agent_work find
    append_created validate_result_accounting is_blank same_reference same_plan advance_current_step
    same_step check_plan check_against bounded_text valid_gaps matches_name check_steps check_step
    check_open_step step_at check_result resolve_evidence check_current insert
    normalize_current_step progress_plan apply_updates refuse_update first_step replace_first
    check_entries check_entry allowed_references
proposed_test = refl

reconciliation_plan-KeepsIntent_example :
    (t : Task) × (active ready ≡ some t)
    × KeepsIntent decision.updates (steps_of t.plan) next.steps
    × (check_plan decode ready next ≡ none)
reconciliation_plan-KeepsIntent_example =
    reconciliation_plan-KeepsIntent decode ready input decision next proposed_test

-- The patch puts a new step before the report.
abbrev checking : Step
checking = record reporting { id = "check"; description = "look again" }

abbrev merge : Merge
merge = record {
  identity = λ update. none;
  merge_step = λ step update. none;
  merge_plan = λ plan update. none;
  names_current = λ update. false;
}

abbrev patch : PlanPatch
patch = record {
  revision = 0;
  add_steps = checking ∷ [];
  step_updates = [];
  remove_steps = [];
  unresolved_order = some ("check" ∷ "report" ∷ []);
  plan_updates = "";
}

abbrev patched : Plan
patched = record first_plan { steps = looked ∷ checking ∷ reporting ∷ []; current_step = "check" }

patched_test : apply_plan_patch merge (some first_plan) (some patch) ≡ done patched
unfolding apply_plan_patch advance_current_step
patched_test = refl

apply_plan_patch_keeps_example :
    (has_id "look" patch.remove_steps ≡ false → holds_id "look" patched.steps ≡ true)
    × (step_unresolved looked ≡ false → HasStep looked patched.steps)
apply_plan_patch_keeps_example =
    apply_plan_patch_keeps merge first_plan patched patch looked patched_test refl (inl refl) refl

-- Evaluators that agree.
abbrev agrees : Evaluators
agrees = record {
  is_given = true;
  complete = λ plan claims continuity s. (
    s,
    some record {
      continuity_valid = true;
      purpose_preserved = true;
      satisfied = true;
      observation = "{}";
      json = "{}";
    },
  );
  revise = λ old plan reason changes s.
      (s, some record { valid = true; observation = "{}"; json = "{}" });
  base_size = λ old plan reason changes. 100;
  full_size = λ old plan reason changes s. 200;
}

-- The report is claimed to be done.
abbrev claimed : Plan
claimed = record next {
  steps = looked ∷ record told { status = PlanStatus.satisfied } ∷ [];
  current_step = "";
}

claimed_test : (accept_plan_with_context decode agrees live claimed false false ready).1 ≡ accepted
unfolding active perform queue_agent_work new_store add_agent_work find append_created is_blank
    same_reference same_plan advance_current_step same_step check_plan check_against bounded_text
    valid_gaps matches_name check_steps check_step check_open_step step_at check_result
    resolve_evidence check_current insert normalize_current_step record_plan_evaluation revise_plan
    accept_plan_with_context evaluate_plan new_claims
claimed_test = refl

accept_plan_with_context-AreConfirmed_example :
    let t = active_task ready in
    let plan = normalize_current_step claimed t.plan in
    AreConfirmed agrees t plan false ready
    × ((false ≡ true) ⊎ (check_plan decode ready plan ≡ none))
accept_plan_with_context-AreConfirmed_example =
    accept_plan_with_context-AreConfirmed decode agrees live claimed false false ready claimed_test

-- The plan's own description changes.
abbrev shorter : Plan
shorter = record next { description = "say it shortly" }

explained_test : (accept_plan decode agrees live shorter "less to say" ready).1 ≡ accepted
unfolding active perform queue_agent_work new_store add_agent_work find append_created is_blank
    same_reference same_plan advance_current_step same_step check_plan check_against bounded_text
    valid_gaps matches_name check_steps check_step check_open_step step_at check_result
    resolve_evidence check_current insert normalize_current_step record_plan_evaluation revise_plan
    accept_plan accept_plan_with_context evaluate_plan new_claims plan_intent_changes changed_steps
    shared_ids join
explained_test = refl

accept_plan-IsExplained_example :
    let old = (active_task ready).plan in
    ((plan_intent_changes old (some shorter) "accepted_plan" ≡ [])
      ⊎ IsExplained agrees old shorter "less to say" ready)
    × ((plan_has_unresolved_steps (some shorter) ≡ true) ⊎ (plan_has_unresolved_steps old ≡ true))
accept_plan-IsExplained_example =
    accept_plan-IsExplained decode agrees live shorter "less to say" ready explained_test

abbrev planner : Planner
planner = record {
  action_of = λ text. some "create_child";
  command_of = λ text. none;
  merge = merge;
  ask = agrees;
  flush = λ s. (s, true);
  decode = decode;
  text_of = λ h. "refused";
  cut = λ text. text;
}

abbrev creating : PlanCommand
creating = record {
  action = "create_child";
  revision_reason = "";
  patch = none;
  plan = none;
  description = "look up";
  completion_criteria = "";
}

child_test : (run_command planner live creating informed).1 ≡ child_created 2
unfolding run_command perform_all perform push new_store find insert active is_blank
child_test = refl

run_command-IsNewChild_example :
    IsNewChild informed (run_command planner live creating informed).0 2
run_command-IsNewChild_example = run_command-IsNewChild planner live creating informed 2 child_test

room_test : informed.task_sequence + 1 < 18446744073709551616
unfolding perform_all perform new_store push find insert
room_test = omega arith

informed-HasPlace : HasPlace informed
informed-HasPlace = record {
  shape = perform_all-IsWellFormed clock accepts 0 opening (omega arith);
  room = room_test;
}

agrees-KeepShape : KeepShape agrees
agrees-KeepShape = record {
  complete = λ plan claims continuity s h. h;
  revise = λ old plan reason changes s h. h;
}

-- The command creates a child.
abbrev managing : List Call
managing = record { id = "call"; name = "grodt_manage_plan"; arguments = "{}" } ∷ []

manage_plan-Shaped_example :
    Shaped
      (manage_plan (record planner { command_of = λ text. some creating }) live managing informed).0
manage_plan-Shaped_example =
    manage_plan-Shaped (record planner { command_of = λ text. some creating }) live managing
      informed agrees-KeepShape (λ s h. h) informed-HasPlace
