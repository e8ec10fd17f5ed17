-- ===== src/Loop/Intent.antt =====
-- planIntentChanges and intentPlan of internal/loop/plan_intent.go: which intent of a plan a proposal
-- changes.
pub mod Laws
use Prim.Native.String.{◌++◌ as str_append}
use text.Mathlib.Text.{◌==◌ as str_eq}
use grodt.Prelude.{
  String, Bool, true, false, not, ◌&&◌, ◌||◌, Option, none, some, List, [], ◌∷◌, ◌++◌, any, map,
  is_empty, if◌then◌else◌,
}
use grodt.State.Types.{PlanStatus, Step, Plan}
use grodt.State.Plan.Fields.{is_satisfied, is_invalidated, is_settled}
use grodt.State.Plan.Equality.{same_status}
use grodt.State.Plan.Steps.{step_at}

abbrev pub intent_step : Step → Step
intent_step step = record step { outcome = ""; information_gaps = none; evidence = none }

abbrev pub intent_plan : Option Plan → Option Plan
intent_plan none = none
intent_plan (some plan) = some (record plan {
  outcome = "";
  information_gaps = none;
  evidence = none;
  steps = map intent_step plan.steps;
})

abbrev pub is_failed : PlanStatus → Bool
is_failed PlanStatus.failed = true
is_failed _ = false

-- An intended step that is kept: `candidate` is the proposal's step of its id.
abbrev pub keeps_intent : Step → Step → Bool
keeps_intent step candidate =
    str_eq candidate.description step.description
    && str_eq candidate.completion_criteria step.completion_criteria
    && not (
        (is_failed candidate.status || is_invalidated candidate.status)
        && not (same_status candidate.status step.status))

-- The body of the loop over the steps of the old plan: is its id listed?
abbrev pub changes_step : Bool → List Step → Step → Bool
changes_step from_accepted next step =
    if from_accepted && is_settled step.status
    then (elim (step_at step.id next) [
      | none ↦ false
      | some candidate ↦ is_satisfied step.status && is_invalidated candidate.status
    ])
    else (elim (step_at step.id next) [
      | none ↦ true
      | some candidate ↦ not (keeps_intent step candidate)
    ])

unfoldable pub changed_steps : Bool → List Step → List Step → List String
changed_steps from_accepted next [] = []
changed_steps from_accepted next (step ∷ steps) =
    let rest = changed_steps from_accepted next steps in
    if changes_step from_accepted next step then step.id ∷ rest else rest

-- The ids of `steps` that are ids of `others`, in their order.
unfoldable pub shared_ids : List Step → List Step → List String
shared_ids others [] = []
shared_ids others (step ∷ steps) =
    let rest = shared_ids others steps in
    if any (λ o. str_eq o.id step.id) others then step.id ∷ rest else rest

-- strings.Join(ids, "\x00")
unfoldable pub join : List String → String
join [] = ""
join (id ∷ []) = id
join (id ∷ next ∷ ids) = str_append id (str_append "\0" (join (next ∷ ids)))

abbrev pub if_changed : Bool → String → List String
if_changed true name = name ∷ []
if_changed false name = []

unfoldable pub plan_intent_changes : Option Plan → Option Plan → String → List String
unfolding changed_steps
plan_intent_changes none proposed source = []
plan_intent_changes (some old) none source = []
plan_intent_changes (some old) (some proposed) source =
    changed_steps (str_eq source "accepted_plan") proposed.steps old.steps
    ++ (if_changed
          (not (
            str_eq (join (shared_ids proposed.steps old.steps))
              (join (shared_ids old.steps proposed.steps))))
          "step_order"
        ++ (if_changed
              (not (is_empty old.unresolved_focus)
                && not (str_eq old.unresolved_focus proposed.unresolved_focus))
              "unresolved_focus"
            ++ if_changed
                (not (str_eq old.description proposed.description)
                  || not (str_eq old.completion_criteria proposed.completion_criteria))
                "plan"))
