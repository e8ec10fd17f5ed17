-- ===== src/State/Plan/Steps.antt =====
-- The loop over the steps of CheckPlan (internal/state/plan.go).
use text.Mathlib.Text.{◌==◌ as str_eq}
use grodt.Prelude.{
  String, Bool, true, false, not, ◌&&◌, ◌||◌, Option, none, some, List, [], ◌∷◌, length, all, any,
  leb, is_empty, is_nil, is_some, if◌then◌else◌,
}
use grodt.State.Types.{Slice, elems, EvidenceReference, Step}
use grodt.State.Store.{
  Error, Store, evidence_unresolved, invalid_step, pending_step_with_evidence,
  completed_step_immutable, step_satisfaction_claim,
}
use grodt.State.Plan.Fields.{
  matches_name, bounded_text, valid_plan_status, is_satisfied, is_invalidated, is_settled,
  is_pending_step, valid_gaps,
}
use grodt.State.Plan.Equality.{same_status, same_step}
use grodt.State.Evidence.{Json, resolve_evidence}

-- `old[id]`: the map is filled in order, so the last step of an id stands.
unfoldable pub step_at : String → List Step → Option Step
step_at id [] = none
step_at id (step ∷ steps) =
    let rest = step_at id steps in
    elim rest [ some found ↦ some found | none ↦ if str_eq step.id id then some step else none ]

-- validateEvidence: every reference resolves.
abbrev pub resolves : (String → Option Json) → Store → List EvidenceReference → Bool
resolves decode s refs = all (λ ref. is_some (resolve_evidence decode s ref)) refs

-- What a claim of satisfaction must bring.
abbrev pub supported : String → Slice EvidenceReference → Slice String → Bool
supported outcome evidence gaps =
    not (is_empty outcome) && not (is_nil (elems evidence)) && is_nil (elems gaps)

abbrev pub well_formed_step : List Step → Step → Bool
well_formed_step seen step =
    matches_name step.id
    && not (any (λ o. str_eq o.id step.id) seen)
    && bounded_text step.description true
    && bounded_text step.completion_criteria false
    && bounded_text step.outcome false
    && valid_plan_status step.status
    && valid_gaps (elems step.information_gaps)
    && leb (length (elems step.evidence)) 8

-- A settled step is restated, or invalidated and otherwise restated.
abbrev pub keeps_settled : Step → Step → Bool
keeps_settled prev step =
    same_step (record step { status = prev.status }) prev
    && (same_status step.status prev.status || is_invalidated step.status)

-- The checks of a step that is not the history of a settled one.
unfoldable pub check_open_step : (String → Option Json) → Store → Step → Option Error
check_open_step decode s step =
    if is_satisfied step.status && not (supported step.outcome step.evidence step.information_gaps)
    then some step_satisfaction_claim
    else if resolves decode s (elems step.evidence)
    then none
    else some evidence_unresolved

-- The body of the loop over the steps: `seen` are the steps before, `old` the accepted ones.
unfoldable pub check_step :
    (String → Option Json) → Store → List Step → List Step → Step → Option Error
check_step decode s old seen step =
    if not (well_formed_step seen step)
    then some invalid_step
    else if is_pending_step step.status && not (is_nil (elems step.evidence))
    then some pending_step_with_evidence
    else elim (step_at step.id old) [
      | none ↦ check_open_step decode s step
      | some prev ↦
          if is_settled prev.status
          then (if keeps_settled prev step then none else some completed_step_immutable)
          else check_open_step decode s step
    ]

unfoldable pub check_steps :
    (String → Option Json) → Store → List Step → List Step → List Step → Option Error
check_steps decode s old seen [] = none
check_steps decode s old seen (step ∷ steps) = elim (check_step decode s old seen step) [
  | some e ↦ some e
  | none ↦ check_steps decode s old (step ∷ seen) steps
]
