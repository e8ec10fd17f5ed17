-- ===== src/Loop/Reconciliation/Accounting.antt =====
-- validateResultAccounting of internal/loop/result_accounting.go: every accepted result is accounted
-- for, and for work that the decision treats so.
pub mod Laws
use Prim.Native.String.{len}
use text.Mathlib.Text.{◌==◌ as str_eq}
use grodt.Prelude.{
  String, Bool, true, false, not, ◌&&◌, ◌||◌, Option, none, some, List, [], ◌∷◌, any, ltb, is_nil,
  is_some, if◌then◌else◌,
}
use grodt.State.Types.{elems, Step, Plan}
use grodt.State.Tasks.{is_blank}
use grodt.State.Plan.Steps.{step_at}
use grodt.State.Plan.Check.{steps_of}
use grodt.Loop.Reconciliation.{
  AcceptedExecutionResult, ResultAccounting, ReconciliationDecision, ReconciliationInput, Problem,
  reason_length, no_accepted_results, unknown_result, repeated_result, hidden_step,
  accounting_reason_length, update_without_step, update_without_evidence, updated_unchanged_step,
  invalid_disposition, unaccounted_result,
}

-- `strings.TrimSpace(text) == "" || len(text) > 512`
abbrev pub bad_reason : String → Bool
bad_reason text = is_blank text || ltb 512 (len text)

abbrev pub is_result : List AcceptedExecutionResult → String → Bool
is_result results id = any (λ r. str_eq r.result_id id) results

abbrev pub is_accounted : List ResultAccounting → String → Bool
is_accounted entries id = any (λ e. str_eq e.result_id id) entries

-- The disposition `update`, with the step that the decision gives for its id.
abbrev pub check_update : String → Option Step → Option Problem
check_update action none = some update_without_step
check_update action (some step) =
    if not (str_eq action "progress")
    then some update_without_step
    else if is_blank step.outcome || is_nil (elems step.evidence)
    then some update_without_evidence
    else none

abbrev pub check_disposition : ReconciliationDecision → ResultAccounting → Option Problem
check_disposition d entry =
    if str_eq entry.disposition "update"
    then check_update d.action (step_at entry.step_id d.updates)
    else if str_eq entry.disposition "no_progress"
    then (if is_some (step_at entry.step_id d.updates) then some updated_unchanged_step else none)
    else some invalid_disposition

-- The body of the loop: `seen` are the entries before.
unfoldable pub check_entry :
    ReconciliationInput
    → ReconciliationDecision
    → List ResultAccounting
    → ResultAccounting
    → Option Problem
unfolding step_at
check_entry input d seen entry =
    if not (is_result input.accepted_results entry.result_id)
    then some unknown_result
    else if is_accounted seen entry.result_id
    then some repeated_result
    else if not (any (λ (step : Step). str_eq step.id entry.step_id) (steps_of input.plan))
    then some hidden_step
    else if bad_reason entry.reason
    then some accounting_reason_length
    else check_disposition d entry

unfoldable pub check_entries :
    ReconciliationInput
    → ReconciliationDecision
    → List ResultAccounting
    → List ResultAccounting
    → Option Problem
unfolding check_entry
check_entries input d seen [] = none
check_entries input d seen (entry ∷ entries) = elim (check_entry input d seen entry) [
  | some e ↦ some e
  | none ↦ check_entries input d (entry ∷ seen) entries
]

-- `none` accepts.
unfoldable pub validate_result_accounting :
    ReconciliationInput → ReconciliationDecision → Option Problem
unfolding check_entries
validate_result_accounting input d =
    if bad_reason d.reason
    then some reason_length
    else if is_nil input.accepted_results && not (is_nil d.result_accounting)
    then some no_accepted_results
    else elim (check_entries input d [] d.result_accounting) [
      | some e ↦ some e
      | none ↦
          if any
            (λ (r : AcceptedExecutionResult). not (is_accounted d.result_accounting r.result_id))
            input.accepted_results
          then some unaccounted_result
          else none
    ]
