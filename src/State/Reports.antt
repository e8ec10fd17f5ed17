-- ===== src/State/Reports.antt =====
-- The host's own entries: Diagnostic, RecordToolRecovery and RecordPlanningStage of
-- internal/state/store.go, and RecordReconciliation of plan.go. `cut` takes the first 512 bytes of a
-- longer text.
use Prim.Native.String.{len}
use text.Mathlib.Text.{◌==◌ as str_eq}
use grodt.Prelude.{
  ℕ, String, Bool, ◌&&◌, Option, none, some, List, [], ◌∷◌, any, ltb, leb, if◌then◌else◌,
}
use grodt.State.Types.{TaskId}
use grodt.State.Store.{
  Op, when, append_entry, task_entry, of_code, of_text, of_stage, of_reconciliation,
}

abbrev pub diagnostic_codes : List String
diagnostic_codes =
    "operation_cancelled" ∷ "exclusive_host_correction_started"
    ∷ "exclusive_host_correction_rejected" ∷ "exclusive_host_correction_accepted"
    ∷ "exclusive_host_correction_exhausted" ∷ "exclusive_host_correction_unusable"
    ∷ "exclusive_host_operations_ambiguous" ∷ "reconciliation_correction_requested"
    ∷ "tool_recovery_response" ∷ "tool_recovery_exhausted" ∷ "tool_recovery_completed"
    ∷ "planning_proposal_rejected" ∷ "planning_correction_exhausted"
    ∷ "actor_plan_capture_requested" ∷ "standalone_plan_correction_started"
    ∷ "plan_initialization_required" ∷ "plan_renewal_required" ∷ []

abbrev pub is_one_of : List String → String → Bool
is_one_of texts text = any (λ t. str_eq t text) texts

abbrev pub diagnostic_code : String → String
diagnostic_code code = if is_one_of diagnostic_codes code then code else "operation_failed"

-- The first of the optional arguments, if it is in the range.
abbrev pub shown_attempt : Option ℕ → Option ℕ
shown_attempt none = none
shown_attempt (some n) = if ltb 0 n && leb n 10 then some n else none

unfoldable pub diagnostic : String → Option ℕ → Op Unit
unfolding append_entry
diagnostic code attempt =
    append_entry
      (task_entry "runtime_failure" 0 (of_code (diagnostic_code code) (shown_attempt attempt)))

unfoldable pub record_tool_recovery : (String → Bool) → String → Op Unit
unfolding append_entry
record_tool_recovery is_valid_json summary =
    when (leb (len summary) 2048 && is_valid_json summary)
      (append_entry (task_entry "tool_recovery_requested" 0 (of_text summary)))

abbrev pub stage_action : String → String
stage_action action =
    if is_one_of ("revise" ∷ "create_child" ∷ "complete_child" ∷ "abandon_child" ∷ []) action
    then action
    else "unknown"

unfoldable pub record_planning_stage :
    (String → String) → TaskId → String → String → String → Op Unit
unfolding append_entry
record_planning_stage cut id action status reason =
    when (is_one_of ("started" ∷ "accepted" ∷ "rejected" ∷ []) status) (
      append_entry (
        task_entry "planning_stage" id (
          of_stage (stage_action action) status
            (if ltb 512 (len reason) then cut reason else reason))))

-- `proposed` is nil or a document.
unfoldable pub record_reconciliation : TaskId → String → Option String → String → Op Unit
unfolding append_entry
record_reconciliation id evidence proposed code = append_entry (
    task_entry "procedural_reconciliation" id
      (of_reconciliation evidence (elim proposed [ none ↦ "null" | some text ↦ text ]) code))
