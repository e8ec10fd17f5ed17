-- ===== src/Loop/Reconciliation.antt =====
-- The types of internal/loop/reconciliation.go and result_accounting.go. Of reconciliationInput they
-- hold the fields that the validation of a decision reads; the others only go into prompts.
pub mod Accounting
pub mod Proposal
use grodt.Prelude.{ℕ, String, Bool, Option, List}
use grodt.State.Types.{TaskId, EvidenceReference, Step, Plan}

pub record AcceptedExecutionResult : Type 0 where
  pub result_id : String  -- a task's id, as a text
  pub call_id : String
  pub action : String
  pub is_error : Bool

pub record ResultAccounting : Type 0 where
  pub result_id : String
  pub step_id : String
  pub disposition : String
  pub reason : String

pub record ReconciliationDecision : Type 0 where
  pub reason : String
  pub result_accounting : List ResultAccounting
  pub action : String
  pub updates : List Step  -- the `step` of each progressUpdate
  pub current_step : String
  pub unresolved_focus : Option String

pub record EvidenceValue : Type 0 where
  pub reference : EvidenceReference
  pub value : String
  pub freshness : String

pub record ReconciliationInput : Type 0 where
  pub accepted_results : List AcceptedExecutionResult
  pub omitted_plan_steps : ℕ
  pub task_id : TaskId
  pub plan : Option Plan
  pub accepted_evidence : List EvidenceValue

-- The messages of the errors, one constructor for each.
pub data Problem : Type 0 where
  reason_length no_accepted_results unknown_result repeated_result hidden_step : Problem
  accounting_reason_length update_without_step update_without_evidence : Problem
  updated_unchanged_step invalid_disposition unaccounted_result : Problem
  task_changed invalid_action too_many_updates no_progress_with_changes no_updates : Problem
  duplicate_step omitted_step intent_mismatch unsupported_reference unknown_step : Problem
  plan_refused : Problem
