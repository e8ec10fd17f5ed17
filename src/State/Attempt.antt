-- ===== src/State/Attempt.antt =====
-- internal/state/attempt.go: how often a reasoning task was worked on without progress.
pub mod Streak
use grodt.Prelude.{
  ℕ, ◌+◌, String, Bool, true, false, Option, none, some, List, [], ◌∷◌, ◌++◌, leb, u64,
  if◌then◌else◌,
}
use text.Mathlib.Text.{◌==◌}
use grodt.State.Types.{
  TaskId, elems, Step, Plan, AttemptSummary, AttemptOutcome, in_progress, no_progress, progress,
  Task,
}
use grodt.State.Records.{find, insert}
use grodt.State.Store.{
  of_attempt, task_entry, Op, ◌>>=◌, ◌>>◌, pure, when, get, modify, append_entry,
}

abbrev pub replan_after_no_progress : ℕ
replan_after_no_progress = 3

-- The gaps of the steps with the id, in the order of the plan.
unfoldable pub gaps_of : String → List Step → List String
gaps_of id [] = []
gaps_of id (step ∷ steps) =
    let rest = gaps_of id steps in
    if step.id == id then elems step.information_gaps ++ rest else rest

-- The counters that a new attempt carries over.
abbrev pub carried : Option AttemptSummary → ℕ × ℕ
carried none = (0, 0)
carried (some a) = (a.total, a.consecutive_no_progress)

abbrev pub first_summary : Plan → List TaskId → ℕ → ℕ → AttemptSummary
first_summary plan ids total streak = record {
  total = u64 (total + 1);
  consecutive_no_progress = streak;
  step_id = plan.current_step;
  plan_revision = plan.revision;
  information_gaps = gaps_of plan.current_step plan.steps;
  result_ids = ids;
  outcome = in_progress;
  reason = "";
  replan_required = leb replan_after_no_progress streak;
}

-- beginAttempt on a task whose plan is `plan`: the caller has tested that there is one.
abbrev pub begin_attempt : Plan → Task → List TaskId → Task
begin_attempt plan t ids =
    let (total, streak) = carried t.attempts in
    record t { attempts = some (first_summary plan ids total streak) }

-- The summary that an accepted reconciliation leaves.
abbrev pub reconciled : AttemptSummary → Bool → String → AttemptSummary
reconciled a made_progress reason =
    let streak = if made_progress then 0 else u64 (a.consecutive_no_progress + 1) in
    record a {
      reason = reason;
      outcome = if made_progress then progress else no_progress;
      consecutive_no_progress = streak;
      replan_required = leb replan_after_no_progress streak;
    }

abbrev pub is_in_progress : AttemptOutcome → Bool
is_in_progress in_progress = true
is_in_progress _ = false

unfoldable pub record_reconciled : TaskId → Task → Bool → String → AttemptSummary → Op Unit
unfolding append_entry insert
record_reconciled id t made_progress reason a = do
  let next = reconciled a made_progress reason
  let t' = record t { attempts = some next }
  modify λ s. record s { tasks = record s.tasks { records = insert id t' s.tasks.records } }
  append_entry (task_entry "step_attempt_reconciled" id (of_attempt next))

unfoldable pub finish_found : TaskId → Bool → String → Option Task → Op Unit
unfolding record_reconciled
finish_found id made_progress reason none = pure tt
finish_found id made_progress reason (some t) = elim t.attempts [
  | none ↦ pure tt
  | some a ↦ when (is_in_progress a.outcome) (record_reconciled id t made_progress reason a)
]

unfoldable pub finish_attempt : TaskId → Bool → String → Op Unit
unfolding finish_found find
finish_attempt id made_progress reason = do
  s ← get
  finish_found id made_progress reason (find id s.tasks.records)
