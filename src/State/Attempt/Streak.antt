-- ===== src/State/Attempt/Streak.antt =====
-- FinishAttempt of internal/state/attempt.go: what it writes.
use grodt.Prelude.{String, Bool, true, false, inl, inr, some, ◌≡◌, arith, Bool-cases, Option-cases}
use grodt.State.Types.{TaskId, Task, AttemptSummary}
use grodt.State.Records.{find, insert, find-insert}
use grodt.State.Store.{Store}
use grodt.State.Tasks.Invariant.{IsWellFormed}
use grodt.State.Tasks.Writes.{touch-IsWellFormed}
use grodt.State.Attempt.{finish_attempt, reconciled, is_in_progress}

module _ (id : TaskId) (made : Bool) (reason : String) (s : Store) where
  pub finish_attempt_found :
      (t : Task) (a : AttemptSummary)
      → find id s.tasks.records ≡ some t
      → t.attempts ≡ some a
      → is_in_progress a.outcome ≡ true
      → ((finish_attempt id made reason s).0.tasks ≡ record s.tasks {
        records =
            insert id (record t { attempts = some (reconciled a made reason) }) s.tasks.records;
      })
        × ((finish_attempt id made reason s).0.task_sequence ≡ s.task_sequence)
  unfolding finish_attempt
  finish_attempt_found t a found attempt running = ground (arith, found, attempt, running)

  -- Without an attempt in progress nothing is recorded.
  pub finish_attempt_idle :
      ((t : Task) (a : AttemptSummary)
        → find id s.tasks.records ≡ some t
        → t.attempts ≡ some a
        → is_in_progress a.outcome ≡ false)
      → (finish_attempt id made reason s).0 ≡ s
  unfolding finish_attempt
  finish_attempt_idle idle = elim (Option-cases (find id s.tasks.records)) [
    | inl missing ↦ ground (arith, missing)
    | inr (t, found) ↦ elim (Option-cases t.attempts) [
      | inl no_attempt ↦ ground (arith, found, no_attempt)
      | inr (a, attempt) ↦ ground (arith, found, attempt, idle t a found attempt)
    ]
  ]

  pub finish_attempt-IsWellFormed :
      IsWellFormed s.tasks s.task_sequence
      → IsWellFormed
          (finish_attempt id made reason s).0.tasks
          (finish_attempt id made reason s).0.task_sequence
  finish_attempt-IsWellFormed w = elim (Option-cases (find id s.tasks.records)) [
    | inl missing ↦ rw (finish_attempt_idle λ t a found. cc) w
    | inr (t, found) ↦ elim (Option-cases t.attempts) [
      | inl none_yet ↦ rw (finish_attempt_idle λ t' a found' attempt. ground arith) w
      | inr (a, attempt) ↦ elim (Bool-cases (is_in_progress a.outcome)) [
        | inl running ↦
            let (tasks, seq) = finish_attempt_found t a found attempt running in
            rw (tasks, seq)
              (touch-IsWellFormed s.tasks.records s.tasks.stack s.task_sequence id
                (record t { attempts = some (reconciled a made reason) }) (ground (arith, found))
                (ground (arith, found)) w)
        | inr over ↦ rw (finish_attempt_idle λ t' a' found' attempt'. ground arith) w
      ]
    ]
  ]

-- A second reconciliation of an attempt in progress, whatever its verdict and reason, changes
-- nothing.
pub finish_attempt_once :
    (id : TaskId) (made made' : Bool) (reason reason' : String) (s : Store) (t : Task)
    (a : AttemptSummary)
    → find id s.tasks.records ≡ some t
    → t.attempts ≡ some a
    → is_in_progress a.outcome ≡ true
    → (finish_attempt id made' reason' (finish_attempt id made reason s).0).0
      ≡ (finish_attempt id made reason s).0
finish_attempt_once id made made' reason reason' s t a found attempt running =
    finish_attempt_idle id made' reason' (finish_attempt id made reason s).0
      λ t' a' found' attempt'.
        let tasks = (finish_attempt_found id made reason s t a found attempt running).0 in
        let t'' = record t { attempts = some (reconciled a made reason) } in
        let stored : find id (finish_attempt id made reason s).0.tasks.records ≡ some t'' =
          rw tasks (ground (arith, find-insert id id t'' s.tasks.records)) in
        settled a' made (ground arith)
  where
    settled :
        (a' : AttemptSummary) (b : Bool)
        → a' ≡ reconciled a b reason
        → is_in_progress a'.outcome ≡ false
    settled a' true e = ground arith
    settled a' false e = ground arith
