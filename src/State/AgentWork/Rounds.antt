-- ===== src/State/AgentWork/Rounds.antt =====
-- Rounds of dispatch and reconciliation on a task: QueueAgentWork of internal/state/agent.go begins an
-- attempt, and FinishAttempt of internal/state/attempt.go ends it.
use grodt.Prelude.{
  ℕ, ◌+◌, ◌<◌, String, Bool, true, false, Option, none, some, List, [], ◌∷◌, ◌≡◌, refl, arith,
  length, leb, if◌then◌else◌,
}
use grodt.State.Types.{TaskId, AgentWork, Plan, Task, AttemptSummary}
use grodt.State.Records.{find, find-insert, record_at}
use grodt.State.Store.{Context, ok, Store}
use grodt.State.Tasks.Invariant.{IsWellFormed}
use grodt.State.Attempt.{finish_attempt, reconciled, is_in_progress, begin_attempt}
use grodt.State.Attempt.Streak.{finish_attempt_found}
use grodt.State.AgentWork.{queue_agent_work}
use grodt.State.AgentWork.Queue.{queue_agent_work-attempt}

-- The summary of the task's attempts.
abbrev pub attempts_at : TaskId → Store → Option AttemptSummary
attempts_at id s = (record_at s.tasks.records id).attempts

abbrev pub streak_of : Option AttemptSummary → ℕ
streak_of none = 0
streak_of (some a) = a.consecutive_no_progress

abbrev pub replan_of : Option AttemptSummary → Bool
replan_of none = false
replan_of (some a) = a.replan_required

-- A run of the store in which the task's attempts end with the verdicts, in this order: batches that
-- begin an attempt of the task, reconciliations of the attempt in progress, and anything else that
-- leaves the task's attempts as they are.
pub data Rounds (id : TaskId) : List Bool → Store → Store → Type 0 where
  stopped : {s : Store} → Rounds id [] s s
  elsewhere :
      {s s₁ s' : Store} {verdicts : List Bool}
      → attempts_at id s₁ ≡ attempts_at id s
      → Rounds id verdicts s₁ s'
      → Rounds id verdicts s s'
  dispatched :
      {s s' : Store} {verdicts : List Bool} (c : Context) (work : List AgentWork)
      (stack : List TaskId) (plan : Plan) (ids : List TaskId)
      → IsWellFormed s.tasks s.task_sequence
      → s.task_sequence + length work < 18446744073709551616
      → s.tasks.stack ≡ id ∷ stack
      → (record_at s.tasks.records id).plan ≡ some plan
      → 0 < length work
      → (queue_agent_work c work s).1 ≡ ok ids
      → Rounds id verdicts (queue_agent_work c work s).0 s'
      → Rounds id verdicts s s'
  settled :
      {s s' : Store} {verdicts : List Bool} (made : Bool) (reason : String) (t : Task)
      (a : AttemptSummary)
      → find id s.tasks.records ≡ some t
      → t.attempts ≡ some a
      → is_in_progress a.outcome ≡ true
      → Rounds id verdicts (finish_attempt id made reason s).0 s'
      → Rounds id (made ∷ verdicts) s s'

-- The verdicts without progress since the last one with progress.
abbrev pub streak : ℕ → List Bool → ℕ
streak n [] = n
streak n (true ∷ verdicts) = streak 0 verdicts
streak n (false ∷ verdicts) = streak (n + 1) verdicts

-- The count is so long, and the flag is of the count.
abbrev pub Counts : ℕ → Option AttemptSummary → Type 0
Counts n attempts = (streak_of attempts ≡ n) × (replan_of attempts ≡ leb 3 n)

-- A dispatch carries the count over.
begin_attempt-Counts :
    (plan : Plan) (t : Task) (ids : List TaskId) (n : ℕ)
    → Counts n t.attempts
    → Counts n (begin_attempt plan t ids).attempts
begin_attempt-Counts plan t ids n h = by_attempts t.attempts h
  where
    by_attempts :
        (o : Option AttemptSummary)
        → Counts n o
        → Counts n (begin_attempt plan (record t { attempts = o }) ids).attempts
    by_attempts none (count, flag) = ground (arith, count, flag)
    by_attempts (some a) (count, flag) = ground (arith, count, flag)

dispatched-Counts :
    (id : TaskId) (c : Context) (work : List AgentWork) (stack : List TaskId) (plan : Plan)
    (ids : List TaskId) (s : Store) (n : ℕ)
    → IsWellFormed s.tasks s.task_sequence
    → s.task_sequence + length work < 18446744073709551616
    → s.tasks.stack ≡ id ∷ stack
    → (record_at s.tasks.records id).plan ≡ some plan
    → 0 < length work
    → (queue_agent_work c work s).1 ≡ ok ids
    → Counts n (attempts_at id s)
    → Counts n (attempts_at id (queue_agent_work c work s).0)
dispatched-Counts id c work stack plan ids s n w room top planned some_work done h =
    let found =
      queue_agent_work-attempt c work s id stack plan ids room w top planned some_work done in
    rw (attempts_at, found) (begin_attempt-Counts plan (record_at s.tasks.records id) ids n h)

-- A reconciliation counts, or begins to count again.
settled-Counts :
    (id : TaskId) (made : Bool) (reason : String) (s : Store) (t : Task) (a : AttemptSummary)
    (n : ℕ)
    → n + 1 < 18446744073709551616
    → find id s.tasks.records ≡ some t
    → t.attempts ≡ some a
    → is_in_progress a.outcome ≡ true
    → Counts n (attempts_at id s)
    → Counts (if made then 0 else n + 1) (attempts_at id (finish_attempt id made reason s).0)
settled-Counts id made reason s t a n room found attempt running h =
    let tasks = (finish_attempt_found id made reason s t a found attempt running).0 in
    let t' = record t { attempts = some (reconciled a made reason) } in
    let count : a.consecutive_no_progress ≡ n = ground (arith, found, attempt, h.0) in
    let stored : find id (finish_attempt id made reason s).0.tasks.records ≡ some t' =
      rw tasks (ground (arith, find-insert id id t' s.tasks.records)) in
    rw (attempts_at, stored) (by_verdict made count)
  where
    by_verdict :
        (b : Bool)
        → a.consecutive_no_progress ≡ n
        → Counts (if b then 0 else n + 1) (some (reconciled a b reason))
    by_verdict true count = (refl, refl)
    by_verdict false count = (ground (arith, count), ground (arith, count))

-- In any run of the store in which non-empty batches that QueueAgentWork queues on well-formed
-- stores with room for their numbers begin attempts of an active task with a plan, FinishAttempt
-- ends the attempts in progress with any verdicts and reasons, and everything else leaves the
-- task's attempts as they are, if the count at the start is n, replanning is required there exactly
-- when n is three or more, and n plus the number of verdicts is below 2^64, then at the end the
-- count is the number of verdicts after the last one with progress, or n more than all of them if
-- none has progress, and replanning is required exactly when it is three or more.
pub replan_after_streak :
    (id : TaskId) (verdicts : List Bool) (s s' : Store) (n : ℕ)
    → n + length verdicts < 18446744073709551616
    → Counts n (attempts_at id s)
    → Rounds id verdicts s s'
    → Counts (streak n verdicts) (attempts_at id s')
replan_after_streak id _ s s' n room h stopped = h
replan_after_streak id verdicts s s' n room h (elsewhere same rest) =
    replan_after_streak id verdicts _ s' n room (rw same h) rest
replan_after_streak id verdicts s s' n room h
      (dispatched c work stack plan ids w numbers top planned some_work done rest) =
    replan_after_streak id verdicts _ s' n room
      (dispatched-Counts id c work stack plan ids s n w numbers top planned some_work done h) rest
replan_after_streak id (true ∷ verdicts) s s' n room h
      (settled true reason t a found attempt running rest) =
    replan_after_streak id verdicts _ s' 0 (omega arith)
      (settled-Counts id true reason s t a n (omega arith) found attempt running h) rest
replan_after_streak id (false ∷ verdicts) s s' n room h
      (settled false reason t a found attempt running rest) =
    replan_after_streak id verdicts _ s' (n + 1) (omega arith)
      (settled-Counts id false reason s t a n (omega arith) found attempt running h) rest
