-- ===== src/State/AgentWork/Queue.antt =====
-- QueueAgentWork of internal/state/agent.go on the task state.
use grodt.Prelude.{
  ℕ, ◌+◌, ◌≤◌, ◌<◌, false, inl, inr, none, some, List, [], ◌∷◌, ◌≡◌, refl, arith, length, u64,
  Bool-cases, if◌then◌else◌,
}
use grodt.State.Types.{TaskId, AgentWork, Plan, Task}
use grodt.State.Records.{Records, find, insert, find-insert, record_at}
use grodt.State.Store.{Error, ok, err, Context, Store, Result-cases, is_ok}
use grodt.State.Tasks.{active}
use grodt.State.Tasks.Invariant.{IsWellFormed}
use grodt.State.Tasks.Writes.{SameShape, touch-IsWellFormed}
use grodt.State.Tasks.Activate.{top-id}
use grodt.State.Attempt.{begin_attempt}
use grodt.State.AgentWork.{add_agent_work, with_attempt, attempt_begins, queue_agent_work}
use grodt.State.AgentWork.Batch.{add_agent_work_lem, append_created_lem}

-- The records that the batch is committed with.
abbrev queued_records : Task → Records → List TaskId → Records
queued_records parent records ids =
    if attempt_begins parent ids
    then insert parent.id (with_attempt parent ids) records
    else records

module _ (c : Context) (work : List AgentWork) (s : Store) (parent : Task) (s' : Store)
    (records : Records) (ids : List TaskId) (top : active s ≡ some parent)
    (run : add_agent_work parent.id s.task_sequence work 0 s.tasks.records s
      ≡ (s', ok (records, ids))) where
  queue-ok :
      {out : List TaskId}
      → (queue_agent_work c work s).1 ≡ ok out
      → ((queue_agent_work c work s).0.tasks
          ≡ record s.tasks { records = queued_records parent records ids })
        × ((queue_agent_work c work s).0.task_sequence ≡ u64 (s'.task_sequence + length work))
        × (out ≡ ids)
  unfolding queue_agent_work
  queue-ok h = grind (arith, append_created_lem, top, run)

  queue-err :
      {e : Error}
      → s'.tasks ≡ s.tasks
      → s'.task_sequence ≡ s.task_sequence
      → (queue_agent_work c work s).1 ≡ err e
      → ((queue_agent_work c work s).0.tasks ≡ s.tasks)
        × ((queue_agent_work c work s).0.task_sequence ≡ s.task_sequence)
  unfolding queue_agent_work
  queue-err same seq h = grind (arith, append_created_lem, top, run)

-- Without an active task nothing is queued.
queue_none :
    (c : Context) (work : List AgentWork) (s : Store)
    → active s ≡ none
    → ((queue_agent_work c work s).0 ≡ s) × (is_ok (queue_agent_work c work s).1 ≡ false)
unfolding queue_agent_work
queue_none c work s none_active = ground (arith, none_active)

-- The write of the active task keeps the invariant: only its attempts change.
queued-IsWellFormed :
    (parent : Task) (records : Records) (stack : List TaskId) (seq : ℕ) (ids : List TaskId)
    → find parent.id records ≡ some parent
    → IsWellFormed (record { records = records; stack = stack }) seq
    → IsWellFormed (record { records = queued_records parent records ids; stack = stack }) seq
queued-IsWellFormed parent records stack seq ids there w =
    elim (Bool-cases (attempt_begins parent ids)) [
      | inl begins ↦ rw begins (
          touch-IsWellFormed records stack seq parent.id (with_attempt parent ids) (ground arith)
            (same ids) w)
      | inr not_begun ↦ rw not_begun w
    ]
  where
    same : (ids : List TaskId) → SameShape (record_at records parent.id) (with_attempt parent ids)
    same [] = ground arith
    same (id ∷ rest) = ground arith

pub queue_agent_work_keeps :
    (c : Context) (work : List AgentWork) (s : Store)
    → s.task_sequence + length work < 18446744073709551616
    → IsWellFormed s.tasks s.task_sequence
    → IsWellFormed (queue_agent_work c work s).0.tasks (queue_agent_work c work s).0.task_sequence
      × ((queue_agent_work c work s).0.task_sequence ≤ s.task_sequence + length work)
queue_agent_work_keeps c work s room w = by_stack s.tasks.stack refl
  where
    by_stack :
        (stack : List TaskId)
        → s.tasks.stack ≡ stack
        → IsWellFormed
            (queue_agent_work c work s).0.tasks
            (queue_agent_work c work s).0.task_sequence
          × ((queue_agent_work c work s).0.task_sequence ≤ s.task_sequence + length work)
    by_stack [] p = rw (queue_none c work s (unfold active in ground (arith, p))).0 (w, omega arith)
    by_stack (x ∷ stack) p =
        let (key, known) = top-id s x stack p w in
        let parent = record_at s.tasks.records x in
        let top : active s ≡ some parent = unfold active in ground (arith, p) in
        let start : IsWellFormed s.tasks (s.task_sequence + 0) =
          let e : s.task_sequence + 0 ≡ s.task_sequence = omega arith in rw e w in
        let (s', records, ids, run, added) =
          add_agent_work_lem parent.id s.task_sequence work 0 s.tasks.records s.tasks.stack s
            (omega arith) (rw key known) start in
        elim (Result-cases (queue_agent_work c work s).1) [
          | inl (out, h) ↦
              let (tasks, seq, _) = queue-ok c work s parent s' records ids top run h in
              let n : u64 (s'.task_sequence + length work) ≡ s.task_sequence + 0 + length work =
                omega (arith, added.seq_kept) in
              rw (tasks, seq, n)
                (
                  queued-IsWellFormed parent records s.tasks.stack _ ids
                      (ground (arith, added.parent_kept, key)) added.wf,
                  omega arith,
                )
          | inr (e, h) ↦
              let (tasks, seq) =
                queue-err c work s parent s' records ids top run added.tasks_kept added.seq_kept
                  h in
              rw (tasks, seq) (w, omega arith)
        ]

-- QueueAgentWork keeps the task state well formed, on every path, while numbers are left for the
-- batch.
pub queue_agent_work-IsWellFormed :
    (c : Context) (work : List AgentWork) (s : Store)
    → s.task_sequence + length work < 18446744073709551616
    → IsWellFormed s.tasks s.task_sequence
    → IsWellFormed (queue_agent_work c work s).0.tasks (queue_agent_work c work s).0.task_sequence
queue_agent_work-IsWellFormed c work s room w = (queue_agent_work_keeps c work s room w).0

-- A batch that is queued under an active task with a plan begins an attempt at the plan's step.
pub queue_agent_work-attempt :
    (c : Context) (work : List AgentWork) (s : Store) (x : TaskId) (stack : List TaskId)
    (plan : Plan) (out : List TaskId)
    → s.task_sequence + length work < 18446744073709551616
    → IsWellFormed s.tasks s.task_sequence
    → s.tasks.stack ≡ x ∷ stack
    → (record_at s.tasks.records x).plan ≡ some plan
    → 0 < length work
    → (queue_agent_work c work s).1 ≡ ok out
    → find x (queue_agent_work c work s).0.tasks.records
      ≡ some (begin_attempt plan (record_at s.tasks.records x) out)
queue_agent_work-attempt c work s x stack plan out room w p planned some_work h =
    let (key, known) = top-id s x stack p w in
    let parent = record_at s.tasks.records x in
    let top : active s ≡ some parent = unfold active in ground (arith, p) in
    let start : IsWellFormed s.tasks (s.task_sequence + 0) =
      let e : s.task_sequence + 0 ≡ s.task_sequence = omega arith in rw e w in
    let (s', records, ids, run, added) =
      add_agent_work_lem parent.id s.task_sequence work 0 s.tasks.records s.tasks.stack s
        (omega arith) (rw key known) start in
    let (tasks, _, same) = queue-ok c work s parent s' records ids top run h in
    rw (tasks, same) (begun ids parent records key planned (omega (arith, added.one_each)))
  where
    begun :
        (ids : List TaskId) (parent : Task) (records : Records)
        → parent.id ≡ x
        → parent.plan ≡ some plan
        → 0 < length ids
        → find x (queued_records parent records ids) ≡ some (begin_attempt plan parent ids)
    begun [] parent records key given more = absurd (omega arith)
    begun (id ∷ ids) parent records key given more =
        ground (arith, key, given, find-insert x x (begin_attempt plan parent (id ∷ ids)) records)
