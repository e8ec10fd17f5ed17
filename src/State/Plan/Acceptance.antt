-- ===== src/State/Plan/Acceptance.antt =====
-- RevisePlan of internal/state/plan.go: its result on each path.
use mathlib.Core.Logic.{◌≢◌}
use grodt.Prelude.{
  ◌+◌, String, ◌⊎◌, inl, inr, Option, none, some, List, [], ◌∷◌, map, ◌≡◌, refl, ap, arith, u64,
}
use grodt.State.Types.{TaskId, Plan, Task}
use grodt.State.Records.{insert, find-insert, record_at}
use grodt.State.Store.{Error, ok, err, Context, Store, Result-cases}
use grodt.State.Evidence.{Json}
use grodt.State.Tasks.{active}
use grodt.State.Tasks.Invariant.{IsWellFormed}
use grodt.State.Tasks.Writes.{touch-IsWellFormed}
use grodt.State.Tasks.Activate.{top-id}
use grodt.State.Plan.Cursor.{advance_current_step, normalize_current_step}
use grodt.State.Plan.Check.{check_against, check_plan, steps_of, revision_of}
use grodt.State.Plan.History.{KeepsHistory, check_against-KeepsHistory}
use grodt.State.Plan.CursorLaws.{advance_selects}
use grodt.State.Plan.Revise.{owned_step, accepted, active_plan, revise_plan}

abbrev proposal : Plan → Store → Plan
proposal plan s = normalize_current_step plan (active_plan (active s))

-- The active task with the accepted plan.
abbrev revised : TaskId → Plan → Store → Task
revised x plan s = record (record_at s.tasks.records x) { plan = some (accepted (proposal plan s)) }

module _ (decode : String → Option Json) (c : Context) (plan : Plan) (s : Store) where
  -- A refused revision leaves the tasks, their numbers and the journal alone.
  pub revise_plan-err :
      {e : Error}
      → (revise_plan decode c plan s).1 ≡ err e
      → ((revise_plan decode c plan s).0.tasks ≡ s.tasks)
        × ((revise_plan decode c plan s).0.task_sequence ≡ s.task_sequence)
        × ((revise_plan decode c plan s).0.journal ≡ s.journal)
  unfolding revise_plan
  revise_plan-err h = ground arith

  revise_nil : s.tasks.stack ≡ [] → (revise_plan decode c plan s).1 ≢ ok tt
  unfolding revise_plan check_plan active
  revise_nil p h = ground (arith, p)

  revise-ok :
      (x : TaskId) (stack : List TaskId)
      → s.tasks.stack ≡ x ∷ stack
      → (revise_plan decode c plan s).1 ≡ ok tt
      → ((revise_plan decode c plan s).0.tasks
          ≡ record s.tasks { records = insert x (revised x plan s) s.tasks.records })
        × ((revise_plan decode c plan s).0.task_sequence ≡ s.task_sequence)
        × (check_plan decode s (proposal plan s) ≡ none)
  unfolding revise_plan
  revise-ok x stack p h = ground (arith, p)

-- RevisePlan keeps the task state well formed, on every path.
pub revise_plan-IsWellFormed :
    (decode : String → Option Json) (c : Context) (plan : Plan) (s : Store)
    → IsWellFormed s.tasks s.task_sequence
    → IsWellFormed
        (revise_plan decode c plan s).0.tasks
        (revise_plan decode c plan s).0.task_sequence
revise_plan-IsWellFormed decode c plan s w =
    by_stack s.tasks.stack refl (Result-cases (revise_plan decode c plan s).1)
  where
    by_stack :
        (stack : List TaskId)
        → s.tasks.stack ≡ stack
        → ((u : Unit {0}) × ((revise_plan decode c plan s).1 ≡ ok u))
          ⊎ ((e : Error) × ((revise_plan decode c plan s).1 ≡ err e))
        → IsWellFormed
            (revise_plan decode c plan s).0.tasks
            (revise_plan decode c plan s).0.task_sequence
    by_stack stack p (inr (e, h)) =
        let (tasks, seq, _) = revise_plan-err decode c plan s h in rw (tasks, seq) w
    by_stack [] p (inl (u, h)) = absurd (revise_nil decode c plan s p h)
    by_stack (x ∷ stack) p (inl (u, h)) =
        let (tasks, seq, _) = revise-ok decode c plan s x stack p h in
        rw (tasks, seq)
          (touch-IsWellFormed s.tasks.records s.tasks.stack s.task_sequence x (revised x plan s)
            (top-id s x stack p w).1
            (record { id = refl; order = refl; parent = refl; status = refl }) w)

check_plan-against :
    (decode : String → Option Json) (s : Store) (t : Task) (plan : Plan)
    → active s ≡ some t
    → check_plan decode s plan ≡ none
    → check_against decode s t.plan plan ≡ none
unfolding check_plan
check_plan-against decode s t plan found h = ground (arith, found)

steps-accepted : (plan : Plan) → (accepted plan).steps ≡ map owned_step plan.steps
steps-accepted plan = ap (map owned_step) (advance_selects plan).1

revision-accepted :
    (decode : String → Option Json) (s : Store) (old : Option Plan) (plan : Plan)
    → check_against decode s old plan ≡ none
    → (accepted plan).revision ≡ u64 (revision_of old + 1)
unfolding check_against advance_current_step
revision-accepted decode s old plan h = ground arith

-- An accepted revision of the active task's plan has the next revision number and keeps each settled
-- step of the plan before it: its texts, evidence and gaps are the same, and its status is too or is
-- `invalidated`.
pub revise_plan-KeepsHistory :
    (decode : String → Option Json) (c : Context) (plan : Plan) (s : Store) (t : Task)
    → active s ≡ some t
    → (revise_plan decode c plan s).1 ≡ ok tt
    → (t' : Task) × (new : Plan) × (active (revise_plan decode c plan s).0 ≡ some t')
      × (t'.plan ≡ some new)
      × (new.revision ≡ u64 (revision_of t.plan + 1))
      × KeepsHistory (steps_of t.plan) new.steps
revise_plan-KeepsHistory decode c plan s t found h = by_stack s.tasks.stack refl
  where
    by_stack :
        (stack : List TaskId)
        → s.tasks.stack ≡ stack
        → (t' : Task) × (new : Plan) × (active (revise_plan decode c plan s).0 ≡ some t')
          × (t'.plan ≡ some new)
          × (new.revision ≡ u64 (revision_of t.plan + 1))
          × KeepsHistory (steps_of t.plan) new.steps
    by_stack [] p = absurd (revise_nil decode c plan s p h)
    by_stack (x ∷ stack) p =
        let (tasks, _, checked) = revise-ok decode c plan s x stack p h in
        let against = check_plan-against decode s t (proposal plan s) found checked in
        let t' = revised x plan s in
        (
          t',
          accepted (proposal plan s),
          unfold active in ground (arith, tasks, p, find-insert x x t' s.tasks.records),
          refl,
          revision-accepted decode s t.plan (proposal plan s) against,
          rw (steps-accepted (proposal plan s))
              (check_against-KeepsHistory decode s t.plan (proposal plan s) against),
        )
