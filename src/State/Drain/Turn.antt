-- ===== src/State/Drain/Turn.antt =====
-- One turn of the loop of drainHostWork (internal/state/host.go): activate, finish, the execution of
-- a request, and the end of the budget.
use mathlib.Core.Path.{subst}
use grodt.Prelude.{
  ℕ, ◌+◌, ◌-◌, ◌*◌, ◌≤◌, ◌<◌, String, true, false, inl, inr, some, List, [], ◌∷◌, ◌≡◌, refl, arith,
  ◌==◌, is_some, Bool-cases,
}
use grodt.State.Types.{TaskId, Status, Task}
use grodt.State.Records.{Records, find, insert, find-insert, record_at}
use grodt.State.Store.{Result, ok, err, Error, Context, Store, Result-cases}
use grodt.State.Tasks.{set_status, set_top_status, is_pending, activate, finish, ended}
use grodt.State.Tasks.Invariant.{
  IsLineage, IsWellFormed, is_executing, IsLineage-insert, entry_of_status,
}
use grodt.State.Tasks.Activate.{started, activated, activate-ok, activate-IsWellFormed, top-id}
use grodt.State.Tasks.Finish.{finished, finish-ok, finish-IsWellFormed}
use grodt.State.Turns.{turns_of, all_turns}

pub all_turns-write :
    (k : TaskId) (v : Task) (records : Records)
    → all_turns (insert k v records) + turns_of (record_at records k)
      ≡ all_turns records + turns_of v
unfolding insert find
all_turns-write k v [] = omega arith
all_turns-write k v ((j, t) ∷ records) = elim (Bool-cases (j == k)) [
  | inl same ↦ ground (arith, same)
  | inr other ↦ ground (arith, other, all_turns-write k v records)
]

-- A change between the statuses of the stack.
all_turns-set_status :
    (status : Status) (x : TaskId) (records : Records)
    → is_executing (record_at records x).status ≡ true
    → is_executing (some status) ≡ true
    → all_turns (set_status status x records) ≡ all_turns records
all_turns-set_status status x records old new =
    ground
      (arith, all_turns-write x (record (record_at records x) { status = some status }) records)

all_turns-set_top_status :
    (old status : Status) (stack : List TaskId) (records : Records)
    → IsLineage records old stack
    → is_executing (some old) ≡ true
    → is_executing (some status) ≡ true
    → all_turns (set_top_status status stack records) ≡ all_turns records
all_turns-set_top_status old status [] records l h h' = refl
all_turns-set_top_status old status (x ∷ stack) records l h h' =
    all_turns-set_status status x records (rw l.0 h) h'

-- The work that is left: the turns of the tasks, and those of what the budget lets an event queue.
abbrev pub left : ℕ → Store → ℕ
left n s = all_turns s.tasks.records + (32 - s.host_executions) * (n * 3 + 1)

-- What a part of the loop does: the task state stays well formed, no more than 32 executions are
-- counted, and the next turn, if there is one, has less to do.
pub record Turns (n : ℕ) (s s' : Store) (r : Result (Unit {0})) : Type 0 where
  pub well_formed : IsWellFormed s'.tasks s'.task_sequence
  pub executions : s'.host_executions ≤ 32
  pub room : r ≡ ok tt → s'.task_sequence + (32 - s'.host_executions) * n < 18446744073709551616
  pub less : r ≡ ok tt → left n s' < left n s

activate_executions :
    (c : Context) (id : TaskId) (s : Store)
    → (activate c id s).0.host_executions ≡ s.host_executions
unfolding activate
activate_executions c id s = ground arith

finish_executions :
    (c : Context) (status : Status) (result code : String) (s : Store)
    → (finish c status result code s).0.host_executions ≡ s.host_executions
unfolding finish
finish_executions c status result code s = ground arith

module _ (n : ℕ) (s : Store) (w : IsWellFormed s.tasks s.task_sequence)
    (room : s.task_sequence + (32 - s.host_executions) * n < 18446744073709551616)
    (budget : s.host_executions ≤ 32) where
  running-IsLineage :
      (x : TaskId) (stack : List TaskId)
      → s.tasks.stack ≡ x ∷ stack
      → IsLineage s.tasks.records Status.running (x ∷ stack)
  running-IsLineage x stack p = subst (IsLineage s.tasks.records Status.running) p w.lineage

  activated_turns :
      (id x : TaskId) (stack : List TaskId)
      → s.tasks.stack ≡ x ∷ stack
      → is_pending (record_at s.tasks.records id).status ≡ true
      → all_turns (activated s id x stack).records < all_turns s.tasks.records
  activated_turns id x stack p pending =
      let l = running-IsLineage x stack p in
      let records = set_top_status Status.waiting (x ∷ stack) s.tasks.records in
      let same =
        all_turns-set_top_status Status.running Status.waiting (x ∷ stack) s.tasks.records l refl
          refl in
      let written = all_turns-write id (started s id) records in
      ground (
        arith,
        same,
        written,
        pending,
        l.0,
        find-insert x id (record (record_at s.tasks.records x) { status = some Status.waiting })
            s.tasks.records,
      )

  finished_turns :
      (status : Status) (result code : String) (x : TaskId) (stack : List TaskId)
      → s.tasks.stack ≡ x ∷ stack
      → is_executing (some status) ≡ false
      → is_pending (some status) ≡ false
      → is_some (record_at s.tasks.records x).work ≡ true
      → all_turns (finished s status result code x stack).records < all_turns s.tasks.records
  finished_turns status result code x stack p over done busy =
      let l = running-IsLineage x stack p in
      let v = ended status result code (s.now s.tick) (record_at s.tasks.records x) in
      let written = all_turns-write x v s.tasks.records in
      let entry =
        w.entries x (record_at s.tasks.records x)
          (entry_of_status s.tasks.records x Status.running l.0) in
      let waiting =
        IsLineage-insert s.task_sequence s.tasks.records x v Status.waiting stack w.entries
          (omega (arith, l.1, entry.parent_older)) l.2 in
      let same =
        all_turns-set_top_status Status.waiting Status.running stack (insert x v s.tasks.records)
          waiting refl refl in
      ground (arith, same, written, over, done, busy, l.0)

  -- An error ends the loop.
  pub Turns-err :
      (s' : Store) (x : Error)
      → IsWellFormed s'.tasks s'.task_sequence
      → s'.host_executions ≤ 32
      → Turns n s s' (err x)
  Turns-err s' x h e = record {
    well_formed = h;
    executions = e;
    room = λ never. absurd (ground (arith, never));
    less = λ never. absurd (ground (arith, never));
  }

  Turns-ok :
      (s' : Store)
      → IsWellFormed s'.tasks s'.task_sequence
      → s'.host_executions ≡ s.host_executions
      → s'.task_sequence ≡ s.task_sequence
      → all_turns s'.tasks.records < all_turns s.tasks.records
      → Turns n s s' (ok tt)
  Turns-ok s' h e q lt = record {
    well_formed = h;
    executions = omega (arith, e);
    room = λ done. rw (e, q) room;
    less = λ done. rw e (omega (arith, lt));
  }

  module _ (c : Context) (x : TaskId) (stack : List TaskId) (p : s.tasks.stack ≡ x ∷ stack) where
    pub activate-Turns : (id : TaskId) → Turns n s (activate c id s).0 (activate c id s).1
    activate-Turns id =
        let h = activate-IsWellFormed c id s w in
        let e = activate_executions c id s in
        elim (Result-cases (activate c id s).1) [
          | inr (problem, stopped) ↦ rw stopped (Turns-err _ problem h (omega (arith, e, budget)))
          | inl (u, done) ↦
              let (tasks, seq, pending, _) =
                activate-ok c id s x stack p (top-id s x stack p w).0 done in
              rw done (Turns-ok _ h e seq (rw tasks (activated_turns id x stack p pending)))
        ]

    pub finish-Turns :
        (status : Status) (result code : String)
        → is_executing (some status) ≡ false
        → is_pending (some status) ≡ false
        → is_some (record_at s.tasks.records x).work ≡ true
        → Turns n s (finish c status result code s).0 (finish c status result code s).1
    finish-Turns status result code over settled busy =
        let h = finish-IsWellFormed c status result code s over w in
        let e = finish_executions c status result code s in
        elim (Result-cases (finish c status result code s).1) [
          | inr (problem, stopped) ↦ rw stopped (Turns-err _ problem h (omega (arith, e, budget)))
          | inl (u, done) ↦
              let (tasks, seq, _) = finish-ok c status result code s x stack p done in
              rw done (
                Turns-ok _ h e seq
                  (rw tasks (finished_turns status result code x stack p over settled busy)))
        ]
