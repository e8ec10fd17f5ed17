-- ===== src/State/Drain/Execute.antt =====
-- The execution of a request in drainHostWork (internal/state/host.go), with the admission of its
-- outcome.
use native.Mathlib.Nat.{suc-mul}
use grodt.Prelude.{
  ℕ, suc, ◌∙◌, ◌+◌, ◌-◌, ◌*◌, ◌≤◌, ◌<◌, String, true, inl, inr, Option, some, List, [], ◌∷◌, ◌≡◌,
  refl, arith, u64, is_empty,
}
use grodt.State.Types.{TaskId, Status, HostWork, Task, SourceKind, Source, Correlation}
use grodt.State.Records.{Records, insert, record_at}
use grodt.State.Store.{
  Result, ok, err, Error, Context, Store, TaskState, Op, Result-cases, ◌>>◌, pure, commit_tasks,
  without_cancel, append_entry, task_entry, of_work, raise, host_budget,
}
use grodt.State.Tasks.{end, append_ended}
use grodt.State.Tasks.Invariant.{IsWellFormed}
use grodt.State.Tasks.Activate.{top-id}
use grodt.State.Tasks.Writes.{touch-IsWellFormed}
use grodt.State.Tasks.End.{end-IsWellFormed}
use grodt.State.Http.{HttpResult, execute_http}
use grodt.State.Turns.{all_turns}
use grodt.State.Admission.{World, refuse_done, admit}
use grodt.State.Admission.Quiet.{SameTasks}
use grodt.State.Admission.Broadcast.{Extends, Extends-same, admit-Extends, Quiet-refuse_done}
use grodt.State.Drain.{execute, exhaust, executed, event_tasks}
use grodt.State.Drain.Turn.{Turns, Turns-err, all_turns-write}

Extends-after : (n : ℕ) (a b c : Store) → SameTasks a b → Extends n b c → Extends n a c
Extends-after n a b c f g = record {
  sequence = rw (← f.sequence) g.sequence;
  turns = rw (← f.tasks) g.turns;
  executions = rw (← f.executions) g.executions;
  well_formed = λ room w. g.well_formed (rw f.sequence room) (rw (f.tasks, f.sequence) w);
}

-- The outcome's admission, after the check of the context.
abbrev pub admit_outcome : World → Context → Source → String → Option Correlation → Op (Unit {0})
admit_outcome w c source payload correlation = do
  refuse_done c
  admit w c source payload correlation
  pure tt

admit_outcome-Extends :
    (w : World) (c : Context) (source : Source) (payload : String)
    (correlation : Option Correlation) (s : Store)
    → Extends (event_tasks w) s (admit_outcome w c source payload correlation s).0
admit_outcome-Extends w c source payload correlation s =
    let same = (Quiet-refuse_done c).at s in
    let s₁ = (refuse_done c s).0 in
    let admitted = admit-Extends w c source payload correlation s₁ in
    elim (Result-cases (refuse_done c s).1) [
      | inr (x, stopped) ↦ rw (stopped, ◌>>◌) (Extends-same (event_tasks w) s s₁ same)
      | inl (u, done) ↦
          rw (done, ◌>>◌)
            (Extends-after (event_tasks w) s s₁ _ same
              (elim (Result-cases (admit w c source payload correlation s₁).1) [
                | inr (x, stopped) ↦ rw (stopped, ◌>>◌) admitted
                | inl (e, done) ↦ rw (done, ◌>>◌) admitted
              ]))
    ]

module _ (c : Context) (tasks : TaskState) (kind : String) (id : TaskId) (s : Store) where
  commit_tasks_counts :
      ((commit_tasks c tasks kind id s).0.host_executions ≡ s.host_executions)
      × ((commit_tasks c tasks kind id s).0.task_sequence ≡ s.task_sequence)
  unfolding commit_tasks
  commit_tasks_counts = ground arith

  commit_tasks-ok :
      (commit_tasks c tasks kind id s).1 ≡ ok tt → (commit_tasks c tasks kind id s).0.tasks ≡ tasks
  unfolding commit_tasks
  commit_tasks-ok h = ground arith

  commit_tasks-err :
      {e : Error}
      → (commit_tasks c tasks kind id s).1 ≡ err e
      → (commit_tasks c tasks kind id s).0.tasks ≡ s.tasks
  unfolding commit_tasks
  commit_tasks-err h = ground arith

unroll : (m k : ℕ) → suc m * k ≡ k + m * k
unroll m k = suc-mul m k ∙ (omega arith)

-- What the admission leaves after the execution is counted and its outcome is kept in `s₁`.
executed-Turns :
    (n : ℕ) (s s₁ s₂ : Store) (r : Result (Unit {0}))
    → s₁.host_executions ≡ s.host_executions + 1
    → s₁.task_sequence ≡ s.task_sequence
    → all_turns s₁.tasks.records ≤ all_turns s.tasks.records
    → IsWellFormed s₁.tasks s₁.task_sequence
    → s.task_sequence + (32 - s.host_executions) * n < 18446744073709551616
    → s.host_executions < 32
    → Extends n s₁ s₂
    → Turns n s s₂ r
executed-Turns n s s₁ s₂ r counted numbers turns w room budget h =
    let step : (32 - s.host_executions) ≡ suc (32 - (s.host_executions + 1)) = omega arith in
    let later : (32 - s.host_executions) * n ≡ n + (32 - (s.host_executions + 1)) * n =
      rw step (unroll _ n) in
    let later_turns : (32 - s.host_executions) * (n * 3 + 1)
        ≡ (n * 3 + 1) + (32 - (s.host_executions + 1)) * (n * 3 + 1) =
      rw step (unroll _ (n * 3 + 1)) in
    let count : s₂.host_executions ≡ s.host_executions + 1 = omega (arith, h.executions, counted) in
    record {
      well_formed = h.well_formed (omega (arith, numbers, room, later)) w;
      executions = omega (arith, count, budget);
      room = λ done. rw count (omega (arith, h.sequence, numbers, room, later));
      less = λ done. rw count (omega (arith, h.turns, turns, later_turns));
    }

executed-turns :
    (records : Records) (x : TaskId) (text : String) (o : HttpResult)
    → is_empty (record_at records x).result ≡ true
    → all_turns (insert x (executed text o (record_at records x)) records) ≤ all_turns records
executed-turns records x text o h =
    ground (arith, all_turns-write x (executed text o (record_at records x)) records, h)

-- The store when the host is called.
abbrev called : Task → HostWork → Store → Store
called t work s =
    let counted = record s { host_executions = u64 (s.host_executions + 1) } in
    let started =
      (append_entry (task_entry "host_execution_started" t.id (of_work work)) counted).0 in
    record started { tick = started.tick + 1 }

append_ended_executions :
    (status : Status) (records : Records) (ids : List TaskId) (s : Store)
    → (append_ended status records ids s).0.host_executions ≡ s.host_executions
unfolding append_ended append_entry
append_ended_executions status records [] s = refl
append_ended_executions status records (id ∷ ids) s = append_ended_executions status records ids _

end_executions :
    (c : Context) (status : Status) (s : Store)
    → (end c status s).0.host_executions ≡ s.host_executions
unfolding end
end_executions c status s = grind (arith, append_ended_executions)

module _ (w : World) (s : Store) (shape : IsWellFormed s.tasks s.task_sequence)
    (room : s.task_sequence + (32 - s.host_executions) * event_tasks w < 18446744073709551616)
    (c : Context) (x : TaskId) (stack : List TaskId) (p : s.tasks.stack ≡ x ∷ stack) where
  -- The outcome is kept, and admitted unless that failed.
  kept-Turns :
      (text : String) (o : HttpResult) (source : Source) (payload : String)
      (correlation : Option Correlation) (called : Store)
      → called.tasks ≡ s.tasks
      → called.task_sequence ≡ s.task_sequence
      → called.host_executions ≡ u64 (s.host_executions + 1)
      → s.host_executions < 32
      → is_empty (record_at s.tasks.records x).result ≡ true
      → let records = insert x (executed text o (record_at s.tasks.records x)) s.tasks.records in
        let m =
          commit_tasks
            (without_cancel c)
            (record { records = records; stack = s.tasks.stack })
            "host_execution_finished"
            x
          >> admit_outcome w c source payload correlation in
        Turns (event_tasks w) s (m called).0 (m called).1
  kept-Turns text o source payload correlation called tasks numbers counted budget waiting =
      let v = executed text o (record_at s.tasks.records x) in
      let committed : TaskState = record {
        records = insert x v s.tasks.records;
        stack = s.tasks.stack;
      } in
      let (key, known) = top-id s x stack p shape in
      let k = without_cancel c in
      let s₁ = (commit_tasks k committed "host_execution_finished" x called).0 in
      let (count, number) = commit_tasks_counts k committed "host_execution_finished" x called in
      let count' : s₁.host_executions ≡ s.host_executions + 1 =
        omega (arith, count, counted, budget) in
      let number' = number ∙ numbers in
      elim (Result-cases (commit_tasks k committed "host_execution_finished" x called).1) [
        | inr (problem, stopped) ↦
            let same =
              commit_tasks-err k committed "host_execution_finished" x called stopped ∙ tasks in
            rw (stopped, ◌>>◌)
              (executed-Turns (event_tasks w) s s₁ s₁ (err problem) count' number'
                (rw same (omega arith)) (rw (same, number') shape) room budget
                (Extends-same (event_tasks w) s₁ s₁
                  (record { tasks = refl; sequence = refl; executions = refl })))
        | inl (u, done) ↦
            let kept = commit_tasks-ok k committed "host_execution_finished" x called done in
            rw (done, ◌>>◌)
              (executed-Turns (event_tasks w) s s₁ _ _ count' number'
                (rw kept (executed-turns s.tasks.records x text o waiting))
                (rw (kept, number')
                  (touch-IsWellFormed s.tasks.records s.tasks.stack s.task_sequence x v known
                    (record { id = refl; order = refl; parent = refl; status = refl }) shape))
                room budget (admit_outcome-Extends w c source payload correlation s₁))
      ]

  ended-Turns :
      (s' : Store)
      → s'.tasks ≡ s.tasks
      → s'.task_sequence ≡ s.task_sequence
      → s'.host_executions ≡ s.host_executions
      → s.host_executions ≤ 32
      → let m : Op (Unit {0}) = end (without_cancel c) Status.failed >> raise host_budget in
        Turns (event_tasks w) s (m s').0 (m s').1
  ended-Turns s' tasks numbers counted budget =
      let k = without_cancel c in
      let over = end-IsWellFormed k Status.failed s' (rw (tasks, numbers) shape) in
      let count = end_executions k Status.failed s' ∙ counted in
      let stopped = λ (e : Error).
        Turns-err (event_tasks w) s shape room budget _ e over (omega (arith, count, budget)) in
      elim (Result-cases (end k Status.failed s').1) [
        | inl (u, done) ↦ rw (done, ◌>>◌) (stopped host_budget)
        | inr (problem, failed) ↦ rw (failed, ◌>>◌) (stopped problem)
      ]

  -- The same under the ids that the code reads back from the record.
  reread-Turns :
      (y z : TaskId) (text : String) (o : HttpResult) (source : Source) (payload : String)
      (correlation : Option Correlation) (called : Store)
      → y ≡ x
      → z ≡ x
      → called.tasks ≡ s.tasks
      → called.task_sequence ≡ s.task_sequence
      → called.host_executions ≡ u64 (s.host_executions + 1)
      → s.host_executions < 32
      → is_empty (record_at s.tasks.records x).result ≡ true
      → let records = insert y (executed text o (record_at s.tasks.records z)) s.tasks.records in
        let m =
          commit_tasks
            (without_cancel c)
            (record { records = records; stack = s.tasks.stack })
            "host_execution_finished"
            y
          >> admit_outcome w c source payload correlation in
        Turns (event_tasks w) s (m called).0 (m called).1
  reread-Turns y z text o source payload correlation called same same' tasks numbers counted budget
        waiting =
      rw (same, same')
        (kept-Turns text o source payload correlation called tasks numbers counted budget waiting)

  pub execute-Turns :
      (work : HostWork)
      → s.host_executions < 32
      → is_empty (record_at s.tasks.records x).result ≡ true
      → Turns
          (event_tasks w)
          s
          (execute w c (record_at s.tasks.records x) work s).0
          (execute w c (record_at s.tasks.records x) work s).1
  unfolding execute append_entry
  execute-Turns work budget waiting =
      let (key, known) = top-id s x stack p shape in
      let reread : (record_at s.tasks.records (record_at s.tasks.records x).id).id ≡ x =
        rw key key in
      let z = (record_at s.tasks.records x).id in
      let y = (record_at s.tasks.records z).id in
      let o = execute_http w.http w.allow_http (s.tick + 1) c work.request.payload in
      reread-Turns y z (w.http.encode o) o (record { kind = SourceKind.http; id = w.task_text y })
        (w.http.encode o)
        (some record {
          partition = work.partition;
          request_id = work.request.id;
          operation_id = "";
          turn = 0;
        })
        (called (record_at s.tasks.records x) work s) reread key refl refl refl budget waiting

  pub exhaust-Turns :
      (t : Task)
      → s.host_executions ≤ 32
      → Turns (event_tasks w) s (exhaust c t s).0 (exhaust c t s).1
  unfolding exhaust append_entry
  exhaust-Turns t budget = ended-Turns _ refl refl refl budget
