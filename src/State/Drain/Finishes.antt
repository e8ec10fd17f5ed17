-- ===== src/State/Drain/Finishes.antt =====
-- The loop of drainHostWork (internal/state/host.go) to its end, and Admit of store.go, which runs it.
use mathlib.Core.Logic.{◌≢◌}
use grodt.Prelude.{
  ℕ, zero, suc, ◌+◌, ◌-◌, ◌*◌, ◌≤◌, ◌<◌, true, ◌⊎◌, inl, inr, Option, none, some, List, [], ◌∷◌,
  ◌≡◌, refl, arith, leb, is_empty, is_some, Bool-cases,
}
use grodt.State.Types.{TaskId, Status, HostWork, Task}
use grodt.State.Records.{record_at}
use grodt.State.Store.{
  Result, ok, err, Error, Context, Store, Op, ◌>>◌, Result-cases, check, raise, without_cancel,
  host_budget, append_entry,
}
use grodt.State.Tasks.{active, pending_child, activate, finish, end}
use grodt.State.Tasks.Invariant.{IsWellFormed}
use grodt.State.Admission.{World}
use grodt.State.Drain.{
  Run, go_on, host_child, finish_status, execute, exhaust, drain_head, drain_work, drain_child,
  drain_active, drain_turns, drain_fuel, drain_host_work, event_tasks,
}
use grodt.State.Drain.Turn.{Turns, left, activate-Turns, finish-Turns}
use grodt.State.Drain.Execute.{execute-Turns, exhaust-Turns}

-- The loop has nothing to do next: no task is active, or the active one has no host work and its
-- oldest pending child, if there is one, does not wait for the host. A younger child still may.
abbrev pub IsIdle : Store → Type 0
IsIdle s =
    (active s ≡ none)
    ⊎ ((t : Task) × (active s ≡ some t)
        × (host_child (pending_child s t.id) ≡ none)
        × (t.work ≡ none))

-- The state in which the loop leaves the store.
pub record Settled (s : Store) (r : Result (Unit {0})) : Type 0 where
  pub well_formed : IsWellFormed s.tasks s.task_sequence
  pub executions : s.host_executions ≤ 32
  pub idle : r ≡ ok tt → IsIdle s

abbrev pub Settles : Option (Store × Result (Unit {0})) → Type 0
Settles o = (x : Store × Result (Unit {0})) × (o ≡ some x) × Settled x.0 x.1

-- What the loop needs of the store: room for the numbers of the tasks that it can still queue.
pub record Ready (w : World) (s : Store) : Type 0 where
  pub well_formed : IsWellFormed s.tasks s.task_sequence
  pub executions : s.host_executions ≤ 32
  pub room : s.task_sequence + (32 - s.host_executions) * event_tasks w < 18446744073709551616

abbrev SettlesBelow : World → ℕ → Run → Type 0
SettlesBelow w bound again =
    (s : Store) → Ready w s → left (event_tasks w) s < bound → Settles (again s)

go_on-Settles :
    (w : World) (m : Op (Unit {0})) (again : Run) (s : Store)
    → Turns (event_tasks w) s (m s).0 (m s).1
    → SettlesBelow w (left (event_tasks w) s) again
    → Settles (go_on m again s)
go_on-Settles w m again s t next = elim (Result-cases (m s).1) [
  | inr (e, stopped) ↦
      let settled : Settled (m s).0 (err e) = record {
        well_formed = t.well_formed;
        executions = t.executions;
        idle = λ never. absurd (ground (arith, never));
      } in
      rw (stopped, go_on) (((m s).0, err e), refl, settled)
  | inl (u, done) ↦
      rw (done, go_on)
        (next (m s).0
          (record { well_formed = t.well_formed; executions = t.executions; room = t.room done })
          (t.less done))
]

-- A step before the turn that leaves the store alone.
go_on-same :
    (w : World) (m : Op (Unit {0})) (again : Run) (s : Store)
    → Ready w s
    → (m s).0 ≡ s
    → Settles (again s)
    → Settles (go_on m again s)
go_on-same w m again s h same next = elim (Result-cases (m s).1) [
  | inr (e, stopped) ↦
      let settled : Settled s (err e) = record {
        well_formed = h.well_formed;
        executions = h.executions;
        idle = λ never. absurd (ground (arith, never));
      } in
      rw (stopped, go_on, same) ((s, err e), refl, settled)
  | inl (u, done) ↦ rw (done, go_on, same) next
]

drain_head_same : (c : Context) (s : Store) → (drain_head c s).0 ≡ s
unfolding drain_head check
drain_head_same c s = ground arith

raise-bad : {A : Type 0} (m : Op A) (e : Error) (s : Store) → ((m >> raise e) s).1 ≢ ok tt
raise-bad m e s h = elim (Result-cases (m s).1) [
  | inl (a, done) ↦ absurd (ground (arith, (rw (done, ◌>>◌) at h)))
  | inr (x, stopped) ↦ absurd (ground (arith, (rw (stopped, ◌>>◌) at h)))
]

exhaust_stops : (c : Context) (t : Task) (s : Store) → (exhaust c t s).1 ≢ ok tt
unfolding exhaust append_entry
exhaust_stops c t s h = raise-bad (end (without_cancel c) Status.failed) host_budget _ h

-- The work of the active task, of which no child waits for the host.
drain_work-Settles :
    (w : World) (c : Context) (again : Run) (x : TaskId) (stack : List TaskId) (o : Option HostWork)
    (s : Store)
    → Ready w s
    → s.tasks.stack ≡ x ∷ stack
    → host_child (pending_child s (record_at s.tasks.records x).id) ≡ none
    → (record_at s.tasks.records x).work ≡ o
    → SettlesBelow w (left (event_tasks w) s) again
    → Settles (drain_work w c again (record_at s.tasks.records x) o s)
unfolding drain_work
drain_work-Settles w c again x stack none s h p childless busy next =
    let active_is : active s ≡ some (record_at s.tasks.records x) = unfold active in rw p refl in
    (
      (s, ok tt),
      refl,
      record {
        well_formed = h.well_formed;
        executions = h.executions;
        idle = λ done. inr (record_at s.tasks.records x, active_is, childless, busy);
      },
    )
drain_work-Settles w c again x stack (some work) s h p childless busy next =
    let t = record_at s.tasks.records x in
    let n = event_tasks w in
    let busy' : is_some t.work ≡ true = rw busy refl in
    elim (Bool-cases (is_empty t.result)) [
      | inl empty ↦ elim (Bool-cases (leb 32 s.host_executions)) [
        | inl spent ↦
            let turned = exhaust-Turns w s h.well_formed h.room c x stack p t h.executions in
            rw (empty, spent)
              (
                (exhaust c t s),
                refl,
                record {
                  well_formed = turned.well_formed;
                  executions = turned.executions;
                  idle = λ never. absurd (exhaust_stops c t s never);
                },
              )
        | inr less ↦
            rw (empty, less)
              (go_on-Settles w (execute w c t work) again s
                (execute-Turns w s h.well_formed h.room c x stack p work (ground (arith, less))
                  empty)
                next)
      ]
      | inr full ↦ rw full (
          go_on-Settles w (finish c (finish_status t.error) t.result t.error) again s
            (finish-Turns n s h.well_formed h.room h.executions c x stack p (finish_status t.error)
              t.result t.error (ground arith) (ground arith) busy')
            next)
    ]

drain_active-Settles :
    (w : World) (c : Context) (again : Run) (s : Store)
    → Ready w s
    → SettlesBelow w (left (event_tasks w) s) again
    → Settles (drain_active w c again (active s) s)
drain_active-Settles w c again s h next = by_stack s.tasks.stack refl
  where
    by_child :
        (x : TaskId) (stack : List TaskId)
        → s.tasks.stack ≡ x ∷ stack
        → (o : Option Task) → host_child (pending_child s (record_at s.tasks.records x).id) ≡ o
        → Settles (drain_child w c again (record_at s.tasks.records x) o s)
    by_child x stack p (some child) found =
        go_on-Settles w (activate c child.id) again s
          (activate-Turns (event_tasks w) s h.well_formed h.room h.executions c x stack p child.id)
          next
    by_child x stack p none childless =
        drain_work-Settles w c again x stack _ s h p childless refl next

    by_stack :
        (stack : List TaskId)
        → s.tasks.stack ≡ stack
        → Settles (drain_active w c again (active s) s)
    by_stack [] p =
        let inactive : active s ≡ none = unfold active in rw p refl in
        rw inactive (
          (s, ok tt),
          refl,
          record {
            well_formed = h.well_formed;
            executions = h.executions;
            idle = λ done. inl inactive;
          },
        )
    by_stack (x ∷ stack) p =
        let active_is : active s ≡ some (record_at s.tasks.records x) =
          unfold active in rw p refl in
        rw active_is (by_child x stack p _ refl)

drain_turns-Settles :
    (w : World) (c : Context) (fuel : ℕ) (s : Store)
    → Ready w s
    → left (event_tasks w) s < fuel
    → Settles (drain_turns fuel w c s)
unfolding drain_turns
drain_turns-Settles w c zero s h enough = absurd (omega (arith, enough))
drain_turns-Settles w c (suc fuel) s h enough =
    go_on-same w (drain_head c) (λ s'. drain_active w c (drain_turns fuel w c) (active s') s') s h
      (drain_head_same c s)
      (drain_active-Settles w c (drain_turns fuel w c) s h
        λ s' h' less. drain_turns-Settles w c fuel s' h' (omega (arith, less, enough)))

drain_fuel_enough : (w : World) (s : Store) → left (event_tasks w) s < drain_fuel w s
drain_fuel_enough w s = omega arith

-- On a well-formed store with at most 32 counted executions and room below 2^64 for the numbers of
-- the tasks that the remaining executions can queue, the fuel of drainHostWork's loop is enough:
-- the loop ends by a return of the code.
pub drain_turns_finish :
    (w : World) (c : Context) (s : Store)
    → Ready w s
    → drain_turns (drain_fuel w s) w c s ≡ some (drain_host_work w c s)
unfolding drain_host_work
drain_turns_finish w c s h =
    let (x, found, settled) =
      drain_turns-Settles w c (drain_fuel w s) s h (drain_fuel_enough w s) in
    ground (arith, found)

-- On such a store drainHostWork leaves the task state well formed and no more than 32 counted
-- executions, whatever it returns; and if it returns no error, then no task is active, or the
-- active task has no host work and its oldest pending child does not wait for the host.
pub drain_host_work-Settled :
    (w : World) (c : Context) (s : Store)
    → Ready w s
    → Settled (drain_host_work w c s).0 (drain_host_work w c s).1
unfolding drain_host_work
drain_host_work-Settled w c s h =
    let (x, found, settled) =
      drain_turns-Settles w c (drain_fuel w s) s h (drain_fuel_enough w s) in
    rw (found, drain_host_work) settled
