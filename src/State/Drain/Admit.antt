-- ===== src/State/Drain/Admit.antt =====
-- Admit (internal/state/store.go): the event and then the host work that it made ready.
use Prim.Native.String.{len}
use native.Mathlib.Nat.{suc-mul}
use grodt.Prelude.{
  ℕ, suc, ◌∙◌, ◌+◌, ◌-◌, ◌*◌, ◌≤◌, ◌<◌, String, inl, inr, none, true, false, is_empty, u64, refl,
  ◌≡◌, arith,
}
use grodt.State.Types.{Source, Event}
use grodt.State.Store.{Result, ok, err, Context, Op, Store, ◌>>=◌, ◌>>◌, Result-cases, pure}
use grodt.State.Tasks.Invariant.{IsWellFormed}
use grodt.State.Tasks.{active}
use grodt.State.Admission.{
  World, known_kind, task_of, numbered, event_of, admissible, announce, admit, broadcast, journaled,
}
use grodt.State.Admission.Broadcast.{admissible-same, admit-Extends}
use grodt.State.Drain.{event_tasks, drain_host_work, admit_event}
use grodt.State.Drain.Finishes.{IsIdle, Ready, drain_host_work-Settled}

-- The store is well formed and has room for the tasks that one event and the rest of the budget queue.
pub record HasRoom (w : World) (s : Store) : Type 0 where
  pub well_formed : IsWellFormed s.tasks s.task_sequence
  pub executions : s.host_executions ≤ 32
  pub room : s.task_sequence + (33 - s.host_executions) * event_tasks w < 18446744073709551616

unroll_one : (m k : ℕ) → suc m * k ≡ k + m * k
unroll_one m k = suc-mul m k ∙ (omega arith)

pub admit-Ready :
    (w : World) (c : Context) (source : Source) (payload : String) (s : Store)
    → HasRoom w s
    → Ready w (admit w c source payload none s).0
admit-Ready w c source payload s h =
    let extends = admit-Extends w c source payload none s in
    let step : 33 - s.host_executions ≡ suc (32 - s.host_executions) =
      omega (arith, h.executions) in
    let all : (33 - s.host_executions) * event_tasks w
        ≡ event_tasks w + (32 - s.host_executions) * event_tasks w =
      rw step (unroll_one _ (event_tasks w)) in
    record {
      well_formed = extends.well_formed (omega (arith, h.room, all)) h.well_formed;
      executions = omega (arith, extends.executions, h.executions);
      room = rw extends.executions (omega (arith, extends.sequence, h.room, all));
    }

-- What Admit takes: a named source of a known kind, a valid payload within the limit, and a host budget
-- that is not used up.
pub record IsFit (w : World) (source : Source) (payload : String) (s : Store) : Type 0 where
  pub named : is_empty source.id ≡ false
  pub kind : known_kind source.kind ≡ true
  pub valid : w.formats.is_valid_json payload ≡ true
  pub within : len payload ≤ 4194304
  pub budget : s.host_exhausted ≡ false

admissible-IsFit :
    (w : World) (c : Context) (source : Source) (payload : String) (s : Store) (u : Unit)
    → (admissible w c source payload s).1 ≡ ok u
    → IsFit w source payload s
unfolding admissible
admissible-IsFit w c source payload s u h = record {
  named = ground (arith, h);
  kind = ground (arith, h);
  valid = ground (arith, h);
  within = ground (arith, h);
  budget = ground (arith, h);
}

-- A sequence that succeeds is one whose parts succeed.
seq-ok :
    {A B : Type 0} (m : Op A) (k : Op B) (s : Store) (b : B)
    → ((m >> k) s).1 ≡ ok b
    → (a : A) × ((m s).1 ≡ ok a) × ((k (m s).0).1 ≡ ok b)
seq-ok m k s b h = elim (Result-cases (m s).1) [
  | inl (a, done) ↦ (a, done, ground (arith, h, done))
  | inr (x, stopped) ↦ absurd (ground (arith, h, stopped))
]

announce-event :
    (w : World) (c : Context) (source : Source) (payload : String) (s : Store) (e : Event)
    → (announce w c source payload none s).1 ≡ ok e
    → e ≡ event_of (numbered s) (s.now s.tick) source payload none
unfolding announce
announce-event w c source payload s e h =
    let given = event_of (numbered s) (s.now s.tick) source payload none in
    let heard = broadcast w c given w.definitions in
    let (u, _, last) = seq-ok heard (pure given) (journaled given (numbered s)) e h in
    ground (arith, last)

admit_ok :
    (w : World) (c : Context) (source : Source) (payload : String) (s : Store) (e : Event)
    → (admit w c source payload none s).1 ≡ ok e
    → IsFit w source payload s × (e ≡ event_of (numbered s) (s.now s.tick) source payload none)
unfolding admit
admit_ok w c source payload s e h =
    let (u, fit, rest) =
      seq-ok (admissible w c source payload) (announce w c source payload none) s e h in
    (
      admissible-IsFit w c source payload s u fit,
      announce-event w c source payload s e (rw (admissible-same w c source payload s) at rest),
    )

ok_inj : (a b : Event) → ok a ≡ ok b → a ≡ b
ok_inj a b h = ground (arith, h)

-- The event that Admit returns: what it was given, under the next number, for the active task.
pub record IsGiven (w : World) (source : Source) (payload : String) (before : Store) (e : Event)
    : Type 0 where
  pub fit : IsFit w source payload before
  pub from : e.source ≡ source
  pub content : e.payload ≡ payload
  pub correlation : e.correlation ≡ none
  pub sequence : e.sequence ≡ u64 (before.event_sequence + 1)
  pub task : e.task_id ≡ task_of before

admit-IsGiven :
    (w : World) (c : Context) (source : Source) (payload : String) (s : Store) (e : Event)
    → (admit w c source payload none s).1 ≡ ok e
    → IsGiven w source payload s e
unfolding active
admit-IsGiven w c source payload s e h =
    let (fit, same) = admit_ok w c source payload s e h in
    record {
      fit = fit;
      from = rw same refl;
      content = rw same refl;
      correlation = rw same refl;
      sequence = rw same refl;
      task = rw same refl;
    }

-- The store after Admit, with its result.
pub record Admitted (w : World) (source : Source) (payload : String) (before s : Store)
    (r : Result Event) : Type 0 where
  pub well_formed : IsWellFormed s.tasks s.task_sequence
  pub executions : s.host_executions ≤ 32
  pub event : (e : Event) → r ≡ ok e → IsGiven w source payload before e
  pub idle : (e : Event) → r ≡ ok e → IsIdle s

-- On a well-formed store with at most 32 counted executions and room for the tasks of one event
-- more, Admit leaves the task state well formed and no more than 32 executions, errors included. If
-- it returns an event, the source had a name and a known kind, the payload was valid and at most 4
-- MiB, and the host budget was not used up; the event carries the source and the payload under the
-- next number, for the task that was active, without a correlation; and then no task is active, or
-- the active task has no host work and its oldest pending child, if there is one, does not wait for
-- the host. It does not say that a younger pending child has no host work.
pub admit_event-Admitted :
    (w : World) (c : Context) (source : Source) (payload : String) (s : Store)
    → HasRoom w s
    → Admitted w source payload s
        (admit_event w c source payload s).0
        (admit_event w c source payload s).1
unfolding admit_event
admit_event-Admitted w c source payload s h =
    let ready = admit-Ready w c source payload s h in
    let s₁ = (admit w c source payload none s).0 in
    elim (Result-cases (admit w c source payload none s).1) [
      | inr (x, stopped) ↦
          let failed : Admitted w source payload s s₁ (err x) = record {
            well_formed = ready.well_formed;
            executions = ready.executions;
            event = λ e never. absurd (ground (arith, never));
            idle = λ e never. absurd (ground (arith, never));
          } in
          rw (stopped, ◌>>=◌) failed
      | inl (e, done) ↦
          rw (done, ◌>>=◌) (by_drain s₁ e ready (admit-IsGiven w c source payload s e done))
    ]
  where
    by_drain :
        (s₁ : Store) (e : Event)
        → Ready w s₁
        → IsGiven w source payload s e
        → let m = drain_host_work w c >> pure e in Admitted w source payload s (m s₁).0 (m s₁).1
    by_drain s₁ e ready given =
        let settled = drain_host_work-Settled w c s₁ ready in
        elim (Result-cases (drain_host_work w c s₁).1) [
          | inr (x, stopped) ↦
              let failed : Admitted w source payload s (drain_host_work w c s₁).0 (err x) = record {
                well_formed = settled.well_formed;
                executions = settled.executions;
                event = λ e' never. absurd (ground (arith, never));
                idle = λ e' never. absurd (ground (arith, never));
              } in
              rw (stopped, ◌>>◌) failed
          | inl (u, done) ↦
              let finished : Admitted w source payload s (drain_host_work w c s₁).0 (ok e) =
                record {
                  well_formed = settled.well_formed;
                  executions = settled.executions;
                  event = λ e' same. rw (ok_inj e e' same) at given;
                  idle = λ e' same. settled.idle done;
                } in
              rw (done, ◌>>◌) finished
        ]
