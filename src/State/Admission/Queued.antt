-- ===== src/State/Admission/Queued.antt =====
-- The tasks that a broadcast creates: the pending tasks of queueRequests (internal/state/host.go).
use grodt.Prelude.{
  ℕ, ◌+◌, ◌≤◌, String, false, ◌⊎◌, inl, inr, Option, none, some, List, [], ◌∷◌, length, ◌≡◌, refl,
  arith, ◌==◌, u64, Bool-cases,
}
use grodt.State.Types.{TaskId, Task, HostRequest, Event}
use grodt.State.Records.{Records, insert, find-insert}
use grodt.State.Store.{
  Context, Store, Result-cases, ok, err, Error, ◌>>◌, read_clock, append_entry, commit_tasks,
  validate_tasks,
}
use grodt.State.Turns.{turns_of, all_turns}
use grodt.State.Tasks.Invariant.{IsWellFormed, Entries-mono}
use grodt.State.Tasks.Writes.{pending-IsWellFormed}
use grodt.State.HostWork.{existing_request, host_task, queue_found, queue_requests}
use grodt.State.HostWork.Once.{queue_found-old, queue_found-new}
use grodt.State.Admission.Quiet.{Adds, Adds-same, Adds-trans, Queues}

pub all_turns-insert :
    (k : TaskId) (v : Task) (records : Records)
    → all_turns (insert k v records) ≤ all_turns records + turns_of v
unfolding insert
all_turns-insert k v [] = omega arith
all_turns-insert k v ((j, t) ∷ records) = elim (Bool-cases (j == k)) [
  | inl same ↦ ground (arith, same)
  | inr other ↦ ground (arith, other, all_turns-insert k v records)
]

queue_found-err :
    (c : Context) (partition : String) (e : Event) (r : HostRequest) (s : Store) (x : Error)
    → (queue_found c partition e r none s).1 ≡ err x
    → ((queue_found c partition e r none s).0.tasks ≡ s.tasks)
      × ((queue_found c partition e r none s).0.task_sequence ≡ u64 (s.task_sequence + 1))
unfolding read_clock commit_tasks validate_tasks append_entry
queue_found-err c partition e r s x h = ground arith

queue_found-executions :
    (c : Context) (partition : String) (e : Event) (r : HostRequest) (o : Option Task) (s : Store)
    → (queue_found c partition e r o s).0.host_executions ≡ s.host_executions
unfolding read_clock commit_tasks validate_tasks append_entry
queue_found-executions c partition e r none s = ground arith
queue_found-executions c partition e r (some t) s = refl

IsWellFormed-mono :
    (s : Store) (seq : ℕ)
    → s.task_sequence ≤ seq
    → IsWellFormed s.tasks s.task_sequence
    → IsWellFormed s.tasks seq
IsWellFormed-mono s seq le w = record {
  entries = Entries-mono s.task_sequence seq s.tasks.records le w.entries;
  lineage = w.lineage;
  executing = w.executing;
}

queued-Adds :
    (c : Context) (partition : String) (e : Event) (r : HostRequest) (s : Store)
    → (e.task_id == 0) ≡ false
    → (queue_found c partition e r none s).1 ≡ ok tt
    → Adds e.task_id 1 s (queue_found c partition e r none s).0
queued-Adds c partition e r s caused h =
    let (tasks, seq) = queue_found-new c partition e r s h in
    let n = u64 (s.task_sequence + 1) in
    let v = host_task n e partition r (s.now s.tick) in
    record {
      sequence = omega (arith, seq);
      turns = rw tasks (all_turns-insert n v s.tasks.records);
      executions = queue_found-executions c partition e r none s;
      known = λ k there. rw tasks (ground (arith, there, find-insert n k v s.tasks.records));
      well_formed = λ known room w.
          let next : n ≡ s.task_sequence + 1 = omega (arith, room) in
          rw (tasks, seq, next)
            (pending-IsWellFormed s.tasks.records s.tasks.stack s.task_sequence
              (host_task (s.task_sequence + 1) e partition r (s.now s.tick)) refl refl refl
              (ground (arith, known, caused)) w);
    }

queue_found-Adds :
    (c : Context) (partition : String) (e : Event) (r : HostRequest) (o : Option Task) (s : Store)
    → (e.task_id == 0) ≡ false
    → Adds e.task_id 1 s (queue_found c partition e r o s).0
queue_found-Adds c partition e r (some t) s caused =
    let (tasks, seq, _) = queue_found-old c partition e r t s in
    Adds-same e.task_id 1 s _ (record {
      tasks = tasks;
      sequence = seq;
      executions = queue_found-executions c partition e r (some t) s;
    })
queue_found-Adds c partition e r none s caused =
    elim (Result-cases (queue_found c partition e r none s).1) [
      | inl (u, h) ↦ queued-Adds c partition e r s caused h
      | inr (x, h) ↦
          let (tasks, seq) = queue_found-err c partition e r s x h in
          record {
            sequence = omega (arith, seq);
            turns = rw tasks (omega arith);
            executions = queue_found-executions c partition e r none s;
            known = λ k there. rw tasks there;
            well_formed = λ known room w.
                rw (tasks, seq)
                  (IsWellFormed-mono s (u64 (s.task_sequence + 1)) (omega (arith, room)) w);
          }
    ]

queue_requests-caused :
    (c : Context) (partition : String) (e : Event) (requests : List HostRequest) (s : Store)
    → (e.task_id == 0) ≡ false
    → Adds e.task_id (length requests) s (queue_requests c partition e requests s).0
unfolding queue_requests
queue_requests-caused c partition e [] s caused =
    Adds-same e.task_id 0 s s (record { tasks = refl; sequence = refl; executions = refl })
queue_requests-caused c partition e (r ∷ requests) s caused =
    let found = existing_request partition r.id s.tasks.records in
    let s₁ = (queue_found c partition e r found s).0 in
    let first = queue_found-Adds c partition e r found s caused in
    let all : 1 + length requests ≡ length (r ∷ requests) = omega arith in
    let rest =
      Adds-trans e.task_id 1 (length requests) s s₁ _ first
        (queue_requests-caused c partition e requests s₁ caused) in
    let stop = Adds-trans e.task_id 1 (length requests) s s₁ s₁ first (
      Adds-same e.task_id (length requests) s₁ s₁
        (record { tasks = refl; sequence = refl; executions = refl })) in
    rw (← all) (elim (Result-cases (queue_found c partition e r found s).1) [
      | inl (u, done) ↦ rw (done, ◌>>◌) rest
      | inr (x, failed) ↦ rw (failed, ◌>>◌) stop
    ])

-- A request needs a causal task, or there is none.
pub Queues-requests :
    (c : Context) (partition : String) (e : Event) (requests : List HostRequest) (n : ℕ)
    → length requests ≤ n
    → (requests ≡ []) ⊎ ((e.task_id == 0) ≡ false)
    → Queues e.task_id n (queue_requests c partition e requests)
Queues-requests c partition e requests n le (inr caused) = record {
  at = λ s.
      let h = queue_requests-caused c partition e requests s caused in
      record {
        sequence = omega (arith, h.sequence);
        turns = omega (arith, h.turns);
        executions = h.executions;
        known = h.known;
        well_formed = λ known room w. h.well_formed known (omega (arith, room)) w;
      };
}
Queues-requests c partition e requests n le (inl empty) =
    unfold queue_requests in
    rw empty (record {
      at = λ s.
          Adds-same e.task_id n s s (record { tasks = refl; sequence = refl; executions = refl });
    })
