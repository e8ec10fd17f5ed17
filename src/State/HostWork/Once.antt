-- ===== src/State/HostWork/Once.antt =====
-- queueRequests of internal/state/host.go on requests that have been queued.
use text.Mathlib.Text.{◌==◌ as str_eq}
use text.Mathlib.TextPositions.{eq_refl}
use grodt.Prelude.{
  ◌+◌, ◌<◌, ◌≤◌, ◌∙◌, String, true, none, some, List, [], ◌∷◌, length, any, Bool-cases, ◌≡◌, refl,
  arith, u64, is_some, inl, inr, Option-cases,
}
use grodt.State.Types.{TaskId, HostRequest, Task, Event}
use grodt.State.Records.{Records, find, insert, find-insert}
use grodt.State.Store.{
  Context, Op, ok, Store, Result-cases, read_clock, append_entry, commit_tasks, validate_tasks,
}
use grodt.State.Tasks.Invariant.{IsWellFormed}
use grodt.State.Plan.EqualityLaws.{str_eq_sound}
use grodt.State.HostWork.{is_request, existing_request, host_task, queue_found, queue_requests}

-- No record has a number above the counter.
abbrev Fresh : Store → Type 0
Fresh s = (k : TaskId) → s.task_sequence < k → find k s.tasks.records ≡ none

existing_request-insert :
    (partition id : String) (k : TaskId) (v : Task) (records : Records)
    → is_request partition id v ≡ true
    → is_some (existing_request partition id (insert k v records)) ≡ true
unfolding existing_request insert
existing_request-insert partition id k v [] h = ground (arith, h)
existing_request-insert partition id k v ((j, t) ∷ records) h =
    ground (arith, h, existing_request-insert partition id k v records h)

existing_request_stays :
    (partition id : String) (k : TaskId) (v : Task) (records : Records)
    → find k records ≡ none
    → is_some (existing_request partition id records) ≡ true
    → is_some (existing_request partition id (insert k v records)) ≡ true
unfolding existing_request insert find
existing_request_stays partition id k v [] new h = ground (arith, h)
existing_request_stays partition id k v ((j, t) ∷ records) new h =
    ground (arith, h, new, existing_request_stays partition id k v records)

-- A turn of the loop that succeeds.
record Queued (partition : String) (r : HostRequest) (s s' : Store) : Type 0 where
  fresh : Fresh s'
  counted : s'.task_sequence ≤ s.task_sequence + 1
  there : is_some (existing_request partition r.id s'.tasks.records) ≡ true
  stays :
      (id : String)
      → is_some (existing_request partition id s.tasks.records) ≡ true
      → is_some (existing_request partition id s'.tasks.records) ≡ true

pub queue_found-old :
    (c : Context) (partition : String) (e : Event) (r : HostRequest) (t : Task) (s : Store)
    → ((queue_found c partition e r (some t) s).0.tasks ≡ s.tasks)
      × ((queue_found c partition e r (some t) s).0.task_sequence ≡ s.task_sequence)
      × ((queue_found c partition e r (some t) s).1 ≡ ok tt)
unfolding append_entry
queue_found-old c partition e r t s = (refl, refl, refl)

pub queue_found-new :
    (c : Context) (partition : String) (e : Event) (r : HostRequest) (s : Store)
    → (queue_found c partition e r none s).1 ≡ ok tt
    → let id = u64 (s.task_sequence + 1) in
      ((queue_found c partition e r none s).0.tasks ≡ record s.tasks {
        records = insert id (host_task id e partition r (s.now s.tick)) s.tasks.records;
      })
      × ((queue_found c partition e r none s).0.task_sequence ≡ id)
unfolding read_clock commit_tasks validate_tasks append_entry
queue_found-new c partition e r s h = ground arith

Queued-old :
    (c : Context) (partition : String) (e : Event) (r : HostRequest) (s : Store) (t : Task)
    → Fresh s
    → existing_request partition r.id s.tasks.records ≡ some t
    → Queued partition r s (queue_found c partition e r (some t) s).0
Queued-old c partition e r s t fresh found =
    let (tasks, seq, _) = queue_found-old c partition e r t s in
    record {
      fresh = λ k above. rw tasks (fresh k (omega (arith, seq)));
      counted = omega (arith, seq);
      there = rw tasks (ground (arith, found));
      stays = λ id there. rw tasks there;
    }

Queued-new :
    (c : Context) (partition : String) (e : Event) (r : HostRequest) (s : Store)
    → Fresh s
    → s.task_sequence + 1 < 18446744073709551616
    → (queue_found c partition e r none s).1 ≡ ok tt
    → Queued partition r s (queue_found c partition e r none s).0
Queued-new c partition e r s fresh room h =
    let (tasks, seq) = queue_found-new c partition e r s h in
    let n = u64 (s.task_sequence + 1) in
    let v = host_task n e partition r (s.now s.tick) in
    record {
      fresh = λ k above. rw tasks (
          ground
            (arith, find-insert n k v s.tasks.records, fresh k (omega (arith, seq)), seq, above));
      counted = omega (arith, seq);
      there = rw tasks (
          existing_request-insert partition r.id n v s.tasks.records
            (ground (arith, eq_refl partition, eq_refl r.id)));
      stays = λ id there.
          rw tasks
            (existing_request_stays partition id n v s.tasks.records (fresh n (omega arith)) there);
    }

abbrev turn : Context → String → Event → HostRequest → Op (Unit {0})
turn c partition e r s =
    queue_found c partition e r (existing_request partition r.id s.tasks.records) s

turn-Queued :
    (c : Context) (partition : String) (e : Event) (r : HostRequest) (s : Store)
    → Fresh s
    → s.task_sequence + 1 < 18446744073709551616
    → (turn c partition e r s).1 ≡ ok tt
    → Queued partition r s (turn c partition e r s).0
turn-Queued c partition e r s fresh room h =
    elim (Option-cases (existing_request partition r.id s.tasks.records)) [
      | inr (t, found) ↦ rw found (Queued-old c partition e r s t fresh found)
      | inl absent ↦ rw absent (Queued-new c partition e r s fresh room (rw absent at h))
    ]

queue_requests-cons :
    (c : Context) (partition : String) (e : Event) (r : HostRequest) (requests : List HostRequest)
    (s : Store)
    → (queue_requests c partition e (r ∷ requests) s).1 ≡ ok tt
    → ((turn c partition e r s).1 ≡ ok tt)
      × (queue_requests c partition e (r ∷ requests) s
          ≡ queue_requests c partition e requests (turn c partition e r s).0)
unfolding queue_requests
queue_requests-cons c partition e r requests s h = elim (Result-cases (turn c partition e r s).1) [
  | inl (u, done) ↦ (ground (arith, done), ground (arith, done))
  | inr (x, failed) ↦ absurd (ground (arith, failed))
]

-- A request of every one of the requests' ids is there.
abbrev AllQueued : String → List HostRequest → Records → Type 0
AllQueued partition [] records = Unit
AllQueued partition (r ∷ requests) records =
    (is_some (existing_request partition r.id records) ≡ true)
    × AllQueued partition requests records

queue_requests-AllQueued :
    (c : Context) (partition : String) (e : Event) (requests : List HostRequest) (s : Store)
    → Fresh s
    → s.task_sequence + length requests < 18446744073709551616
    → (queue_requests c partition e requests s).1 ≡ ok tt
    → let s' = (queue_requests c partition e requests s).0 in
      AllQueued partition requests s'.tasks.records
      × ((id : String)
          → is_some (existing_request partition id s.tasks.records) ≡ true
          → is_some (existing_request partition id s'.tasks.records) ≡ true)
queue_requests-AllQueued c partition e [] s fresh room h =
    unfold queue_requests in (tt, λ id there. there)
queue_requests-AllQueued c partition e (r ∷ requests) s fresh room h =
    let (done, rest) = queue_requests-cons c partition e r requests s h in
    let s₁ = (turn c partition e r s).0 in
    let q = turn-Queued c partition e r s fresh (omega arith) done in
    let (queued, stays) =
      queue_requests-AllQueued c partition e requests s₁ q.fresh (omega (arith, q.counted))
        (rw rest at h) in
    rw rest ((stays r.id q.there, queued), λ id there. stays id (q.stays id there))

queue_requests-again :
    (c : Context) (partition : String) (e : Event) (requests : List HostRequest) (s : Store)
    → AllQueued partition requests s.tasks.records
    → ((queue_requests c partition e requests s).1 ≡ ok tt)
      × ((queue_requests c partition e requests s).0.tasks ≡ s.tasks)
unfolding queue_requests
queue_requests-again c partition e [] s all = (refl, refl)
queue_requests-again c partition e (r ∷ requests) s all =
    elim (Option-cases (existing_request partition r.id s.tasks.records)) [
      | inl absent ↦ absurd (ground (arith, absent, all.0))
      | inr (t, found) ↦
          let (tasks, _, done) = queue_found-old c partition e r t s in
          let s₁ = (queue_found c partition e r (some t) s).0 in
          let (ends, same) = queue_requests-again c partition e requests s₁ (rw tasks all.1) in
          rw (found, done) (ends, same ∙ tasks)
    ]

well_formed-Fresh : (s : Store) → IsWellFormed s.tasks s.task_sequence → Fresh s
well_formed-Fresh s w k above = elim (Option-cases (find k s.tasks.records)) [
  | inl absent ↦ absent
  | inr (t, found) ↦ absurd (omega (arith, (w.entries k t found).numbered))
]

-- The ids of the second list are all among those of the first.
abbrev pub SameIds : List HostRequest → List HostRequest → Type 0
SameIds requests [] = Unit
SameIds requests (r ∷ again) =
    (any (λ (o : HostRequest). str_eq o.id r.id) requests ≡ true) × SameIds requests again

AllQueued-id :
    (partition id : String) (requests : List HostRequest) (records : Records)
    → any (λ (o : HostRequest). str_eq o.id id) requests ≡ true
    → AllQueued partition requests records
    → is_some (existing_request partition id records) ≡ true
AllQueued-id partition id [] records h all = cc
AllQueued-id partition id (o ∷ requests) records h (this, all) =
    elim (Bool-cases (str_eq o.id id)) [
      | inl same ↦ rw (str_eq_sound o.id id same) at this
      | inr other ↦ AllQueued-id partition id requests records (ground (arith, h, other)) all
    ]

AllQueued-SameIds :
    (partition : String) (requests again : List HostRequest) (records : Records)
    → SameIds requests again
    → AllQueued partition requests records
    → AllQueued partition again records
AllQueued-SameIds partition requests [] records same all = tt
AllQueued-SameIds partition requests (r ∷ again) records (this, same) all = (
  AllQueued-id partition r.id requests records this all,
  AllQueued-SameIds partition requests again records same all,
)

-- In a well-formed store whose counter stays below 2^64, once queueRequests has queued a
-- partition's requests, queueing from the same partition, for any event, any requests whose ids are
-- all among theirs, whatever their kinds, payloads, order and number, succeeds and changes no task.
pub queue_requests_once :
    (c c' : Context) (partition : String) (e e' : Event) (requests again : List HostRequest)
    (s : Store)
    → IsWellFormed s.tasks s.task_sequence
    → s.task_sequence + length requests < 18446744073709551616
    → (queue_requests c partition e requests s).1 ≡ ok tt
    → SameIds requests again
    → let s' = (queue_requests c partition e requests s).0 in
      ((queue_requests c' partition e' again s').1 ≡ ok tt)
      × ((queue_requests c' partition e' again s').0.tasks ≡ s'.tasks)
queue_requests_once c c' partition e e' requests again s w room h same =
    let queued =
      (queue_requests-AllQueued c partition e requests s (well_formed-Fresh s w) room h).0 in
    queue_requests-again c' partition e' again _
      (AllQueued-SameIds partition requests again _ same queued)
