-- ===== src/State/Admission/Broadcast.antt =====
-- The broadcast of an event and admit (internal/state/store.go) on the tasks.
use text.Mathlib.Text.{◌==◌ as str_eq}
use grodt.Prelude.{
  ℕ, ◌+◌, ◌*◌, ◌≤◌, ◌<◌, String, Bool, false, ◌⊎◌, inl, inr, Option, none, some, List, [], ◌∷◌,
  length, ◌≡◌, refl, arith, ◌==◌, is_some, Bool-cases,
}
use grodt.State.Types.{TaskId, HostRequest, Event, Source, Correlation, Partition}
use grodt.State.Store.{Context, Store, Op, Result-cases, ◌>>◌, append_entry, context_done, of_text}
use grodt.State.Tasks.{active}
use grodt.State.Tasks.Invariant.{IsWellFormed}
use grodt.State.Tasks.Activate.{top-id}
use grodt.State.Turns.{all_turns}
use grodt.State.Evidence.{Json}
use grodt.State.HostWork.{check_requests}
use grodt.State.Mutation.{Formats, ModuleResult, decode_result, apply}
use grodt.State.Admission.{
  World, Definition, Reply, event_entry, partition_of, answered, failed, fail, refuse_done,
  commit_result, commit_mutation, accept_result, vet_result, mutated, task_of, admissible, announce,
  numbered, journaled, handle_reply, broadcast_one, broadcast, event_of, admit,
}
use grodt.State.Admission.Quiet.{
  SameTasks, IsParent, Adds, Adds-same, Adds-trans, Quiet, quiet_rules, Queues, Queues-Quiet,
  Queues-bind, Queues-seq, Queues-choose, Quiet-raise, Quiet-modify, Quiet-append_entry, Quiet-get,
  Quiet-seq,
}
use grodt.State.Admission.Queued.{Queues-requests}

check_requests-caused :
    (deep_equal : Json → Json → Bool) (decode : String → Option Json) (partition : String)
    (e : Event) (requests : List HostRequest) (s : Store)
    → is_some (check_requests deep_equal decode partition e requests s) ≡ false
    → (requests ≡ []) ⊎ ((e.task_id == 0) ≡ false)
unfolding check_requests
check_requests-caused deep_equal decode partition e [] s h = inl refl
check_requests-caused deep_equal decode partition e (r ∷ requests) s h = inr (ground (arith, h))

decode_result-length :
    (f : Formats) (raw : String) (r : ModuleResult)
    → decode_result f raw ≡ some r
    → length r.requests ≤ 8
unfolding decode_result
decode_result-length f raw r h = ground (arith, h)

Quiet-fail : (name : String) (e : Event) (kind code : String) → Quiet (fail name e kind code)
unfolding fail
Quiet-fail name e kind code = search quiet_rules

pub Quiet-refuse_done : (c : Context) → Quiet (refuse_done c)
Quiet-refuse_done c = search quiet_rules

Quiet-commit_result :
    (name : String) (e : Event) (raw : String) (r : ModuleResult) (p : Partition)
    → Quiet (commit_result name e raw r p)
unfolding commit_result
Quiet-commit_result name e raw r p = search quiet_rules

Queues-commit_mutation :
    (n : ℕ) (c : Context) (d : Definition) (e : Event) (raw : String) (r : ModuleResult)
    (p : Partition) (next : Op (Unit {0})) (o : Option String)
    → Queues e.task_id n next
    → Queues e.task_id n (commit_mutation c d e raw r p next o)
unfolding commit_mutation
Queues-commit_mutation n c d e raw r p next none h =
    Queues-Quiet e.task_id n _ (Quiet-fail d.name e "mutation_rejected" "invalid_mutation")
Queues-commit_mutation n c d e raw r p next (some candidate) h =
    Queues-bind e.task_id n _ _ Quiet-get λ s.
      Queues-choose e.task_id n _ _ _
        (Queues-seq e.task_id n _ _ (Quiet-commit_result d.name e raw r (mutated e candidate p)) h)
        (Queues-Quiet e.task_id n _ (
          Quiet-seq _ _ (Quiet-fail d.name e "mutation_rejected" "invalid_partition")
            (Quiet-refuse_done c)))

Queues-accept_result :
    (w : World) (c : Context) (d : Definition) (e : Event) (raw : String) (r : ModuleResult)
    (p : Partition)
    → length r.requests ≤ 8
    → (r.requests ≡ []) ⊎ ((e.task_id == 0) ≡ false)
    → Queues e.task_id 8 (accept_result w c d e raw r p)
unfolding accept_result
Queues-accept_result w c d e raw r p few caused =
    let next = Queues-requests c d.name e r.requests 8 few caused in
    Queues-choose e.task_id 8 (str_eq r.status "ignored") _ _
      (Queues-seq e.task_id 8 _ _
        (Quiet-append_entry (event_entry "ignored" e d.name (of_text "{}"))) next)
      (Queues-choose e.task_id 8 (str_eq r.status "error") _ _
        (Queues-seq e.task_id 8 _ _ (Quiet-fail d.name e "module_error" "processing_failed") next)
        (Queues-choose e.task_id 8 (str_eq r.status "mutation") _ _
          (Queues-commit_mutation 8 c d e raw r p _ (apply w.formats p.value r) next)
          (Queues-seq e.task_id 8 _ _ (Quiet-commit_result d.name e raw r p) next)))

Queues-vet_result :
    (w : World) (c : Context) (d : Definition) (e : Event) (raw : String) (p : Partition)
    (o : Option ModuleResult)
    → ((r : ModuleResult) → o ≡ some r → length r.requests ≤ 8)
    → Queues e.task_id 8 (vet_result w c d e raw p o)
unfolding vet_result
Queues-vet_result w c d e raw p none few =
    Queues-Quiet e.task_id 8 _ (Quiet-fail d.name e "runtime_error" "malformed_response")
Queues-vet_result w c d e raw p (some r) few = record {
  at = λ s.
      elim (Bool-cases (is_some (check_requests w.deep_equal w.decode d.name e r.requests s))) [
        | inl problem ↦ rw problem (
            Adds-same e.task_id 8 s _
              ((Quiet-fail d.name e "runtime_error" "invalid_host_request").at s))
        | inr fine ↦
            let caused = check_requests-caused w.deep_equal w.decode d.name e r.requests s fine in
            let accepts = Queues-accept_result w c d e raw r p (few r refl) caused in
            rw fine (
              (Queues-choose e.task_id 8 _ _ _ accepts (
                  Queues-Quiet e.task_id 8 _
                    (Quiet-fail d.name e "runtime_error" "invalid_progress_task"))).at
                s)
      ];
}

Queues-handle_reply :
    (w : World) (c : Context) (d : Definition) (e : Event) (p : Partition) (reply : Reply)
    → Queues e.task_id 8 (handle_reply w c d e p reply)
unfolding handle_reply
Queues-handle_reply w c d e p (failed code) =
    Queues-seq e.task_id 8 _ _ (Quiet-fail d.name e "runtime_error" _)
      (Queues-Quiet e.task_id 8 _ (Quiet-refuse_done c))
Queues-handle_reply w c d e p (answered raw) = Queues-bind e.task_id 8 _ _ Quiet-get λ s.
    Queues-choose e.task_id 8 _ _ _
      (Queues-Quiet e.task_id 8 _ (
        Quiet-seq _ _ (Quiet-fail d.name e "runtime_error" "cancelled") (Quiet-raise context_done)))
      (Queues-vet_result w c d e raw p (decode_result w.formats raw)
        (λ r h. decode_result-length w.formats raw r h))

Queues-broadcast_one :
    (w : World) (c : Context) (e : Event) (d : Definition)
    → Queues e.task_id 8 (broadcast_one w c e d)
unfolding broadcast_one
Queues-broadcast_one w c e d = Queues-seq e.task_id 8 _ _ (Quiet-refuse_done c) (
    Queues-bind e.task_id 8 _ _ Quiet-get λ s.
      Queues-seq e.task_id 8 _ _
        (Quiet-modify (λ s. record s { tick = s.tick + 1 }) (λ s. refl) (λ s. refl) (λ s. refl))
        (let p = partition_of d.name s in
          Queues-handle_reply w c d e p (d.process s.tick c p.value e)))

broadcast-Adds :
    (w : World) (c : Context) (e : Event) (ds : List Definition) (s : Store)
    → Adds e.task_id (length ds * 8) s (broadcast w c e ds s).0
unfolding broadcast
broadcast-Adds w c e [] s =
    Adds-same e.task_id 0 s s (record { tasks = refl; sequence = refl; executions = refl })
broadcast-Adds w c e (d ∷ ds) s =
    let s₁ = (broadcast_one w c e d s).0 in
    let first = (Queues-broadcast_one w c e d).at s in
    let all : 8 + length ds * 8 ≡ length (d ∷ ds) * 8 = omega arith in
    let rest = Adds-trans e.task_id 8 (length ds * 8) s s₁ _ first (broadcast-Adds w c e ds s₁) in
    let stop = Adds-trans e.task_id 8 (length ds * 8) s s₁ s₁ first (
      Adds-same e.task_id (length ds * 8) s₁ s₁
        (record { tasks = refl; sequence = refl; executions = refl })) in
    rw (← all) (elim (Result-cases (broadcast_one w c e d s).1) [
      | inl (u, done) ↦ rw (done, ◌>>◌) rest
      | inr (x, stopped) ↦ rw (stopped, ◌>>◌) stop
    ])

-- At most `n` tasks are created, and the task state stays well formed.
pub record Extends (n : ℕ) (s s' : Store) : Type 0 where
  pub sequence : s'.task_sequence ≤ s.task_sequence + n
  pub turns : all_turns s'.tasks.records ≤ all_turns s.tasks.records + n * 3
  pub executions : s'.host_executions ≡ s.host_executions
  pub well_formed :
      s.task_sequence + n < 18446744073709551616
      → IsWellFormed s.tasks s.task_sequence
      → IsWellFormed s'.tasks s'.task_sequence

pub Extends-same : (n : ℕ) (s s' : Store) → SameTasks s s' → Extends n s s'
Extends-same n s s' h = record {
  sequence = omega (arith, h.sequence);
  turns = rw h.tasks (omega arith);
  executions = h.executions;
  well_formed = λ room w. rw (h.tasks, h.sequence) w;
}

-- The active task is a parent.
task_of-IsParent : (s : Store) → IsWellFormed s.tasks s.task_sequence → IsParent (task_of s) s
unfolding active
task_of-IsParent s w = by_stack s.tasks.stack refl
  where
    by_stack : (stack : List TaskId) → s.tasks.stack ≡ stack → IsParent (task_of s) s
    by_stack [] p = ground (arith, p)
    by_stack (x ∷ stack) p =
        let (key, known) = top-id s x stack p w in ground (arith, p, key, known)

pub admissible-same :
    (w : World) (c : Context) (source : Source) (payload : String) (s : Store)
    → (admissible w c source payload s).0 ≡ s
unfolding admissible
admissible-same w c source payload s = ground arith

announce-Extends :
    (w : World) (c : Context) (source : Source) (payload : String)
    (correlation : Option Correlation) (s : Store)
    → Extends (length w.definitions * 8) s (announce w c source payload correlation s).0
unfolding announce append_entry active
announce-Extends w c source payload correlation s =
    let e = event_of (numbered s) (s.now s.tick) source payload correlation in
    let added = broadcast-Adds w c e w.definitions (journaled e (numbered s)) in
    let extends : Extends (length w.definitions * 8) s
        (broadcast w c e w.definitions (journaled e (numbered s))).0 =
      record {
        sequence = added.sequence;
        turns = added.turns;
        executions = added.executions;
        well_formed = λ room h. added.well_formed (task_of-IsParent s h) room h;
      } in
    elim (Result-cases (broadcast w c e w.definitions (journaled e (numbered s))).1) [
      | inl (u, done) ↦ rw (done, ◌>>◌) extends
      | inr (x, stopped) ↦ rw (stopped, ◌>>◌) extends
    ]

pub admit-Extends :
    (w : World) (c : Context) (source : Source) (payload : String)
    (correlation : Option Correlation) (s : Store)
    → Extends (length w.definitions * 8) s (admit w c source payload correlation s).0
unfolding admit
admit-Extends w c source payload correlation s =
    let same = admissible-same w c source payload s in
    elim (Result-cases (admissible w c source payload s).1) [
      | inl (u, done) ↦ rw (done, ◌>>◌, same) (announce-Extends w c source payload correlation s)
      | inr (x, stopped) ↦
          rw (stopped, ◌>>◌, same)
            (Extends-same (length w.definitions * 8) s s
              (record { tasks = refl; sequence = refl; executions = refl }))
    ]
