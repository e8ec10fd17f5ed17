-- ===== src/State/Admission/Replies.antt =====
-- What follows a module's reply (internal/state/store.go), against the step relation.
use text.Mathlib.Text.{◌==◌ as str_eq}
use grodt.Prelude.{
  ◌+◌, String, true, false, inl, inr, some, ◌≡◌, refl, Bool-cases, Option-cases, is_some,
}
use grodt.State.Types.{Partition, Event}
use grodt.State.Store.{Context, Op, Store, ◌>>◌, context_done, of_text, of_metadata, of_result}
use grodt.State.HostWork.{check_requests, queue_requests}
use grodt.State.Mutation.{ModuleResult, decode_result, apply}
use grodt.State.Admission.{
  World, Definition, Reply, answered, failed, partition_of, set_partition, event_entry,
  failed_metadata, fail, refuse_done, mutated, processed, commit_result, is_accepted,
  commit_mutation, accept_result, vet_result, handle_reply, known_tasks,
}
use grodt.State.Admission.Moves.{
  Failed, Processed, reply_of, called, Vetted, Fails, call_failed, cancelled, malformed,
  unfit_requests, unknown_tasks, module_error, no_candidate, unfit_candidate, Answered, failing,
  ignoring, processing, mutating,
}
use grodt.State.Admission.Touch.{
  Still, Still-append_entry, Still-raise, Still-refuse, Still-queue_requests, Touched, Touches,
  Touches-Still, Touches-seq, Touches-then, Touches-set_partition,
}
use grodt.State.Mutation.Status.{decode_result-processed}

Processed-processed :
    (e : Event) (r : ModuleResult) (p q : Partition)
    → q.progress ≡ p.progress
    → Processed e r p (processed e r q)
Processed-processed e r p q same = record {
  at_processed = refl;
  fresh = refl;
  uncounted = refl;
  unreported = refl;
  progress_kept = λ given. rw given same;
  progress_taken = λ records given. rw given refl;
}

module _ (w : World) (c : Context) (e : Event) (d : Definition) (s : Store) where
  abbrev before : Partition
  before = partition_of d.name s

  abbrev Writes : Op Unit → Type 0
  Writes m = Touches d.name before (Answered w c e d s) m

  abbrev Written : Op Unit → Type 0
  Written m = Touched d.name (Answered w c e d s) (called w c e d s) (m (called w c e d s)).0

  Still-refuse_done : Still (refuse_done c)
  Still-refuse_done = record { at = λ s. (Still-refuse (c.done s.tick) context_done).at s }

  fail-Writes : (kind code : String) → Fails w c e d s kind code → Writes (fail d.name e kind code)
  unfolding fail
  fail-Writes kind code fails = record {
    at = λ t same.
        let m = failed_metadata (partition_of d.name t).metadata e kind code in
        (Touches-then d.name before (Answered w c e d s) _ _
            (Touches-set_partition d.name before (record (partition_of d.name t) { metadata = m })
              (Answered w c e d s) (rw same (failing kind code _ fails failed_lem)))
            (Still-append_entry (event_entry "partition_failure" e d.name (of_metadata m)))).at
          t same;
  }
    where
      failed_lem :
          Failed e kind code before
            (record before { metadata = failed_metadata before.metadata e kind code })
      failed_lem = record {
        value = refl;
        progress = refl;
        version = refl;
        at_processed = refl;
        at_update = refl;
        update_time = refl;
        stale = refl;
        counted = refl;
        reported = refl;
      }

  commit_result-Writes :
      (raw : String) (r : ModuleResult) (q : Partition)
      → Answered w c e d s (processed e r q)
      → Writes (commit_result d.name e raw r q >> queue_requests c d.name e r.requests)
  unfolding commit_result
  commit_result-Writes raw r q h =
      let Q = Answered w c e d s in
      Touches-then d.name before Q _ _
        (Touches-then d.name before Q (set_partition d.name (processed e r q)) _
          (Touches-set_partition d.name before (processed e r q) Q h)
          (Still-append_entry
            (event_entry r.status e d.name (of_result raw (processed e r q).metadata))))
        (Still-queue_requests c d.name e r.requests)

  -- What a partition's write is after the reply, in the store at that time.
  written : (m : Op Unit) → Writes m → Written m
  written m h = h.at (called w c e d s) refl

  commit_mutation-Written :
      (raw : String) (r : ModuleResult)
      → Vetted w c e d s raw r
      → str_eq r.status "mutation" ≡ true
      → Written (
          commit_mutation c d e raw r before
            (queue_requests c d.name e r.requests)
            (apply w.formats before.value r))
  unfolding commit_mutation
  commit_mutation-Written raw r vetted status =
      elim (Option-cases (apply w.formats before.value r)) [
        | inl absent ↦
            rw absent (written _ (fail-Writes _ _ (no_candidate raw r vetted status absent)))
        | inr (candidate, applied) ↦
            rw applied (elim (Bool-cases (is_accepted (d.conforms (s.tick + 1) c candidate))) [
              | inl accepted ↦ rw accepted (
                  written _ (
                    commit_result-Writes raw r (mutated e candidate before) (
                      mutating raw r candidate _ vetted status applied accepted
                        (Processed-processed e r before (mutated e candidate before) refl)
                        (record {
                          value = refl;
                          version = refl;
                          at_update = refl;
                          update_time = refl;
                        }))))
              | inr refused ↦ rw refused (
                  written _ (
                    Touches-then d.name before (Answered w c e d s) _ _
                      (fail-Writes _ _
                        (unfit_candidate raw r candidate vetted status applied refused))
                      Still-refuse_done))
            ])
      ]

  accept_result-Written :
      (raw : String) (r : ModuleResult)
      → Vetted w c e d s raw r
      → Written (accept_result w c d e raw r before)
  unfolding accept_result
  accept_result-Written raw r vetted =
      let Q = Answered w c e d s in
      let queued = Still-queue_requests c d.name e r.requests in
      elim (Bool-cases (str_eq r.status "ignored")) [
        | inl ignored ↦
            let kept : Q before = ignoring raw r vetted ignored in
            rw ignored (
              written _ (
                Touches-seq d.name before Q _ _
                  (Still-append_entry (event_entry "ignored" e d.name (of_text "{}"))) kept
                  (Touches-Still d.name before Q _ queued kept)))
        | inr taken ↦ elim (Bool-cases (str_eq r.status "error")) [
          | inl error ↦
              rw (taken, error)
                (written _ (
                  Touches-then d.name before Q _ _
                    (fail-Writes _ _ (module_error raw r vetted error)) queued))
          | inr fine ↦ elim (Bool-cases (str_eq r.status "mutation")) [
            | inl mutation ↦
                rw (taken, fine, mutation) (commit_mutation-Written raw r vetted mutation)
            | inr other ↦
                let status =
                  decode_result-processed w.formats raw r vetted.decoded taken fine other in
                rw (taken, fine, other)
                  (written _ (
                    commit_result-Writes raw r before (
                      processing raw r _ vetted status (Processed-processed e r before before refl)
                        (record {
                          value = refl;
                          version = refl;
                          at_update = refl;
                          update_time = refl;
                        }))))
          ]
        ]
      ]

  vet_result-Written :
      (raw : String)
      → reply_of w c e d s ≡ answered raw
      → c.done (s.tick + 1) ≡ false
      → Written (vet_result w c d e raw before (decode_result w.formats raw))
  unfolding vet_result
  vet_result-Written raw replied in_time = elim (Option-cases (decode_result w.formats raw)) [
    | inl absent ↦ rw absent (written _ (fail-Writes _ _ (malformed raw replied absent)))
    | inr (r, decoded) ↦ rw decoded (by_checks r decoded)
  ]
    where
      by_checks :
          (r : ModuleResult)
          → decode_result w.formats raw ≡ some r
          → Written (vet_result w c d e raw before (some r))
      by_checks r decoded =
          let refusal =
            is_some (check_requests w.deep_equal w.decode d.name e r.requests (called w c e d s)) in
          elim (Bool-cases refusal) [
            | inl unfit ↦
                rw unfit (written _ (fail-Writes _ _ (unfit_requests raw r replied decoded unfit)))
            | inr fit ↦ elim (Bool-cases (known_tasks (called w c e d s) r.progress)) [
              | inr unknown ↦
                  rw (fit, unknown)
                    (written _ (fail-Writes _ _ (unknown_tasks raw r replied decoded unknown)))
              | inl known ↦
                  rw (fit, known)
                    (accept_result-Written raw r (record {
                      replied = replied;
                      in_time = in_time;
                      decoded = decoded;
                      requests = fit;
                      tasks = known;
                    }))
            ]
          ]

  pub handle_reply-Written :
      (reply : Reply)
      → reply_of w c e d s ≡ reply
      → Touched d.name
          (Answered w c e d s)
          (called w c e d s)
          (handle_reply w c d e before reply (called w c e d s)).0
  unfolding handle_reply
  handle_reply-Written (failed code) replied = written _ (
      Touches-then d.name before (Answered w c e d s) _ _
        (fail-Writes _ _ (call_failed code replied)) Still-refuse_done)
  handle_reply-Written (answered raw) replied = elim (Bool-cases (c.done (s.tick + 1))) [
    | inl late ↦ rw late (
        written _ (
          Touches-then d.name before (Answered w c e d s) _ _
            (fail-Writes _ _ (cancelled raw replied late)) (Still-raise context_done)))
    | inr in_time ↦ rw in_time (vet_result-Written raw replied in_time)
  ]
