-- ===== src/State/Admission/Moves.antt =====
-- What the turn of a definition in a broadcast may do to its partition (internal/state/store.go),
-- as a step relation: the module's answer, the result that it decodes to and its status decide.
use text.Mathlib.Text.{◌==◌ as str_eq}
use grodt.Prelude.{◌+◌, String, true, false, Option, none, some, List, map, ◌≡◌, ◌⊎◌, u64, is_some}
use grodt.State.Types.{ProgressRecord, Partition, Event}
use grodt.State.Store.{Context, Store}
use grodt.State.HostWork.{check_requests}
use grodt.State.Mutation.{ModuleResult, decode_result, apply}
use grodt.State.Admission.{
  World, Definition, Reply, answered, failed, partition_of, is_accepted, known_tasks, runtime_code,
}

-- A failure leaves the value, the progress, the version and the positions, and is counted.
pub record Failed (e : Event) (kind code : String) (p p' : Partition) : Type 0 where
  pub value : p'.value ≡ p.value
  pub progress : p'.progress ≡ p.progress
  pub version : p'.metadata.version ≡ p.metadata.version
  pub at_processed : p'.metadata.last_processed_sequence ≡ p.metadata.last_processed_sequence
  pub at_update : p'.metadata.last_update_sequence ≡ p.metadata.last_update_sequence
  pub update_time : p'.metadata.last_update_at ≡ p.metadata.last_update_at
  pub stale : p'.metadata.stale ≡ true
  pub counted : p'.metadata.consecutive_failures ≡ u64 (p.metadata.consecutive_failures + 1)
  pub reported : p'.metadata.last_error ≡ some record { kind = kind; code = code; event_id = e.id }

-- A result of the event is taken: the failures are over, and the progress is the result's, under the
-- partition's version, if it gives any.
pub record Processed (e : Event) (r : ModuleResult) (p p' : Partition) : Type 0 where
  pub at_processed : p'.metadata.last_processed_sequence ≡ e.sequence
  pub fresh : p'.metadata.stale ≡ false
  pub uncounted : p'.metadata.consecutive_failures ≡ 0
  pub unreported : p'.metadata.last_error ≡ none
  pub progress_kept : r.progress ≡ none → p'.progress ≡ p.progress
  pub progress_taken :
      (records : List ProgressRecord)
      → r.progress ≡ some records
      → p'.progress
        ≡ map (λ (q : ProgressRecord). record q { knowledge_version = p'.metadata.version }) records

-- The value and its version stay.
pub record Kept (p p' : Partition) : Type 0 where
  pub value : p'.value ≡ p.value
  pub version : p'.metadata.version ≡ p.metadata.version
  pub at_update : p'.metadata.last_update_sequence ≡ p.metadata.last_update_sequence
  pub update_time : p'.metadata.last_update_at ≡ p.metadata.last_update_at

-- The event gives the candidate as the value of the next version.
pub record Replaced (e : Event) (candidate : String) (p p' : Partition) : Type 0 where
  pub value : p'.value ≡ candidate
  pub version : p'.metadata.version ≡ u64 (p.metadata.version + 1)
  pub at_update : p'.metadata.last_update_sequence ≡ e.sequence
  pub update_time : p'.metadata.last_update_at ≡ some e.time

module _ (w : World) (c : Context) (e : Event) (d : Definition) (s : Store) where
  -- The module's reply to the event on the partition's value.
  abbrev pub reply_of : Reply
  reply_of = d.process s.tick c (partition_of d.name s).value e

  -- The store when the module has replied.
  abbrev pub called : Store
  called = record s { tick = s.tick + 1 }

  -- The module answered with the text, in time, and the text decodes to the result, whose requests
  -- and progress are fit for the store.
  pub record Vetted (raw : String) (r : ModuleResult) : Type 0 where
    pub replied : reply_of ≡ answered raw
    pub in_time : c.done (s.tick + 1) ≡ false
    pub decoded : decode_result w.formats raw ≡ some r
    pub requests : is_some (check_requests w.deep_equal w.decode d.name e r.requests called) ≡ false
    pub tasks : known_tasks called r.progress ≡ true

  -- What makes the turn a failure, with the kind and the code of the failure.
  pub data Fails : String → String → Type 0 where
    call_failed :
        (code : Option String) → reply_of ≡ failed code → Fails "runtime_error" (runtime_code code)
    cancelled :
        (raw : String)
        → reply_of ≡ answered raw
        → c.done (s.tick + 1) ≡ true
        → Fails "runtime_error" "cancelled"
    malformed :
        (raw : String)
        → reply_of ≡ answered raw
        → decode_result w.formats raw ≡ none
        → Fails "runtime_error" "malformed_response"
    unfit_requests :
        (raw : String) (r : ModuleResult)
        → reply_of ≡ answered raw
        → decode_result w.formats raw ≡ some r
        → is_some (check_requests w.deep_equal w.decode d.name e r.requests called) ≡ true
        → Fails "runtime_error" "invalid_host_request"
    unknown_tasks :
        (raw : String) (r : ModuleResult)
        → reply_of ≡ answered raw
        → decode_result w.formats raw ≡ some r
        → known_tasks called r.progress ≡ false
        → Fails "runtime_error" "invalid_progress_task"
    module_error :
        (raw : String) (r : ModuleResult)
        → Vetted raw r
        → str_eq r.status "error" ≡ true
        → Fails "module_error" "processing_failed"
    no_candidate :
        (raw : String) (r : ModuleResult)
        → Vetted raw r
        → str_eq r.status "mutation" ≡ true
        → apply w.formats (partition_of d.name s).value r ≡ none
        → Fails "mutation_rejected" "invalid_mutation"
    unfit_candidate :
        (raw : String) (r : ModuleResult) (candidate : String)
        → Vetted raw r
        → str_eq r.status "mutation" ≡ true
        → apply w.formats (partition_of d.name s).value r ≡ some candidate
        → is_accepted (d.conforms (s.tick + 1) c candidate) ≡ false
        → Fails "mutation_rejected" "invalid_partition"

  -- The partition after a reply.
  pub data Answered : Partition → Type 0 where
    failing :
        (kind code : String) (p' : Partition)
        → Fails kind code
        → Failed e kind code (partition_of d.name s) p'
        → Answered p'
    ignoring :
        (raw : String) (r : ModuleResult)
        → Vetted raw r
        → str_eq r.status "ignored" ≡ true
        → Answered (partition_of d.name s)
    processing :
        (raw : String) (r : ModuleResult) (p' : Partition)
        → Vetted raw r
        → str_eq r.status "processed" ≡ true
        → Processed e r (partition_of d.name s) p'
        → Kept (partition_of d.name s) p'
        → Answered p'
    mutating :
        (raw : String) (r : ModuleResult) (candidate : String) (p' : Partition)
        → Vetted raw r
        → str_eq r.status "mutation" ≡ true
        → apply w.formats (partition_of d.name s).value r ≡ some candidate
        → is_accepted (d.conforms (s.tick + 1) c candidate) ≡ true
        → Processed e r (partition_of d.name s) p'
        → Replaced e candidate (partition_of d.name s) p'
        → Answered p'

  -- The partition after the turn: as it was if the context was done before the call.
  abbrev pub Moved : Partition → Type 0
  Moved p' =
      ((c.done s.tick ≡ true) × (p' ≡ partition_of d.name s))
      ⊎ ((c.done s.tick ≡ false) × Answered p')
