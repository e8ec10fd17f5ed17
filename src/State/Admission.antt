-- ===== src/State/Admission.antt =====
-- Admit's broadcast of an event to the modules, and fail, of internal/state/store.go. A module is a
-- parameter: it may answer differently at each call. When admit returns an error, the event that it
-- returns with it is left out.
pub mod Quiet
pub mod Queued
pub mod Broadcast
pub mod Touch
pub mod Moves
pub mod Replies
pub mod Partitions
use Prim.Native.String.{len}
use text.Mathlib.Text.{◌==◌ as str_eq}
use grodt.Prelude.{
  ℕ, ◌+◌, String, Bool, true, false, not, ◌&&◌, ◌||◌, Option, none, some, List, [], ◌∷◌, map, all,
  any, ltb, ◌==◌, u64, is_nil, is_empty, is_some, if◌then◌else◌,
}
use grodt.State.Types.{
  TaskId, Time, Failure, Metadata, ProgressRecord, Partition, SourceKind, Source, Correlation,
  Event, HostRequest,
}
use grodt.State.Records.{find}
use grodt.State.Store.{
  Error, Context, Verdict, Store, Op, ◌>>=◌, ◌>>◌, pure, raise, refuse, when, choose, get, modify,
  read_clock, append_entry, check, task_entry, Content, Entry, of_event, of_metadata, of_result,
  of_text, context_done, host_budget, invalid_source, invalid_payload,
}
use grodt.State.Tasks.{active}
use grodt.State.Evidence.{Json, partition_at}
use grodt.State.HostWork.{check_requests, queue_requests}
use grodt.State.Http.{HttpStack}
use grodt.State.Mutation.{Formats, ModuleResult, max_value_bytes, decode_result, apply}

-- `errors.As(err, &runtimeErr)` with its code, or another error.
pub data Reply : Type 0 where
  answered : String → Reply
  failed : Option String → Reply

pub record Definition : Type 0 where
  pub name : String
  pub process : ℕ → Context → String → Event → Reply
  pub conforms : ℕ → Context → String → Verdict  -- Validate with the definition's schema

-- The modules and the HTTP capability, with the code outside the repository: encoding/json (decoders,
-- reflect.DeepEqual on what they give, and the encoding of an agent's outcome), net/http, and the
-- text of a task's id.
pub record World : Type 0 where
  pub definitions : List Definition
  pub formats : Formats
  pub decode : String → Option Json
  pub deep_equal : Json → Json → Bool
  pub encode_outcome : String → String → String  -- tool, result
  pub http : HttpStack
  pub allow_http : Bool
  pub task_text : TaskId → String

abbrev pub zero_metadata : Metadata
zero_metadata = record {
  version = 0;
  last_processed_sequence = 0;
  last_update_sequence = 0;
  last_update_at = none;
  stale = false;
  consecutive_failures = 0;
  last_error = none;
}

-- `s.snapshot.Knowledge[name]`
abbrev pub partition_of : String → Store → Partition
partition_of name s = elim (partition_at name s.knowledge) [
  | some p ↦ p
  | none ↦ record { metadata = zero_metadata; value = ""; progress = [] }
]

-- `s.snapshot.Knowledge[name] = p`
unfoldable pub put_partition :
    String → Partition → List (String × Partition) → List (String × Partition)
put_partition name p [] = (name, p) ∷ []
put_partition name p ((n, q) ∷ knowledge) =
    if str_eq n name then (name, p) ∷ knowledge else (n, q) ∷ put_partition name p knowledge

abbrev pub set_partition : String → Partition → Op Unit
set_partition name p = modify λ s. record s { knowledge = put_partition name p s.knowledge }

-- An entry about an event and a partition.
abbrev pub event_entry : String → Event → String → Content → Entry
event_entry kind e partition content = record (task_entry kind 0 content) {
  event_id = e.id;
  partition = partition;
}

abbrev pub failed_metadata : Metadata → Event → String → String → Metadata
failed_metadata m e kind code = record m {
  stale = true;
  consecutive_failures = u64 (m.consecutive_failures + 1);
  last_error = some record { kind = kind; code = code; event_id = e.id };
}

unfoldable pub fail : String → Event → String → String → Op Unit
unfolding append_entry put_partition partition_at
fail name e kind code = do
  s ← get
  let p = partition_of name s
  let m = failed_metadata p.metadata e kind code
  set_partition name (record p { metadata = m })
  append_entry (event_entry "partition_failure" e name (of_metadata m))

-- `if ctx.Err() != nil { return e, ctx.Err() }`
abbrev pub refuse_done : Context → Op Unit
refuse_done c = do s ← get; refuse (c.done s.tick) context_done

-- The codes of a RuntimeError that are passed on.
abbrev pub runtime_code : Option String → String
runtime_code none = "execution_failed"
runtime_code (some code) =
    if str_eq code "trap"
      || str_eq code "timeout"
      || str_eq code "resource_limit"
      || str_eq code "malformed_response"
      || str_eq code "abi_mismatch"
      || str_eq code "instantiate"
    then code
    else "execution_failed"

-- Every record of progress is about a known task.
abbrev pub known_tasks : Store → Option (List ProgressRecord) → Bool
known_tasks s none = true
known_tasks s (some records) =
    all (λ (r : ProgressRecord). is_some (find r.task_id s.tasks.records)) records

-- The partition after an accepted mutation, and after an accepted result.
abbrev pub mutated : Event → String → Partition → Partition
mutated e candidate p = record p {
  value = candidate;
  metadata = record p.metadata {
    version = u64 (p.metadata.version + 1);
    last_update_sequence = e.sequence;
    last_update_at = some e.time;
  };
}

abbrev pub stamped : ℕ → Option (List ProgressRecord) → List ProgressRecord → List ProgressRecord
stamped version none old = old
stamped version (some records) old =
    map (λ (r : ProgressRecord). record r { knowledge_version = version }) records

abbrev pub processed : Event → ModuleResult → Partition → Partition
processed e r p = record p {
  progress = stamped p.metadata.version r.progress p.progress;
  metadata = record p.metadata {
    last_processed_sequence = e.sequence;
    stale = false;
    consecutive_failures = 0;
    last_error = none;
  };
}

unfoldable pub commit_result : String → Event → String → ModuleResult → Partition → Op Unit
unfolding append_entry put_partition
commit_result name e raw r p = do
  let p' = processed e r p
  set_partition name p'
  append_entry (event_entry r.status e name (of_result raw p'.metadata))

abbrev pub is_accepted : Verdict → Bool
is_accepted Verdict.valid = true
is_accepted _ = false

-- A mutation whose candidate violates the schema, or cannot be validated, is a failure, and an error
-- if the context is done; `next` goes on with the requests.
unfoldable pub commit_mutation :
    Context
    → Definition
    → Event
    → String
    → ModuleResult
    → Partition
    → Op Unit
    → Option String
    → Op Unit
unfolding fail commit_result
commit_mutation c d e raw r p next none = fail d.name e "mutation_rejected" "invalid_mutation"
commit_mutation c d e raw r p next (some candidate) = do
  s ← get
  choose (is_accepted (d.conforms s.tick c candidate))
      (commit_result d.name e raw r (mutated e candidate p) >> next)
      (fail d.name e "mutation_rejected" "invalid_partition" >> refuse_done c)

-- The `switch` on the status, and then queueRequests, unless the turn has ended.
unfoldable pub accept_result :
    World → Context → Definition → Event → String → ModuleResult → Partition → Op Unit
unfolding commit_mutation
accept_result w c d e raw r p =
    let next = queue_requests c d.name e r.requests in
    choose (str_eq r.status "ignored")
      (append_entry (event_entry "ignored" e d.name (of_text "{}")) >> next)
      (choose (str_eq r.status "error") (fail d.name e "module_error" "processing_failed" >> next) (
        choose (str_eq r.status "mutation")
          (commit_mutation c d e raw r p next (apply w.formats p.value r))
          (commit_result d.name e raw r p >> next)))

unfoldable pub vet_result :
    World → Context → Definition → Event → String → Partition → Option ModuleResult → Op Unit
unfolding accept_result
vet_result w c d e raw p none = fail d.name e "runtime_error" "malformed_response"
vet_result w c d e raw p (some r) = do
  s ← get
  choose (is_some (check_requests w.deep_equal w.decode d.name e r.requests s))
      (fail d.name e "runtime_error" "invalid_host_request")
      (choose (known_tasks s r.progress) (accept_result w c d e raw r p)
        (fail d.name e "runtime_error" "invalid_progress_task"))

-- What follows the module's reply; the call of a module counts as a tick.
unfoldable pub handle_reply : World → Context → Definition → Event → Partition → Reply → Op Unit
unfolding vet_result
handle_reply w c d e p (failed code) =
    fail d.name e "runtime_error" (runtime_code code) >> refuse_done c
handle_reply w c d e p (answered raw) = do
  s ← get
  choose (c.done s.tick) (fail d.name e "runtime_error" "cancelled" >> raise context_done)
      (vet_result w c d e raw p (decode_result w.formats raw))

-- The body of the loop over the definitions.
unfoldable pub broadcast_one : World → Context → Event → Definition → Op Unit
unfolding handle_reply
broadcast_one w c e d = do
  refuse_done c
  s ← get
  let p = partition_of d.name s
  modify λ s. record s { tick = s.tick + 1 }
  handle_reply w c d e p (d.process s.tick c p.value e)

unfoldable pub broadcast : World → Context → Event → List Definition → Op Unit
unfolding broadcast_one
broadcast w c e [] = pure tt
broadcast w c e (d ∷ definitions) = do broadcast_one w c e d; broadcast w c e definitions

abbrev pub known_kind : SourceKind → Bool
known_kind (SourceKind.other text) = false
known_kind _ = true

abbrev pub task_of : Store → TaskId
task_of s = elim (active s) [ none ↦ 0 | some t ↦ t.id ]

-- The event under its number, for the active task.
abbrev pub event_of : Store → Time → Source → String → Option Correlation → Event
event_of s at source payload correlation = record {
  task_id = task_of s;
  correlation = correlation;
  id = s.event_sequence;
  sequence = s.event_sequence;
  time = at;
  source = source;
  payload = payload;
}

unfoldable pub admissible : World → Context → Source → String → Op Unit
unfolding check
admissible w c source payload = do
  check c
  s ← get
  refuse s.host_exhausted host_budget
  refuse (is_empty source.id || not (known_kind source.kind)) invalid_source
  refuse (not (w.formats.is_valid_json payload) || ltb max_value_bytes (len payload))
      invalid_payload

-- The store with the event's number taken, and then with its entry.
abbrev pub numbered : Store → Store
numbered s = record s { event_sequence = u64 (s.event_sequence + 1); tick = s.tick + 1 }

abbrev pub journaled : Event → Store → Store
journaled e s = (append_entry (record (task_entry "event" 0 (of_event e)) { event_id = e.id }) s).0

-- The event is made, with the clock read once, and broadcast.
unfoldable pub announce : World → Context → Source → String → Option Correlation → Op Event
unfolding broadcast append_entry active
announce w c source payload correlation s =
    let e = event_of (numbered s) (s.now s.tick) source payload correlation in
    (broadcast w c e w.definitions >> pure e) (journaled e (numbered s))

unfoldable pub admit : World → Context → Source → String → Option Correlation → Op Event
unfolding admissible
admit w c source payload correlation = do
  admissible w c source payload
  announce w c source payload correlation
