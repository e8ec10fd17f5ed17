-- ===== src/State/Opening.antt =====
-- New of internal/state/store.go: the store with the defaults of its partitions, or the first error.
use Prim.Native.String.{len}
use grodt.Prelude.{ℕ, String, Bool, not, ◌||◌, List, [], ◌∷◌, ltb, is_some}
use grodt.State.Types.{Time}
use grodt.State.Store.{
  Result, ok, err, Context, Verdict, TaskState, Store, Op, ◌>>=◌, ◌>>◌, raise, refuse, get, pure,
  append_entry, validate_tasks, task_entry, of_text, context_required, context_done,
  invalid_run_identity, invalid_definition, duplicate_definition, default_limit, validation_failed,
  invalid_default,
}
use grodt.State.Evidence.{partition_at}
use grodt.State.Plan.Fields.{matches_name}
use grodt.State.Mutation.{max_value_bytes}
use grodt.State.Admission.{Definition, zero_metadata, put_partition, set_partition}
use grodt.State.Reach.{new_store}

-- A definition with its initial value; `has_module` says that its module is not nil.
pub record Declared : Type 0 where
  pub definition : Definition
  pub initial : String
  pub has_module : Bool

abbrev pub refuse_verdict : Verdict → Op Unit
refuse_verdict Verdict.valid = pure tt
refuse_verdict Verdict.invalid = raise invalid_default
refuse_verdict Verdict.failed = raise validation_failed

-- The body of the loop over the definitions.
unfoldable pub declare : Context → Declared → Op Unit
unfolding put_partition partition_at
declare c d = do
  refuse (not (matches_name d.definition.name) || not d.has_module) invalid_definition
  s ← get
  refuse (is_some (partition_at d.definition.name s.knowledge)) duplicate_definition
  refuse (ltb max_value_bytes (len d.initial)) default_limit
  refuse_verdict (d.definition.conforms s.tick c d.initial)
  set_partition d.definition.name
      (record { metadata = zero_metadata; value = d.initial; progress = [] })

unfoldable pub declare_all : Context → List Declared → Op Unit
unfolding declare
declare_all c [] = pure tt
declare_all c (d ∷ definitions) = do declare c d; declare_all c definitions

-- The steps of New on its store; the initial entry holds the snapshot's text.
unfoldable pub opening : (Store → String) → Context → List Declared → String → Op Unit
unfolding declare_all validate_tasks append_entry
opening snapshot c definitions run_id = do
  refuse c.is_nil_context context_required
  s ← get
  refuse (c.done s.tick) context_done
  refuse (not (matches_name run_id)) invalid_run_identity
  declare_all c definitions
  s ← get
  validate_tasks c s.tasks
  append_entry (task_entry "initialized" 0 (of_text (snapshot s)))

-- New with a run id and the time of its start.
unfoldable pub open_store :
    (Store → String)
    → Context
    → List Declared
    → String
    → (ℕ → Time)
    → (ℕ → Context → TaskState → Verdict)
    → Time
    → Result Store
unfolding opening
open_store snapshot c definitions run_id now validator started_at =
    let (s, r) = opening snapshot c definitions run_id (new_store now validator started_at) in
    elim r [ ok u ↦ ok s | err e ↦ err e ]
