-- ===== src/State/Mutation.antt =====
-- internal/state/mutation.go: the checks of a module's result, and the value that it sets. `Formats`
-- stands for encoding/json and the JSON patch library.
pub mod Status
use Prim.Native.String.{len}
use Prim.Native.Char.{code}
use text.Mathlib.Text.{◌==◌ as str_eq}
use mathlib.Core.Option.{map as option_map}
use grodt.Prelude.{
  ℕ, String, Bool, true, false, not, ◌&&◌, ◌||◌, Option, none, some, List, [], ◌∷◌, any, length,
  ltb, ◌==◌, is_empty, is_some, if◌then◌else◌,
}
use grodt.State.Types.{ProgressRecord, HostRequest}
use grodt.State.Plan.Fields.{matches_name}

abbrev pub max_value_bytes : ℕ
max_value_bytes = 4194304

abbrev pub max_patch_operations : ℕ
max_patch_operations = 256

abbrev pub max_requests_per_result : ℕ
max_requests_per_result = 8

-- The fields that have been read, each with what `seen` says of it: `none` is a field that was not
-- there, and `some none` a null.
pub record ModuleFields : Type 0 where
  pub progress : Option (Option (List ProgressRecord))
  pub requests : Option (Option (List HostRequest))
  pub status : Option String
  pub replace : Option String
  pub patch : Option String

-- What accepted fields mean.
pub record ModuleResult : Type 0 where
  pub progress : Option (List ProgressRecord)
  pub requests : List HostRequest
  pub status : String
  pub replace : Option String
  pub patch : Option String

-- The members of a text that is one JSON object (`none` for any other text), the decoders of three of
-- them, json.Valid, the number of the operations of a patch (`none` for no list), and the result of a
-- patch on a value.
pub record Formats : Type 0 where
  pub members : String → Option (List (String × String))
  pub progress : String → Option (Option (List ProgressRecord))
  pub requests : String → Option (Option (List HostRequest))
  pub status : String → Option String
  pub is_valid_json : String → Bool
  pub operations : String → Option ℕ
  pub patched : String → String → Option String

abbrev pub no_fields : ModuleFields
no_fields = record { progress = none; requests = none; status = none; replace = none; patch = none }

-- The body of the loop over the members: a duplicate or unknown key is an error.
abbrev pub read_member : Formats → ModuleFields → String → String → Option ModuleFields
read_member f r key value =
    if str_eq key "progress"
    then (if is_some r.progress
        then none
        else option_map (λ p. record r { progress = some p }) (f.progress value))
    else if str_eq key "status"
    then (if is_some r.status
        then none
        else option_map (λ t. record r { status = some t }) (f.status value))
    else if str_eq key "replace"
    then (if is_some r.replace then none else some record r { replace = some value })
    else if str_eq key "requests"
    then (if is_some r.requests
        then none
        else option_map (λ q. record r { requests = some q }) (f.requests value))
    else if str_eq key "patch"
    then (if is_some r.patch then none else some record r { patch = some value })
    else none

unfoldable pub read_members : Formats → ModuleFields → List (String × String) → Option ModuleFields
read_members f r [] = some r
read_members f r ((key, value) ∷ members) = elim (read_member f r key value) [
  | none ↦ none
  | some r' ↦ read_members f r' members
]

abbrev pub status_of : Option String → String
status_of none = ""
status_of (some status) = status

abbrev pub valid_kind : String → Bool
valid_kind kind = str_eq kind "conclusion" || str_eq kind "completed_step" || str_eq kind "focus"

abbrev pub valid_progress_status : String → Bool
valid_progress_status status =
    str_eq status "established" || str_eq status "unresolved" || str_eq status "invalidated"

-- `text[0] == '/'`
abbrev pub starts_with_slash : String → Bool
starts_with_slash String.[] = false
starts_with_slash (String.◌∷◌ c cs) = code c == b'/'

-- The body of the loop over the records: `seen` are the ones before. The id of a task is a number
-- here, and its text is within the limit.
abbrev pub valid_record : List ProgressRecord → ProgressRecord → Bool
valid_record seen p =
    matches_name p.id
    && not (any (λ (o : ProgressRecord). str_eq o.id p.id) seen)
    && not (p.task_id == 0)
    && not (is_empty p.summary)
    && not (ltb 512 (len p.summary))
    && not (ltb 256 (len p.fact_reference))
    && p.knowledge_version == 0
    && valid_kind p.kind
    && valid_progress_status p.status
    && (is_empty p.fact_reference || starts_with_slash p.fact_reference)

unfoldable pub valid_records : List ProgressRecord → List ProgressRecord → Bool
valid_records seen [] = true
valid_records seen (p ∷ records) = valid_record seen p && valid_records (p ∷ seen) records

abbrev pub valid_request : Formats → List HostRequest → HostRequest → Bool
valid_request f seen r =
    matches_name r.id
    && str_eq r.kind "http"
    && f.is_valid_json r.payload
    && not (any (λ (o : HostRequest). str_eq o.id r.id) seen)

unfoldable pub valid_requests : Formats → List HostRequest → List HostRequest → Bool
valid_requests f seen [] = true
valid_requests f seen (r ∷ requests) =
    valid_request f seen r && valid_requests f (r ∷ seen) requests

-- The `switch` on the status, with the fields that it admits.
abbrev pub valid_mutation : String → ModuleFields → Bool
valid_mutation status r =
    if str_eq status "ignored" || str_eq status "processed" || str_eq status "error"
    then not (is_some r.replace) && not (is_some r.patch)
    else if str_eq status "mutation"
    then (if is_some r.replace then not (is_some r.patch) else is_some r.patch)
    else false

abbrev pub valid_progress : String → Option (Option (List ProgressRecord)) → Bool
valid_progress status none = true
valid_progress status (some none) = false
valid_progress status (some (some records)) =
    (str_eq status "processed" || str_eq status "mutation")
    && not (ltb 32 (length records))
    && valid_records [] records

abbrev pub valid_request_field : String → Option (Option (List HostRequest)) → Bool
valid_request_field status none = true
valid_request_field status (some none) = false
valid_request_field status (some (some requests)) = not (str_eq status "error")

abbrev pub request_list : Option (Option (List HostRequest)) → List HostRequest
request_list (some (some requests)) = requests
request_list _ = []

abbrev pub progress_list : Option (Option (List ProgressRecord)) → Option (List ProgressRecord)
progress_list (some records) = records
progress_list none = none

unfoldable pub check_fields : Formats → ModuleFields → Option ModuleResult
unfolding valid_records valid_requests
check_fields f r =
    let requests = request_list r.requests in
    let status = status_of r.status in
    if valid_mutation status r
      && valid_progress status r.progress
      && not (ltb max_requests_per_result (length requests))
      && valid_request_field status r.requests
      && valid_requests f [] requests
    then some record {
      progress = progress_list r.progress;
      requests = requests;
      status = status;
      replace = r.replace;
      patch = r.patch;
    }
    else none

unfoldable pub decode_result : Formats → String → Option ModuleResult
unfolding check_fields read_members
decode_result f raw = if ltb max_value_bytes (len raw) then none else elim (f.members raw) [
  | none ↦ none
  | some members ↦ elim (read_members f no_fields members) [
    | none ↦ none
    | some r ↦ check_fields f r
  ]
]

abbrev pub within_limit : String → Option String
within_limit value = if ltb max_value_bytes (len value) then none else some value

-- The patch of a result without one is the empty text.
abbrev pub patch_text : Option String → String
patch_text none = ""
patch_text (some patch) = patch

abbrev pub too_many_operations : Option ℕ → Bool
too_many_operations none = true
too_many_operations (some n) = ltb max_patch_operations n

-- The candidate value; `none` is an error.
unfoldable pub apply : Formats → String → ModuleResult → Option String
apply f current r = elim r.replace [
  | some value ↦ within_limit value
  | none ↦
      if too_many_operations (f.operations (patch_text r.patch))
      then none
      else elim (f.patched (patch_text r.patch) current) [
        | none ↦ none
        | some candidate ↦ within_limit candidate
      ]
]
