-- ===== src/State/Types.antt =====
-- internal/state/types.go, plan.go (types) and attempt.go (type): the records of a run's state.
-- A task id `<run id>/task/<n>` stands as its number n, and the empty id as 0: the run id is fixed
-- for a store, and Go formats n injectively. `json.RawMessage` and `string` are texts, a nil pointer
-- is `none`, and a time is a number of the clock's unit.
use grodt.Prelude.{ℕ, String, Option, none, some, Bool, List, []}

abbrev pub TaskId : Type 0
TaskId = ℕ

abbrev pub Time : Type 0
Time = ℕ

-- A slice where the code tells a nil one, `none`, from an empty one.
abbrev pub Slice : Type 0 → Type 0
Slice A = Option (List A)

abbrev pub elems : {A : Type 0} → Slice A → List A
elems none = []
elems (some xs) = xs

-- The values that the code gives to `Task.Status`.
pub data Status : Type 0 where
  pending running waiting completed failed cancelled incomplete : Status

-- The statuses of a plan and of a step; `other` is any text outside the enumeration.
pub data PlanStatus : Type 0 where
  pending active partial satisfied invalidated failed : PlanStatus
  other : String → PlanStatus

pub record EvidenceReference : Type 0 where
  pub partition : String
  pub version : ℕ
  pub path : String

pub record Step : Type 0 where
  pub id : String
  pub description : String
  pub completion_criteria : String
  pub status : PlanStatus
  pub outcome : String
  pub evidence : Slice EvidenceReference
  pub information_gaps : Slice String

pub record Plan : Type 0 where
  pub unresolved_focus : String
  pub revision : ℕ
  pub description : String
  pub completion_criteria : String
  pub status : PlanStatus
  pub outcome : String
  pub evidence : Slice EvidenceReference
  pub information_gaps : Slice String
  pub steps : List Step
  pub current_step : String

pub data AttemptOutcome : Type 0 where
  in_progress no_progress progress : AttemptOutcome

pub record AttemptSummary : Type 0 where
  pub total : ℕ
  pub consecutive_no_progress : ℕ
  pub step_id : String
  pub plan_revision : ℕ
  pub information_gaps : List String
  pub result_ids : List TaskId
  pub outcome : AttemptOutcome
  pub reason : String
  pub replan_required : Bool

pub record HostRequest : Type 0 where
  pub id : String
  pub kind : String
  pub payload : String

pub record HostWork : Type 0 where
  pub partition : String
  pub event_id : ℕ  -- `<run id>/event/<n>`
  pub request : HostRequest

pub record AgentWork : Type 0 where
  pub operation_id : String
  pub turn : ℕ
  pub call_id : String
  pub server : String
  pub tool : String
  pub arguments : String

pub record Task : Type 0 where
  pub attempts : Option AttemptSummary
  pub plan : Option Plan
  pub order : ℕ
  pub agent_work : Option AgentWork
  pub work : Option HostWork
  pub id : TaskId
  pub parent_id : TaskId
  pub objective : String
  pub input : String
  pub status : Option Status  -- `none` is the empty text of the zero value
  pub created_at : Time
  pub started_at : Option Time
  pub finished_at : Option Time
  pub cycles : ℕ
  pub result : String
  pub error : String

-- Go's zero value, which a map read yields on a missing key.
abbrev pub zero_task : Task
zero_task = record {
  attempts = none;
  plan = none;
  order = 0;
  agent_work = none;
  work = none;
  id = 0;
  parent_id = 0;
  objective = "";
  input = "";
  status = none;
  created_at = 0;
  started_at = none;
  finished_at = none;
  cycles = 0;
  result = "";
  error = "";
}

pub record Failure : Type 0 where
  pub kind : String
  pub code : String
  pub event_id : ℕ

pub record Metadata : Type 0 where
  pub version : ℕ
  pub last_processed_sequence : ℕ
  pub last_update_sequence : ℕ
  pub last_update_at : Option Time
  pub stale : Bool
  pub consecutive_failures : ℕ
  pub last_error : Option Failure

pub record ProgressRecord : Type 0 where
  pub id : String
  pub task_id : TaskId
  pub kind : String
  pub status : String
  pub summary : String
  pub fact_reference : String
  pub knowledge_version : ℕ

pub record Partition : Type 0 where
  pub metadata : Metadata
  pub value : String
  pub progress : List ProgressRecord

pub data SourceKind : Type 0 where
  user llm runtime http mcp : SourceKind
  other : String → SourceKind

pub record Source : Type 0 where
  pub kind : SourceKind
  pub id : String

pub record Correlation : Type 0 where
  pub partition : String
  pub request_id : String
  pub operation_id : String
  pub turn : ℕ

pub record Event : Type 0 where
  pub task_id : TaskId
  pub correlation : Option Correlation
  pub id : ℕ
  pub sequence : ℕ
  pub time : Time
  pub source : Source
  pub payload : String
