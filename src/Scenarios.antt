-- ===== src/Scenarios.antt =====
-- Concrete stores, plans and providers for the tests and witnesses of the modules below.
pub mod Tasks
pub mod Plans
pub mod Outside
pub mod Host
pub mod Procedure
pub mod Admission
pub mod Http
use grodt.Prelude.{ℕ, String, false, Option, none, some, List, [], ◌∷◌}
use grodt.State.Types.{
  Time, Status, Task, zero_task, EvidenceReference, Step, Plan, PlanStatus, AgentWork, Metadata,
  Partition,
}
use grodt.State.Store.{Context, Store, TaskState, Verdict}
use grodt.State.Evidence.{Json, string, object, end, field}
use grodt.State.Reach.{Call, push_task, queue_work, activate_work, new_store, perform, perform_all}

abbrev pub live : Context
live = record { is_nil_context = false; done = λ n. false }

abbrev pub clock : ℕ → Time
clock n = n

abbrev pub accepts : ℕ → Context → TaskState → Verdict
accepts n c tasks = Verdict.valid

abbrev pub start : Store
start = new_store clock accepts 0

-- The decoder on the one text of the scenarios.
abbrev pub weather : Json
weather = object (field "sky" (string "clear") end)

abbrev pub decode : String → Option Json
decode text = some weather

abbrev pub fresh : Metadata
fresh = record {
  version = 1;
  last_processed_sequence = 1;
  last_update_sequence = 1;
  last_update_at = none;
  stale = false;
  consecutive_failures = 0;
  last_error = none;
}

abbrev pub reference : EvidenceReference
reference = record { partition = "weather"; version = 1; path = "/sky" }

abbrev pub looked : Step
looked = record {
  id = "look";
  description = "look at the sky";
  completion_criteria = "";
  status = PlanStatus.satisfied;
  outcome = "clear";
  evidence = some (reference ∷ []);
  information_gaps = none;
}

abbrev pub reporting : Step
reporting = record {
  id = "report";
  description = "report it";
  completion_criteria = "";
  status = PlanStatus.pending;
  outcome = "";
  evidence = none;
  information_gaps = none;
}

abbrev pub first_plan : Plan
first_plan = record {
  unresolved_focus = "";
  revision = 0;
  description = "say how the sky is";
  completion_criteria = "";
  status = PlanStatus.active;
  outcome = "";
  evidence = none;
  information_gaps = none;
  steps = looked ∷ reporting ∷ [];
  current_step = "";
}

-- The next plan reports, and gives the step that was looked up as it was accepted.
abbrev pub second_plan : Plan
second_plan = record first_plan {
  revision = 1;
  steps = looked ∷ record reporting { status = PlanStatus.active } ∷ [];
  current_step = "report";
}

abbrev pub tool_call : AgentWork
tool_call = record {
  operation_id = "op";
  turn = 1;
  call_id = "call";
  server = "sky";
  tool = "look";
  arguments = "{}";
}

abbrev pub knowing : Store → Store
knowing s = record s {
  knowledge = ("weather", record { metadata = fresh; value = "{}"; progress = [] }) ∷ [];
}

-- A root task.
abbrev pub opening : List Call
opening = push_task live "say how the sky is" "" ∷ []

-- A root task with two tool calls, the first of them active.
abbrev pub calling : List Call
calling =
    push_task live "say how the sky is" ""
    ∷ queue_work live (tool_call ∷ tool_call ∷ [])
    ∷ activate_work live 2
    ∷ []

-- Two tool calls, the first of them active.
abbrev pub queueing : List Call
queueing = queue_work live (tool_call ∷ tool_call ∷ []) ∷ activate_work live 2 ∷ []

abbrev pub opened : Store
opened = perform_all opening start

abbrev pub called : Store
called = perform_all calling start

-- The root task with knowledge.
abbrev pub informed : Store
informed = knowing opened

-- A root task that holds the first plan, and has called a tool under it.
abbrev pub holder : Task
holder = record zero_task {
  id = 1;
  order = 1;
  objective = "say how the sky is";
  status = some Status.running;
  plan = some first_plan;
}

abbrev pub planned : Store
planned = perform (queue_work live (tool_call ∷ [])) (record start {
  task_sequence = 1;
  tasks = record { records = (1, holder) ∷ []; stack = 1 ∷ [] };
})
