-- ===== src/Scenarios/Admission.antt =====
-- An event to a concrete module, whose request the host executes.
use text.Mathlib.Text.{◌==◌ as str_eq}
use grodt.Prelude.{
  ◌+◌, ◌-◌, ◌*◌, ◌<◌, ◌≤◌, String, Bool, true, false, none, some, [], ◌∷◌, ◌≡◌, refl, arith, ◌⊎◌,
  inl, inr, if◌then◌else◌, Bool-cases, is_some,
}
use grodt.State.Types.{Event, Source, SourceKind, HostRequest}
use grodt.State.Store.{Store, Verdict, is_ok}
use grodt.State.Records.{find, insert, record_at}
use grodt.State.Tasks.{push, active, pending_child, activate, finish, is_blank, is_pending}
use grodt.State.Tasks.Invariant.{IsWellFormed}
use grodt.State.AgentWork.{queue_agent_work, add_agent_work, append_created}
use grodt.State.Mutation.{Formats, apply, decode_result}
use grodt.State.Plan.Fields.{matches_name}
use grodt.State.HostWork.{check_requests, queue_requests}
use grodt.State.Http.{execute_http}
use grodt.State.Evidence.{partition_at}
use grodt.State.Admission.{
  announce, World, Definition, answered, partition_of, admit, broadcast_one,
}
use grodt.State.Admission.Touch.{Touched}
use grodt.State.Admission.Moves.{Moved}
use grodt.State.Admission.Partitions.{AllValid, AdmitsOnly, broadcast_one-Touched, admit-AllValid}
use grodt.State.Drain.{
  admit_event, drain_head, drain_work, execute, drain_turns, drain_fuel, drain_host_work,
}
use grodt.State.Drain.Finishes.{Settled, drain_turns_finish, drain_host_work-Settled}
use grodt.State.Drain.Admit.{HasRoom, Admitted, admit-Ready, admit_event-Admitted}
use grodt.State.Reach.{new_store, perform, perform_all, perform_all-IsWellFormed}
use grodt.Scenarios.{live, clock, accepts, opening, opened, informed, knowing, planned}
use grodt.Scenarios.Http.{sky_client}

-- A module that asks the host on a user's event, and takes the answer's value.
abbrev from_host : SourceKind → Bool
from_host SourceKind.http = true
from_host _ = false

abbrev asked : HostRequest
asked = record { id = "sky"; kind = "http"; payload = "{}" }

abbrev formats : Formats
formats = record {
  members = λ text.
      if str_eq text "ask"
      then some (("status", "processed") ∷ ("requests", "asked") ∷ [])
      else some (("status", "mutation") ∷ ("replace", "{1}") ∷ []);
  progress = λ text. none;
  requests = λ text. some (some (asked ∷ []));
  status = λ text. some text;
  is_valid_json = λ text. true;
  operations = λ text. none;
  patched = λ text value. none;
}

abbrev weather_module : Definition
weather_module = record {
  name = "weather";
  process = λ n c value e. answered (if from_host e.source.kind then "set" else "ask");
  conforms = λ n c value. if str_eq value "{1}" then Verdict.valid else Verdict.invalid;
}

abbrev world : World
world = record {
  definitions = weather_module ∷ [];
  formats = formats;
  decode = λ text. none;
  deep_equal = λ a b. true;
  encode_outcome = λ tool result. "{}";
  http = sky_client false;
  allow_http = true;
  task_text = λ id. "task";
}

abbrev user : Source
user = record { kind = SourceKind.user; id = "user" }

abbrev heard : Store
heard = (admit world live user "{}" none informed).0

heard_test : heard.task_sequence ≡ 2
unfolding admit perform_all perform push new_store announce decode_result matches_name
    check_requests find insert queue_requests
heard_test = refl

opened-IsWellFormed : IsWellFormed opened.tasks opened.task_sequence
opened-IsWellFormed = perform_all-IsWellFormed clock accepts 0 opening (omega arith)

budget_test : informed.host_executions ≤ 32
unfolding perform_all perform new_store push find insert
budget_test = omega arith

room_test : informed.task_sequence + (33 - informed.host_executions) * 8 < 18446744073709551616
unfolding perform_all perform new_store push find insert
room_test = omega arith

informed-HasRoom : HasRoom world informed
informed-HasRoom = record {
  well_formed = opened-IsWellFormed;
  executions = budget_test;
  room = room_test;
}

admit_event-Admitted_example :
    Admitted world user "{}" informed
      (admit_event world live user "{}" informed).0
      (admit_event world live user "{}" informed).1
admit_event-Admitted_example = admit_event-Admitted world live user "{}" informed informed-HasRoom

drain_turns_finish_example :
    drain_turns (drain_fuel world heard) world live heard ≡ some (drain_host_work world live heard)
drain_turns_finish_example =
    drain_turns_finish world live heard (admit-Ready world live user "{}" informed informed-HasRoom)

drain_host_work-Settled_example :
    Settled (drain_host_work world live heard).0 (drain_host_work world live heard).1
drain_host_work-Settled_example =
    drain_host_work-Settled world live heard
      (admit-Ready world live user "{}" informed informed-HasRoom)

-- The partition takes the value of the answer.
drained_test : (partition_of "weather" (drain_host_work world live heard).0).value ≡ "{1}"
unfolding drain_host_work partition_at admit perform_all perform push new_store announce
    decode_result matches_name check_requests find insert queue_requests drain_head pending_child
    activate drain_turns drain_work execute_http finish active is_blank execute apply
drained_test = refl

-- An older tool call keeps the host work behind it pending.
abbrev calling_first : Store
calling_first = knowing planned

abbrev admitted_behind : Store
admitted_behind = (admit_event world live user "{}" calling_first).0

behind_test :
    (is_ok (admit_event world live user "{}" calling_first).1 ≡ true)
    × ((record_at admitted_behind.tasks.records 3).parent_id ≡ 1)
    × (is_some (record_at admitted_behind.tasks.records 3).work ≡ true)
    × (is_pending (record_at admitted_behind.tasks.records 3).status ≡ true)
unfolding admit_event drain_host_work partition_at admit perform_all perform push new_store announce
    decode_result matches_name check_requests find insert queue_requests drain_head pending_child
    activate drain_turns drain_work execute_http finish active is_blank execute apply
    queue_agent_work add_agent_work append_created
behind_test = (refl, refl, refl, refl)

abbrev spoken : Event
spoken = record {
  task_id = 1;
  correlation = none;
  id = 1;
  sequence = 1;
  time = 0;
  source = user;
  payload = "{}";
}

broadcast_one-Touched_example :
    Touched "weather"
      (Moved world live spoken weather_module informed)
      informed
      (broadcast_one world live spoken weather_module informed).0
broadcast_one-Touched_example = broadcast_one-Touched world live spoken weather_module informed

-- A value of the module's partition is one of two.
abbrev Known : String → String → Type 0
Known name value =
    (str_eq "weather" name ≡ false) ⊎ (str_eq value "{1}" ≡ true) ⊎ (str_eq value "{}" ≡ true)

admits : AdmitsOnly Known world.definitions
admits = ((λ n c value accepted. inr (inl (ground (arith, accepted)))), tt)

informed-AllValid : AllValid Known informed
unfolding partition_at
informed-AllValid name = elim (Bool-cases (str_eq "weather" name)) [
  | inl same ↦ inr (inr (rw (partition_of, same) refl))
  | inr other ↦ inl other
]

admit-AllValid_example : AllValid Known (admit world live user "{}" none informed).0
admit-AllValid_example =
    admit-AllValid Known world live user "{}" none informed admits informed-AllValid
