-- ===== src/Scenarios/Host.antt =====
-- Requests of a module on a concrete store.
use grodt.Prelude.{◌+◌, ◌<◌, none, List, [], ◌∷◌, ◌≡◌, refl, arith}
use grodt.State.Types.{HostRequest, Event, SourceKind}
use grodt.State.Records.{find, insert}
use grodt.State.Store.{ok, Store}
use grodt.State.Tasks.{push}
use grodt.State.Tasks.Invariant.{IsWellFormed}
use grodt.State.HostWork.{queue_requests}
use grodt.State.HostWork.Once.{queue_requests_once}
use grodt.State.Reach.{new_store, perform, perform_all, perform_all-IsWellFormed}
use grodt.Scenarios.{live, clock, accepts, opening, opened}

abbrev asked : Event
asked = record {
  task_id = 1;
  correlation = none;
  id = 1;
  sequence = 1;
  time = 0;
  source = record { kind = SourceKind.user; id = "user" };
  payload = "{}";
}

abbrev requests : List HostRequest
requests =
    record { id = "a"; kind = "http"; payload = "{}" }
    ∷ record { id = "b"; kind = "http"; payload = "{}" }
    ∷ record { id = "a"; kind = "http"; payload = "{}" }
    ∷ []

abbrev queued : Store
queued = (queue_requests live "weather" asked requests opened).0

opened-IsWellFormed : IsWellFormed opened.tasks opened.task_sequence
opened-IsWellFormed = perform_all-IsWellFormed clock accepts 0 opening (omega arith)

room_test : opened.task_sequence + 3 < 18446744073709551616
unfolding perform_all perform new_store push find insert
room_test = omega arith

queued_test : (queue_requests live "weather" asked requests opened).1 ≡ ok tt
unfolding perform_all perform new_store push find insert queue_requests
queued_test = refl

-- The third request repeats the first.
counted_test : queued.task_sequence ≡ 3
unfolding perform_all perform new_store push find insert queue_requests
counted_test = refl

-- The ids in another order, with another payload, for another event.
abbrev repeated : List HostRequest
repeated =
    record { id = "b"; kind = "http"; payload = "{1}" }
    ∷ record { id = "a"; kind = "other"; payload = "" }
    ∷ []

abbrev later : Event
later = record asked { id = 2; sequence = 2; payload = "{2}" }

queue_requests_once_example :
    ((queue_requests live "weather" later repeated queued).1 ≡ ok tt)
    × ((queue_requests live "weather" later repeated queued).0.tasks ≡ queued.tasks)
queue_requests_once_example =
    queue_requests_once live live "weather" asked later requests repeated opened opened-IsWellFormed
      room_test queued_test (refl, (refl, tt))
