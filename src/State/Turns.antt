-- ===== src/State/Turns.antt =====
-- How much host work is left in a task state, as the loop of drainHostWork (internal/state/host.go)
-- does it.
use grodt.Prelude.{ℕ, ◌+◌, ◌&&◌, [], ◌∷◌, is_empty, is_some, if◌then◌else◌}
use grodt.State.Types.{Task}
use grodt.State.Records.{Records}
use grodt.State.Tasks.{is_live, is_pending}

-- How many turns a task can still take: to start, to be executed and to finish.
abbrev pub turns_of : Task → ℕ
turns_of t =
    if is_pending t.status
    then 3
    else if is_some t.work && is_live t.status
    then (if is_empty t.result then 2 else 1)
    else 0

abbrev pub all_turns : Records → ℕ
all_turns [] = 0
all_turns ((k, t) ∷ records) = turns_of t + all_turns records
