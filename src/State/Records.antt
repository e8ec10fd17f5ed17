-- ===== src/State/Records.antt =====
-- Go's `map[string]Task` of a task state, and the other maps of the package: an association list
-- with one entry for a key. A write keeps the place of an entry that is there. Go ranges over a
-- map in an unspecified order; the loops here take the order of the list.
use mathlib.Core.Option.{get_or}
use grodt.Prelude.{ℕ, Option, none, some, List, [], ◌∷◌, ◌≡◌, refl, arith, ◌==◌, if◌then◌else◌}
use grodt.State.Types.{TaskId, Task, zero_task}

module _ {ℓ} {V : Type ℓ} where
  -- `v, ok := m[k]`
  unfoldable pub find : ℕ → List (ℕ × V) → Option V
  find k [] = none
  find k ((j, v) ∷ m) = if j == k then some v else find k m

  -- `m[k] = v`
  unfoldable pub insert : ℕ → V → List (ℕ × V) → List (ℕ × V)
  insert k v [] = (k, v) ∷ []
  insert k v ((j, w) ∷ m) = if j == k then (k, v) ∷ m else (j, w) ∷ insert k v m

  pub find-insert :
      (k j : ℕ) (v : V) (m : List (ℕ × V))
      → find j (insert k v m) ≡ (if k == j then some v else find j m)
  unfolding find insert
  find-insert k j v [] = refl
  find-insert k j v ((i, w) ∷ m) = ground (arith, find-insert k j v m)

abbrev pub Records : Type 0
Records = List (TaskId × Task)

-- `records[id]`
abbrev pub record_at : Records → TaskId → Task
record_at rs k = get_or (find k rs) zero_task
