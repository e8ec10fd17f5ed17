-- ===== src/State/Tasks/Invariant.antt =====
-- What holds of the task state between two operations, and how writes to the records keep it.
use grodt.Prelude.{
  ℕ, ◌≤◌, ◌<◌, Bool, true, false, ◌⊎◌, inl, inr, Option, some, List, [], ◌∷◌, ◌≡◌, arith, ◌==◌,
  is_some, Bool-cases,
}
use mathlib.Core.Path.{subst₂}
use grodt.State.Types.{TaskId, Status, Task}
use grodt.State.Records.{Records, find, insert, find-insert, record_at}
use grodt.State.Store.{TaskState}
use grodt.State.Tasks.{top}

-- The record under key `k` names itself and a parent that is older and known.
pub record IsEntry (seq : ℕ) (records : Records) (k : TaskId) (t : Task) : Type 0 where
  pub id_key : t.id ≡ k
  pub order_key : t.order ≡ k
  pub positive : 0 < k
  pub numbered : k ≤ seq
  pub parent_older : t.parent_id < k
  pub parent_known : (t.parent_id ≡ 0) ⊎ (is_some (find t.parent_id records) ≡ true)

abbrev pub Entries : ℕ → Records → Type 0
Entries seq records = (k : TaskId) (t : Task) → find k records ≡ some t → IsEntry seq records k t

-- The top has the status, all below it wait, and each has the next one for its parent.
abbrev pub IsLineage : Records → Status → List TaskId → Type 0
IsLineage records status [] = Unit
IsLineage records status (x ∷ xs) =
    ((record_at records x).status ≡ some status)
    × ((record_at records x).parent_id ≡ top xs)
    × IsLineage records Status.waiting xs

abbrev pub is_executing : Option Status → Bool
is_executing (some Status.running) = true
is_executing (some Status.waiting) = true
is_executing _ = false

abbrev pub OnStack : TaskId → List TaskId → Type 0
OnStack k [] = ⊥
OnStack k (x ∷ xs) = (k ≡ x) ⊎ OnStack k xs

abbrev pub Executing : Records → List TaskId → Type 0
Executing records stack =
    (k : TaskId) → is_executing (record_at records k).status ≡ true → OnStack k stack

pub record IsWellFormed (tasks : TaskState) (seq : ℕ) : Type 0 where
  pub entries : Entries seq tasks.records
  pub lineage : IsLineage tasks.records Status.running tasks.stack
  pub executing : Executing tasks.records tasks.stack

-- A known record stays known under a write.
known-insert :
    (k p : TaskId) (v : Task) (records : Records)
    → is_some (find p records) ≡ true
    → is_some (find p (insert k v records)) ≡ true
known-insert k p v records h = ground (arith, find-insert k p v records)

IsEntry-insert :
    (seq : ℕ) (records : Records) (k j : TaskId) (v t : Task)
    → IsEntry seq records j t
    → IsEntry seq (insert k v records) j t
IsEntry-insert seq records k j v t h = record {
  id_key = h.id_key;
  order_key = h.order_key;
  positive = h.positive;
  numbered = h.numbered;
  parent_older = h.parent_older;
  parent_known = ground (arith, h.parent_known, known-insert k t.parent_id v records);
}

-- A higher bound on the numbers.
pub Entries-mono :
    (seq seq' : ℕ) (records : Records) → seq ≤ seq' → Entries seq records → Entries seq' records
Entries-mono seq seq' records le entries k t e = record {
  id_key = (entries k t e).id_key;
  order_key = (entries k t e).order_key;
  positive = (entries k t e).positive;
  numbered = omega (arith, (entries k t e).numbered);
  parent_older = (entries k t e).parent_older;
  parent_known = (entries k t e).parent_known;
}

pub Entries-insert :
    (seq : ℕ) (records : Records) (k : TaskId) (v : Task)
    → Entries seq records
    → IsEntry seq records k v
    → Entries seq (insert k v records)
Entries-insert seq records k v entries h j t e = elim (Bool-cases (k == j)) [
  | inl same ↦
      IsEntry-insert seq records k j v t (subst₂ (IsEntry seq records) (at_key same) (value same) h)
  | inr other ↦
      IsEntry-insert seq records k j v t (entries j t (ground (arith, find-insert k j v records)))
]
  where
    at_key : (k == j) ≡ true → k ≡ j
    at_key same = ground arith

    value : (k == j) ≡ true → v ≡ t
    value same = ground (arith, find-insert k j v records)

-- A record that is there with a status is an entry.
pub entry_of_status :
    (records : Records) (x : TaskId) (status : Status)
    → (record_at records x).status ≡ some status
    → find x records ≡ some (record_at records x)
entry_of_status records x status h = ground arith

-- A write above the top of a lineage does not touch it.
pub IsLineage-insert :
    (seq : ℕ) (records : Records) (k : TaskId) (v : Task) (status : Status) (xs : List TaskId)
    → Entries seq records
    → top xs < k
    → IsLineage records status xs
    → IsLineage (insert k v records) status xs
IsLineage-insert seq records k v status [] entries above l = tt
IsLineage-insert seq records k v status (x ∷ xs) entries above l = (
  ground (arith, find-insert k x v records, l.0),
  ground (arith, find-insert k x v records, l.1),
  IsLineage-insert seq records k v Status.waiting xs entries
      (omega (
        arith,
        l.1,
        (entries x (record_at records x) (entry_of_status records x status l.0)).parent_older,
      ))
      l.2,
)
