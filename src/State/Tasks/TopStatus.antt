-- ===== src/State/Tasks/TopStatus.antt =====
-- A change of the top task's status, which Push, finish and activate make.
use grodt.Prelude.{
  ℕ, ◌≤◌, true, ◌⊎◌, inl, inr, some, List, [], ◌∷◌, ◌≡◌, refl, arith, ◌==◌, is_some, Bool-cases,
}
use grodt.State.Types.{TaskId, Status}
use grodt.State.Records.{Records, find, find-insert, record_at}
use grodt.State.Tasks.{top, set_top_status}
use grodt.State.Tasks.Invariant.{
  Entries, IsLineage, OnStack, Executing, Entries-insert, IsLineage-insert, entry_of_status,
}

module _ (seq : ℕ) (records : Records) (entries : Entries seq records) where
  pub Entries-set_top_status :
      (status status' : Status) (xs : List TaskId)
      → IsLineage records status xs
      → Entries seq (set_top_status status' xs records)
  Entries-set_top_status status status' [] l = entries
  Entries-set_top_status status status' (x ∷ xs) l =
      let e = entries x (record_at records x) (entry_of_status records x status l.0) in
      Entries-insert seq records x (record (record_at records x) { status = some status' }) entries
        (record {
          id_key = e.id_key;
          order_key = e.order_key;
          positive = e.positive;
          numbered = e.numbered;
          parent_older = e.parent_older;
          parent_known = e.parent_known;
        })

  pub IsLineage-set_top_status :
      (status status' : Status) (xs : List TaskId)
      → IsLineage records status xs
      → IsLineage (set_top_status status' xs records) status' xs
  IsLineage-set_top_status status status' [] l = tt
  IsLineage-set_top_status status status' (x ∷ xs) l = (
    ground
        (arith, find-insert x x (record (record_at records x) { status = some status' }) records),
    ground (
      arith,
      find-insert x x (record (record_at records x) { status = some status' }) records,
      l.1,
    ),
    IsLineage-insert seq records x (record (record_at records x) { status = some status' })
        Status.waiting xs entries
        (omega (
          arith,
          l.1,
          (entries x (record_at records x) (entry_of_status records x status l.0)).parent_older,
        ))
        l.2,
  )

  -- The top of a lineage is a known task, or there is none.
  pub top_known :
      (status : Status) (xs : List TaskId)
      → IsLineage records status xs
      → ((top xs ≡ 0) ⊎ (is_some (find (top xs) records) ≡ true)) × (top xs ≤ seq)
  top_known status [] l = (inl refl, omega arith)
  top_known status (x ∷ xs) l =
      let p = entry_of_status records x status l.0 in
      (inr (ground arith), (entries x (record_at records x) p).numbered)

pub Executing-set_top_status :
    (records : Records) (status : Status) (xs ys : List TaskId)
    → ((k : TaskId) → OnStack k xs → OnStack k ys)
    → Executing records ys
    → Executing (set_top_status status xs records) ys
Executing-set_top_status records status [] ys sub h k e = h k e
Executing-set_top_status records status (x ∷ xs) ys sub h k e = elim (Bool-cases (x == k)) [
  | inl same ↦ sub k (inl (ground arith))
  | inr other ↦ h k (
      ground
        (arith, find-insert x k (record (record_at records x) { status = some status }) records))
]
