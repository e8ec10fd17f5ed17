-- ===== src/State/Tasks/Pending.antt =====
-- pendingChild of internal/state/host.go, which decides the order in which queued work runs.
use grodt.Prelude.{
  ◌≤◌, ◌<◌, Bool, true, ◌&&◌, ◌||◌, ◌⊎◌, inl, inr, some, [], ◌∷◌, ◌≡◌, refl, arith, ◌==◌, ltb,
  Bool-cases,
}
use grodt.State.Types.{TaskId, Task, zero_task}
use grodt.State.Records.{Records, find}
use grodt.State.Store.{Store}
use grodt.State.Tasks.{is_pending, older_child, pending_child_from, pending_child}

-- Every record names its own key, which is not the empty id.
abbrev pub Named : Records → Type 0
Named [] = Unit
Named ((k, t) ∷ records) = (t.id ≡ k) × (0 < k) × Named records

abbrev pub is_pending_child : TaskId → Task → Bool
is_pending_child parent t = t.parent_id == parent && is_pending t.status

-- The scan never leaves a candidate for a younger one.
scan_keeps :
    (parent : TaskId) (next : Task) (records : Records)
    → Named records
    → 0 < next.id
    → (0 < (pending_child_from parent next records).id)
      × ((pending_child_from parent next records).order ≤ next.order)
unfolding pending_child_from
scan_keeps parent next [] h pos = (pos, omega arith)
scan_keeps parent next ((k, t) ∷ records) h pos =
    elim (Bool-cases (is_pending_child parent t && (next.id == 0 || ltb t.order next.order))) [
      | inl better ↦
          let ih = scan_keeps parent t records h.2 (omega (arith, h.0, h.1)) in
          (ground (arith, better, ih), ground (arith, better, ih))
      | inr kept ↦
          let ih = scan_keeps parent next records h.2 pos in
          (ground (arith, kept, ih), ground (arith, kept, ih))
    ]

scan_least :
    (parent : TaskId) (next : Task) (records : Records) (k : TaskId) (t : Task)
    → Named records
    → find k records ≡ some t
    → is_pending_child parent t ≡ true
    → (0 < (pending_child_from parent next records).id)
      × ((pending_child_from parent next records).order ≤ t.order)
unfolding pending_child_from find
scan_least parent next [] k t h found child = cc
scan_least parent next ((j, u) ∷ records) k t h found child = elim (Bool-cases (j == k)) [
  | inr other ↦
      scan_least parent (older_child parent next u) records k t h.2 (ground (arith, other)) child
  | inl here ↦
      let same : u ≡ t = ground (arith, here) in
      elim (Bool-cases (is_pending_child parent u && (next.id == 0 || ltb u.order next.order))) [
        | inl better ↦
            let ih = scan_keeps parent u records h.2 (omega (arith, h.0, h.1)) in
            (ground (arith, better, ih), ground (arith, better, ih, same))
        | inr kept ↦
            let pos : 0 < next.id = ground (arith, same) in
            let le : next.order ≤ t.order = ground (arith, same) in
            let ih = scan_keeps parent next records h.2 pos in
            (ground (arith, kept, ih), ground (arith, kept, ih, le))
      ]
]

-- What the scan returns is its start or a pending child that is stored under its id.
scan_sound :
    (parent : TaskId) (next : Task) (records : Records)
    → Named records
    → (pending_child_from parent next records ≡ next)
      ⊎ (is_pending_child parent (pending_child_from parent next records) ≡ true)
unfolding pending_child_from
scan_sound parent next [] h = inl refl
scan_sound parent next ((k, t) ∷ records) h =
    elim (Bool-cases (is_pending_child parent t && (next.id == 0 || ltb t.order next.order))) [
      | inl better ↦ let ih = scan_sound parent t records h.2 in ground (arith, better, ih)
      | inr kept ↦ let ih = scan_sound parent next records h.2 in ground (arith, kept, ih)
    ]

-- If every record names its own key and the parent has a pending child, pendingChild returns a
-- pending child of the parent whose order is no greater than that child's.
pub pending_child_oldest :
    (s : Store) (parent : TaskId) (k : TaskId) (t : Task)
    → Named s.tasks.records
    → find k s.tasks.records ≡ some t
    → t.parent_id ≡ parent
    → is_pending t.status ≡ true
    → (next : Task) × (pending_child s parent ≡ some next)
      × (next.parent_id ≡ parent)
      × (is_pending next.status ≡ true)
      × (next.order ≤ t.order)
unfolding pending_child
pending_child_oldest s parent k t named found under waiting =
    let next = pending_child_from parent zero_task s.tasks.records in
    let (pos, le) = scan_least parent zero_task s.tasks.records k t named found (ground arith) in
    let child : is_pending_child parent next ≡ true =
      ground (arith, pos, scan_sound parent zero_task s.tasks.records named) in
    (next, ground (arith, pos), ground (arith, child), ground (arith, child), le)
