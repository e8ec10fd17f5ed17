-- ===== src/Loop/Patch/Order.antt =====
-- The unresolved_order of a patch (applyPlanPatch of internal/loop/plan_patch.go).
use mathlib.Core.Logic.{⊎_map}
use text.Mathlib.Text.{◌==◌ as str_eq}
use grodt.Prelude.{
  ℕ, ◌+◌, ◌≤◌, String, true, false, none, some, List, [], ◌∷◌, length, ◌≡◌, ◌⊎◌, inl, inr, arith,
  ◌==◌, Option-cases, Bool-cases, if◌then◌else◌,
}
use grodt.State.Types.{Slice, Step}
use grodt.State.Plan.Cursor.{step_unresolved}
use text.Mathlib.TextPositions.{eq_refl}
use grodt.State.Plan.EqualityLaws.{str_eq_sound}
use grodt.Loop.Reconciliation.Proposal.{first_step}
use grodt.Loop.Patch.Laws.{HasStep, holds_id}
use grodt.Loop.Patch.{
  done, remove_first, put_step, unresolved_map, take_ordered, place_ordered, reorder,
}

HasStep-some :
    (step x : Step) (rest placed : List Step)
    → some (x ∷ rest) ≡ some placed
    → (step ≡ x) ⊎ HasStep step rest
    → HasStep step placed
HasStep-some step x rest [] h there = absurd (ground (arith, h))
HasStep-some step x rest (y ∷ ys) h (inl e) = inl (ground (arith, h, e))
HasStep-some step x rest (y ∷ ys) h (inr there) =
    let same : rest ≡ ys = ground (arith, h) in inr (rw (← same) there)

-- A resolved step keeps its place under a new order.
HasStep-place_ordered :
    (step : Step) (ordered steps placed : List Step)
    → place_ordered ordered steps ≡ some placed
    → step_unresolved step ≡ false
    → HasStep step steps
    → HasStep step placed
unfolding place_ordered
HasStep-place_ordered step ordered [] placed h resolved there = absurd there
HasStep-place_ordered step [] (x ∷ xs) placed h resolved there =
    elim (Bool-cases (step_unresolved x)) [
      | inl open_step ↦ absurd (ground (arith, h, open_step))
      | inr closed ↦ elim (Option-cases (place_ordered [] xs)) [
        | inl short ↦ absurd (ground (arith, h, closed, short))
        | inr (rest, fine) ↦
            HasStep-some step x rest placed (ground (arith, h, closed, fine))
              (⊎_map (λ e. e) (HasStep-place_ordered step [] xs rest fine resolved) there)
      ]
    ]
HasStep-place_ordered step (o ∷ ordered) (x ∷ xs) placed h resolved there =
    elim (Bool-cases (step_unresolved x)) [
      | inl open_step ↦ elim (Option-cases (place_ordered ordered xs)) [
        | inl short ↦ absurd (ground (arith, h, open_step, short))
        | inr (rest, fine) ↦ HasStep-some step o rest placed (ground (arith, h, open_step, fine)) (
            inr
              (HasStep-place_ordered step ordered xs rest fine resolved (not_head open_step there)))
      ]
      | inr closed ↦ elim (Option-cases (place_ordered (o ∷ ordered) xs)) [
        | inl short ↦ absurd (ground (arith, h, closed, short))
        | inr (rest, fine) ↦
            HasStep-some step x rest placed (ground (arith, h, closed, fine)) (
              ⊎_map (λ e. e) (HasStep-place_ordered step (o ∷ ordered) xs rest fine resolved) there)
      ]
    ]
  where
    not_head : step_unresolved x ≡ true → (step ≡ x) ⊎ HasStep step xs → HasStep step xs
    not_head open_step (inl e) = absurd (ground (arith, open_step, e, resolved))
    not_head open_step (inr there) = there

holds_id-put_step :
    (id : String) (new : Step) (m : List Step)
    → holds_id id m ≡ true
    → holds_id id (put_step new m) ≡ true
unfolding put_step
holds_id-put_step id new [] h = cc
holds_id-put_step id new (x ∷ xs) h = elim (Bool-cases (str_eq x.id new.id)) [
  | inl same ↦ let e : x.id ≡ new.id = str_eq_sound x.id new.id same in ground (arith, h, same, e)
  | inr other ↦ ground (arith, h, other, holds_id-put_step id new xs)
]

holds_id-put_self : (new : Step) (m : List Step) → holds_id new.id (put_step new m) ≡ true
unfolding put_step
holds_id-put_self new [] = ground (arith, eq_refl new.id)
holds_id-put_self new (x ∷ xs) = ground (arith, eq_refl new.id, holds_id-put_self new xs)

holds_id-unresolved_map :
    (id : String) (steps m : List Step)
    → holds_id id m ≡ true
    → holds_id id (unresolved_map steps m) ≡ true
unfolding unresolved_map
holds_id-unresolved_map id [] m h = h
holds_id-unresolved_map id (x ∷ xs) m h =
    holds_id-unresolved_map id xs _ (ground (arith, h, holds_id-put_step id x m))

unresolved_map-holds_id :
    (step : Step) (steps m : List Step)
    → step_unresolved step ≡ true
    → HasStep step steps
    → holds_id step.id (unresolved_map steps m) ≡ true
unfolding unresolved_map
unresolved_map-holds_id step [] m unresolved there = absurd there
unresolved_map-holds_id step (x ∷ xs) m unresolved (inl e) =
    holds_id-unresolved_map step.id xs _ (ground (arith, e, unresolved, holds_id-put_self step m))
unresolved_map-holds_id step (x ∷ xs) m unresolved (inr there) =
    unresolved_map-holds_id step xs _ unresolved there

-- How many positions an order fills.
abbrev unresolved_count : List Step → ℕ
unresolved_count [] = 0
unresolved_count (x ∷ xs) = (if step_unresolved x then 1 else 0) + unresolved_count xs

length-put_step : (new : Step) (m : List Step) → length (put_step new m) ≤ length m + 1
unfolding put_step
length-put_step new [] = omega arith
length-put_step new (x ∷ xs) = ground (arith, length-put_step new xs)

length-unresolved_map :
    (steps m : List Step) → length (unresolved_map steps m) ≤ length m + unresolved_count steps
unfolding unresolved_map
length-unresolved_map [] m = omega arith
length-unresolved_map (x ∷ xs) m = elim (Bool-cases (step_unresolved x)) [
  | inl open_step ↦
      ground (arith, open_step, length-unresolved_map xs (put_step x m), length-put_step x m)
  | inr closed ↦ ground (arith, closed, length-unresolved_map xs m)
]

length-remove_first :
    (id : String) (step : Step) (m : List Step)
    → first_step id m ≡ some step
    → length (remove_first id m) + 1 ≡ length m
unfolding first_step remove_first
length-remove_first id step [] h = cc
length-remove_first id step (x ∷ xs) h = ground (arith, h, length-remove_first id step xs)

first_step-str_eq :
    (id : String) (step : Step) (m : List Step)
    → first_step id m ≡ some step
    → str_eq step.id id ≡ true
unfolding first_step
first_step-str_eq id step [] h = cc
first_step-str_eq id step (x ∷ xs) h = ground (arith, h, first_step-str_eq id step xs)

holds_id-remove_first :
    (id other : String) (m : List Step)
    → holds_id other m ≡ true
    → str_eq id other ≡ false
    → holds_id other (remove_first id m) ≡ true
unfolding remove_first
holds_id-remove_first id other [] h ne = cc
holds_id-remove_first id other (x ∷ xs) h ne = elim (Bool-cases (str_eq x.id id)) [
  | inl same ↦ let e : x.id ≡ id = str_eq_sound x.id id same in ground (arith, h, same, ne, e)
  | inr kept ↦ ground (arith, h, kept, holds_id-remove_first id other xs)
]

length-take_ordered :
    (ids : List String) (m out : List Step)
    → take_ordered ids m ≡ some out
    → length out ≡ length ids
unfolding take_ordered
length-take_ordered [] m out h = ground (arith, h)
length-take_ordered (id ∷ ids) m out h = elim (Option-cases (first_step id m)) [
  | inl missing ↦ absurd (ground (arith, h, missing))
  | inr (step, found) ↦ elim (Option-cases (take_ordered ids (remove_first id m))) [
    | inl short ↦ absurd (ground (arith, h, found, short))
    | inr (rest, fine) ↦
        ground (arith, h, found, fine, length-take_ordered ids (remove_first id m) rest fine)
  ]
]

-- An order as long as the map takes everything out of it.
holds_id-take_ordered :
    (ids : List String) (m out : List Step) (other : String)
    → take_ordered ids m ≡ some out
    → length m ≡ length ids
    → holds_id other m ≡ true
    → holds_id other out ≡ true
unfolding take_ordered
holds_id-take_ordered [] [] out other h size there = cc
holds_id-take_ordered [] (x ∷ m) out other h size there = absurd (omega (arith, size))
holds_id-take_ordered (id ∷ ids) m out other h size there = elim (Option-cases (first_step id m)) [
  | inl missing ↦ absurd (ground (arith, h, missing))
  | inr (step, found) ↦ elim (Option-cases (take_ordered ids (remove_first id m))) [
    | inl short ↦ absurd (ground (arith, h, found, short))
    | inr (rest, fine) ↦
        let e : step.id ≡ id = str_eq_sound step.id id (first_step-str_eq id step m found) in
        let out_is : out ≡ step ∷ rest = ground (arith, h, found, fine) in
        rw out_is (elim (Bool-cases (str_eq id other)) [
          | inl same ↦ ground (arith, same, e)
          | inr ne ↦ ground (
            arith,
            holds_id-take_ordered ids (remove_first id m) rest other fine
                (omega (arith, size, length-remove_first id step m found))
                (holds_id-remove_first id other m there ne),
          )
        ])
  ]
]

holds_id-place_ordered :
    (ordered steps placed : List Step) (id : String)
    → place_ordered ordered steps ≡ some placed
    → length ordered ≤ unresolved_count steps
    → holds_id id ordered ≡ true
    → holds_id id placed ≡ true
unfolding place_ordered
holds_id-place_ordered [] steps placed id h size there = cc
holds_id-place_ordered (o ∷ ordered) [] placed id h size there = absurd (omega (arith, size))
holds_id-place_ordered (o ∷ ordered) (x ∷ xs) placed id h size there =
    elim (Bool-cases (step_unresolved x)) [
      | inl open_step ↦ elim (Option-cases (place_ordered ordered xs)) [
        | inl short ↦ absurd (ground (arith, h, open_step, short))
        | inr (rest, fine) ↦
            let placed_is : placed ≡ o ∷ rest = ground (arith, h, open_step, fine) in
            let fits : length ordered ≤ unresolved_count xs = ground (arith, size, open_step) in
            rw placed_is
              (ground (arith, there, holds_id-place_ordered ordered xs rest id fine fits))
      ]
      | inr closed ↦ elim (Option-cases (place_ordered (o ∷ ordered) xs)) [
        | inl short ↦ absurd (ground (arith, h, closed, short))
        | inr (rest, fine) ↦
            let placed_is : placed ≡ x ∷ rest = ground (arith, h, closed, fine) in
            let fits : length (o ∷ ordered) ≤ unresolved_count xs = ground (arith, size, closed) in
            rw placed_is
              (ground (arith, holds_id-place_ordered (o ∷ ordered) xs rest id fine fits there))
      ]
    ]

HasStep-holds_id :
    (step : Step) (steps : List Step) → HasStep step steps → holds_id step.id steps ≡ true
HasStep-holds_id step [] h = absurd h
HasStep-holds_id step (x ∷ xs) (inl e) = ground (arith, e, eq_refl step.id)
HasStep-holds_id step (x ∷ xs) (inr h) = ground (arith, HasStep-holds_id step xs h)

placed_holds_id :
    (step : Step) (order : List String) (steps ordered placed : List Step)
    → length (unresolved_map steps []) ≡ length order
    → take_ordered order (unresolved_map steps []) ≡ some ordered
    → place_ordered ordered steps ≡ some placed
    → HasStep step steps
    → holds_id step.id placed ≡ true
placed_holds_id step order steps ordered placed size taken fine there =
    elim (Bool-cases (step_unresolved step)) [
      | inr resolved ↦
          HasStep-holds_id step placed
            (HasStep-place_ordered step ordered steps placed fine resolved there)
      | inl unresolved ↦
          holds_id-place_ordered ordered steps placed step.id fine
            (omega (
              arith,
              length-take_ordered order (unresolved_map steps []) ordered taken,
              length-unresolved_map steps [],
              size,
            ))
            (holds_id-take_ordered order (unresolved_map steps []) ordered step.id taken size
              (unresolved_map-holds_id step steps [] unresolved there))
    ]

-- A new order drops no id, and keeps every resolved step.
pub reorder_keeps :
    (step : Step) (order : Slice String) (steps out : List Step)
    → reorder order steps ≡ done out
    → HasStep step steps
    → (holds_id step.id out ≡ true) × (step_unresolved step ≡ false → HasStep step out)
unfolding reorder
reorder_keeps step none steps out h there =
    let same : steps ≡ out = ground (arith, h) in
    rw (← same) (HasStep-holds_id step steps there, λ resolved. there)
reorder_keeps step (some order) steps out h there =
    elim (Bool-cases (length (unresolved_map steps []) == length order)) [
      | inr wrong ↦ absurd (ground (arith, h, wrong))
      | inl size ↦ elim (Option-cases (take_ordered order (unresolved_map steps []))) [
        | inl invalid ↦ absurd (ground (arith, h, size, invalid))
        | inr (ordered, taken) ↦ elim (Option-cases (place_ordered ordered steps)) [
          | inl short ↦ absurd (ground (arith, h, size, taken, short))
          | inr (placed, fine) ↦
              let same : placed ≡ out = ground (arith, h, size, taken, fine) in
              rw (← same) (
                placed_holds_id step order steps ordered placed (ground (arith, size)) taken fine
                    there,
                λ resolved. HasStep-place_ordered step ordered steps placed fine resolved there,
              )
        ]
      ]
    ]
