-- ===== src/State/Plan/CursorLaws.antt =====
-- The current step after AdvanceCurrentStep and NormalizeCurrentStep (internal/state/plan.go).
use text.Mathlib.TextPositions.{eq_refl}
use grodt.Prelude.{String, true, inl, inr, List, [], ◌∷◌, any, ◌≡◌, arith, Bool-cases}
use grodt.State.Types.{Step, Plan}
use grodt.State.Plan.Cursor.{step_unresolved, first_unresolved, selects_open, advance_current_step}

first_unresolved_selects :
    (steps : List Step)
    → any step_unresolved steps ≡ true
    → selects_open (first_unresolved steps) steps ≡ true
unfolding first_unresolved
first_unresolved_selects [] h = cc
first_unresolved_selects (step ∷ steps) h =
    ground (arith, first_unresolved_selects steps, eq_refl step.id)

selects_open-any :
    (id : String) (steps : List Step)
    → selects_open id steps ≡ true
    → any step_unresolved steps ≡ true
selects_open-any id [] h = cc
selects_open-any id (step ∷ steps) h = ground (arith, selects_open-any id steps)

-- After AdvanceCurrentStep the selection is an unresolved step of the plan exactly when the plan
-- has one, and the rest of the plan is unchanged.
pub advance_selects :
    (plan : Plan)
    → (selects_open (advance_current_step plan).current_step plan.steps
        ≡ any step_unresolved plan.steps)
      × ((advance_current_step plan).steps ≡ plan.steps)
      × (record (advance_current_step plan) { current_step = plan.current_step } ≡ plan)
unfolding advance_current_step
advance_selects plan = elim (Bool-cases (selects_open plan.current_step plan.steps)) [
  | inl selected ↦ (
    ground (arith, selected, selects_open-any plan.current_step plan.steps),
    ground arith,
    ground arith,
  )
  | inr not_selected ↦ elim (Bool-cases (any step_unresolved plan.steps)) [
    | inl some_open ↦
        (ground (arith, first_unresolved_selects plan.steps some_open), ground arith, ground arith)
    | inr none_open ↦ (
      ground (
        arith,
        not_selected,
        none_open,
        selects_open-any (first_unresolved plan.steps) plan.steps,
      ),
      ground arith,
      ground arith,
    )
  ]
]
