-- ===== src/State/Plan/Cursor.antt =====
-- The selection of a plan's current step: AdvanceCurrentStep and NormalizeCurrentStep of
-- internal/state/plan.go.
use text.Mathlib.Text.{◌==◌ as str_eq}
use grodt.Prelude.{
  String, Bool, false, not, ◌&&◌, ◌||◌, Option, none, some, List, [], ◌∷◌, any, is_empty,
  if◌then◌else◌,
}
use grodt.State.Types.{Step, Plan}
use grodt.State.Plan.Fields.{is_open}

-- StepUnresolved
abbrev pub step_unresolved : Step → Bool
step_unresolved step = is_open step.status

-- The first unresolved step in the accepted order, "" if there is none.
unfoldable pub first_unresolved : List Step → String
first_unresolved [] = ""
first_unresolved (step ∷ steps) =
    let rest = first_unresolved steps in if step_unresolved step then step.id else rest

-- Some step of the id is unresolved.
abbrev pub selects_open : String → List Step → Bool
selects_open id = any (λ step. str_eq step.id id && step_unresolved step)

-- Some step of the id is resolved.
abbrev pub selects_resolved : String → List Step → Bool
selects_resolved id = any (λ step. str_eq step.id id && not (step_unresolved step))

unfoldable pub advance_current_step : Plan → Plan
unfolding first_unresolved
advance_current_step plan =
    if selects_open plan.current_step plan.steps
    then plan
    else record plan { current_step = first_unresolved plan.steps }

-- A retained selection of a step that has ended moves on.
abbrev pub retained_ended : Plan → Option Plan → Bool
retained_ended plan none = false
retained_ended plan (some previous) =
    str_eq plan.current_step previous.current_step && selects_resolved plan.current_step plan.steps

unfoldable pub normalize_current_step : Plan → Option Plan → Plan
unfolding advance_current_step
normalize_current_step plan previous =
    if is_empty plan.current_step || retained_ended plan previous
    then advance_current_step plan
    else plan
