-- ===== src/Loop/Intent/Laws.antt =====
-- planIntentChanges of internal/loop/plan_intent.go on proposals that it reports nothing about.
use text.Mathlib.Text.{◌==◌ as str_eq}
use grodt.Prelude.{
  String, Bool, not, ◌&&◌, ◌||◌, true, false, some, List, [], ◌∷◌, ◌++◌, ◌≡◌, refl, arith, is_empty,
  Option-cases, ◌⊎◌, inl, inr,
}
use grodt.State.Types.{Step, Plan}
use grodt.State.Plan.Fields.{is_settled}
use grodt.State.Plan.Steps.{step_at}
use grodt.Loop.Intent.{keeps_intent, if_changed, changed_steps, plan_intent_changes}

-- An open step of the old plan is proposed with its intent.
abbrev pub IntentKept : List Step → List Step → Type 0
IntentKept next [] = Unit
IntentKept next (step ∷ steps) =
    (is_settled step.status ≡ false
      → (candidate : Step) × (step_at step.id next ≡ some candidate)
        × (keeps_intent step candidate ≡ true))
    × IntentKept next steps

changed_steps-IntentKept :
    (next steps : List Step) → changed_steps true next steps ≡ [] → IntentKept next steps
unfolding changed_steps
changed_steps-IntentKept next [] h = tt
changed_steps-IntentKept next (step ∷ steps) h = (
  λ unsettled. elim (Option-cases (step_at step.id next)) [
    | inl missing ↦ absurd (ground (arith, missing, unsettled))
    | inr (candidate, found) ↦ (candidate, found, ground (arith, found, unsettled, h))
  ],
  changed_steps-IntentKept next steps (ground (arith, h)),
)

-- The four parts of the list of changes, all of them empty.
all_unchanged :
    (steps : List String) (order focus plan : Bool)
    → steps
        ++ (if_changed order "step_order"
            ++ (if_changed focus "unresolved_focus" ++ if_changed plan "plan"))
      ≡ []
    → (steps ≡ []) × (focus ≡ false) × (plan ≡ false)
all_unchanged (x ∷ steps) order focus plan h = absurd (ground (arith, h))
all_unchanged [] true focus plan h = absurd (ground (arith, h))
all_unchanged [] false true plan h = absurd (ground (arith, h))
all_unchanged [] false false true h = absurd (ground (arith, h))
all_unchanged [] false false false h = (refl, refl, refl)

-- If planIntentChanges reports nothing between an accepted plan and a proposal, every step of the
-- accepted plan that is not settled is proposed under its id with the same description and criteria
-- and is not newly failed or invalidated, an unresolved focus is kept, and so are the plan's
-- description and criteria.
pub intent_kept :
    (old proposed : Plan)
    → plan_intent_changes (some old) (some proposed) "accepted_plan" ≡ []
    → IntentKept proposed.steps old.steps
      × ((is_empty old.unresolved_focus ≡ true)
          ⊎ (str_eq old.unresolved_focus proposed.unresolved_focus ≡ true))
      × (str_eq old.description proposed.description ≡ true)
      × (str_eq old.completion_criteria proposed.completion_criteria ≡ true)
unfolding plan_intent_changes
intent_kept old proposed h =
    let (steps, focus, plan) =
      all_unchanged (changed_steps true proposed.steps old.steps) _
        (not (is_empty old.unresolved_focus)
          && not (str_eq old.unresolved_focus proposed.unresolved_focus))
        (not (str_eq old.description proposed.description)
          || not (str_eq old.completion_criteria proposed.completion_criteria))
        h in
    (
      changed_steps-IntentKept proposed.steps old.steps steps,
      ground (arith, focus),
      ground (arith, plan),
      ground (arith, plan),
    )
