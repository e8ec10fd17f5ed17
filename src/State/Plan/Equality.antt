-- ===== src/State/Plan/Equality.antt =====
-- `reflect.DeepEqual` on the plan types of internal/state/plan.go.
use text.Mathlib.Text.{◌==◌ as str_eq}
use grodt.Prelude.{Bool, true, false, ◌&&◌, none, some, List, [], ◌∷◌, ◌==◌}
use grodt.State.Types.{Slice, PlanStatus, EvidenceReference, Step, Plan}

abbrev pub same_list {ℓ} : {A : Type ℓ} → (A → A → Bool) → List A → List A → Bool
same_list eq [] [] = true
same_list eq [] (y ∷ ys) = false
same_list eq (x ∷ xs) [] = false
same_list eq (x ∷ xs) (y ∷ ys) = eq x y && same_list eq xs ys

-- A nil slice is not deeply equal to an empty one.
abbrev pub same_slice : {A : Type 0} → (A → A → Bool) → Slice A → Slice A → Bool
same_slice eq none none = true
same_slice eq none (some ys) = false
same_slice eq (some xs) none = false
same_slice eq (some xs) (some ys) = same_list eq xs ys

abbrev pub same_status : PlanStatus → PlanStatus → Bool
same_status PlanStatus.pending PlanStatus.pending = true
same_status PlanStatus.active PlanStatus.active = true
same_status PlanStatus.partial PlanStatus.partial = true
same_status PlanStatus.satisfied PlanStatus.satisfied = true
same_status PlanStatus.invalidated PlanStatus.invalidated = true
same_status PlanStatus.failed PlanStatus.failed = true
same_status (PlanStatus.other a) (PlanStatus.other b) = str_eq a b
same_status _ _ = false

unfoldable pub same_reference : EvidenceReference → EvidenceReference → Bool
same_reference a b =
    str_eq a.partition b.partition && a.version == b.version && str_eq a.path b.path

unfoldable pub same_step : Step → Step → Bool
same_step a b =
    str_eq a.id b.id
    && str_eq a.description b.description
    && str_eq a.completion_criteria b.completion_criteria
    && same_status a.status b.status
    && str_eq a.outcome b.outcome
    && same_slice same_reference a.evidence b.evidence
    && same_slice str_eq a.information_gaps b.information_gaps

unfoldable pub same_plan : Plan → Plan → Bool
same_plan a b =
    str_eq a.unresolved_focus b.unresolved_focus
    && a.revision == b.revision
    && str_eq a.description b.description
    && str_eq a.completion_criteria b.completion_criteria
    && same_status a.status b.status
    && str_eq a.outcome b.outcome
    && same_slice same_reference a.evidence b.evidence
    && same_slice str_eq a.information_gaps b.information_gaps
    && same_list same_step a.steps b.steps
    && str_eq a.current_step b.current_step
