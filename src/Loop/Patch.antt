-- ===== src/Loop/Patch.antt =====
-- applyPlanPatch of internal/loop/plan_patch.go. The fields of an update are merged by encoding/json:
-- `Merge` says what its calls answer.
pub mod Laws
pub mod Order
pub mod History
use text.Mathlib.Text.{◌==◌ as str_eq}
use grodt.Prelude.{
  ℕ, ◌+◌, String, Bool, true, false, not, ◌&&◌, ◌||◌, Option, none, some, List, [], ◌∷◌, ◌++◌, any,
  length, ltb, ◌==◌, is_nil, is_empty, is_some, if◌then◌else◌,
}
use grodt.State.Types.{Slice, elems, Step, Plan}
use grodt.State.Plan.Cursor.{step_unresolved, selects_open, advance_current_step}
use grodt.State.Plan.Revise.{owned}
use grodt.Loop.Reconciliation.Proposal.{first_step, replace_first}

pub record PlanPatch : Type 0 where
  pub revision : ℕ
  pub add_steps : List Step
  pub step_updates : List String
  pub remove_steps : List String
  pub unresolved_order : Slice String
  pub plan_updates : String

-- `identity.ID` of an update, mergeFields on a step and on a plan, and whether the plan's fields name
-- `current_step`; `none` is an error.
pub record Merge : Type 0 where
  pub identity : String → Option String
  pub merge_step : Step → String → Option Step
  pub merge_plan : Plan → String → Option Plan
  pub names_current : String → Bool

pub data Refusal : Type 0 where
  no_accepted_plan wrong_revision too_many_mutations no_changes repeated_id : Refusal
  unknown_removed terminal_removed undecodable unknown_updated step_exists : Refusal
  incomplete_order invalid_order order_too_short no_steps invalid_current : Refusal

-- The removal at the index of the first step of the id.
unfoldable pub remove_first : String → List Step → List Step
remove_first id [] = []
remove_first id (step ∷ steps) = if str_eq step.id id then steps else step ∷ remove_first id steps

abbrev pub has_id : String → List String → Bool
has_id id ids = any (λ t. str_eq t id) ids

-- The three loops keep the ids that were touched, and give the steps or an error.
pub record Progress : Type 0 where
  pub touched : List String
  pub steps : List Step

pub data Outcome {ℓ} (A : Type ℓ) : Type ℓ where
  done : A → Outcome A
  refuse : Refusal → Outcome A

unfoldable pub remove_all : List String → Progress → Outcome Progress
unfolding first_step remove_first
remove_all [] p = done p
remove_all (id ∷ ids) p =
    if has_id id p.touched then refuse repeated_id else elim (first_step id p.steps) [
      | none ↦ refuse unknown_removed
      | some step ↦
          let rest =
            remove_all ids (record { touched = id ∷ p.touched; steps = remove_first id p.steps }) in
          if step_unresolved step then rest else refuse terminal_removed
    ]

unfoldable pub update_all : Merge → List String → Progress → Outcome Progress
unfolding first_step replace_first
update_all m [] p = done p
update_all m (update ∷ updates) p = elim (m.identity update) [
  | none ↦ refuse undecodable
  | some id ↦ if has_id id p.touched then refuse repeated_id else elim (first_step id p.steps) [
    | none ↦ refuse unknown_updated
    | some step ↦ elim (m.merge_step step update) [
      | none ↦ refuse undecodable
      | some merged ↦
          update_all m updates
            (record { touched = id ∷ p.touched; steps = replace_first id merged p.steps })
    ]
  ]
]

unfoldable pub add_all : List Step → Progress → Outcome Progress
unfolding first_step
add_all [] p = done p
add_all (step ∷ steps) p =
    let rest =
      add_all steps (record { touched = step.id ∷ p.touched; steps = p.steps ++ step ∷ [] }) in
    if has_id step.id p.touched
    then refuse repeated_id
    else if is_some (first_step step.id p.steps)
    then refuse step_exists
    else rest

-- `m[id] = step` and `delete(m, id)` on the map of the unresolved steps.
unfoldable pub put_step : Step → List Step → List Step
put_step new [] = new ∷ []
put_step new (step ∷ steps) =
    if str_eq step.id new.id then new ∷ steps else step ∷ put_step new steps

unfoldable pub unresolved_map : List Step → List Step → List Step
unfolding put_step
unresolved_map [] m = m
unresolved_map (step ∷ steps) m =
    unresolved_map steps (if step_unresolved step then put_step step m else m)

-- The steps in the order of the ids, each taken out of the map.
unfoldable pub take_ordered : List String → List Step → Option (List Step)
unfolding first_step remove_first
take_ordered [] m = some []
take_ordered (id ∷ ids) m = elim (first_step id m) [
  | none ↦ none
  | some step ↦ elim (take_ordered ids (remove_first id m)) [
    | none ↦ none
    | some steps ↦ some (step ∷ steps)
  ]
]

-- The unresolved positions take the ordered steps in turn; `none` is an index out of range.
unfoldable pub place_ordered : List Step → List Step → Option (List Step)
place_ordered ordered [] = some []
place_ordered [] (step ∷ steps) =
    if step_unresolved step
    then none
    else elim (place_ordered [] steps) [ none ↦ none | some rest ↦ some (step ∷ rest) ]
place_ordered (o ∷ ordered) (step ∷ steps) =
    if step_unresolved step
    then (elim (place_ordered ordered steps) [ none ↦ none | some rest ↦ some (o ∷ rest) ])
    else (elim (place_ordered (o ∷ ordered) steps) [ none ↦ none | some rest ↦ some (step ∷ rest) ])

unfoldable pub reorder : Slice String → List Step → Outcome (List Step)
unfolding unresolved_map take_ordered place_ordered
reorder none steps = done steps
reorder (some order) steps =
    let unresolved = unresolved_map steps [] in
    if not (length unresolved == length order)
    then refuse incomplete_order
    else elim (take_ordered order unresolved) [
      | none ↦ refuse invalid_order
      | some ordered ↦ elim (place_ordered ordered steps) [
        | none ↦ refuse order_too_short
        | some placed ↦ done placed
      ]
    ]

-- The steps of the plan after the patch's removals, updates, additions and order.
unfoldable pub patch_steps : Merge → PlanPatch → List Step → Outcome (List Step)
unfolding remove_all update_all add_all reorder
patch_steps m patch steps =
    elim (remove_all patch.remove_steps (record { touched = []; steps = steps })) [
      | refuse e ↦ refuse e
      | done removed ↦ elim (update_all m patch.step_updates removed) [
        | refuse e ↦ refuse e
        | done updated ↦ elim (add_all patch.add_steps updated) [
          | refuse e ↦ refuse e
          | done added ↦ reorder patch.unresolved_order added.steps
        ]
      ]
    ]

-- The last tests, and the selection.
abbrev pub select_step : Bool → Plan → Outcome Plan
select_step explicit plan =
    if is_nil plan.steps
    then refuse no_steps
    else if not explicit
    then done (advance_current_step plan)
    else if selects_open plan.current_step plan.steps
    then done plan
    else refuse invalid_current

unfoldable pub update_plan : Merge → String → Plan → Outcome Plan
update_plan m updates plan =
    if is_empty updates then select_step false plan else elim (m.merge_plan plan updates) [
      | none ↦ refuse undecodable
      | some merged ↦ select_step (m.names_current updates) merged
    ]

abbrev pub mutations : PlanPatch → ℕ
mutations patch = length patch.add_steps + length patch.step_updates + length patch.remove_steps

unfoldable pub apply_plan_patch : Merge → Option Plan → Option PlanPatch → Outcome Plan
unfolding patch_steps update_plan
apply_plan_patch m none patch = refuse no_accepted_plan
apply_plan_patch m (some old) none = refuse no_accepted_plan
apply_plan_patch m (some old) (some patch) =
    if not (patch.revision == old.revision)
    then refuse wrong_revision
    else if ltb 8 (mutations patch)
    then refuse too_many_mutations
    else if mutations patch == 0
        && not (is_some patch.unresolved_order)
        && is_empty patch.plan_updates
    then refuse no_changes
    else let plan = owned old in
      elim (patch_steps m patch plan.steps) [
        | refuse e ↦ refuse e
        | done steps ↦ update_plan m patch.plan_updates (record plan { steps = steps })
      ]
