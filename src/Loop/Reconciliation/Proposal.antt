-- ===== src/Loop/Reconciliation/Proposal.antt =====
-- reconciliationPlan of internal/loop/reconciliation.go: the plan that a decision proposes, checked
-- against the accepted one and the evidence that was shown. `decode` is the decoder of partitions.
pub mod Laws
use text.Mathlib.Text.{◌==◌ as str_eq}
use grodt.Prelude.{
  ℕ, String, Bool, true, false, not, ◌&&◌, ◌||◌, Option, none, some, List, [], ◌∷◌, ◌++◌, any, all,
  map, length, ltb, ◌==◌, is_nil, is_empty, is_some, if◌then◌else◌,
}
use grodt.State.Types.{elems, EvidenceReference, PlanStatus, Step, Plan, Task}
use grodt.State.Store.{Store}
use grodt.State.Tasks.{active}
use grodt.State.Evidence.{Json, codes, resolve_evidence}
use grodt.State.Plan.Fields.{is_settled}
use grodt.State.Plan.Equality.{same_status, same_reference, same_step, same_plan}
use grodt.State.Plan.Cursor.{selects_resolved, advance_current_step}
use grodt.State.Plan.Check.{check_plan, steps_of}
use grodt.State.Plan.Revise.{owned_step}
use grodt.Loop.Reconciliation.{
  ReconciliationDecision, EvidenceValue, ReconciliationInput, Problem, task_changed, invalid_action,
  too_many_updates, no_progress_with_changes, no_updates, duplicate_step, omitted_step,
  intent_mismatch, unsupported_reference, unknown_step, plan_refused,
}
use grodt.Loop.Reconciliation.Accounting.{validate_result_accounting}

-- `(nil, nil)`, `(&plan, nil)` and `(nil, err)`.
pub data Proposal : Type 0 where
  unchanged : Proposal
  changed : Plan → Proposal
  refused : Problem → Proposal

-- The first step of the id, as the loop over the indexes finds it.
unfoldable pub first_step : String → List Step → Option Step
first_step id [] = none
first_step id (step ∷ steps) = if str_eq step.id id then some step else first_step id steps

-- `plan.Steps[index] = step`
unfoldable pub replace_first : String → Step → List Step → List Step
replace_first id new [] = []
replace_first id new (step ∷ steps) =
    if str_eq step.id id then new ∷ steps else step ∷ replace_first id new steps

-- The references whose current values were shown.
unfoldable pub allowed_references : List EvidenceValue → List EvidenceReference
allowed_references [] = []
allowed_references (e ∷ values) =
    let rest = allowed_references values in
    if str_eq e.freshness "current" && not (is_empty e.value) then e.reference ∷ rest else rest

-- strings.HasPrefix
abbrev pub has_prefix : List ℕ → List ℕ → Bool
has_prefix [] text = true
has_prefix (c ∷ cs) [] = false
has_prefix (c ∷ cs) (d ∷ ds) = c == d && has_prefix cs ds

abbrev pub is_inside : EvidenceReference → EvidenceReference → Bool
is_inside ref parent =
    str_eq parent.partition ref.partition
    && parent.version == ref.version
    && has_prefix (codes parent.path ++ (b'/' ∷ [])) (codes ref.path)

-- A reference is shown, below one that is and resolvable, or kept from the step before.
abbrev pub is_supported :
    (String → Option Json) → Store → List EvidenceReference → Option Step → EvidenceReference → Bool
is_supported decode s allowed old ref =
    any (same_reference ref) allowed
    || (any (is_inside ref) allowed && is_some (resolve_evidence decode s ref))
    || (elim old [
      | none ↦ false
      | some prev ↦ any (λ r. same_reference r ref) (elems prev.evidence)
    ])

abbrev pub same_paths : List EvidenceReference → List EvidenceReference → Bool
same_paths [] rest = true
same_paths (ref ∷ refs) [] = false
same_paths (ref ∷ refs) (old ∷ rest) =
    str_eq ref.partition old.partition && str_eq ref.path old.path && same_paths refs rest

-- A replay of a settled step that differs in the versions of its evidence only is the old step.
abbrev pub replayed : Step → Step → Step
replayed old step =
    if is_settled old.status
      && same_status step.status old.status
      && length (elems step.evidence) == length (elems old.evidence)
      && same_paths (elems step.evidence) (elems old.evidence)
      && same_step (record step { evidence = old.evidence }) old
    then old
    else step

abbrev pub is_shown : ReconciliationInput → String → Bool
is_shown input id = any (λ (shown : Step). str_eq shown.id id) (steps_of input.plan)

-- The tests of the loop on the step that is found, and on the evidence.
unfoldable pub refuse_update :
    (String → Option Json) → Store → ReconciliationInput → Option Step → Step → Option Problem
unfolding allowed_references
refuse_update decode s input none step =
    if all (is_supported decode s (allowed_references input.accepted_evidence) none)
      (elems step.evidence)
    then some unknown_step
    else some unsupported_reference
refuse_update decode s input (some old) step =
    if ltb 0 input.omitted_plan_steps && not (is_shown input step.id)
    then some omitted_step
    else if not (
        str_eq step.description old.description
        && str_eq step.completion_criteria old.completion_criteria)
    then some intent_mismatch
    else if all (is_supported decode s (allowed_references input.accepted_evidence) (some old))
        (elems step.evidence)
    then none
    else some unsupported_reference

-- The steps with the updates, or the first problem; `seen` are the updates before.
unfoldable pub apply_updates :
    (String → Option Json)
    → Store
    → ReconciliationInput
    → List Step
    → List Step
    → List Step
    → Option Problem × List Step
unfolding first_step replace_first refuse_update
apply_updates decode s input seen [] steps = (none, steps)
apply_updates decode s input seen (update ∷ updates) steps =
    let step = owned_step update in
    if any (λ (o : Step). str_eq o.id step.id) seen
    then (some duplicate_step, steps)
    else elim (first_step step.id steps) [
      | none ↦ (refuse_update decode s input none step, steps)
      | some old ↦ elim (refuse_update decode s input (some old) step) [
        | some e ↦ (some e, steps)
        | none ↦
            apply_updates decode s input (update ∷ seen) updates
              (replace_first step.id (replayed old step) steps)
      ]
    ]

-- The plan before the updates.
abbrev pub retained_plan : Task → Plan
retained_plan t = elim t.plan [
  | some plan ↦ plan
  | none ↦ record {
    unresolved_focus = "";
    revision = 0;
    description = t.objective;
    completion_criteria = "";
    status = PlanStatus.active;
    outcome = "";
    evidence = none;
    information_gaps = none;
    steps = [];
    current_step = "";
  }
]

-- The decision's focus and current step, and the selection of a step that is open.
abbrev pub with_selection : ReconciliationDecision → Plan → Plan
with_selection d plan =
    let focus : String = elim d.unresolved_focus [
      | none ↦ plan.unresolved_focus
      | some text ↦ text
    ] in
    let current = if is_empty d.current_step then plan.current_step else d.current_step in
    let current' = if selects_resolved current plan.steps then "" else current in
    advance_current_step (record plan { unresolved_focus = focus; current_step = current' })

abbrev pub is_same_as : Option Plan → Plan → Bool
is_same_as none plan = false
is_same_as (some old) plan = same_plan plan old

abbrev pub propose : (String → Option Json) → Store → Task → Plan → Proposal
propose decode s t plan =
    if is_same_as t.plan plan
    then unchanged
    else elim (check_plan decode s plan) [ none ↦ changed plan | some e ↦ refused plan_refused ]

unfoldable pub progress_plan :
    (String → Option Json) → Store → ReconciliationInput → ReconciliationDecision → Task → Proposal
unfolding apply_updates
progress_plan decode s input d t =
    if is_nil d.updates && not (is_some d.unresolved_focus) && is_empty d.current_step
    then refused no_updates
    else let plan = retained_plan t in
      let (problem, steps) = apply_updates decode s input [] d.updates plan.steps in
      elim problem [
        | some e ↦ refused e
        | none ↦ propose decode s t (with_selection d (record plan { steps = steps }))
      ]

abbrev pub no_progress_plan : ReconciliationDecision → Proposal
no_progress_plan d =
    if not (is_nil d.updates) || not (is_empty d.current_step) || is_some d.unresolved_focus
    then refused no_progress_with_changes
    else unchanged

-- reconciliationPlan on a decision that has been decoded.
unfoldable pub reconciliation_plan :
    (String → Option Json) → Store → ReconciliationInput → ReconciliationDecision → Proposal
unfolding progress_plan
reconciliation_plan decode s input d = elim (active s) [
  | none ↦ refused task_changed
  | some t ↦
      if not (t.id == input.task_id)
      then refused task_changed
      else if not (str_eq d.action "no_progress") && not (str_eq d.action "progress")
      then refused invalid_action
      else if ltb 8 (length d.updates)
      then refused too_many_updates
      else elim (validate_result_accounting input d) [
        | some e ↦ refused e
        | none ↦
            if str_eq d.action "no_progress"
            then no_progress_plan d
            else progress_plan decode s input d t
      ]
]
