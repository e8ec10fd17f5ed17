-- ===== src/Loop/Reconciliation/Proposal/Laws.antt =====
-- The plans that reconciliationPlan of internal/loop/reconciliation.go proposes.
use text.Mathlib.Text.{◌==◌ as str_eq}
use grodt.Prelude.{
  String, false, not, Option, none, some, List, [], ◌∷◌, any, map, ◌≡◌, refl, sym, ap, ◌∙◌, ◌&&◌,
  is_nil, is_some, is_empty, arith, inl, inr, Option-cases, Bool-cases,
}
use grodt.State.Types.{Step, Plan, Task}
use grodt.State.Store.{Store}
use grodt.State.Tasks.{active}
use grodt.State.Evidence.{Json}
use grodt.State.Plan.EqualityLaws.{str_eq_sound}
use grodt.State.Plan.CursorLaws.{advance_selects}
use grodt.State.Plan.Check.{check_plan, steps_of}
use grodt.State.Plan.Revise.{owned_step}
use grodt.Loop.Reconciliation.{ReconciliationDecision, ReconciliationInput, Problem}
use grodt.Loop.Reconciliation.Accounting.{validate_result_accounting}
use grodt.Loop.Reconciliation.Proposal.{
  changed, first_step, replace_first, replayed, refuse_update, apply_updates, with_selection,
  propose, retained_plan, progress_plan, reconciliation_plan,
}

-- What a reconciliation may not touch of a step.
abbrev pub intent_of : Step → String × (String × String)
intent_of step = (step.id, (step.description, step.completion_criteria))

-- The same intents in the same order.
abbrev pub SameIntents : List Step → List Step → Type 0
SameIntents old new = map intent_of new ≡ map intent_of old

replace_first-SameIntents :
    (id : String) (old new : Step) (steps : List Step)
    → first_step id steps ≡ some old
    → intent_of new ≡ intent_of old
    → SameIntents steps (replace_first id new steps)
unfolding first_step replace_first
replace_first-SameIntents id old new [] h e = refl
replace_first-SameIntents id old new (step ∷ steps) h e = elim (Bool-cases (str_eq step.id id)) [
  | inl here ↦
      let found : step ≡ old = ground (arith, h, here) in
      rw here (
        ap (λ (key : String × (String × String)). key ∷ map intent_of steps)
          (e ∙ sym (ap intent_of found)))
  | inr past ↦ rw past (
      ap (λ (keys : List (String × (String × String))). intent_of step ∷ keys)
        (replace_first-SameIntents id old new steps (ground (arith, h, past)) e))
]

first_step-id :
    (id : String) (old : Step) (steps : List Step) → first_step id steps ≡ some old → old.id ≡ id
unfolding first_step
first_step-id id old [] h = cc
first_step-id id old (step ∷ steps) h = elim (Bool-cases (str_eq step.id id)) [
  | inl here ↦
      let found : step ≡ old = ground (arith, h, here) in
      ap (λ (s : Step). s.id) (sym found) ∙ str_eq_sound step.id id here
  | inr past ↦ first_step-id id old steps (ground (arith, h, past))
]

refuse_update-intent :
    (decode : String → Option Json) (s : Store) (input : ReconciliationInput) (old step : Step)
    → refuse_update decode s input (some old) step ≡ none
    → old.id ≡ step.id
    → intent_of (replayed old step) ≡ intent_of old
unfolding refuse_update
refuse_update-intent decode s input old step h id = ground (
  arith,
  h,
  id,
  str_eq_sound step.description old.description,
  str_eq_sound step.completion_criteria old.completion_criteria,
)

first_step-replace_other :
    (id other : String) (new : Step) (steps : List Step)
    → str_eq id other ≡ false
    → new.id ≡ id
    → first_step other (replace_first id new steps) ≡ first_step other steps
unfolding first_step replace_first
first_step-replace_other id other new [] h e = refl
first_step-replace_other id other new (step ∷ steps) h e = elim (Bool-cases (str_eq step.id id)) [
  | inl here ↦
      let same : step.id ≡ id = str_eq_sound step.id id here in ground (arith, here, same, e, h)
  | inr past ↦ ground (arith, past, first_step-replace_other id other new steps h e)
]

module _ (decode : String → Option Json) (s : Store) (input : ReconciliationInput) where
  apply_updates-SameIntents :
      (seen updates steps steps' : List Step)
      → apply_updates decode s input seen updates steps ≡ (none, steps')
      → SameIntents steps steps'
  unfolding apply_updates
  apply_updates-SameIntents seen [] steps steps' h =
      ap (map intent_of) (sym (ap (λ (r : Option Problem × List Step). r.1) h))
  apply_updates-SameIntents seen (update ∷ updates) steps steps' h =
      elim (Bool-cases (any (λ (o : Step). str_eq o.id (owned_step update).id) seen)) [
        | inl repeated ↦ absurd (ground (arith, h, repeated))
        | inr new ↦ elim (Option-cases (first_step (owned_step update).id steps)) [
          | inl missing ↦ absurd (ground (arith, h, new, missing))
          | inr (old, found) ↦
              elim (Option-cases (refuse_update decode s input (some old) (owned_step update))) [
                | inr (e, refused) ↦ absurd (ground (arith, h, new, found, refused))
                | inl passed ↦
                    let id = first_step-id (owned_step update).id old steps found in
                    apply_updates-SameIntents (update ∷ seen) updates
                      (replace_first (owned_step update).id (replayed old (owned_step update))
                        steps)
                      steps' (ground (arith, h, new, found, passed))
                    ∙ replace_first-SameIntents (owned_step update).id old _ steps found
                        (refuse_update-intent decode s input old (owned_step update) passed id)
              ]
        ]
      ]

  apply_updates-others :
      (seen updates steps steps' : List Step) (id : String)
      → apply_updates decode s input seen updates steps ≡ (none, steps')
      → any (λ (u : Step). str_eq u.id id) updates ≡ false
      → first_step id steps' ≡ first_step id steps
  unfolding apply_updates
  apply_updates-others seen [] steps steps' id h other =
      ap (first_step id) (sym (ap (λ (r : Option Problem × List Step). r.1) h))
  apply_updates-others seen (update ∷ updates) steps steps' id h other =
      elim (Bool-cases (any (λ (o : Step). str_eq o.id (owned_step update).id) seen)) [
        | inl repeated ↦ absurd (ground (arith, h, repeated))
        | inr new ↦ elim (Option-cases (first_step (owned_step update).id steps)) [
          | inl missing ↦ absurd (ground (arith, h, new, missing))
          | inr (old, found) ↦
              elim (Option-cases (refuse_update decode s input (some old) (owned_step update))) [
                | inr (e, refused) ↦ absurd (ground (arith, h, new, found, refused))
                | inl passed ↦
                    let at = first_step-id (owned_step update).id old steps found in
                    let intent =
                      refuse_update-intent decode s input old (owned_step update) passed at in
                    apply_updates-others (update ∷ seen) updates
                      (replace_first (owned_step update).id (replayed old (owned_step update))
                        steps)
                      steps' id (ground (arith, h, new, found, passed)) (ground (arith, other))
                    ∙ first_step-replace_other (owned_step update).id id
                        (replayed old (owned_step update)) steps (ground (arith, other))
                        (ap (λ (key : String × (String × String)). key.0) intent ∙ at)
              ]
        ]
      ]

-- What a proposed plan keeps of the accepted one.
pub record KeepsIntent (updates : List Step) (old new : List Step) : Type 0 where
  pub intents : SameIntents old new
  pub others :
      (id : String)
      → any (λ (u : Step). str_eq u.id id) updates ≡ false
      → first_step id new ≡ first_step id old

steps-with_selection :
    (d : ReconciliationDecision) (plan : Plan) → (with_selection d plan).steps ≡ plan.steps
steps-with_selection d plan = (advance_selects _).1

steps-retained_plan : (t : Task) → (retained_plan t).steps ≡ steps_of t.plan
steps-retained_plan t = elim (Option-cases t.plan) [
  | inl missing ↦ ground (arith, missing)
  | inr (plan, found) ↦ ground (arith, found)
]

propose-changed :
    (decode : String → Option Json) (s : Store) (t : Task) (next plan : Plan)
    → propose decode s t next ≡ changed plan
    → (next ≡ plan) × (check_plan decode s next ≡ none)
propose-changed decode s t next plan h = elim (Option-cases (check_plan decode s next)) [
  | inl accepted ↦ (ground (arith, h, accepted), accepted)
  | inr (e, refused) ↦ absurd (ground (arith, h, refused))
]

progress_plan-KeepsIntent :
    (decode : String → Option Json) (s : Store) (input : ReconciliationInput)
    (d : ReconciliationDecision) (t : Task) (plan : Plan)
    → progress_plan decode s input d t ≡ changed plan
    → KeepsIntent d.updates (steps_of t.plan) plan.steps × (check_plan decode s plan ≡ none)
unfolding progress_plan
progress_plan-KeepsIntent decode s input d t plan h =
    elim (Bool-cases
      (is_nil d.updates && not (is_some d.unresolved_focus) && is_empty d.current_step)) [
        | inl idle ↦ absurd (ground (arith, h, idle))
        | inr busy ↦
            let out = apply_updates decode s input [] d.updates (retained_plan t).steps in
            elim (Option-cases out.0) [
              | inr (e, failed) ↦ absurd (ground (arith, h, busy, failed))
              | inl fine ↦
                  let next = with_selection d (record (retained_plan t) { steps = out.1 }) in
                  let (same, checked) =
                    propose-changed decode s t next plan (ground (arith, h, busy, fine)) in
                  let steps : plan.steps ≡ out.1 =
                    ap (λ (p : Plan). p.steps) (sym same) ∙ steps-with_selection d _ in
                  let done : out ≡ (none, out.1) = ground (arith, fine) in
                  (
                    record {
                      intents =
                          rw (steps, ← steps-retained_plan t)
                            (apply_updates-SameIntents decode s input [] d.updates _ out.1 done);
                      others = λ id other.
                          rw (steps, ← steps-retained_plan t)
                            (apply_updates-others decode s input [] d.updates _ out.1 id done
                              other);
                    },
                    rw (← same) checked,
                  )
            ]
      ]

-- A plan that reconciliationPlan proposes has the accepted steps in their order under the same ids,
-- descriptions and completion criteria, with every step that no update names as it was, and
-- CheckPlan accepts it for the active task.
pub reconciliation_plan-KeepsIntent :
    (decode : String → Option Json) (s : Store) (input : ReconciliationInput)
    (d : ReconciliationDecision) (plan : Plan)
    → reconciliation_plan decode s input d ≡ changed plan
    → (t : Task) × (active s ≡ some t)
      × KeepsIntent d.updates (steps_of t.plan) plan.steps
      × (check_plan decode s plan ≡ none)
unfolding reconciliation_plan
reconciliation_plan-KeepsIntent decode s input d plan h = elim (Option-cases (active s)) [
  | inl missing ↦ absurd (ground (arith, h, missing))
  | inr (t, found) ↦ elim (Option-cases (validate_result_accounting input d)) [
    | inr (e, refused) ↦ absurd (ground (arith, h, found, refused))
    | inl passed ↦
        let (kept, checked) =
          progress_plan-KeepsIntent decode s input d t plan (ground (arith, h, found, passed)) in
        (t, found, kept, checked)
  ]
]
