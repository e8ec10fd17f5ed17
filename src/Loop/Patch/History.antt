-- ===== src/Loop/Patch/History.antt =====
-- The accepted steps under a patch (applyPlanPatch of internal/loop/plan_patch.go).
use text.Mathlib.Text.{◌==◌ as str_eq}
use grodt.Prelude.{
  true, false, some, List, [], ◌∷◌, String, ◌≡◌, refl, is_nil, inl, inr, ◌⊎◌, arith, Option-cases,
  Bool-cases,
}
use grodt.State.Types.{Step, Plan}
use grodt.State.Plan.Cursor.{step_unresolved, advance_current_step}
use grodt.State.Plan.CursorLaws.{advance_selects}
use grodt.State.Plan.Revise.{owned}
use grodt.Loop.Reconciliation.Proposal.{first_step}
use grodt.Loop.Patch.{
  PlanPatch, Merge, Refusal, Progress, Outcome, done, refuse, has_id, remove_first, remove_all,
  update_all, add_all, patch_steps, update_plan, apply_plan_patch,
}
use grodt.Loop.Patch.Laws.{
  HasStep, holds_id, updates_id, HasStep-remove_all, HasStep-update_all, HasStep-add_all,
}
use grodt.Loop.Patch.Order.{reorder_keeps}

Outcome-cases {ℓ} :
    {A : Type ℓ} (o : Outcome A) → ((a : A) × (o ≡ done a)) ⊎ ((e : Refusal) × (o ≡ refuse e))
Outcome-cases (done a) = inl (a, refl)
Outcome-cases (refuse e) = inr (e, refl)

-- The removal of an unresolved step takes no resolved one.
HasStep-remove_resolved :
    (step old : Step) (id : String) (steps : List Step)
    → first_step id steps ≡ some old
    → step_unresolved old ≡ true
    → step_unresolved step ≡ false
    → HasStep step steps
    → HasStep step (remove_first id steps)
unfolding first_step remove_first
HasStep-remove_resolved step old id [] h gone resolved there = there
HasStep-remove_resolved step old id (x ∷ xs) h gone resolved (inl e) =
    elim (Bool-cases (str_eq x.id id)) [
      | inr kept ↦ rw kept (inl e)
      | inl here ↦ absurd (ground (arith, h, here, e, gone, resolved))
    ]
HasStep-remove_resolved step old id (x ∷ xs) h gone resolved (inr there) =
    elim (Bool-cases (str_eq x.id id)) [
      | inr kept ↦ rw kept (
          inr
            (HasStep-remove_resolved step old id xs (ground (arith, h, kept)) gone resolved there))
      | inl here ↦ rw here there
    ]

remove_all-resolved :
    (step : Step) (ids : List String) (p q : Progress)
    → remove_all ids p ≡ done q
    → step_unresolved step ≡ false
    → HasStep step p.steps
    → HasStep step q.steps
unfolding remove_all
remove_all-resolved step [] p q h resolved there = ground (arith, h, there)
remove_all-resolved step (id ∷ ids) p q h resolved there =
    elim (Option-cases (first_step id p.steps)) [
      | inl missing ↦ absurd (ground (arith, h, missing))
      | inr (old, found) ↦
          remove_all-resolved step ids
            (record { touched = id ∷ p.touched; steps = remove_first id p.steps }) q
            (ground (arith, h, found)) resolved
            (HasStep-remove_resolved step old id p.steps found (ground (arith, h, found)) resolved
              there)
    ]

-- A step that the updates do not name is kept by the patch: its id unless it is removed, and the step
-- itself if it is resolved.
patch_steps_keep :
    (m : Merge) (patch : PlanPatch) (step : Step) (steps out : List Step)
    → patch_steps m patch steps ≡ done out
    → HasStep step steps
    → updates_id m patch.step_updates step.id ≡ false
    → (has_id step.id patch.remove_steps ≡ false → holds_id step.id out ≡ true)
      × (step_unresolved step ≡ false → HasStep step out)
unfolding patch_steps
patch_steps_keep m patch step steps out h there other =
    elim (Outcome-cases (remove_all patch.remove_steps (record { touched = []; steps = steps }))) [
      | inr (e, refused) ↦ absurd (ground (arith, h, refused))
      | inl (removed, r) ↦ elim (Outcome-cases (update_all m patch.step_updates removed)) [
        | inr (e, refused) ↦ absurd (ground (arith, h, r, refused))
        | inl (updated, u) ↦ elim (Outcome-cases (add_all patch.add_steps updated)) [
          | inr (e, refused) ↦ absurd (ground (arith, h, r, u, refused))
          | inl (added, a) ↦
              let later = λ (kept : HasStep step removed.steps).
                reorder_keeps step patch.unresolved_order added.steps out
                  (ground (arith, h, r, u, a))
                  (HasStep-add_all step patch.add_steps updated added a
                    (HasStep-update_all m step patch.step_updates removed updated u other kept)) in
              (
                λ stays.
                    (later (HasStep-remove_all step patch.remove_steps _ removed r stays there)).0,
                λ resolved.
                    (later
                        (remove_all-resolved step patch.remove_steps _ removed r resolved there)).1
                      resolved,
              )
        ]
      ]
    ]

steps-update_plan :
    (m : Merge) (plan next : Plan) → update_plan m "" plan ≡ done next → next.steps ≡ plan.steps
unfolding update_plan
steps-update_plan m plan next h = elim (Bool-cases (is_nil plan.steps)) [
  | inl empty ↦ absurd (ground (arith, h, empty))
  | inr some_steps ↦
      let same : advance_current_step plan ≡ next = ground (arith, h, some_steps) in
      rw (← same) (advance_selects plan).1
]

-- If a patch without updates of the plan's own fields is accepted, a step of the accepted plan that
-- no step update names is still in the plan under its id unless the patch removes that id; and if
-- the step is resolved, it is in the plan as it was, whatever the patch removes, adds and orders.
pub apply_plan_patch_keeps :
    (m : Merge) (old plan : Plan) (patch : PlanPatch) (step : Step)
    → apply_plan_patch m (some old) (some patch) ≡ done plan
    → patch.plan_updates ≡ ""
    → HasStep step (owned old).steps
    → updates_id m patch.step_updates step.id ≡ false
    → (has_id step.id patch.remove_steps ≡ false → holds_id step.id plan.steps ≡ true)
      × (step_unresolved step ≡ false → HasStep step plan.steps)
unfolding apply_plan_patch
apply_plan_patch_keeps m old plan patch step h no_updates there other =
    elim (Outcome-cases (patch_steps m patch (owned old).steps)) [
      | inr (e, refused) ↦ absurd (ground (arith, h, refused))
      | inl (steps, fine) ↦
          let updated : update_plan m patch.plan_updates (record (owned old) { steps = steps })
              ≡ done plan =
            ground (arith, h, fine) in
          let same : plan.steps ≡ steps = steps-update_plan m _ plan (rw no_updates at updated) in
          rw same (patch_steps_keep m patch step (owned old).steps steps fine there other)
    ]
