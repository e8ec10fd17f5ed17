-- ===== src/State/Plan/History.antt =====
-- The settled steps of a plan under CheckPlan and RevisePlan (internal/state/plan.go).
use text.Mathlib.Text.{◌==◌ as str_eq}
use text.Mathlib.TextEquality.{eq_iff}
use mathlib.Core.Path.{subst}
use grodt.Prelude.{
  String, true, false, not, ◌&&◌, ◌⊎◌, inl, inr, Option, none, some, List, [], ◌∷◌, any, map, ◌≡◌,
  sym, refl, ap, ◌∙◌, arith, is_some, Bool-cases, Option-cases,
}
use grodt.State.Types.{Slice, elems, PlanStatus, Step, Plan}
use grodt.State.Store.{Store}
use grodt.State.Evidence.{Json}
use grodt.State.Plan.Fields.{is_settled}
use grodt.State.Plan.EqualityLaws.{same_status_sound, same_step_sound}
use grodt.State.Plan.Steps.{step_at, keeps_settled, check_step, check_steps}
use grodt.State.Plan.Check.{check_result, check_against, steps_of}
use grodt.State.Plan.Revise.{owned_slice, owned_step}

-- What stays of a settled step: all but its status, which may only become `invalidated`.
pub record Keeps (prev step : Step) : Type 0 where
  pub id : step.id ≡ prev.id
  pub description : step.description ≡ prev.description
  pub completion_criteria : step.completion_criteria ≡ prev.completion_criteria
  pub outcome : step.outcome ≡ prev.outcome
  pub evidence : elems step.evidence ≡ elems prev.evidence
  pub information_gaps : elems step.information_gaps ≡ elems prev.information_gaps
  pub status : (step.status ≡ prev.status) ⊎ (step.status ≡ PlanStatus.invalidated)

-- Every settled step of `old` is in `new`, as `Keeps` says.
abbrev pub KeepsHistory : List Step → List Step → Type 0
KeepsHistory old new =
    (id : String) (prev : Step)
    → step_at id old ≡ some prev
    → is_settled prev.status ≡ true
    → (step : Step) × (step_at id new ≡ some step) × Keeps prev step

abbrev All : (Step → Type 0) → List Step → Type 0
All P [] = Unit
All P (x ∷ xs) = P x × All P xs

step_at-cons :
    (id : String) (x : Step) (xs : List Step) (step : Step)
    → step_at id (x ∷ xs) ≡ some step
    → ((x ≡ step) × (str_eq x.id id ≡ true)) ⊎ (step_at id xs ≡ some step)
unfolding step_at
step_at-cons id x xs step e = ground arith

step_at-All :
    (P : Step → Type 0) (id : String) (steps : List Step) (step : Step)
    → All P steps
    → step_at id steps ≡ some step
    → P step × (step.id ≡ id)
step_at-All P id [] step h e = absurd (unfold step_at in cc)
step_at-All P id (x ∷ xs) step h e = elim (step_at-cons id x xs step e) [
  | inl (same, name) ↦
      (subst P same h.0, ap (λ (y : Step). y.id) (sym same) ∙ (eq_iff x.id id).0 name)
  | inr rest ↦ step_at-All P id xs step h.1 rest
]

step_at-any :
    (id : String) (steps : List Step)
    → any (λ o. str_eq o.id id) steps ≡ true
    → is_some (step_at id steps) ≡ true
unfolding step_at
step_at-any id [] h = cc
step_at-any id (x ∷ xs) h = ground (arith, step_at-any id xs)

-- A step that the loop accepts keeps the settled step of its id.
abbrev KeptBy : List Step → Step → Type 0
KeptBy old step =
    (prev : Step)
    → step_at step.id old ≡ some prev
    → is_settled prev.status ≡ true
    → keeps_settled prev step ≡ true

check_step-KeptBy :
    (decode : String → Option Json) (s : Store) (old seen : List Step) (step : Step)
    → check_step decode s old seen step ≡ none
    → KeptBy old step
unfolding check_step
check_step-KeptBy decode s old seen step h prev found settled = ground (arith, found, settled)

check_steps-KeptBy :
    (decode : String → Option Json) (s : Store) (old seen steps : List Step)
    → check_steps decode s old seen steps ≡ none
    → All (KeptBy old) steps
unfolding check_steps
check_steps-KeptBy decode s old seen [] h = tt
check_steps-KeptBy decode s old seen (step ∷ steps) h =
    elim (Option-cases (check_step decode s old seen step)) [
      | inl passed ↦ (
        check_step-KeptBy decode s old seen step passed,
        check_steps-KeptBy decode s old (step ∷ seen) steps (ground (arith, passed)),
      )
      | inr (e, refused) ↦ absurd (ground (arith, refused))
    ]

-- A settled step that is not removed is in the new list.
not_removed :
    (old all steps : List Step) (id : String) (prev : Step)
    → any
        (λ step.
          (elim (step_at step.id all) [ none ↦ false | some last ↦ is_settled last.status ])
          && not (any (λ o. str_eq o.id step.id) steps))
        old
      ≡ false
    → step_at id all ≡ some prev
    → is_settled prev.status ≡ true
    → is_some (step_at id old) ≡ true
    → any (λ o. str_eq o.id id) steps ≡ true
unfolding step_at
not_removed [] all steps id prev h found settled there = cc
not_removed (x ∷ xs) all steps id prev h found settled there = elim (Bool-cases (str_eq x.id id)) [
  | inl same ↦
      let name : x.id ≡ id = (eq_iff x.id id).0 same in ground (arith, name, found, settled)
  | inr other ↦
      not_removed xs all steps id prev (ground arith) found settled (ground (arith, other))
]

elems-owned_slice : {A : Type 0} (xs : Slice A) → elems (owned_slice xs) ≡ elems xs
elems-owned_slice none = refl
elems-owned_slice (some []) = refl
elems-owned_slice (some (x ∷ xs)) = refl

-- A restated or invalidated step, as it is stored, keeps the settled one.
keeps_settled-Keeps :
    (prev step : Step) → keeps_settled prev step ≡ true → Keeps prev (owned_step step)
keeps_settled-Keeps prev step h =
    let restated = record step { status = prev.status } in
    let same : restated ≡ prev = same_step_sound restated prev (ground arith) in
    record {
      id = ap (λ (x : Step). x.id) same;
      description = ap (λ (x : Step). x.description) same;
      completion_criteria = ap (λ (x : Step). x.completion_criteria) same;
      outcome = ap (λ (x : Step). x.outcome) same;
      evidence = elems-owned_slice step.evidence ∙ ap (λ (x : Step). elems x.evidence) same;
      information_gaps =
          elems-owned_slice step.information_gaps
          ∙ ap (λ (x : Step). elems x.information_gaps) same;
      status = ground (arith, same_status_sound step.status prev.status);
    }

abbrev owned_found : Option Step → Option Step
owned_found none = none
owned_found (some step) = some (owned_step step)

step_at-owned :
    (id : String) (steps : List Step)
    → step_at id (map owned_step steps) ≡ owned_found (step_at id steps)
unfolding step_at
step_at-owned id [] = refl
step_at-owned id (x ∷ xs) = ground (arith, step_at-owned id xs)

-- The stored steps of an accepted proposal keep the history of the plan that they replace.
pub check_against-KeepsHistory :
    (decode : String → Option Json) (s : Store) (old : Option Plan) (plan : Plan)
    → check_against decode s old plan ≡ none
    → KeepsHistory (steps_of old) (map owned_step plan.steps)
check_against-KeepsHistory decode s old plan h id prev found settled =
    elim (Option-cases (step_at id plan.steps)) [
      | inl missing ↦ absurd (ground (arith, missing, kept))
      | inr (step, there) ↦
          let (by, name) = step_at-All (KeptBy (steps_of old)) id plan.steps step all_kept there in
          (
            owned_step step,
            ground (arith, step_at-owned id plan.steps, there),
            keeps_settled-Keeps prev step (by prev (rw name found) settled),
          )
    ]
  where
    loop : check_steps decode s (steps_of old) [] plan.steps ≡ none
    loop = unfold check_against in ground arith

    result : check_result (steps_of old) plan ≡ none
    result = unfold check_against in ground (arith, loop)

    all_kept : All (KeptBy (steps_of old)) plan.steps
    all_kept = check_steps-KeptBy decode s (steps_of old) [] plan.steps loop

    present : any (λ o. str_eq o.id id) plan.steps ≡ true
    present =
        not_removed (steps_of old) (steps_of old) plan.steps id prev
          (unfold check_result in ground (arith, result)) found settled (ground (arith, found))

    kept : is_some (step_at id plan.steps) ≡ true
    kept = step_at-any id plan.steps present

-- `Keeps` and the settled status compose, so that a history is kept over any number of revisions.
pub KeepsHistory-trans :
    (a b c : List Step) → KeepsHistory a b → KeepsHistory b c → KeepsHistory a c
KeepsHistory-trans a b c ab bc id prev found settled =
    let (mid, there, k) = ab id prev found settled in
    let (last, there', k') = bc id mid there (still prev mid settled k.status) in
    (
      last,
      there',
      record {
        id = k'.id ∙ k.id;
        description = k'.description ∙ k.description;
        completion_criteria = k'.completion_criteria ∙ k.completion_criteria;
        outcome = k'.outcome ∙ k.outcome;
        evidence = k'.evidence ∙ k.evidence;
        information_gaps = k'.information_gaps ∙ k.information_gaps;
        status = ground (arith, k.status, k'.status);
      },
    )
  where
    still :
        (x y : Step)
        → is_settled x.status ≡ true
        → (y.status ≡ x.status) ⊎ (y.status ≡ PlanStatus.invalidated)
        → is_settled y.status ≡ true
    still x y h e = ground (arith, e)
