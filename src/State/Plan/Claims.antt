-- ===== src/State/Plan/Claims.antt =====
-- The claims of a checked plan, and sequences of revisions (CheckPlan and RevisePlan of
-- internal/state/plan.go).
use grodt.Prelude.{
  ◌+◌, ◌≤◌, ◌<◌, String, Bool, true, false, ◌⊎◌, inl, inr, Option, none, some, List, [], ◌∷◌, any,
  all, length, ◌≡◌, refl, ap, ◌∙◌, arith, is_empty, is_nil, Option-cases,
}
use text.Mathlib.Text.{◌==◌ as str_eq}
use grodt.State.Types.{elems, Step, Plan, Task}
use grodt.State.Store.{ok, Context, Store, Op, ◌>>◌, pure}
use grodt.State.Evidence.{Json}
use grodt.State.Tasks.{active}
use grodt.State.Plan.Fields.{is_satisfied, is_settled, matches_name}
use grodt.State.Plan.Cursor.{selects_open, selects_resolved}
use grodt.State.Plan.Steps.{step_at, resolves, check_open_step, check_step, check_steps}
use grodt.State.Plan.Check.{
  check_current, check_against, check_result, check_plan, is_reasoning, steps_of, revision_of,
}
use grodt.State.Plan.History.{KeepsHistory, KeepsHistory-trans}
use grodt.State.Plan.Revise.{revise_plan}
use grodt.State.Plan.Acceptance.{revise_plan-KeepsHistory}

-- A step that claims satisfaction now, and did not before, brings an outcome and evidence that resolves
-- in the current knowledge, and has no gaps.
pub record IsSupportedClaim (decode : String → Option Json) (s : Store) (step : Step) : Type 0 where
  pub outcome : is_empty step.outcome ≡ false
  pub some_evidence : is_nil (elems step.evidence) ≡ false
  pub current : resolves decode s (elems step.evidence) ≡ true
  pub no_gaps : is_nil (elems step.information_gaps) ≡ true

abbrev was_settled : List Step → Step → Bool
was_settled old step = elim (step_at step.id old) [
  | none ↦ false
  | some prev ↦ is_settled prev.status
]

-- What holds of each step of a checked plan, with the steps before it.
pub record IsChecked (decode : String → Option Json) (s : Store) (old seen : List Step)
    (step : Step) : Type 0 where
  pub named : matches_name step.id ≡ true
  pub fresh : any (λ o. str_eq o.id step.id) seen ≡ false
  pub claim :
      is_satisfied step.status ≡ true
      → was_settled old step ≡ false
      → IsSupportedClaim decode s step

abbrev pub AllChecked : (String → Option Json) → Store → List Step → List Step → List Step → Type 0
AllChecked decode s old seen [] = Unit
AllChecked decode s old seen (step ∷ steps) =
    IsChecked decode s old seen step × AllChecked decode s old (step ∷ seen) steps

check_step-IsChecked :
    (decode : String → Option Json) (s : Store) (old seen : List Step) (step : Step)
    → check_step decode s old seen step ≡ none
    → IsChecked decode s old seen step
unfolding check_step check_open_step
check_step-IsChecked decode s old seen step h = record {
  named = ground arith;
  fresh = ground arith;
  claim = λ satisfied new. record {
    outcome = ground arith;
    some_evidence = ground arith;
    current = ground arith;
    no_gaps = ground arith;
  };
}

check_steps-AllChecked :
    (decode : String → Option Json) (s : Store) (old seen steps : List Step)
    → check_steps decode s old seen steps ≡ none
    → AllChecked decode s old seen steps
unfolding check_steps
check_steps-AllChecked decode s old seen [] h = tt
check_steps-AllChecked decode s old seen (step ∷ steps) h =
    elim (Option-cases (check_step decode s old seen step)) [
      | inl passed ↦ (
        check_step-IsChecked decode s old seen step passed,
        check_steps-AllChecked decode s old (step ∷ seen) steps (ground (arith, passed)),
      )
      | inr (e, refused) ↦ absurd (ground (arith, refused))
    ]

-- What CheckPlan lets pass.
pub record IsAcceptable (decode : String → Option Json) (s : Store) (old : Option Plan)
    (plan : Plan) : Type 0 where
  pub some_steps : 1 ≤ length plan.steps
  pub few_steps : length plan.steps ≤ 32
  pub revision : plan.revision ≡ revision_of old
  pub steps : AllChecked decode s (steps_of old) [] plan.steps
  pub cursor :
      (is_empty plan.current_step ≡ true) ⊎ (selects_open plan.current_step plan.steps ≡ true)
  pub complete :
      is_satisfied plan.status ≡ true → all (λ step. is_satisfied step.status) plan.steps ≡ true
  pub supported :
      is_satisfied plan.status ≡ true
      → (is_empty plan.outcome ≡ false)
        × (is_nil (elems plan.evidence) ≡ false)
        × (resolves decode s (elems plan.evidence) ≡ true)
        × (is_nil (elems plan.information_gaps) ≡ true)
        × (is_empty plan.unresolved_focus ≡ true)

not_resolved_open :
    (id : String) (steps : List Step)
    → selects_resolved id steps ≡ false
    → any (λ step. str_eq step.id id) steps ≡ true
    → selects_open id steps ≡ true
not_resolved_open id [] a b = cc
not_resolved_open id (x ∷ xs) a b = ground (arith, not_resolved_open id xs)

length-pos : (steps : List Step) → is_nil steps ≡ false → 1 ≤ length steps
length-pos [] h = cc
length-pos (x ∷ xs) h = omega arith

check_against-IsAcceptable :
    (decode : String → Option Json) (s : Store) (old : Option Plan) (plan : Plan)
    → check_against decode s old plan ≡ none
    → IsAcceptable decode s old plan
check_against-IsAcceptable decode s old plan h = record {
  some_steps = length-pos plan.steps (unfold check_against in ground arith);
  few_steps = unfold check_against in ground arith;
  revision = unfold check_against in ground arith;
  steps = check_steps-AllChecked decode s (steps_of old) [] plan.steps loop;
  cursor =
      unfold check_result check_current in
      ground (arith, result, not_resolved_open plan.current_step plan.steps);
  complete = λ sat. unfold check_result in ground (arith, result);
  supported = λ sat. (
    unfold check_against in ground arith,
    unfold check_against in ground arith,
    unfold check_against in ground arith,
    unfold check_against in ground arith,
    unfold check_against in ground arith,
  );
}
  where
    loop : check_steps decode s (steps_of old) [] plan.steps ≡ none
    loop = unfold check_against in ground arith

    result : check_result (steps_of old) plan ≡ none
    result = unfold check_against in ground (arith, loop)

-- If CheckPlan accepts, an active reasoning task holds the plan and the plan has the current
-- revision, 1 to 32 steps of distinct well-formed ids, no current step or an open one, and
-- satisfaction claims (of new steps and of the plan) that bring an outcome, no gaps and evidence
-- which resolves now.
pub check_plan-IsAcceptable :
    (decode : String → Option Json) (s : Store) (plan : Plan)
    → check_plan decode s plan ≡ none
    → (t : Task) × (active s ≡ some t) × (is_reasoning t ≡ true) × IsAcceptable decode s t.plan plan
check_plan-IsAcceptable decode s plan h = elim (Option-cases (active s)) [
  | inl missing ↦ absurd (unfold check_plan in ground (arith, missing))
  | inr (t, found) ↦ (
    t,
    found,
    unfold check_plan in ground (arith, found),
    check_against-IsAcceptable decode s t.plan plan (unfold check_plan in ground (arith, found)),
  )
]

-- One revision after another, to the first refusal.
unfoldable pub revise_all : (String → Option Json) → Context → List Plan → Op Unit
revise_all decode c [] = pure tt
revise_all decode c (plan ∷ plans) = do revise_plan decode c plan; revise_all decode c plans

KeepsHistory-refl : (steps : List Step) → KeepsHistory steps steps
KeepsHistory-refl steps id prev found settled = (
  prev,
  found,
  record {
    id = refl;
    description = refl;
    completion_criteria = refl;
    outcome = refl;
    evidence = refl;
    information_gaps = refl;
    status = inl refl;
  },
)

-- Over any sequence of accepted plan revisions that keeps the revision number below 2^64, every
-- satisfied or invalidated step of the first plan is still there with the same texts, evidence and
-- gaps, its status at most invalidated, and the revision number has grown by the number of
-- revisions.
pub revise_all-KeepsHistory :
    (decode : String → Option Json) (c : Context) (plans : List Plan) (s : Store) (t : Task)
    → revision_of t.plan + length plans < 18446744073709551616
    → active s ≡ some t
    → (revise_all decode c plans s).1 ≡ ok tt
    → (t' : Task) × (active (revise_all decode c plans s).0 ≡ some t')
      × (revision_of t'.plan ≡ revision_of t.plan + length plans)
      × KeepsHistory (steps_of t.plan) (steps_of t'.plan)
unfolding revise_all
revise_all-KeepsHistory decode c [] s t room found h =
    (t, found, omega arith, KeepsHistory-refl (steps_of t.plan))
revise_all-KeepsHistory decode c (plan ∷ plans) s t room found h =
    let first : (revise_plan decode c plan s).1 ≡ ok tt = ground arith in
    let (t₁, new, found₁, has, number, kept) =
      revise_plan-KeepsHistory decode c plan s t found first in
    let number₁ : revision_of t₁.plan ≡ revision_of t.plan + 1 =
      ap revision_of has ∙ omega (arith, number) in
    let kept₁ : KeepsHistory (steps_of t.plan) (steps_of t₁.plan) = rw has kept in
    let (t₂, found₂, number₂, kept₂) =
      revise_all-KeepsHistory decode c plans (revise_plan decode c plan s).0 t₁
        (omega (arith, number₁)) found₁ (ground (arith, first)) in
    (
      t₂,
      ground (arith, first, found₂),
      omega (arith, number₁, number₂),
      KeepsHistory-trans (steps_of t.plan) (steps_of t₁.plan) (steps_of t₂.plan) kept₁ kept₂,
    )
