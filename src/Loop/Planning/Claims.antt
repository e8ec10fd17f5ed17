-- ===== src/Loop/Planning/Claims.antt =====
-- The completion claims of a plan under acceptPlanWithContext (internal/loop/planning.go).
use Prim.Native.String.{len}
use grodt.Prelude.{
  String, ◌≤◌, Bool, true, false, not, ◌&&◌, ◌||◌, Option, none, some, [], ◌⊎◌, inl, inr, ◌≡◌, refl,
  arith, is_nil, Bool-cases, Option-cases,
}
use grodt.State.Types.{Task, Plan}
use grodt.State.Store.{Context, Store}
use grodt.State.Evidence.{Json}
use grodt.State.Plan.Cursor.{normalize_current_step}
use grodt.State.Plan.Check.{check_plan}
use grodt.State.Tasks.{is_blank}
use grodt.Loop.Gate.{plan_has_unresolved_steps}
use grodt.Loop.Intent.{plan_intent_changes}
use grodt.Loop.Planning.{
  Evaluators, Judgement, accepted, active_task, new_claims, claims_plan, all_references,
  is_unresolved, judge_plan, evaluate_plan, accept_plan_with_context, RevisionJudgement,
  validate_plan_intent, accept_plan,
}

-- The evaluator gave the decision that the plan needs.
pub record IsConfirmed (claiming continuity : Bool) (o : Option Judgement) : Type 0 where
  pub decision : Judgement
  pub given : o ≡ some decision
  pub satisfied : claiming ≡ true → decision.satisfied ≡ true
  pub continuous :
      continuity ≡ true → (decision.continuity_valid ≡ true) × (decision.purpose_preserved ≡ true)

judge_plan-IsConfirmed :
    (decode : String → Option Json) (c : Context) (t : Task) (plan : Plan)
    (claiming continuity unchanged : Bool) (o : Option Judgement) (s : Store)
    → (judge_plan decode c t plan claiming continuity unchanged o s).1 ≡ accepted
    → IsConfirmed claiming continuity o
unfolding judge_plan
judge_plan-IsConfirmed decode c t plan claiming continuity unchanged none s h =
    absurd (ground (arith, h))
judge_plan-IsConfirmed decode c t plan claiming continuity unchanged (some d) s h = record {
  decision = d;
  given = refl;
  satisfied = λ claims. ground (arith, h, claims);
  continuous = λ continues. (ground (arith, h, continues), ground (arith, h, continues));
}

-- The plan has no new claim, or the evaluator confirmed it.
abbrev pub AreConfirmed : Evaluators → Task → Plan → Bool → Store → Type 0
AreConfirmed ask t plan continuity s =
    ((new_claims t.plan plan.steps ≡ []) × (claims_plan t.plan plan ≡ false) × (continuity ≡ false))
    ⊎ IsConfirmed (not (is_nil (new_claims t.plan plan.steps)) || claims_plan t.plan plan)
        continuity (ask.complete plan (new_claims t.plan plan.steps) continuity s).1

evaluate_plan-AreConfirmed :
    (decode : String → Option Json) (ask : Evaluators) (c : Context) (t : Task) (plan : Plan)
    (continuity unchanged : Bool) (s : Store)
    → (evaluate_plan decode ask c t plan continuity unchanged s).1 ≡ accepted
    → AreConfirmed ask t plan continuity s
unfolding evaluate_plan
evaluate_plan-AreConfirmed decode ask c t plan continuity unchanged s h =
    let claims = new_claims t.plan plan.steps in
    let whole = claims_plan t.plan plan in
    elim (Bool-cases ((not (is_nil claims) || whole) || continuity)) [
      | inr idle ↦ inl (ground (arith, idle), ground (arith, idle), ground (arith, idle))
      | inl busy ↦ elim (Bool-cases (not ask.is_given)) [
        | inl missing ↦ absurd (ground (arith, h, busy, missing))
        | inr given ↦
            elim (Bool-cases
              (not continuity && is_unresolved decode s (all_references whole claims plan))) [
                | inl unresolved ↦ absurd (ground (arith, h, busy, given, unresolved))
                | inr resolved ↦
                    let answer = ask.complete plan claims continuity s in
                    inr (
                      judge_plan-IsConfirmed decode c t plan (not (is_nil claims) || whole)
                        continuity unchanged answer.1 answer.0
                        (ground (arith, h, busy, given, resolved)))
              ]
      ]
    ]

-- If acceptPlanWithContext accepts a plan, CheckPlan accepts the normalized plan unless there is no
-- change to store; and either it makes no new claim of satisfaction and there is no reconciliation
-- to judge, or the evaluator gave a decision on its new claims: satisfied if there is a claim, and
-- continuity and purpose kept if there is a reconciliation.
pub accept_plan_with_context-AreConfirmed :
    (decode : String → Option Json) (ask : Evaluators) (c : Context) (plan : Plan)
    (continuity unchanged : Bool) (s : Store)
    → (accept_plan_with_context decode ask c plan continuity unchanged s).1 ≡ accepted
    → let t = active_task s in
      let next = normalize_current_step plan t.plan in
      AreConfirmed ask t next continuity s
      × ((unchanged ≡ true) ⊎ (check_plan decode s next ≡ none))
unfolding accept_plan_with_context
accept_plan_with_context-AreConfirmed decode ask c plan continuity unchanged s h =
    let t = active_task s in
    let next = normalize_current_step plan t.plan in
    elim (Option-cases (check_plan decode s next)) [
      | inl passed ↦ (
        evaluate_plan-AreConfirmed decode ask c t next continuity unchanged s
            (ground (arith, h, passed)),
        inr passed,
      )
      | inr (e, refused) ↦ elim (Bool-cases unchanged) [
        | inr changes ↦ absurd (ground (arith, h, refused, changes))
        | inl same ↦ (
          evaluate_plan-AreConfirmed decode ask c t next continuity unchanged s
              (ground (arith, h, same)),
          inl same,
        )
      ]
    ]

-- A change of intent is explained, and the evaluator found the explanation valid.
pub record IsExplained (ask : Evaluators) (old : Option Plan) (plan : Plan) (reason : String)
    (s : Store) : Type 0 where
  pub stated : is_blank reason ≡ false
  pub within : len reason ≤ 512
  pub decision : RevisionJudgement
  pub given :
      (ask.revise old plan reason (plan_intent_changes old (some plan) "accepted_plan") s).1
      ≡ some decision
  pub valid : decision.valid ≡ true

validate_plan_intent-IsExplained :
    (ask : Evaluators) (old : Option Plan) (plan : Plan) (reason : String) (s : Store)
    → (validate_plan_intent ask old plan reason "accepted_plan" s).1 ≡ accepted
    → (plan_intent_changes old (some plan) "accepted_plan" ≡ []) ⊎ IsExplained ask old plan reason s
unfolding validate_plan_intent
validate_plan_intent-IsExplained ask old plan reason s h =
    let changes = plan_intent_changes old (some plan) "accepted_plan" in
    elim (Bool-cases (is_nil changes)) [
      | inl same ↦ inl (ground (arith, same))
      | inr differ ↦
          let answer = ask.revise old plan reason changes s in
          elim (Option-cases answer.1) [
            | inl missing ↦ absurd (ground (arith, h, differ, missing))
            | inr (d, given) ↦ inr (record {
              stated = ground (arith, h, differ);
              within = ground (arith, h, differ);
              decision = d;
              given = given;
              valid = ground (arith, h, differ, given);
            })
          ]
    ]

-- If acceptPlan accepts a plan, the plan or the accepted one has an open step; and either
-- planIntentChanges reports nothing, or a reason of at most 512 bytes that is not blank was given
-- and the evaluator found the revision valid.
pub accept_plan-IsExplained :
    (decode : String → Option Json) (ask : Evaluators) (c : Context) (plan : Plan) (reason : String)
    (s : Store)
    → (accept_plan decode ask c plan reason s).1 ≡ accepted
    → let old = (active_task s).plan in
      ((plan_intent_changes old (some plan) "accepted_plan" ≡ [])
        ⊎ IsExplained ask old plan reason s)
      × ((plan_has_unresolved_steps (some plan) ≡ true) ⊎ (plan_has_unresolved_steps old ≡ true))
unfolding accept_plan
accept_plan-IsExplained decode ask c plan reason s h = (
  validate_plan_intent-IsExplained ask (active_task s).plan plan reason s (ground (arith, h)),
  ground (arith, h),
)
