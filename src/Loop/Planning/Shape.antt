-- ===== src/Loop/Planning/Shape.antt =====
-- The task state under managePlan (internal/loop/planning.go).
use Prim.Native.String.{len}
use grodt.Prelude.{
  ◌-◌, String, Bool, true, false, not, ◌&&◌, ◌||◌, Option, none, some, List, if◌then◌else◌, is_some,
  is_nil, ltb,
}
use grodt.State.Types.{Task, Step, Plan}
use grodt.State.Store.{Context, Store, Result, ok, err}
use grodt.State.Tasks.{is_blank}
use grodt.State.Tasks.Invariant.{IsWellFormed}
use grodt.State.Evidence.{Json}
use grodt.State.Plan.Revise.{revise_plan, record_plan_evaluation}
use grodt.State.Plan.Acceptance.{revise_plan-IsWellFormed}
use grodt.State.Plan.Cursor.{normalize_current_step}
use grodt.State.Plan.Check.{check_plan}
use grodt.Loop.Intent.{plan_intent_changes}
use grodt.Loop.Gate.{plan_has_unresolved_steps}
use grodt.Loop.Planning.{
  Evaluators, Judgement, RevisionJudgement, Acceptance, accepted, active_task, has_moved,
  store_plan, judge_plan, evaluate_plan, accept_plan_with_context, validate_plan_intent,
  accept_plan, new_claims, claims_plan, is_unresolved, all_references, is_unchanged_plan,
  max_plan_intent_input, store_refused, evaluator_failed, task_changed, revision_rejected,
}

abbrev pub Shaped : Store → Type 0
Shaped s = IsWellFormed s.tasks s.task_sequence

-- The evaluators leave a well-formed task state well formed.
pub record KeepShape (ask : Evaluators) : Type 0 where
  pub complete :
      (plan : Plan) (claims : List Step) (continuity : Bool) (s : Store)
      → Shaped s
      → Shaped (ask.complete plan claims continuity s).0
  pub revise :
      (old : Option Plan) (plan : Plan) (reason : String) (changes : List String) (s : Store)
      → Shaped s
      → Shaped (ask.revise old plan reason changes s).0

pub Shaped-if :
    {A : Type 0} (b : Bool) (x y : Store × A)
    → Shaped x.0
    → Shaped y.0
    → Shaped (if b then x else y).0
Shaped-if true x y hx hy = hx
Shaped-if false x y hx hy = hy

record_plan_evaluation-Shaped :
    (proposal decision : String) (s : Store)
    → Shaped s
    → Shaped (record_plan_evaluation proposal decision s).0
unfolding record_plan_evaluation
record_plan_evaluation-Shaped proposal decision s h = h

stored-Shaped :
    (s : Store) (r : Result (Unit {0}))
    → Shaped s
    → Shaped
        (let x : Store × Acceptance = elim r [
          | ok u ↦ (s, accepted)
          | err e ↦ (s, store_refused)
        ] in
          x).0
stored-Shaped s (ok u) h = h
stored-Shaped s (err e) h = h

module _ (decode : String → Option Json) (c : Context) where
  store_plan-Shaped :
      (t : Task) (plan : Plan) (continuity unchanged : Bool) (s : Store)
      → Shaped s
      → Shaped (store_plan decode c t plan continuity unchanged s).0
  unfolding store_plan
  store_plan-Shaped t plan continuity unchanged s h = Shaped-if (has_moved t s) _ _ h (
      Shaped-if (continuity && (unchanged || is_unchanged_plan t.plan plan)) _ _ h (
        stored-Shaped (revise_plan decode c plan s).0 (revise_plan decode c plan s).1
          (revise_plan-IsWellFormed decode c plan s h)))

  judge_plan-Shaped :
      (t : Task) (plan : Plan) (claiming continuity unchanged : Bool) (o : Option Judgement)
      (s : Store)
      → Shaped s
      → Shaped (judge_plan decode c t plan claiming continuity unchanged o s).0
  unfolding judge_plan
  judge_plan-Shaped t plan claiming continuity unchanged none s h = h
  judge_plan-Shaped t plan claiming continuity unchanged (some d) s h =
      let s' = (record_plan_evaluation d.observation d.json s).0 in
      let kept = record_plan_evaluation-Shaped d.observation d.json s h in
      let rejected = claiming && not d.satisfied in
      Shaped-if (continuity && (not d.continuity_valid || not d.purpose_preserved || rejected)) _ _
        kept (Shaped-if rejected _ _ kept (store_plan-Shaped t plan continuity unchanged s' kept))

  module _ (ask : Evaluators) (keeps : KeepShape ask) where
    evaluate_plan-Shaped :
        (t : Task) (plan : Plan) (continuity unchanged : Bool) (s : Store)
        → Shaped s
        → Shaped (evaluate_plan decode ask c t plan continuity unchanged s).0
    unfolding evaluate_plan
    evaluate_plan-Shaped t plan continuity unchanged s h =
        let claims = new_claims t.plan plan.steps in
        let whole = claims_plan t.plan plan in
        let claiming = not (is_nil claims) || whole in
        let answer = ask.complete plan claims continuity s in
        Shaped-if (claiming || continuity) _ _
          (Shaped-if (not ask.is_given) _ _ h (
            Shaped-if (not continuity && is_unresolved decode s (all_references whole claims plan))
              _ _ h
              (judge_plan-Shaped t plan claiming continuity unchanged answer.1 answer.0
                (keeps.complete plan claims continuity s h))))
          (store_plan-Shaped t plan continuity unchanged s h)

    pub accept_plan_with_context-Shaped :
        (plan : Plan) (continuity unchanged : Bool) (s : Store)
        → Shaped s
        → Shaped (accept_plan_with_context decode ask c plan continuity unchanged s).0
    unfolding accept_plan_with_context
    accept_plan_with_context-Shaped plan continuity unchanged s h =
        let t = active_task s in
        let next = normalize_current_step plan t.plan in
        Shaped-if (not unchanged && is_some (check_plan decode s next)) _ _ h
          (evaluate_plan-Shaped t next continuity unchanged s h)

judged-Shaped :
    (t : Task) (s : Store) (o : Option RevisionJudgement)
    → Shaped s
    → Shaped
        (let x : Store × Acceptance = elim o [
          | none ↦ (s, evaluator_failed)
          | some d ↦
              if has_moved t s
              then (s, task_changed)
              else let s' = (record_plan_evaluation d.observation d.json s).0 in
                if d.valid then (s', accepted) else (s', revision_rejected)
        ] in
          x).0
judged-Shaped t s none h = h
judged-Shaped t s (some d) h =
    let kept = record_plan_evaluation-Shaped d.observation d.json s h in
    Shaped-if (has_moved t s) _ _ h (Shaped-if d.valid _ _ kept kept)

module _ (ask : Evaluators) (keeps : KeepShape ask) where
  validate_plan_intent-Shaped :
      (old : Option Plan) (plan : Plan) (reason source : String) (s : Store)
      → Shaped s
      → Shaped (validate_plan_intent ask old plan reason source s).0
  unfolding validate_plan_intent
  validate_plan_intent-Shaped old plan reason source s h =
      let changes = plan_intent_changes old (some plan) source in
      let answer = ask.revise old plan reason changes s in
      Shaped-if (is_nil changes) _ _ h (
        Shaped-if (is_blank reason) _ _ h (
          Shaped-if (ltb 512 (len reason)) _ _ h (
            Shaped-if (not ask.is_given) _ _ h (
              Shaped-if
                (ltb (max_plan_intent_input - 1024) (ask.base_size old plan reason changes)
                  || ltb max_plan_intent_input (ask.full_size old plan reason changes s))
                _ _ h
                (judged-Shaped (active_task s) answer.0 answer.1
                  (keeps.revise old plan reason changes s h))))))

  pub accept_plan-Shaped :
      (decode : String → Option Json) (c : Context) (plan : Plan) (reason : String) (s : Store)
      → Shaped s
      → Shaped (accept_plan decode ask c plan reason s).0
  unfolding accept_plan
  accept_plan-Shaped decode c plan reason s h =
      let t = active_task s in
      let judged = validate_plan_intent ask t.plan plan reason "accepted_plan" s in
      Shaped-if
        (is_nil plan.steps
          || not (plan_has_unresolved_steps (some plan)) && not (plan_has_unresolved_steps t.plan))
        _ _ h
        (by_answer t judged.0 judged.1
          (validate_plan_intent-Shaped t.plan plan reason "accepted_plan" s h))
    where
      by_answer :
          (t : Task) (s' : Store) (a : Acceptance)
          → Shaped s'
          → Shaped
              (let x : Store × Acceptance = elim a [
                | accepted ↦
                    if has_moved t s'
                    then (s', task_changed)
                    else accept_plan_with_context decode ask c plan false false s'
                | problem ↦ (s', problem)
              ] in
                x).0
      by_answer t s' accepted kept =
          Shaped-if (has_moved t s') _ _ kept
            (accept_plan_with_context-Shaped decode c ask keeps plan false false s' kept)
      by_answer t s' _ kept = kept
