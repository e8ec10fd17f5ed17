-- ===== src/State/Plan/Completion.antt =====
-- The loop of CompleteObjective (internal/state/plan.go): its turns and its fuel.
use grodt.Prelude.{
  ℕ, zero, suc, ◌<◌, String, Bool, true, false, not, ◌⊎◌, inl, inr, Option, none, some, List, [],
  ◌∷◌, length, ◌≡◌, refl, arith, ◌==◌, Bool-cases,
}
use mathlib.Core.Logic.{◌≢◌}
use grodt.State.Types.{TaskId, Status, Task}
use grodt.State.Store.{
  Error, Result, ok, err, Context, Store, Op, ◌>>◌, choose, raise, Result-cases, out_of_fuel,
  not_reasoning_child, active_execution_work,
}
use grodt.State.Tasks.{active, finish, complete}
use grodt.State.Tasks.Invariant.{is_executing}
use grodt.State.Tasks.Finish.{finish-ok, finish_nil}
use grodt.State.Plan.Check.{is_reasoning}
use grodt.State.Plan.Revise.{
  is_reasoning_child, abandon_child, close_child, complete_turn, satisfied_outcome, complete_turns,
  complete_objective,
}

finish_fuel :
    (c : Context) (status : Status) (result code : String) (s : Store) (stack : List TaskId)
    → s.tasks.stack ≡ stack
    → (finish c status result code s).1 ≢ err out_of_fuel
unfolding finish
finish_fuel c status result code s [] p h = ground arith
finish_fuel c status result code s (x ∷ stack) p h = ground arith

-- The call pops one task, or returns another error than the one for fuel.
record Pops (s s' : Store) (r : Result (Unit {0})) : Type 0 where
  no_fuel_error : r ≢ err out_of_fuel
  shorter : r ≡ ok tt → suc (length s'.tasks.stack) ≡ length s.tasks.stack

finish-Pops :
    (c : Context) (status : Status) (result code : String) (s : Store)
    → Pops s (finish c status result code s).0 (finish c status result code s).1
finish-Pops c status result code s = by_stack s.tasks.stack refl
  where
    by_stack :
        (stack : List TaskId)
        → s.tasks.stack ≡ stack
        → Pops s (finish c status result code s).0 (finish c status result code s).1
    by_stack [] p = record {
      no_fuel_error = finish_fuel c status result code s [] p;
      shorter = λ h. absurd (finish_nil c status result code s p h);
    }
    by_stack (x ∷ stack) p = record {
      no_fuel_error = finish_fuel c status result code s (x ∷ stack) p;
      shorter =
          λ h. let (tasks, _, _) = finish-ok c status result code s x stack p h in rw (tasks, p);
    }

abandon_child_refused :
    (c : Context) (s : Store)
    → is_reasoning_child (active s) ≡ false
    → (abandon_child c s).1 ≡ err not_reasoning_child
unfolding abandon_child
abandon_child_refused c s h = ground (arith, h)

abandon_child_same :
    (c : Context) (s : Store) → is_reasoning_child (active s) ≡ false → (abandon_child c s).0 ≡ s
unfolding abandon_child
abandon_child_same c s h = ground (arith, h)

abandon_child_finishes :
    (c : Context) (s : Store)
    → is_reasoning_child (active s) ≡ true
    → abandon_child c s ≡ finish c Status.incomplete "" "abandoned" s
unfolding abandon_child
abandon_child_finishes c s h = ground (arith, h)

abandon_child-Pops : (c : Context) (s : Store) → Pops s (abandon_child c s).0 (abandon_child c s).1
abandon_child-Pops c s = elim (Bool-cases (is_reasoning_child (active s))) [
  | inl child ↦
      rw (abandon_child_finishes c s child) (finish-Pops c Status.incomplete "" "abandoned" s)
  | inr refused ↦ record {
    no_fuel_error = λ h. ground (arith, abandon_child_refused c s refused);
    shorter = λ h. absurd (ground (arith, abandon_child_refused c s refused));
  }
]

close_child-Pops :
    (c : Context) (outcome : Option String) (s : Store)
    → Pops s (close_child c outcome s).0 (close_child c outcome s).1
close_child-Pops c none s = abandon_child-Pops c s
close_child-Pops c (some outcome) s = unfold complete in finish-Pops c Status.completed outcome "" s

-- A turn of the loop, if the next turn ends from every store with one task less.
turn_fuel :
    (again : Op (Unit {0})) (c : Context) (result : String) (o : Option Task) (s : Store)
    → ((s' : Store)
        → suc (length s'.tasks.stack) ≡ length s.tasks.stack
        → (again s').1 ≢ err out_of_fuel)
    → (complete_turn c result again o s).1 ≢ err out_of_fuel
turn_fuel again c result none s next h = cc
turn_fuel again c result (some t) s next h = elim (Bool-cases (t.parent_id == 0)) [
  | inl root ↦
      (finish-Pops c Status.completed result "" s).no_fuel_error
        (unfold complete in ground (arith, root))
  | inr child ↦ elim (Bool-cases (is_reasoning t)) [
    | inr busy ↦ ground (arith, child, busy)
    | inl reasoning ↦
        let pops = close_child-Pops c (satisfied_outcome t.plan) s in
        elim (Result-cases (close_child c (satisfied_outcome t.plan) s).1) [
          | inl (u, closed) ↦
              next (close_child c (satisfied_outcome t.plan) s).0 (pops.shorter closed)
                (ground (arith, child, reasoning, closed))
          | inr (e, failed) ↦ pops.no_fuel_error (ground (arith, child, reasoning, failed))
        ]
  ]
]

complete_turns_fuel :
    (fuel : ℕ) (c : Context) (result : String) (s : Store)
    → length s.tasks.stack < fuel
    → (complete_turns fuel c result s).1 ≢ err out_of_fuel
unfolding complete_turns
complete_turns_fuel zero c result s enough h = absurd (omega arith)
complete_turns_fuel (suc fuel) c result s enough h =
    turn_fuel (complete_turns fuel c result) c result (active s) s
      (λ s' shorter. complete_turns_fuel fuel c result s' (omega arith)) h

-- CompleteObjective ends by a return of the code within one turn more than the stack has tasks.
pub complete_objective_ends :
    (c : Context) (result : String) (s : Store)
    → (complete_objective c result s).1 ≢ err out_of_fuel
unfolding complete_objective
complete_objective_ends c result s =
    complete_turns_fuel (suc (length s.tasks.stack)) c result s (omega arith)

-- What finish keeps, for a status of an ended task, CompleteObjective keeps.
module _ (P : Store → Type 0) (c : Context)
    (keep : (status : Status) (result code : String) (s : Store)
      → is_executing (some status) ≡ false
      → P s
      → P (finish c status result code s).0) where
  pub abandon_child-keeps : (s : Store) → P s → P (abandon_child c s).0
  abandon_child-keeps s h = elim (Bool-cases (is_reasoning_child (active s))) [
    | inl child ↦
        rw (abandon_child_finishes c s child) (keep Status.incomplete "" "abandoned" s refl h)
    | inr refused ↦ rw (abandon_child_same c s refused) h
  ]

  close_child-keeps : (outcome : Option String) (s : Store) → P s → P (close_child c outcome s).0
  close_child-keeps none s h = abandon_child-keeps s h
  close_child-keeps (some outcome) s h =
      unfold complete in keep Status.completed outcome "" s refl h

  turn-keeps :
      (again : Op (Unit {0})) (result : String) (o : Option Task) (s : Store)
      → ((s' : Store) → P s' → P (again s').0)
      → P s
      → P (complete_turn c result again o s).0
  turn-keeps again result none s next h = h
  turn-keeps again result (some t) s next h =
      by_test (t.parent_id == 0) (is_reasoning t)
        (Result-cases (close_child c (satisfied_outcome t.plan) s).1)
    where
      by_test :
          (root reasoning : Bool)
          → ((u : Unit {0}) × ((close_child c (satisfied_outcome t.plan) s).1 ≡ ok u))
            ⊎ ((e : Error) × ((close_child c (satisfied_outcome t.plan) s).1 ≡ err e))
          → P
              (choose root
                (complete c result)
                (choose
                  (not reasoning)
                  (raise active_execution_work)
                  (close_child c (satisfied_outcome t.plan) >> again))
                s).0
      by_test true reasoning r = unfold complete in keep Status.completed result "" s refl h
      by_test false false r = h
      by_test false true (inl (u, closed)) =
          rw (closed, ◌>>◌) (next _ (close_child-keeps (satisfied_outcome t.plan) s h))
      by_test false true (inr (e, failed)) =
          rw (failed, ◌>>◌) (close_child-keeps (satisfied_outcome t.plan) s h)

  complete_turns-keeps :
      (fuel : ℕ) (result : String) (s : Store) → P s → P (complete_turns fuel c result s).0
  unfolding complete_turns
  complete_turns-keeps zero result s h = h
  complete_turns-keeps (suc fuel) result s h =
      turn-keeps (complete_turns fuel c result) result (active s) s
        (λ s'. complete_turns-keeps fuel result s') h

  pub complete_objective-keeps :
      (result : String) (s : Store) → P s → P (complete_objective c result s).0
  unfolding complete_objective
  complete_objective-keeps result s h = complete_turns-keeps (suc (length s.tasks.stack)) result s h
