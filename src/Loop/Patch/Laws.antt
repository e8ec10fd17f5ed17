-- ===== src/Loop/Patch/Laws.antt =====
-- The steps that applyPlanPatch of internal/loop/plan_patch.go leaves.
use text.Mathlib.Text.{◌==◌ as str_eq}
use grodt.Prelude.{
  String, Bool, true, false, none, some, List, [], ◌∷◌, ◌++◌, any, ◌≡◌, ◌⊎◌, inl, inr, arith,
  Option-cases, Bool-cases,
}
use grodt.State.Types.{Step}
use text.Mathlib.TextPositions.{eq_refl}
use grodt.State.Plan.EqualityLaws.{str_eq_sound}
use grodt.Loop.Reconciliation.Proposal.{first_step, replace_first}
use grodt.Loop.Patch.{Merge, Progress, done, has_id, remove_first, remove_all, update_all, add_all}

abbrev pub HasStep : Step → List Step → Type 0
HasStep step [] = ⊥
HasStep step (x ∷ xs) = (step ≡ x) ⊎ HasStep step xs

abbrev pub holds_id : String → List Step → Bool
holds_id id = any (λ s. str_eq s.id id)

-- The patch names the id: to remove it, or in an update.
abbrev pub updates_id : Merge → List String → String → Bool
updates_id m updates id =
    any (λ u. elim (m.identity u) [ none ↦ false | some i ↦ str_eq i id ]) updates

str_eq_flip : (s t : String) → str_eq s t ≡ true → str_eq t s ≡ true
str_eq_flip s t h = rw (str_eq_sound s t h) (eq_refl t)

HasStep-remove_first :
    (step : Step) (id : String) (steps : List Step)
    → HasStep step steps
    → str_eq id step.id ≡ false
    → HasStep step (remove_first id steps)
unfolding remove_first
HasStep-remove_first step id [] h other = h
HasStep-remove_first step id (x ∷ xs) (inl e) other = elim (Bool-cases (str_eq x.id id)) [
  | inl same ↦ absurd (ground (arith, e, other, str_eq_flip x.id id same))
  | inr kept ↦ rw kept (inl e)
]
HasStep-remove_first step id (x ∷ xs) (inr h) other = elim (Bool-cases (str_eq x.id id)) [
  | inl same ↦ rw same h
  | inr kept ↦ rw kept (inr (HasStep-remove_first step id xs h other))
]

HasStep-replace_first :
    (step new : Step) (id : String) (steps : List Step)
    → HasStep step steps
    → str_eq id step.id ≡ false
    → HasStep step (replace_first id new steps)
unfolding replace_first
HasStep-replace_first step new id [] h other = h
HasStep-replace_first step new id (x ∷ xs) (inl e) other = elim (Bool-cases (str_eq x.id id)) [
  | inl same ↦ absurd (ground (arith, e, other, str_eq_flip x.id id same))
  | inr kept ↦ rw kept (inl e)
]
HasStep-replace_first step new id (x ∷ xs) (inr h) other = elim (Bool-cases (str_eq x.id id)) [
  | inl same ↦ rw same (inr h)
  | inr kept ↦ rw kept (inr (HasStep-replace_first step new id xs h other))
]

HasStep-append : (step : Step) (xs ys : List Step) → HasStep step xs → HasStep step (xs ++ ys)
HasStep-append step [] ys h = absurd h
HasStep-append step (x ∷ xs) ys (inl e) = inl e
HasStep-append step (x ∷ xs) ys (inr h) = inr (HasStep-append step xs ys h)

pub HasStep-remove_all :
    (step : Step) (ids : List String) (p q : Progress)
    → remove_all ids p ≡ done q
    → has_id step.id ids ≡ false
    → HasStep step p.steps
    → HasStep step q.steps
unfolding remove_all
HasStep-remove_all step [] p q h other there = ground (arith, h, there)
HasStep-remove_all step (id ∷ ids) p q h other there = elim (Option-cases (first_step id p.steps)) [
  | inl missing ↦ absurd (ground (arith, h, missing))
  | inr (old, found) ↦
      HasStep-remove_all step ids
        (record { touched = id ∷ p.touched; steps = remove_first id p.steps }) q
        (ground (arith, h, found)) (ground (arith, other))
        (HasStep-remove_first step id p.steps there (ground (arith, other)))
]

pub HasStep-update_all :
    (m : Merge) (step : Step) (updates : List String) (p q : Progress)
    → update_all m updates p ≡ done q
    → updates_id m updates step.id ≡ false
    → HasStep step p.steps
    → HasStep step q.steps
unfolding update_all
HasStep-update_all m step [] p q h other there = ground (arith, h, there)
HasStep-update_all m step (update ∷ updates) p q h other there =
    elim (Option-cases (m.identity update)) [
      | inl bad ↦ absurd (ground (arith, h, bad))
      | inr (id, named) ↦ elim (Option-cases (first_step id p.steps)) [
        | inl missing ↦ absurd (ground (arith, h, named, missing))
        | inr (old, found) ↦ elim (Option-cases (m.merge_step old update)) [
          | inl bad ↦ absurd (ground (arith, h, named, found, bad))
          | inr (merged, fine) ↦
              HasStep-update_all m step updates
                (record { touched = id ∷ p.touched; steps = replace_first id merged p.steps }) q
                (ground (arith, h, named, found, fine)) (ground (arith, other))
                (HasStep-replace_first step merged id p.steps there (ground (arith, other, named)))
        ]
      ]
    ]

pub HasStep-add_all :
    (step : Step) (steps : List Step) (p q : Progress)
    → add_all steps p ≡ done q
    → HasStep step p.steps
    → HasStep step q.steps
unfolding add_all
HasStep-add_all step [] p q h there = ground (arith, h, there)
HasStep-add_all step (new ∷ steps) p q h there =
    HasStep-add_all step steps
      (record { touched = new.id ∷ p.touched; steps = p.steps ++ new ∷ [] }) q (ground (arith, h))
      (HasStep-append step p.steps (new ∷ []) there)
