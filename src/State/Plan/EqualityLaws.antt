-- ===== src/State/Plan/EqualityLaws.antt =====
-- Deep equality of steps (internal/state/plan.go), by fields.
use text.Mathlib.Text.{◌==◌ as str_eq}
use text.Mathlib.TextEquality.{eq_iff}
use grodt.Prelude.{String, Bool, true, false, ◌&&◌, none, some, List, [], ◌∷◌, ◌≡◌, refl, ap, arith}
use grodt.State.Types.{Slice, PlanStatus, EvidenceReference, Step}
use grodt.State.Plan.Equality.{same_list, same_slice, same_status, same_reference, same_step}

&&_parts : (a b : Bool) → (a && b) ≡ true → (a ≡ true) × (b ≡ true)
&&_parts true b h = (refl, h)
&&_parts false b h = cc

same_list_sound {ℓ} :
    {A : Type ℓ} (eq : A → A → Bool)
    → ((x y : A) → eq x y ≡ true → x ≡ y)
    → (xs ys : List A) → same_list eq xs ys ≡ true
    → xs ≡ ys
same_list_sound eq sound [] [] h = refl
same_list_sound eq sound [] (y ∷ ys) h = cc
same_list_sound eq sound (x ∷ xs) [] h = cc
same_list_sound eq sound (x ∷ xs) (y ∷ ys) h =
    let (head, tail) = &&_parts (eq x y) (same_list eq xs ys) h in
    cc (sound x y head, same_list_sound eq sound xs ys tail)

same_slice_sound :
    {A : Type 0} (eq : A → A → Bool)
    → ((x y : A) → eq x y ≡ true → x ≡ y)
    → (xs ys : Slice A) → same_slice eq xs ys ≡ true
    → xs ≡ ys
same_slice_sound eq sound none none h = refl
same_slice_sound eq sound none (some ys) h = cc
same_slice_sound eq sound (some xs) none h = cc
same_slice_sound eq sound (some xs) (some ys) h = ap some (same_list_sound eq sound xs ys h)

pub str_eq_sound : (s t : String) → str_eq s t ≡ true → s ≡ t
str_eq_sound s t h = (eq_iff s t).0 h

same_reference_sound : (a b : EvidenceReference) → same_reference a b ≡ true → a ≡ b
unfolding same_reference
same_reference_sound a b h = ground (arith, eq_iff a.partition b.partition, eq_iff a.path b.path)

pub same_status_sound : (a b : PlanStatus) → same_status a b ≡ true → a ≡ b
same_status_sound PlanStatus.pending b h = ground arith
same_status_sound PlanStatus.active b h = ground arith
same_status_sound PlanStatus.partial b h = ground arith
same_status_sound PlanStatus.satisfied b h = ground arith
same_status_sound PlanStatus.invalidated b h = ground arith
same_status_sound PlanStatus.failed b h = ground arith
same_status_sound (PlanStatus.other x) (PlanStatus.other y) h =
    ap PlanStatus.other (str_eq_sound x y h)
same_status_sound (PlanStatus.other x) _ h = cc

pub same_step_sound : (a b : Step) → same_step a b ≡ true → a ≡ b
unfolding same_step
same_step_sound a b h = ground (
  arith,
  eq_iff a.id b.id,
  eq_iff a.description b.description,
  eq_iff a.completion_criteria b.completion_criteria,
  eq_iff a.outcome b.outcome,
  same_status_sound a.status b.status,
  same_slice_sound same_reference same_reference_sound a.evidence b.evidence,
  same_slice_sound str_eq str_eq_sound a.information_gaps b.information_gaps,
)
