-- ===== src/Loop/Reconciliation/Accounting/Laws.antt =====
-- Accepted accountings (validateResultAccounting of internal/loop/result_accounting.go).
use Prim.Native.String.{len}
use text.Mathlib.Text.{◌==◌ as str_eq}
use grodt.Prelude.{
  ℕ, ◌+◌, ◌≤◌, String, true, false, not, none, some, List, [], ◌∷◌, any, is_nil, ◌⊎◌, ◌≡◌, refl,
  arith, Option-cases, Bool-cases, inl, inr, if◌then◌else◌,
}
use grodt.State.Types.{elems, Step}
use grodt.State.Tasks.{is_blank}
use grodt.State.Plan.Steps.{step_at}
use grodt.State.Plan.Check.{steps_of}
use grodt.State.Plan.EqualityLaws.{str_eq_sound}
use grodt.Loop.Reconciliation.{
  AcceptedExecutionResult, ResultAccounting, ReconciliationDecision, ReconciliationInput,
}
use grodt.Loop.Reconciliation.Accounting.{
  is_result, is_accounted, check_update, check_entry, check_entries, validate_result_accounting,
}

-- How often the entries account for a result.
abbrev pub times : String → List ResultAccounting → ℕ
times id [] = 0
times id (e ∷ entries) = (if str_eq e.result_id id then 1 else 0) + times id entries

-- What holds of an accepted entry.
pub record IsAccounted (input : ReconciliationInput) (d : ReconciliationDecision)
    (entry : ResultAccounting) : Type 0 where
  pub result : is_result input.accepted_results entry.result_id ≡ true
  pub shown : any (λ (step : Step). str_eq step.id entry.step_id) (steps_of input.plan) ≡ true
  pub explained : is_blank entry.reason ≡ false
  pub reason_within : len entry.reason ≤ 512
  pub disposed :
      (str_eq entry.disposition "update" ≡ true) ⊎ (str_eq entry.disposition "no_progress" ≡ true)
  pub updated :
      str_eq entry.disposition "update" ≡ true
      → (str_eq d.action "progress" ≡ true)
        × (step : Step) × (step_at entry.step_id d.updates ≡ some step)
        × (is_blank step.outcome ≡ false)
        × (is_nil (elems step.evidence) ≡ false)
  pub unchanged : str_eq entry.disposition "update" ≡ false → step_at entry.step_id d.updates ≡ none

abbrev pub AllAccounted :
    ReconciliationInput → ReconciliationDecision → List ResultAccounting → Type 0
AllAccounted input d [] = Unit
AllAccounted input d (entry ∷ entries) = IsAccounted input d entry × AllAccounted input d entries

check_entry-IsAccounted :
    (input : ReconciliationInput) (d : ReconciliationDecision) (seen : List ResultAccounting)
    (entry : ResultAccounting)
    → check_entry input d seen entry ≡ none
    → IsAccounted input d entry
unfolding check_entry
check_entry-IsAccounted input d seen entry h = record {
  result = ground (arith, h);
  shown = ground (arith, h);
  explained = ground (arith, h);
  reason_within = ground (arith, h);
  disposed = elim (Bool-cases (str_eq entry.disposition "update")) [
    | inl update ↦ inl update
    | inr other ↦ elim (Bool-cases (str_eq entry.disposition "no_progress")) [
      | inl unchanged ↦ inr unchanged
      | inr invalid ↦ absurd (ground (arith, h, other, invalid))
    ]
  ];
  updated = λ update. elim (Option-cases (step_at entry.step_id d.updates)) [
    | inl missing ↦ absurd (ground (arith, h, update, missing))
    | inr (step, found) ↦
        let passed : check_update d.action (some step) ≡ none = ground (arith, h, update, found) in
        (ground (arith, passed), step, found, ground (arith, passed), ground (arith, passed))
  ];
  unchanged = λ other. elim (Option-cases (step_at entry.step_id d.updates)) [
    | inl missing ↦ missing
    | inr (step, found) ↦ absurd (ground (arith, h, other, found))
  ];
}

check_entries-AllAccounted :
    (input : ReconciliationInput) (d : ReconciliationDecision)
    (seen entries : List ResultAccounting)
    → check_entries input d seen entries ≡ none
    → AllAccounted input d entries
unfolding check_entries
check_entries-AllAccounted input d seen [] h = tt
check_entries-AllAccounted input d seen (entry ∷ entries) h =
    elim (Option-cases (check_entry input d seen entry)) [
      | inl passed ↦ (
        check_entry-IsAccounted input d seen entry passed,
        check_entries-AllAccounted input d (entry ∷ seen) entries (ground (arith, passed)),
      )
      | inr (e, refused) ↦ absurd (ground (arith, refused))
    ]

not_repeated :
    (input : ReconciliationInput) (d : ReconciliationDecision) (seen : List ResultAccounting)
    (entry : ResultAccounting) (id : String)
    → check_entry input d seen entry ≡ none
    → is_accounted seen id ≡ true
    → str_eq entry.result_id id ≡ false
unfolding check_entry
not_repeated input d seen entry id h old = elim (Bool-cases (str_eq entry.result_id id)) [
  | inr other ↦ other
  | inl same ↦
      let e : entry.result_id ≡ id = str_eq_sound entry.result_id id same in
      absurd (ground (arith, h, rw (← e) at old))
]

no_more :
    (input : ReconciliationInput) (d : ReconciliationDecision)
    (seen entries : List ResultAccounting) (id : String)
    → check_entries input d seen entries ≡ none
    → is_accounted seen id ≡ true
    → times id entries ≡ 0
unfolding check_entries
no_more input d seen [] id h old = refl
no_more input d seen (entry ∷ entries) id h old =
    elim (Option-cases (check_entry input d seen entry)) [
      | inr (e, refused) ↦ absurd (ground (arith, refused))
      | inl passed ↦ ground (
        arith,
        not_repeated input d seen entry id passed old,
        no_more input d (entry ∷ seen) entries id (ground (arith, passed)) (ground (arith, old)),
      )
    ]

at_most_once :
    (input : ReconciliationInput) (d : ReconciliationDecision)
    (seen entries : List ResultAccounting) (id : String)
    → check_entries input d seen entries ≡ none
    → times id entries ≤ 1
unfolding check_entries
at_most_once input d seen [] id h = omega arith
at_most_once input d seen (entry ∷ entries) id h =
    elim (Option-cases (check_entry input d seen entry)) [
      | inr (e, refused) ↦ absurd (ground (arith, refused))
      | inl passed ↦ elim (Bool-cases (str_eq entry.result_id id)) [
        | inl same ↦ ground (
          arith,
          same,
          no_more input d (entry ∷ seen) entries id (ground (arith, passed)) (ground (arith, same)),
        )
        | inr other ↦
            ground (
              arith,
              other,
              at_most_once input d (entry ∷ seen) entries id (ground (arith, passed)),
            )
      ]
    ]

at_least_once :
    (id : String) (entries : List ResultAccounting)
    → is_accounted entries id ≡ true
    → 1 ≤ times id entries
at_least_once id [] h = cc
at_least_once id (entry ∷ entries) h = ground (arith, at_least_once id entries)

all_accounted :
    (results : List AcceptedExecutionResult) (entries : List ResultAccounting) (id : String)
    → any (λ (r : AcceptedExecutionResult). not (is_accounted entries r.result_id)) results ≡ false
    → is_result results id ≡ true
    → is_accounted entries id ≡ true
all_accounted [] entries id h found = cc
all_accounted (r ∷ results) entries id h found = elim (Bool-cases (str_eq r.result_id id)) [
  | inl same ↦
      let e : r.result_id ≡ id = str_eq_sound r.result_id id same in rw (← e) (ground (arith, h))
  | inr other ↦ all_accounted results entries id (ground (arith, h)) (ground (arith, other, found))
]

-- If validateResultAccounting accepts a decision, the decision gives a reason of at most 512 bytes,
-- every accepted result has exactly one entry, and every entry is about an accepted result and a
-- shown step, gives a reason of at most 512 bytes, and is an update or no_progress: as an update,
-- the decision's action is progress and its step of that id has an outcome and evidence; otherwise
-- the decision updates no step of that id.
pub accounting_complete :
    (input : ReconciliationInput) (d : ReconciliationDecision)
    → validate_result_accounting input d ≡ none
    → (is_blank d.reason ≡ false)
      × (len d.reason ≤ 512)
      × ((id : String)
          → is_result input.accepted_results id ≡ true
          → times id d.result_accounting ≡ 1)
      × AllAccounted input d d.result_accounting
unfolding validate_result_accounting
accounting_complete input d h = elim (Option-cases (check_entries input d [] d.result_accounting)) [
  | inr (e, refused) ↦ absurd (ground (arith, refused))
  | inl passed ↦ (
    ground (arith, h),
    ground (arith, h),
    λ id found.
        let there =
          all_accounted input.accepted_results d.result_accounting id (ground (arith, passed))
            found in
        omega (
          arith,
          at_least_once id d.result_accounting there,
          at_most_once input d [] d.result_accounting id passed,
        ),
    check_entries-AllAccounted input d [] d.result_accounting passed,
  )
]
