-- ===== src/State/Journal/Since.antt =====
-- JournalSince of internal/state/store.go: a reader's entries past a cursor.
use mathlib.Core.HLevel.{⊥_prop}
use mathlib.Core.Logic.{if_pos, if_neg}
use mathlib.Core.Logic.Dec
use mathlib.Core.Logic.Or
use mathlib.Core.List.{Mem, dec_mem, filter, mem-cons, mem-cons_self, mem-cons_of_mem, not-mem-nil}
use text.Mathlib.Text.{◌==◌ as str_eq}
use text.Mathlib.TextPositions.{eq_refl}
use native.Mathlib.Decide.{dec_lt}
use grodt.Prelude.{
  ℕ, zero, suc, ◌+◌, map, ◌≤◌, ◌<◌, String, Bool, true, false, Option, none, List, [], ◌∷◌, ◌++◌,
  any, length, ◌≡◌, ◌≢◌, refl, ap, ◌∙◌, sym, arith, inl, inr, if◌then◌else◌, Bool-cases,
}
use grodt.State.Types.{Plan}
use grodt.State.Plan.EqualityLaws.{str_eq_sound}
use grodt.State.Store.{Content, of_task, of_plan, Entry, Store}
use grodt.State.Reach.{Call, perform_all}
use grodt.State.Journal.{IsNumbered, Numbered}
use grodt.State.Journal.Calls.{perform_all-IsNumbered}

-- The field `plan` of an entry's data; the other data have none.
abbrev plan_of : Content → Option Plan
plan_of (of_task t) = t.plan
plan_of _ = none

-- A revision's entry shows only the accepted plan.
abbrev pub project : Entry → Entry
project e =
    if str_eq e.kind "task_plan_revised"
    then record e { content = of_plan (plan_of e.content) }
    else e

-- `selected[entry.Kind]`
abbrev pub selects : List String → String → Bool
selects kinds kind = any (λ k. str_eq k kind) kinds

-- The loop over the journal from index `after` on.
unfoldable pub entries_since : List String → ℕ → List Entry → List Entry
entries_since kinds after [] = []
entries_since kinds (suc after) (e ∷ es) = entries_since kinds after es
entries_since kinds zero (e ∷ es) =
    let rest = entries_since kinds zero es in
    if selects kinds e.kind then project e ∷ rest else rest

unfoldable pub journal_since : ℕ → List String → Store → List Entry × ℕ
unfolding entries_since
journal_since after kinds s = (entries_since kinds after s.journal, s.journal_sequence)

entries_since_append :
    (kinds : List String) (after : ℕ) (old added : List Entry)
    → after ≤ length old
    → entries_since kinds after (old ++ added)
      ≡ entries_since kinds after old ++ entries_since kinds 0 added
unfolding entries_since
entries_since_append kinds zero [] added le = refl
entries_since_append kinds (suc after) [] added le = absurd (omega arith)
entries_since_append kinds (suc after) (e ∷ old) added le =
    entries_since_append kinds after old added (omega arith)
entries_since_append kinds zero (e ∷ old) added le = elim (Bool-cases (selects kinds e.kind)) [
  | inl chosen ↦ rw chosen (
      ap (λ (es : List Entry). project e ∷ es)
        (entries_since_append kinds 0 old added (omega arith)))
  | inr skipped ↦ rw skipped (entries_since_append kinds 0 old added (omega arith))
]

entries_since_skip :
    (kinds : List String) (old added : List Entry)
    → entries_since kinds (length old) (old ++ added) ≡ entries_since kinds 0 added
unfolding entries_since
entries_since_skip kinds [] added = refl
entries_since_skip kinds (e ∷ old) added = entries_since_skip kinds old added

texts_differ : (a b : String) → str_eq a b ≡ false → a ≢ b
texts_differ a b other = λ e. absurd (ground (arith, rw e at other, eq_refl b))

dec_text : (a b : String) → Dec (a ≡ b)
dec_text a b = elim (Bool-cases (str_eq a b)) [
  | inl same ↦ yes (str_eq_sound a b same)
  | inr other ↦ no (texts_differ a b other)
]

-- The entry is past the cursor and its kind is one of the kinds.
abbrev pub IsSelected : ℕ → List String → Entry → Type 0
IsSelected after kinds e = (after < e.sequence) × Mem e.kind kinds

pub dec_selected : (after : ℕ) (kinds : List String) (e : Entry) → Dec (IsSelected after kinds e)
dec_selected after kinds e = Dec.and (dec_lt after e.sequence) (dec_mem dec_text e.kind kinds)

selects-mem : (kinds : List String) (kind : String) → selects kinds kind ≡ true → Mem kind kinds
selects-mem [] kind h = cc
selects-mem (k ∷ kinds) kind h = elim (Bool-cases (str_eq k kind)) [
  | inl same ↦ rw (str_eq_sound k kind same) mem-cons_self
  | inr other ↦ mem-cons_of_mem k (selects-mem kinds kind (ground (arith, other, h)))
]

mem-selects : (kinds : List String) (kind : String) → selects kinds kind ≡ false → ¬ Mem kind kinds
mem-selects [] kind h = not-mem-nil
mem-selects (k ∷ kinds) kind h = λ m.
    Or.elim ⊥_prop (mem-cons.0 m) (λ e. ground (arith, rw e at h, eq_refl k))
      (mem-selects kinds kind (ground (arith, h)))

-- Past the cursor, the loop keeps the entries of the kinds.
entries_since_zero :
    (after : ℕ) (kinds : List String) (n : ℕ) (es : List Entry)
    → after ≤ n
    → n + length es < 18446744073709551616
    → Numbered n es
    → entries_since kinds 0 es ≡ map project (filter (dec_selected after kinds) es)
unfolding entries_since
entries_since_zero after kinds n [] le room numbered = refl
entries_since_zero after kinds n (e ∷ es) le room (this, numbered) =
    let ih = entries_since_zero after kinds (n + 1) es (omega arith) (omega arith) numbered in
    elim (Bool-cases (selects kinds e.kind)) [
      | inl chosen ↦
          rw
            (
              chosen,
              if_pos (dec_selected after kinds e) (omega arith, selects-mem kinds e.kind chosen),
            )
            (ap (λ (es : List Entry). project e ∷ es) ih)
      | inr skipped ↦
          rw
            (
              skipped,
              if_neg (dec_selected after kinds e) (λ h. mem-selects kinds e.kind skipped h.1),
            )
            ih
    ]

entries_since-filter :
    (after k : ℕ) (kinds : List String) (n : ℕ) (es : List Entry)
    → after ≡ n + k
    → n + length es < 18446744073709551616
    → Numbered n es
    → entries_since kinds k es ≡ map project (filter (dec_selected after kinds) es)
unfolding entries_since
entries_since-filter after k kinds n [] cursor room numbered = refl
entries_since-filter after zero kinds n (e ∷ es) cursor room numbered =
    entries_since_zero after kinds n (e ∷ es) (omega arith) room numbered
entries_since-filter after (suc k) kinds n (e ∷ es) cursor room (this, numbered) =
    rw (if_neg (dec_selected after kinds e) (λ h. omega (arith, h.0, this)))
      (entries_since-filter after k kinds (n + 1) es (omega arith) (omega arith) numbered)

journal_since-append :
    (after : ℕ) (kinds : List String) (calls : List Call) (s : Store)
    → IsNumbered s
    → length s.journal < 18446744073709551616
    → after ≤ length s.journal
    → (journal_since after kinds s).0
        ++ (journal_since (journal_since after kinds s).1 kinds (perform_all calls s)).0
      ≡ (journal_since after kinds (perform_all calls s)).0
unfolding journal_since
journal_since-append after kinds calls s numbered few le =
    let ((added, kept), _) = perform_all-IsNumbered calls s numbered in
    let last : s.journal_sequence ≡ length s.journal = omega (arith, numbered.last) in
    rw (kept, last)
      (ap (λ (es : List Entry). entries_since kinds after s.journal ++ es)
          (entries_since_skip kinds s.journal added)
        ∙ sym (entries_since_append kinds after s.journal added le))

-- On a numbered store with fewer than 2^64 entries and a cursor that is not past them, JournalSince
-- gives, in the journal's order and each of them once, the entries whose sequence number is past
-- the cursor and whose kind is one of the kinds, as the projection shows them, and no others; and
-- these, followed by those past the returned cursor after any further task operations, are the
-- entries that it gives from the first cursor after those operations.
pub journal_since_resumes :
    (after : ℕ) (kinds : List String) (calls : List Call) (s : Store)
    → IsNumbered s
    → length s.journal < 18446744073709551616
    → after ≤ length s.journal
    → ((journal_since after kinds s).0 ≡ map project (filter (dec_selected after kinds) s.journal))
      × ((journal_since after kinds s).0
            ++ (journal_since (journal_since after kinds s).1 kinds (perform_all calls s)).0
          ≡ (journal_since after kinds (perform_all calls s)).0)
journal_since_resumes after kinds calls s numbered few le = (
  unfold journal_since in
      entries_since-filter after after kinds 0 s.journal (omega arith) (omega arith)
        numbered.entries,
  journal_since-append after kinds calls s numbered few le,
)
