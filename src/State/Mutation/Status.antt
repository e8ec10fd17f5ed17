-- ===== src/State/Mutation/Status.antt =====
-- The status of a decoded result (decodeResult of internal/state/mutation.go).
use text.Mathlib.Text.{◌==◌ as str_eq}
use grodt.Prelude.{String, true, false, inl, inr, some, ◌≡◌, arith, Option-cases}
use grodt.State.Mutation.{
  ModuleResult, ModuleFields, decode_result, check_fields, read_members, no_fields, valid_mutation,
  Formats,
}

check_fields-status :
    (f : Formats) (fields : ModuleFields) (r : ModuleResult)
    → check_fields f fields ≡ some r
    → valid_mutation r.status fields ≡ true
unfolding check_fields
check_fields-status f fields r h = ground (arith, h)

decode_result-fields :
    (f : Formats) (raw : String) (r : ModuleResult)
    → decode_result f raw ≡ some r
    → (fields : ModuleFields) × (check_fields f fields ≡ some r)
unfolding decode_result
decode_result-fields f raw r h = elim (Option-cases (f.members raw)) [
  | inl absent ↦ absurd (ground (arith, h, absent))
  | inr (members, read) ↦ elim (Option-cases (read_members f no_fields members)) [
    | inl refused ↦ absurd (ground (arith, h, read, refused))
    | inr (fields, accepted) ↦ (fields, ground (arith, h, read, accepted))
  ]
]

-- A decoded result has one of the four statuses.
pub decode_result-processed :
    (f : Formats) (raw : String) (r : ModuleResult)
    → decode_result f raw ≡ some r
    → str_eq r.status "ignored" ≡ false
    → str_eq r.status "error" ≡ false
    → str_eq r.status "mutation" ≡ false
    → str_eq r.status "processed" ≡ true
decode_result-processed f raw r h ignored error mutation =
    let (fields, accepted) = decode_result-fields f raw r h in
    ground (arith, check_fields-status f fields r accepted, ignored, error, mutation)
