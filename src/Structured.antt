-- ===== src/Structured.antt =====
-- internal/structured/structured.go: Generate, the correction loop around one structured inference.
-- The provider (`infer`), the validator, encoding/json's `Valid` and the encoding of the feedback are
-- parameters: they may answer differently at each attempt, so they take its number.
pub mod Laws
use grodt.Prelude.{
  ℕ, zero, suc, ◌+◌, String, Bool, true, false, not, Option, none, some, ◌==◌, u64, if◌then◌else◌,
}

-- openai.Usage; an int64 stands as its bit pattern, so that a sum wraps as the source's does.
pub record Usage : Type 0 where
  pub prompt_tokens : ℕ
  pub completion_tokens : ℕ
  pub total_tokens : ℕ

pub data Failure : Type 0 where
  context_required context_done provider_failed not_valid_json validator_failed : Failure
  feedback_failed attempts_exhausted : Failure

-- What one call of `infer` returns: openai.JSONResult and an error.
pub record Candidate : Type 0 where
  pub json : String
  pub usage : Option Usage
  pub provider_error : Bool

pub data Checked : Type 0 where
  valid : Checked
  invalid : String → Checked  -- the details
  failed : Checked

-- What the code does not implement. `cancelled` is `ctx.Err() != nil` at the three polls of an attempt.
pub record World : Type 0 where
  pub context_given : Bool
  pub cancelled_before : ℕ → Bool
  pub cancelled_inferred : ℕ → Bool
  pub cancelled_validated : ℕ → Bool
  pub infer : ℕ → Option String → Candidate
  pub valid_json : String → Bool
  pub validate : ℕ → String → Checked
  pub feedback : String → String → Option String  -- candidate, details; `none` is an error

pub record Result : Type 0 where
  pub json : Option String
  pub usage : Option Usage
  pub requests : ℕ
  pub usage_requests : ℕ

abbrev pub max_structured_attempts : ℕ
max_structured_attempts = 5

abbrev pub empty : Result
empty = record { json = none; usage = none; requests = 0; usage_requests = 0 }

unfoldable pub add_usage : Option Usage → Usage → Usage
add_usage none u = u
add_usage (some t) u = record {
  prompt_tokens = u64 (t.prompt_tokens + u.prompt_tokens);
  completion_tokens = u64 (t.completion_tokens + u.completion_tokens);
  total_tokens = u64 (t.total_tokens + u.total_tokens);
}

-- The accounting of one candidate.
unfoldable pub account : Result → Option Usage → Result
unfolding add_usage
account r none = record r { requests = u64 (r.requests + 1) }
account r (some u) = record r {
  requests = u64 (r.requests + 1);
  usage_requests = u64 (r.usage_requests + 1);
  usage = some (add_usage r.usage u);
}

-- What the body of the loop does with the candidate of an attempt: it returns, or it goes on with
-- feedback.
pub data Step : Type 0 where
  stop : Result → Option Failure → Step
  again : Result → String → Step

unfoldable pub judge : World → ℕ → Result → String → Checked → Step
judge w attempt r json Checked.failed = stop r (some validator_failed)
judge w attempt r json Checked.valid = stop (record r { json = some json }) none
judge w attempt r json (Checked.invalid details) =
    if attempt + 1 == max_structured_attempts
    then stop r (some attempts_exhausted)
    else elim (w.feedback json details) [
      | none ↦ stop r (some feedback_failed)
      | some f ↦ again r f
    ]

unfoldable pub attempt_once : World → ℕ → Result → Option String → Step
unfolding account judge
attempt_once w attempt r feedback =
    if w.cancelled_before attempt
    then stop r (some context_done)
    else let candidate = w.infer attempt feedback in
      let r' = account r candidate.usage in
      if w.cancelled_inferred attempt
      then stop r' (some context_done)
      else if candidate.provider_error
      then stop r' (some provider_failed)
      else if not (w.valid_json candidate.json)
      then stop r' (some not_valid_json)
      else if w.cancelled_validated attempt
      then stop r' (some context_done)
      else judge w attempt r' candidate.json (w.validate attempt candidate.json)

-- The loop from an attempt on, with the rounds that are left.
unfoldable pub attempts : World → ℕ → ℕ → Result → Option String → Result × Option Failure
unfolding attempt_once
attempts w zero attempt r feedback = (r, some attempts_exhausted)
attempts w (suc left) attempt r feedback = elim (attempt_once w attempt r feedback) [
  | stop r' e ↦ (r', e)
  | again r' f ↦ attempts w left (attempt + 1) r' (some f)
]

unfoldable pub generate : World → Result × Option Failure
unfolding attempts
generate w =
    if w.context_given
    then attempts w max_structured_attempts 0 empty none
    else (empty, some context_required)
