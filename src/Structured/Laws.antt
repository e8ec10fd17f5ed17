-- ===== src/Structured/Laws.antt =====
-- Generate of internal/structured/structured.go: its calls, its account and its result.
use grodt.Prelude.{ℕ, suc, ◌≤◌, ◌<◌, String, true, ◌↔◌, Option, none, some, ◌≡◌, is_some}
use grodt.Structured.{Failure, Checked, World, Result, Step, stop, again, attempts_exhausted}

-- The JSON of a result was valid against the schema at some attempt.
abbrev pub Validated : World → String → Type 0
Validated w json =
    (k : ℕ) × (k < 5) × (w.validate k json ≡ Checked.valid) × (w.valid_json json ≡ true)

-- What holds when the loop returns, after `used` calls.
pub record IsReturned (w : World) (out : Result × Option Failure) : Type 0 where
  pub few_requests : out.0.requests ≤ 5
  pub covered : out.0.usage_requests ≤ out.0.requests
  pub published : (is_some out.0.json ≡ true) ↔ (out.1 ≡ none)
  pub exhausted : out.1 ≡ some attempts_exhausted → out.0.requests ≡ 5
  pub checked : (json : String) → out.0.json ≡ some json → Validated w json

-- Before attempt k: k calls, none published.
record Before (k : ℕ) (r : Result) : Type 0 where
  requests : r.requests ≡ k
  covered : r.usage_requests ≤ r.requests
  unpublished : r.json ≡ none

abbrev After : World → ℕ → Step → Type 0
After w k (stop r e) = IsReturned w (r, e)
After w k (again r f) = Before (suc k) r × (suc k < 5)
