-- ===== src/State/Plan/Fields.antt =====
-- The field checks of CheckPlan (internal/state/plan.go) and namePattern of store.go.
use Prim.Native.String.{len}
use grodt.Prelude.{ℕ, String, Bool, true, false, not, ◌&&◌, ◌||◌, List, length, all, leb, ◌==◌}
use grodt.State.Types.{PlanStatus}
use grodt.State.Tasks.{is_blank}
use grodt.State.Evidence.{codes}

-- `^[A-Za-z0-9_-]{1,64}$`
abbrev pub is_name_char : ℕ → Bool
is_name_char c =
    (leb b'A' c && leb c b'Z')
    || (leb b'a' c && leb c b'z')
    || (leb b'0' c && leb c b'9')
    || c == b'_'
    || c == b'-'

unfoldable pub matches_name : String → Bool
matches_name name =
    let cs = codes name in leb 1 (length cs) && leb (length cs) 64 && all is_name_char cs

unfoldable pub bounded_text : String → Bool → Bool
unfolding is_blank
bounded_text text required = leb (len text) 512 && (not required || not (is_blank text))

abbrev pub valid_plan_status : PlanStatus → Bool
valid_plan_status (PlanStatus.other text) = false
valid_plan_status _ = true

abbrev pub is_satisfied : PlanStatus → Bool
is_satisfied PlanStatus.satisfied = true
is_satisfied _ = false

abbrev pub is_invalidated : PlanStatus → Bool
is_invalidated PlanStatus.invalidated = true
is_invalidated _ = false

-- The statuses that a later revision may not rewrite.
abbrev pub is_settled : PlanStatus → Bool
is_settled s = is_satisfied s || is_invalidated s

abbrev pub is_pending_step : PlanStatus → Bool
is_pending_step PlanStatus.pending = true
is_pending_step _ = false

abbrev pub is_open : PlanStatus → Bool
is_open PlanStatus.pending = true
is_open PlanStatus.active = true
is_open PlanStatus.partial = true
is_open _ = false

unfoldable pub valid_gaps : List String → Bool
unfolding bounded_text
valid_gaps gaps = leb (length gaps) 8 && all (λ g. bounded_text g true) gaps
