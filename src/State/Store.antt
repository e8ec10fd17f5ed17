-- ===== src/State/Store.antt =====
-- internal/state/store.go: the store, its journal and the checks that every operation makes; and
-- validateTasks and commitTasks of tasks.go. `tick` counts the readings of the clock (appendEntry
-- reads it too). The context and the validator answer by it: they may change from one reading to
-- the next.
use grodt.Prelude.{
  ℕ, ◌+◌, String, Bool, true, false, Option, none, some, List, [], ◌≡◌, refl, ◌⊎◌, inl, inr, ◌∷◌,
  ◌++◌, u64,
}
use grodt.State.Types.{
  TaskId, Time, Task, Plan, Partition, Event, Metadata, AttemptSummary, HostWork, HostRequest,
}
use grodt.State.Records.{Records, record_at}

-- The messages of the errors, one constructor for each.
pub data Error : Type 0 where
  context_required context_done state_closed : Error
  validation_failed invalid_task_state : Error
  objective_required root_task_exists no_active_task pending_work : Error
  invalid_terminal_status invalid_task_activation : Error
  agent_work_requires_parent not_agent_work agent_work_out_of_order : Error
  invalid_agent_outcome invalid_agent_result missing_agent_outcome : Error
  not_reasoning_child no_active_objective active_execution_work : Error
  request_without_task conflicting_request : Error
  invalid_run_identity invalid_definition duplicate_definition default_limit invalid_default : Error
  host_budget invalid_source invalid_payload invalid_agent_observation : Error
  no_reasoning_task oversized_plan revision_conflict completed_plan_immutable : Error
  plan_satisfaction_claim evidence_unresolved invalid_step pending_step_with_evidence : Error
  completed_step_immutable step_satisfaction_claim removed_step_history : Error
  current_step_resolved current_step_missing plan_unresolved_steps : Error
  out_of_fuel : Error  -- no error of the code: a bounded loop that did not end

pub data Result {ℓ} (A : Type ℓ) : Type ℓ where
  ok : A → Result A
  err : Error → Result A

abbrev pub is_ok {ℓ} : {A : Type ℓ} → Result A → Bool
is_ok (ok a) = true
is_ok (err e) = false

pub Result-cases {ℓ} :
    {A : Type ℓ} (r : Result A) → ((a : A) × (r ≡ ok a)) ⊎ ((e : Error) × (r ≡ err e))
Result-cases (ok a) = inl (a, refl)
Result-cases (err e) = inr (e, refl)

pub record TaskState : Type 0 where
  pub records : Records
  pub stack : List TaskId  -- the top first; the source appends at the end

-- What `validation.Validator` says of a document: `failed` is an error of the validator itself.
pub data Verdict : Type 0 where
  valid invalid failed : Verdict

-- `context.Context`: a nil interface, or `Err() != nil` at each tick.
pub record Context : Type 0 where
  pub is_nil_context : Bool
  pub done : ℕ → Bool

-- context.WithoutCancel
abbrev pub without_cancel : Context → Context
without_cancel c = record c { done = λ n. false }

-- What `encode` puts into the data of an entry.
pub data Content : Type 0 where
  of_task : Task → Content
  of_cycles : ℕ → ℕ → Content  -- global_cycle, task_cycle
  of_attempt : AttemptSummary → Content
  of_event : Event → Content
  of_work : HostWork → Content
  of_request : HostRequest → Content
  of_metadata : Metadata → Content
  of_result : String → Metadata → Content
  of_code : String → Option ℕ → Content  -- code, attempt
  of_evaluation : String → String → Content  -- proposal, decision
  of_reconciliation : String → String → String → Content  -- accepted_evidence, proposed, error
  of_stage : String → String → String → Content  -- action, status, reason
  of_plan : Option Plan → Content  -- plan
  of_text : String → Content  -- raw JSON

pub record Entry : Type 0 where
  pub sequence : ℕ
  pub time : Time
  pub kind : String
  pub event_id : ℕ
  pub task_id : TaskId
  pub partition : String
  pub content : Content

-- `Entry{Kind: kind, TaskID: id, Data: content}`; appendEntry stamps the sequence and the time.
abbrev pub task_entry : String → TaskId → Content → Entry
task_entry kind id content = record {
  sequence = 0;
  time = 0;
  kind = kind;
  event_id = 0;
  task_id = id;
  partition = "";
  content = content;
}

pub record Store : Type 0 where
  pub started_at : Time
  pub host_executions : ℕ
  pub global_cycle : ℕ
  pub event_sequence : ℕ
  pub journal_sequence : ℕ
  pub tasks : TaskState
  pub knowledge : List (String × Partition)
  pub journal : List Entry
  pub task_sequence : ℕ
  pub closed : Bool
  pub host_exhausted : Bool
  pub now : ℕ → Time
  pub validator : ℕ → Context → TaskState → Verdict  -- Validate with the schema of the task state
  pub tick : ℕ

-- A method of `*Store`: what it did to the store stays done when it returns an error.
abbrev pub Op : Type 0 → Type 0
Op A = Store → Store × Result A

infixl 5 ◌>>=◌ ◌>>◌
abbrev pub ◌>>=◌ : {A B : Type 0} → Op A → (A → Op B) → Op B
◌>>=◌ m f s = let (s', r) = m s in elim r [ ok a ↦ f a s' | err e ↦ (s', err e) ]

abbrev pub ◌>>◌ : {A B : Type 0} → Op A → Op B → Op B
◌>>◌ m k s = let (s', r) = m s in elim r [ ok a ↦ k s' | err e ↦ (s', err e) ]

abbrev pub pure : {A : Type 0} → A → Op A
pure a s = (s, ok a)

abbrev pub raise : {A : Type 0} → Error → Op A
raise e s = (s, err e)

-- `if bad { return e }`
abbrev pub refuse : Bool → Error → Op Unit
refuse true e s = (s, err e)
refuse false e s = (s, ok tt)

-- `if test { ... }`
abbrev pub when : Bool → Op Unit → Op Unit
when true m = m
when false m = pure tt

-- `if test { ... } else { ... }`
abbrev pub choose : {A : Type 0} → Bool → Op A → Op A → Op A
choose true m n = m
choose false m n = n

-- `if err := ...; err != nil { return err }`
abbrev pub raise_if : Option Error → Op Unit
raise_if none = pure tt
raise_if (some e) = raise e

abbrev pub get : Op Store
get s = (s, ok s)

abbrev pub modify : (Store → Store) → Op Unit
modify f s = (f s, ok tt)

unfoldable pub read_clock : Op Time
read_clock s = (record s { tick = s.tick + 1 }, ok (s.now s.tick))

unfoldable pub append_entry : Entry → Op Unit
append_entry entry s =
    let n = u64 (s.journal_sequence + 1) in
    let stamped = record entry { sequence = n; time = s.now s.tick } in
    (
      record s { journal_sequence = n; journal = s.journal ++ stamped ∷ []; tick = s.tick + 1 },
      ok tt,
    )

unfoldable pub check : Context → Op Unit
check c = do
  refuse c.is_nil_context context_required
  s ← get
  refuse s.closed state_closed
  refuse (c.done s.tick) context_done

unfoldable pub validate_tasks : Context → TaskState → Op Unit
validate_tasks c tasks s = elim (s.validator s.tick c tasks) [
  | Verdict.valid ↦ (s, ok tt)
  | Verdict.invalid ↦ (s, err invalid_task_state)
  | Verdict.failed ↦ (s, err validation_failed)
]

unfoldable pub commit_tasks : Context → TaskState → String → TaskId → Op Unit
unfolding validate_tasks append_entry
commit_tasks c tasks kind id = do
  validate_tasks c tasks
  modify (λ s. record s { tasks = tasks })
  append_entry (task_entry kind id (of_task (record_at tasks.records id)))
