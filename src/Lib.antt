-- ===== src/Lib.antt =====
-- grodt runs an objective through a tree of tasks: an outer command drives cycles, each cycle passes a
-- working set through a chain of providers, and a store keeps the tasks, their plans, the knowledge of
-- the partitions and a journal. An event is broadcast to the partitions' modules, whose requests the host
-- executes over HTTP as tasks. This library models the store with its tasks, plans, evidence, admission
-- of events and host work, the patches, reconciliations and acceptance of plans, structured generation and
-- the provider chain.
--
-- Files and the code they are about:
--   State/Types      internal/state/types.go, the types of plan.go and attempt.go
--   State/Records    the maps of the package, as association lists
--   State/Store      internal/state/store.go (appendEntry, check), tasks.go (validateTasks, commitTasks);
--                    a method of *Store is an `Op`, a function from a store to a store and a result
--   State/Tasks      internal/state/tasks.go (Push, Active, BeginCycle, Complete, finish, End), host.go
--                    (pendingChild, activate); State/Tasks/... the invariant and each operation's laws
--   State/Attempt    internal/state/attempt.go (beginAttempt, FinishAttempt)
--   State/AgentWork  internal/state/agent.go, but for AdmitAgentOutcome, which is in State/Drain; Batch, Queue
--                    and Outcome are its laws, Rounds those of the attempts that its batches begin
--   State/HostWork   internal/state/host.go (sameRequest, existingRequest, checkRequests, queueRequests)
--   State/Mutation   internal/state/mutation.go (decodeResult, apply); Status is about its statuses
--   State/Http       internal/state/http.go (checkHTTPURL, executeHTTP)
--   State/Admission  internal/state/store.go (admit with its broadcast, fail); Quiet, Queued and Broadcast
--                    are about the tasks, Touch, Moves (what an answer may do to a
--                    partition), Replies and Partitions about the partitions
--   State/Turns      how many turns of drainHostWork's loop a task can still take
--   State/Drain      internal/state/host.go (drainHostWork), store.go (Admit), agent.go
--                    (AdmitAgentOutcome); Turn, Execute, Finishes and Admit are the laws of the loop
--   State/Reports    internal/state/store.go (Diagnostic, RecordToolRecovery, RecordPlanningStage),
--                    plan.go (RecordReconciliation)
--   State/Opening    internal/state/store.go (New)
--   State/Evidence   internal/state/plan.go (ResolveEvidence)
--   State/Plan       internal/state/plan.go: Fields (boundedText, validPlanStatus, validGaps), Cursor
--                    (AdvanceCurrentStep, NormalizeCurrentStep), Steps and Check (CheckPlan), Revise
--                    (RevisePlan, AbandonChild, RecordPlanEvaluation, CompleteObjective)
--   State/Reach      the operations above in any order, from New's empty store
--   State/Journal    the journal under those operations; internal/state/store.go (JournalSince)
--   Structured       internal/structured/structured.go (Generate)
--   Loop/Process     internal/loop/loop.go (Process)
--   Loop/Gate        internal/loop/plan_gate.go, plan_patch.go (requireSnapshotSteps)
--   Loop/Intent      internal/loop/plan_intent.go (intentPlan, planIntentChanges)
--   Loop/Patch       internal/loop/plan_patch.go (applyPlanPatch)
--   Loop/Planning    internal/loop/planning.go (validatePlanCommand, acceptPlan, acceptPlanWithContext,
--                    acceptReconciliationPlan, managePlan: Manage), plan_intent.go
--                    (validatePlanIntent); Claims, Children, Shape and Commands are their laws
--   Loop/Reconciliation  internal/loop/result_accounting.go (Accounting), reconciliation.go
--                    (reconciliationPlan: Proposal)
--   Scenarios        concrete stores, plans and providers, with tests
--   Prelude          shared names, tests on numbers and texts, lists
--
-- Representation. A task id `<run>/task/<n>` is its number n, the empty id is 0. The stack is written
-- top first. Numbers are the native naturals; a uint64 that is counted up wraps at 2^64. A slice whose
-- nil value the code can tell from an empty one is an Option of a list. The copies that Snapshot makes
-- by encoding are the values themselves, except in RevisePlan, whose copy turns an empty slice to nil.
-- The clock, the context and the schema validator are functions of a tick that a reading of the clock
-- advances; appendEntry reads it too, and a call of a module or of the HTTP client is a tick of its own,
-- so that each call may answer differently. JSON decoding and encoding, the JSON patch library, the
-- merge of a patch's fields, net/url and net/http are parameters (State/Mutation `Formats`, State/Http
-- `HttpStack`, State/Admission `World`, Loop/Patch `Merge`), as are the modules and the evaluators
-- (Loop/Planning `Evaluators`, with the rest of managePlan's calls in Loop/Planning/Manage `Planner`).
--
-- Fuel. The loop of CompleteObjective closes a task at each turn; it is run with one turn more than the
-- stack has tasks. The loop of drainHostWork is run with one turn more than the turns that the stored
-- tasks can take (three for a pending one) and that the executions left in the budget of 32 can add: an
-- execution is a turn, and each definition can queue 8 tasks for its event. Generate's loop has its own bound of five attempts. All other loops are structural.
--
-- Not modelled: projections, the capture of an actor's stated plan, the correction loop of the
-- reconciliation and the tool turns, contracts, and the command; Close and the WASM host of the modules,
-- the clients of network services, configuration and schema validation, which call libraries.
pub mod Prelude
pub mod State
pub mod Structured
pub mod Loop
pub mod Scenarios
