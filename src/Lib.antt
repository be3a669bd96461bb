-- ===== src/Lib.antt =====
-- Legator is a control plane for fleets of probes: operators and agents submit commands, the
-- dangerous ones wait for human approval, runners are moved through their lifecycle by short-lived
-- run tokens, and every probe checks a command once more before it runs it. This library models
-- that chain of decisions.
--
-- The parts and the files that model them:
-- Protocol: the command payload (internal/protocol/messages.go).
-- Approval: the approval queue (internal/controlplane/approval/queue.go). Approval/Request has
--   Request, Decision and the part of Decide that changes a request; Approval/Queue has NewQueue,
--   SubmitWithPolicyDetailsAndOptions (submit), SubmitWithWorkspaceAndOptions, Decide, Get and
--   evictExpiredLocked (evict_expired); Approval/Sort has sortRequestsByTime; Approval/Listing has
--   Pending (list_pending), PendingCount, All, PendingByWorkspace and AllByWorkspace;
--   Approval/Workspace has GetCheckWorkspace; Approval/Risk has ClassifyRisk and NeedsApproval. The
--   files Quorum, History, Persists, Finality, Deciding and Repeated prove properties.
-- TokenBroker: the broker of run tokens (internal/controlplane/tokenbroker). TokenBroker/Store
--   has the store's three statements over an interface of a token table; TokenBroker/Model the data
--   and the scopes; TokenBroker/Broker has Validate and Revoke; TokenBroker/Issue has Issue;
--   TokenBroker/Memory fills the interface.
-- Runner: the runner manager (internal/controlplane/runner/manager.go), a client of the broker.
--   Runner/Model has the data and the tables, Runner/Requests the requests to the broker,
--   Runner/Manager the operations, Runner/Calls the sequences of calls, Runner/Spent the row of
--   the token behind a call.
-- Executor: the probe's own gate (internal/probe/executor: classifier.go, executor.go,
--   adapter.go). Executor/Tables and Executor/Classifier have ClassifyCommand, Executor/Spec
--   buildExecSpec, Executor/Gate effectiveLevel, isBlocked, isAllowed and Execute up to the start
--   of the process.
-- Tracker: commands in flight (internal/controlplane/cmdtracker/tracker.go), with the channels
--   that callers wait on.
-- RateLimit: the limits on runs (internal/shared/ratelimit/ratelimit.go). RateLimit/Limiter has
--   the operations, RateLimit/Window the limits, RateLimit/Counting the counters over sequences of
--   calls.
-- Jobs: asynchronous commands (internal/controlplane/jobs: async_types.go, async_store.go,
--   async_manager.go, async_scheduler.go). Jobs/State has the states and their table, Jobs/Row
--   what each statement of the store does to the row of one job, Jobs/Table the statements on the
--   whole table, Jobs/Drain the limits, the claim and the drain of the queue, Jobs/Scheduler the
--   dispatch of one job and the admission of new ones. The lemmas of Jobs/Runs on the limits stand
--   in Jobs/Counting, Jobs/Claiming, Jobs/Limits and Jobs/InFlight, those on the queue in
--   Jobs/Depth. A statement is one step that only a constraint can make fail, and a call of the
--   scheduler is one step, as its mutex makes it. The order of a listing, the clock, the
--   dispatcher and the cut of an output are parameters.
-- Sandbox: the transition tables of sandbox sessions and tasks (internal/controlplane/sandbox:
--   model.go, task.go), in Sandbox/Session and Sandbox/Task.
-- Policy: what the control plane makes of a command (internal/controlplane/core/approvalpolicy:
--   capacity_policy.go, service.go; internal/controlplane/policy: templates.go, validation.go).
--   Policy/Commands has its own classifier with its own tables, which Policy/Classifier compares
--   with the probe's, Policy/Profile the profile that is used for a probe, Policy/Lane and
--   Policy/Gating the lane and the gate, Policy/Capacity, Policy/Decision and Policy/Evaluate the
--   evaluation by lane, risk and capacity signals, Policy/Outcome, Policy/Demands and
--   Policy/Verdict what comes out of it. Policy/Service and Policy/Submitting have the submission
--   to the approval queue and the application of a template, Policy/Dispatch, Policy/Dispatching
--   and Policy/Once a decision and the dispatch of the command that it approves. A float64 is a
--   value of a type with the comparisons that the code makes; hooks, dispatch, fleet and template
--   store are parameters.
-- Audit: the log of events and its chain of signed entries (internal/controlplane/audit: audit.go,
--   chain.go, store.go). Audit/Event has an event, its hash and the log in memory, Audit/Store the
--   table with Record, VerifyChain and Purge. Audit/ReadBack reads an event back from its row,
--   Audit/Linked describes a chain without VerifyChain's loop, Audit/Chained has the chain that
--   Record leaves, Audit/Purged what Purge makes of it. JSON, times as texts, HMAC and the order
--   of texts are one record of operations, a parameter.
--   Unlike elsewhere, a time here is an instant with the offset of its location.
--
-- Conventions. An operation takes the state and returns the new state with its result. A Go error
-- is a constructor of the component's Error. The clock's readings, new ids and random texts are
-- arguments, and so is the lower-casing of a character where Unicode's tables decide it. A map is an
-- association list, and the order of iteration is that of the list. Times are numbers of
-- nanoseconds. An operation that holds its mutex is one step; sequences of steps are lists of calls,
-- so an interleaving of goroutines is such a list.
--
-- Bounds. No fuel is used: loops are recursions on the list or on the number of attempts
-- (max_attempts of Issue). Counts and times are natural numbers without an upper bound: the counts
-- are of entries and calls, and the times are far below the limit of 64 bits.
--
-- Not modelled: WaitForDecision and the goroutine of the reaper (their step evict_expired is),
-- NewBroker and NewManager with their defaults, SQLite (for run tokens an interface with the laws of
-- a primary key and of an UPDATE, for jobs and audit events the rows themselves), JSON and log
-- output, HTTP handlers, and the parts of the program that are not named above.
pub mod Common
pub mod Protocol
pub mod Approval
pub mod TokenBroker
pub mod Runner
pub mod Audit
pub mod Executor
pub mod Jobs
pub mod Policy
pub mod RateLimit
pub mod Sandbox
pub mod Tracker
