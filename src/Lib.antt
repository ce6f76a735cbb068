-- ===== src/Lib.antt =====
-- Millrace: a runtime that takes work items through the stages of three planes (execution, planning
-- and learning). A compiled plan holds one graph for each plane. A stage ends with a terminal result,
-- which the runner reports as a marker; the runtime checks it against the stage's metadata and lets
-- the router decide what happens next.
--
-- Contracts: the enumerations of src/contracts/enums.rs (Contracts/Enums, and a module with `as_str`
-- and `from_value` for each enumeration whose text the runtime reads), the tables of
-- src/contracts/stage_metadata.rs (Contracts/StageMetadata, Contracts/StageOwnership), its parsers and
-- validators (Contracts/Validation), the plane of a queue item from src/workspace/queue_claims.rs, and
-- references to work items from src/contracts/work_refs.rs (Contracts/WorkRefs).
-- Runtime: the records of src/contracts/runtime_json.rs (Runtime/State) and the validation of a lane's
-- state (Runtime/LaneState), the compiled plan of
-- src/compiler/contracts.rs with the lookups of the router (Runtime/Plan), failure classes
-- (Runtime/FailureClass), and the graph router of src/runtime/tick.rs (Runtime/Router): the guard that
-- a result belongs to the active run, the routing on each plane, resume and threshold policies. Beside
-- it, from the same file: the foreground fields of the snapshot (Runtime/Foreground) and the pause
-- sources of usage governance (Runtime/Pause). Runtime/RecoveryCounters and Runtime/ActiveRuns are what
-- the same file does with a decision that runs a stage: the counters of the work item, the active run
-- of the plane, and the end of a run. Runtime/Lanes is src/runtime/lanes.rs, on the scheduler policy of
-- src/contracts/workflow_primitives.rs (Runtime/SchedulerPolicy), and Runtime/LaneDispatch is its test
-- whether a run may start on a lane. Runtime/Dispatch is the dispatch test of
-- src/runtime/supervisor.rs, and Runtime/FailurePolicy is src/runtime/failure_policy.rs.
-- Runtime/CapabilityGates is src/runtime/capability_gates.rs, on the grants of
-- src/contracts/capabilities.rs (Contracts/Capabilities), and Runtime/Approvals is src/runtime/approvals.rs.
-- Workspace: the directories of work items. Workspace/Files is a table of files, with the operations of
-- std::fs on it; Workspace/Queue is the moves of src/workspace/queue_store.rs (Queue/Operations: one for
-- each kind of item), and Workspace/QueueLifecycle is src/workspace/queue_lifecycle.rs, which applies
-- the end of a stage to the item it worked on.
-- Workspace/Claims is how a queued item becomes active, from src/workspace/queue_store.rs and
-- src/workspace/queue_claims.rs: the Markdown files of a directory (Claims/Listing), the quarantine of
-- an invalid document (Claims/Quarantine), the selection of the oldest eligible document (Claims/Select),
-- the claims of the three planes (Claims/Claim), and how documents come into a queue (Claims/Enqueue).
-- Workspace/Interventions is what an operator does to work items by hand, and Workspace/StaleState
-- whether the runtime's snapshot agrees with the active items, both from src/workspace/queue_store.rs.
-- Runtime/BlockedRecovery is the retry of a blocked task, from src/runtime/blocked_recovery.rs, with
-- the automatic retry in an idle cycle (BlockedRecovery/Auto), its search for a blocked task that strands
-- queued ones (BlockedRecovery/Stranded), the read-only search (BlockedRecovery/Find) and its reports
-- (BlockedRecovery/Diagnostics). What is kept of a blocked item, and read by a retry, is made from the stage
-- result that blocked it (BlockedRecovery/Metadata).
-- Base: lists, results, text and integers that both share.
--
-- The model. A fallible function returns a `Result`; `?` is a do block. An early return of the source
-- is a step that yields `some` result. A loop is structural recursion, but for two. The
-- search for a free name of a quarantined file has one step of fuel for each file of its directory and
-- one more, which is enough when the listing of the directory is complete. The loop of a claim makes
-- a round for each entry of a list of what other processes do between a selection and its rename, and
-- says that it `continues` if it has not returned by then; a round with which nothing interferes ends
-- it, as its rename finds the file. A
-- `HashMap<Plane, V>` is a table of three optional values (Runtime/PlaneMap), a `HashMap<String, V>` an
-- association list (Base/Dict). Unsigned counters are natural numbers, whose increment wraps round at
-- 2 ^ 64; the priority of a transition is an integer. The recovery counters, which the source loads
-- from a file and saves to it, are an argument and a result. The fingerprint of a compiled plan is a
-- parameter: it is a hash that third-party code computes. The metadata of a stage result is a function
-- from a key to the text of its JSON value, and another to its truth value. Records leave out fields that no modelled operation reads
-- or writes. A file is named by its directory and its file name; operations on files do not fail by
-- themselves, but for the record of a requeue of a blocked task, whose failure is an argument; and an
-- operation that reports an error keeps what it did to the files before. The texts of
-- audit records, which hold the time and are JSON, and the operations on documents that the lifecycle
-- calls, are parameters, and so are the runner's evaluation of a grant, the
-- approval of a grant that the gate asks for, and the identifier and the expiry of a new approval. The
-- listing of a directory, the decimal form of a number, the parsers, the validation and the printing of
-- documents, the claim of a Blueprint draft and the JSON of records are parameters too; what a theorem
-- relies on about them is a hypothesis of it.
--
-- Not modelled: the workspace's other files, runners, the command line, the compiler's materialization of
-- plans, serialization, and the application of decisions other than running a stage.
pub mod Base
pub mod Contracts
pub mod Runtime
pub mod Workspace
