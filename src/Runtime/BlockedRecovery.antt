-- ===== src/Runtime/BlockedRecovery.antt =====
-- runtime/blocked_recovery.rs, with its records in contracts/runtime_json.rs: when a blocked task may be queued again.
-- JSON is read and written by third-party code: a parameter. Counters stay far below 2 ^ 64.
pub mod Retry
pub mod Requeued
pub mod Metadata
pub mod Persisted
pub mod Budget
pub mod Stranded
pub mod Diagnostics
pub mod Find
pub mod Dependents
pub mod FindSame
pub mod StrandedSound
pub mod Auto
pub mod AutoTask
pub mod AutoSafe
use millrace_rs.Base.{
  String, ◌==◌, ℕ, ◌+◌, Bool, true, false, not, ◌&&◌, ◌||◌, Option, none, some, is_some, or_else,
  unwrap_or, List, length, filter, leb, if◌then◌else◌, Result, ok, err, ◌>>=◌, map_err,
}
use millrace_rs.Base.Text.{concat, trim, is_blank}
use millrace_rs.Base.TextLines.{lines}
use millrace_rs.Contracts.Enums.{WorkItemKind}
use millrace_rs.Contracts.WorkItemKind
use millrace_rs.Contracts.WorkRefs.{validate_safe_identifier}
use millrace_rs.Runtime.FailureClassifierCode.{FailureClassifierCode}
use millrace_rs.Runtime.LaneState.{
  RuntimeJsonError, lift_contract, validate_literal, invalid_field, require_non_blank,
  require_optional_non_blank,
}
use millrace_rs.Runtime.RunnerFailureClass.{failure_class_allows_auto_requeue}
use millrace_rs.Runtime.State.{RuntimeSnapshot, Timestamp}
use millrace_rs.Workspace.Files.{Files, QueueStoreError}
use millrace_rs.Workspace.Queue.Operations.{AuditFailure}
use millrace_rs.Workspace.Queue.{WorkspacePaths, document_name, log_name}
use millrace_rs.Workspace.Claims.Documents.{TaskDocument, effective_root_spec_task}

pub data BlockedOrigin : Type 0 where
  stage_terminal runner_failure runtime_capability_gate runtime_exception operator unknown :
      BlockedOrigin

pub data FailureScope : Type 0 where
  environment provider local_configuration contract runtime_policy semantic unknown : FailureScope

pub record BlockedItemMetadata : Type 0 where
  pub work_item_kind : WorkItemKind
  pub work_item_id : String
  pub root_spec_id : Option String
  pub root_idea_id : Option String
  pub blocked_at : Timestamp
  pub blocked_origin : BlockedOrigin
  pub failure_class : String
  pub failure_scope : FailureScope
  pub auto_requeue_candidate : Bool
  pub failure_classifier_code : Option FailureClassifierCode
  pub source_run_id : Option String
  pub source_plane : Option String
  pub source_stage : Option String
  pub terminal_result : Option String
  pub stage_result_path : Option String
  pub stdout_path : Option String
  pub stderr_path : Option String

unfoldable pub allows_auto_requeue : BlockedItemMetadata → Bool
allows_auto_requeue metadata =
    metadata.auto_requeue_candidate && failure_class_allows_auto_requeue metadata.failure_class

abbrev pub blocked_metadata_allows_auto_requeue : Option BlockedItemMetadata → Bool
blocked_metadata_allows_auto_requeue none = false
blocked_metadata_allows_auto_requeue (some metadata) = allows_auto_requeue metadata

pub record BlockedTaskRequeueResult : Type 0 where
  pub task_id : String
  pub source_path : String
  pub destination_path : String
  pub source_state : String
  pub destination_state : String
  pub actor : String
  pub auto : Bool
  pub reason : String
  pub failure_class : Option String
  pub attempt_number : ℕ
  pub diagnostics_path : Option String

abbrev at_least_one : ℕ → Result RuntimeJsonError (Unit {0})
at_least_one attempt_number =
    if leb 1 attempt_number then ok tt else err (invalid_field "attempt_number" "must be >= 1")

unfoldable pub validate_requeue_result :
    BlockedTaskRequeueResult → Result RuntimeJsonError (Unit {0})
validate_requeue_result r = do
  _ ← lift_contract (validate_safe_identifier r.task_id "task_id")
  _ ← require_non_blank "source_path" r.source_path
  _ ← require_non_blank "destination_path" r.destination_path
  _ ← validate_literal "source_state" r.source_state "blocked"
  _ ← validate_literal "destination_state" r.destination_state "queue"
  _ ← require_non_blank "actor" r.actor
  _ ← require_non_blank "reason" r.reason
  _ ← require_optional_non_blank "failure_class" r.failure_class
  _ ← require_optional_non_blank "diagnostics_path" r.diagnostics_path
  at_least_one r.attempt_number

-- `RuntimeTickError`: the cases that recovery raises, the texts of third-party errors left out. `invalid_record` is an `InvalidState` with the text of the error,
-- and `io` and `work_document` have the file's directory and name.
pub data RecoveryError : Type 0 where
  invalid_state : String → RecoveryError
  invalid_record : RuntimeJsonError → RecoveryError
  queue : QueueStoreError → RecoveryError
  state_store : RecoveryError
  time : String → RecoveryError
  io : String → String → RecoveryError
  work_document : String → String → String → RecoveryError

-- A request without a budget of its own has `DEFAULT_MAX_AUTO_REQUEUES_PER_WORK_ITEM`.
pub record RetryBlockedTaskRequest : Type 0 where
  pub task_id : String
  pub reason : String
  pub actor : String
  pub auto : Bool
  pub force : Bool
  pub root_spec_id : Option String
  pub diagnostics_path : Option String
  pub max_auto_requeues_per_work_item : Option ℕ

-- What is read and written as JSON, the parser of tasks, whether the record of a requeue can be appended, and the time. `is_auto_record` tells whether a line is an object
-- whose field `auto` is true.
pub record Journal : Type 0 where
  pub parse_task : String → String → Result String TaskDocument
  pub metadata_from_json : String → Option BlockedItemMetadata
  pub is_auto_record : String → Bool
  pub requeue_failure : RetryBlockedTaskRequest → Files → Option AuditFailure
  pub requeue_record : RetryBlockedTaskRequest → Option String → ℕ → String
  pub requeued_event : BlockedTaskRequeueResult → String
  pub snapshot_from_json : String → Option RuntimeSnapshot
  pub snapshot_to_json : RuntimeSnapshot → Option String
  pub now : Timestamp

-- What the guards of a retry find out.
pub record Granted : Type 0 where
  pub failure_class : Option String
  pub attempt_number : ℕ

-- `return Err(invalid_state(...))` unless the test passes.
abbrev pub require : Bool → String → Result RecoveryError (Unit {0})
require true message = ok tt
require false message = err (invalid_state message)

module _ (journal : Journal) (paths : WorkspacePaths) where
  abbrev metadata_of : Option String → Option BlockedItemMetadata
  metadata_of none = none
  metadata_of (some raw) = journal.metadata_from_json raw

  -- A missing or malformed file gives none.
  unfoldable pub load_blocked_item_metadata :
      WorkItemKind → String → Files → Option BlockedItemMetadata
  load_blocked_item_metadata kind item_id files = metadata_of (
      files (concat paths.runtime_root "/diagnostics/blocked")
        (concat (WorkItemKind.as_str kind) (concat "-" (concat item_id ".json"))))

  abbrev not_in : Files → String → String → String → Result RecoveryError (Unit {0})
  not_in files directory task_id state =
      require (not (is_some (files directory (document_name task_id))))
        (concat "task " (concat task_id (concat " is already " state)))

  unfoldable pub validate_blocked_task_locations : String → Files → Result RecoveryError (Unit {0})
  validate_blocked_task_locations task_id files = do
    _ ←
        require (is_some (files paths.tasks_blocked_dir (document_name task_id)))
          (concat "task " (concat task_id " is not blocked"))
    _ ← not_in files paths.tasks_queue_dir task_id "queue"
    _ ← not_in files paths.tasks_active_dir task_id "active"
    not_in files paths.tasks_done_dir task_id "done"

  abbrev parsed : String → String → Option String → Result RecoveryError TaskDocument
  parsed directory name none = err (io directory name)
  parsed directory name (some raw) =
      map_err (work_document directory name)
        (journal.parse_task raw (concat directory (concat "/" name)))

  unfoldable pub read_task_document : String → String → Files → Result RecoveryError TaskDocument
  read_task_document directory name files = parsed directory name (files directory name)

  abbrev pub counts : String → Bool
  counts line = not (is_blank (trim line)) && journal.is_auto_record line

  abbrev pub count_in : Option String → ℕ
  count_in none = 0
  count_in (some raw) = length (filter counts (lines raw))

  unfoldable pub count_auto_requeues : String → Files → ℕ
  count_auto_requeues task_id files = count_in (files paths.tasks_queue_dir (log_name task_id))

  abbrev belongs : String → Option String → Option String → Result RecoveryError (Unit {0})
  belongs task_id none task_root = ok tt
  belongs task_id (some root) task_root =
      require (is_some task_root && unwrap_or task_root "" == root)
        (concat "blocked task " (concat task_id (concat " does not belong to root spec " root)))

  abbrev failure_class_of : Option BlockedItemMetadata → Option String
  failure_class_of none = none
  failure_class_of (some metadata) = some metadata.failure_class

  unfoldable pub retry_metadata : RetryBlockedTaskRequest → Files → Option BlockedItemMetadata
  retry_metadata request = load_blocked_item_metadata WorkItemKind.task request.task_id

  abbrev pub budget : RetryBlockedTaskRequest → ℕ
  budget request = unwrap_or request.max_auto_requeues_per_work_item 3

  -- The checks of `retry_blocked_task` before it moves the task.
  unfoldable pub retry_guards : RetryBlockedTaskRequest → Files → Result RecoveryError Granted
  retry_guards request files = do
    _ ← require (not (is_blank (trim request.reason))) "requeue reason is required"
    _ ← validate_blocked_task_locations request.task_id files
    task ← read_task_document paths.tasks_blocked_dir (document_name request.task_id) files
    _ ← belongs request.task_id request.root_spec_id (effective_root_spec_task task)
    _ ←
        require
          (request.force || blocked_metadata_allows_auto_requeue (retry_metadata request files))
          "blocked task is not retryable; rerun with --force to override"
    _ ←
        require
          (request.force || not (leb (budget request) (count_auto_requeues request.task_id files)))
          "blocked task retry budget is exhausted"
    ok (record {
      failure_class = failure_class_of (retry_metadata request files);
      attempt_number = count_auto_requeues request.task_id files + 1;
    })
