-- ===== src/Workspace/Queue/Operations.antt =====
-- workspace/queue_store.rs: the operations on each kind of work item. `mark_task_done` is given what retires
-- a blocked duplicate of the task, which reads the tasks' documents.
use millrace_rs.Base.{String, ℕ, zero, Bool, true, false, Option, none, some, err, if◌then◌else◌}
use millrace_rs.Base.Text.{trim, is_blank}
use millrace_rs.Contracts.Enums.{WorkItemKind}
use millrace_rs.Workspace.Files.{
  Files, FileStep, FilePath, QueueStoreError, ◌>>=◌, pure, fail, append, appended,
}
use millrace_rs.Workspace.Queue.{
  WorkspacePaths, log_name, move_item, move_item_from_state, requeue_item,
}

unfoldable pub mark_task_done :
    WorkspacePaths → (String → FileStep (Option FilePath)) → String → FileStep FilePath
mark_task_done paths retire_stale_blocked_task_duplicate_after_done task_id = do
  destination ← move_item paths.tasks_active_dir paths.tasks_done_dir task_id WorkItemKind.task
  retire_stale_blocked_task_duplicate_after_done task_id >>= λ _. pure destination

unfoldable pub mark_task_blocked : WorkspacePaths → String → FileStep FilePath
mark_task_blocked paths task_id =
    move_item paths.tasks_active_dir paths.tasks_blocked_dir task_id WorkItemKind.task

unfoldable pub requeue_task :
    WorkspacePaths → (String → String → String) → String → String → FileStep FilePath
requeue_task paths record_line task_id reason =
    requeue_item record_line paths.tasks_active_dir paths.tasks_queue_dir task_id WorkItemKind.task
      reason

unfoldable pub mark_spec_done : WorkspacePaths → String → FileStep FilePath
mark_spec_done paths spec_id =
    move_item paths.specs_active_dir paths.specs_done_dir spec_id WorkItemKind.spec

unfoldable pub mark_spec_blocked : WorkspacePaths → String → FileStep FilePath
mark_spec_blocked paths spec_id =
    move_item paths.specs_active_dir paths.specs_blocked_dir spec_id WorkItemKind.spec

unfoldable pub requeue_spec :
    WorkspacePaths → (String → String → String) → String → String → FileStep FilePath
requeue_spec paths record_line spec_id reason =
    requeue_item record_line paths.specs_active_dir paths.specs_queue_dir spec_id WorkItemKind.spec
      reason

unfoldable pub mark_probe_done : WorkspacePaths → String → FileStep FilePath
mark_probe_done paths probe_id =
    move_item paths.probes_active_dir paths.probes_done_dir probe_id WorkItemKind.probe

unfoldable pub mark_probe_blocked : WorkspacePaths → String → FileStep FilePath
mark_probe_blocked paths probe_id =
    move_item paths.probes_active_dir paths.probes_blocked_dir probe_id WorkItemKind.probe

unfoldable pub requeue_probe :
    WorkspacePaths → (String → String → String) → String → String → FileStep FilePath
requeue_probe paths record_line probe_id reason =
    requeue_item record_line paths.probes_active_dir paths.probes_queue_dir probe_id
      WorkItemKind.probe reason

unfoldable pub mark_incident_resolved : WorkspacePaths → String → FileStep FilePath
mark_incident_resolved paths incident_id =
    move_item paths.incidents_active_dir paths.incidents_resolved_dir incident_id
      WorkItemKind.incident

unfoldable pub mark_incident_blocked : WorkspacePaths → String → FileStep FilePath
mark_incident_blocked paths incident_id =
    move_item paths.incidents_active_dir paths.incidents_blocked_dir incident_id
      WorkItemKind.incident

unfoldable pub requeue_incident :
    WorkspacePaths → (String → String → String) → String → String → FileStep FilePath
requeue_incident paths record_line incident_id reason =
    requeue_item record_line paths.incidents_active_dir paths.incidents_incoming_dir incident_id
      WorkItemKind.incident reason

unfoldable pub mark_learning_request_done : WorkspacePaths → String → FileStep FilePath
mark_learning_request_done paths learning_request_id =
    move_item paths.learning_requests_active_dir paths.learning_requests_done_dir
      learning_request_id WorkItemKind.learning_request

unfoldable pub mark_learning_request_blocked : WorkspacePaths → String → FileStep FilePath
mark_learning_request_blocked paths learning_request_id =
    move_item paths.learning_requests_active_dir paths.learning_requests_blocked_dir
      learning_request_id WorkItemKind.learning_request

unfoldable pub requeue_learning_request :
    WorkspacePaths → (String → String → String) → String → String → FileStep FilePath
requeue_learning_request paths record_line learning_request_id reason =
    requeue_item record_line paths.learning_requests_active_dir paths.learning_requests_queue_dir
      learning_request_id WorkItemKind.learning_request reason

is_zero : Option ℕ → Bool
is_zero (some zero) = true
is_zero _ = false

-- The first check of `validate_blocked_requeue_audit` that fails.
unfoldable pub audit_error : String → String → Option ℕ → Option String
unfolding is_zero
audit_error reason actor attempt_number =
    if is_blank (trim reason)
    then some "requeue reason is required"
    else if is_blank (trim actor)
    then some "requeue actor is required"
    else if is_zero attempt_number
    then some "requeue attempt_number must be >= 1"
    else none

abbrev pub fail_with : Option String → FileStep (Unit {0})
fail_with none = pure tt
fail_with (some message) = fail message

unfoldable pub validate_blocked_requeue_audit : String → String → Option ℕ → FileStep (Unit {0})
validate_blocked_requeue_audit reason actor attempt_number =
    fail_with (audit_error reason actor attempt_number)

-- How the record of a requeue cannot be made, or its log not be opened or written: with this error, after this part of it
-- was written, if the log was opened.
pub record AuditFailure : Type 0 where
  pub error : QueueStoreError
  pub written : Option String

abbrev pub with_part : Files → String → String → Option String → Files
with_part files directory name none = files
with_part files directory name (some part) = appended files directory name part

abbrev pub append_or_fail : Option AuditFailure → String → String → String → FileStep (Unit {0})
append_or_fail none directory name line files = append directory name line files
append_or_fail (some failure) directory name line files =
    (err failure.error, with_part files directory name failure.written)

unfoldable pub append_blocked_requeue_audit :
    Option AuditFailure
    → String
    → String
    → String
    → String
    → String
    → Option ℕ
    → FileStep (Unit {0})
append_blocked_requeue_audit failure line destination_dir task_id reason actor attempt_number =
    validate_blocked_requeue_audit reason actor attempt_number >>= λ _.
    append_or_fail failure destination_dir (log_name task_id) line

-- `line` is the audit record, which names also the failure class and who asked; `failure` tells if it cannot be appended.
unfoldable pub requeue_blocked_task :
    WorkspacePaths
    → Option AuditFailure
    → String
    → String
    → String
    → String
    → Option ℕ
    → FileStep FilePath
requeue_blocked_task paths failure line task_id reason actor attempt_number =
    validate_blocked_requeue_audit reason actor attempt_number >>= λ _.
    (move_item_from_state paths.tasks_blocked_dir paths.tasks_queue_dir task_id WorkItemKind.task
        "blocked"
      >>= λ destination.
          (append_blocked_requeue_audit failure line paths.tasks_queue_dir task_id reason actor
              attempt_number
            >>= λ _. pure destination))
