-- ===== src/Runtime/BlockedRecovery/Retry.antt =====
-- runtime/blocked_recovery.rs: a retry moves the blocked task to the queue, refreshes the depths of the queues in the
-- stored snapshot, and logs an event.
use millrace_rs.Base.{String, ℕ, ◌+◌, Option, none, some, length, filter, Result, ok, err, map_err}
use millrace_rs.Base.Text.{concat, trim}
use millrace_rs.Contracts.Enums.{Plane}
use millrace_rs.Runtime.PlaneMap
use millrace_rs.Runtime.LaneState.{RuntimeJsonError}
use millrace_rs.Runtime.State.{RuntimeSnapshot}
use millrace_rs.Workspace.Files.{Files, FileStep, StepOf, ◌>>=◌, pure, write, appended}
use millrace_rs.Workspace.Queue.{WorkspacePaths, document_name}
use millrace_rs.Workspace.Queue.Operations.{requeue_blocked_task}
use millrace_rs.Workspace.Claims.{Host}
use millrace_rs.Workspace.Claims.Listing.{is_markdown}
use millrace_rs.Runtime.BlockedRecovery.{
  Journal, RecoveryError, invalid_record, queue, Granted, RetryBlockedTaskRequest,
  BlockedTaskRequeueResult, retry_guards, validate_requeue_result,
}

module _ (host : Host) (journal : Journal) (paths : WorkspacePaths) where
  unfoldable pub count_markdown_files : Files → String → ℕ
  count_markdown_files files directory = length (filter is_markdown (host.read_dir files directory))

  unfoldable pub sync_plane_queue_depths : RuntimeSnapshot → RuntimeSnapshot
  sync_plane_queue_depths snapshot = record snapshot {
    queue_depths_by_plane =
        PlaneMap.insert
          (PlaneMap.insert
            (PlaneMap.insert snapshot.queue_depths_by_plane Plane.execution
              snapshot.queue_depth_execution)
            Plane.planning snapshot.queue_depth_planning)
          Plane.learning snapshot.queue_depth_learning;
  }

  unfoldable pub with_queue_depths : Files → RuntimeSnapshot → RuntimeSnapshot
  with_queue_depths files snapshot = sync_plane_queue_depths (record snapshot {
    queue_depth_execution = count_markdown_files files paths.tasks_queue_dir;
    queue_depth_planning =
        count_markdown_files files paths.specs_queue_dir
        + count_markdown_files files paths.probes_queue_dir
        + count_markdown_files files paths.incidents_incoming_dir;
    queue_depth_learning = count_markdown_files files paths.learning_requests_queue_dir;
    updated_at = journal.now;
  })

  abbrev pub loaded : Option String → Option RuntimeSnapshot
  loaded none = none
  loaded (some raw) = journal.snapshot_from_json raw

  abbrev pub saved : Files → Option String → Files
  saved files none = files
  saved files (some json) = write files paths.state_dir "runtime_snapshot.json" (some json)

  abbrev pub refreshed : Files → Option RuntimeSnapshot → Files
  refreshed files none = files
  refreshed files (some snapshot) =
      saved files (journal.snapshot_to_json (with_queue_depths files snapshot))

  -- What fails is passed over.
  unfoldable pub refresh_snapshot_queue_depths : Files → Files
  refresh_snapshot_queue_depths files =
      refreshed files (loaded (files paths.state_dir "runtime_snapshot.json"))

  abbrev tick : {A : Type 0} → (Files → Files) → A → StepOf RecoveryError A
  tick change a files = (ok a, change files)

  -- `?` on a result of the queue store.
  abbrev from_queue : {A : Type 0} → FileStep A → StepOf RecoveryError A
  from_queue step files = let (r, files') = step files in (map_err queue r, files')

  abbrev checked : Result RuntimeJsonError (Unit {0}) → StepOf RecoveryError (Unit {0})
  checked r files = (map_err invalid_record r, files)

  unfoldable pub write_runtime_event : String → StepOf RecoveryError (Unit {0})
  write_runtime_event line =
      tick (λ files. appended files paths.logs_dir "runtime_events.jsonl" (concat line "\n")) tt

  unfoldable pub requeue_result : RetryBlockedTaskRequest → Granted → BlockedTaskRequeueResult
  requeue_result request retry = record {
    task_id = request.task_id;
    source_path = concat paths.tasks_blocked_dir (concat "/" (document_name request.task_id));
    destination_path = concat paths.tasks_queue_dir (concat "/" (document_name request.task_id));
    source_state = "blocked";
    destination_state = "queue";
    actor = trim request.actor;
    auto = request.auto;
    reason = trim request.reason;
    failure_class = retry.failure_class;
    attempt_number = retry.attempt_number;
    diagnostics_path = request.diagnostics_path;
  }

  -- The part of `retry_blocked_task` after its guards.
  unfoldable pub requeue_guarded :
      RetryBlockedTaskRequest → Granted → StepOf RecoveryError BlockedTaskRequeueResult
  requeue_guarded request retry files =
      (from_queue (
            requeue_blocked_task paths (journal.requeue_failure request files)
              (concat (journal.requeue_record request retry.failure_class retry.attempt_number)
                "\n")
              request.task_id (trim request.reason) request.actor (some retry.attempt_number))
          >>= λ _.
              (tick refresh_snapshot_queue_depths tt >>= λ _.
              (checked (validate_requeue_result (requeue_result request retry)) >>= λ _.
              (write_runtime_event (journal.requeued_event (requeue_result request retry)) >>= λ _.
              pure (requeue_result request retry)))))
        files

  abbrev pub guarded :
      RetryBlockedTaskRequest
      → Result RecoveryError Granted
      → StepOf RecoveryError BlockedTaskRequeueResult
  guarded request (err e) files = (err e, files)
  guarded request (ok retry) files = requeue_guarded request retry files

  unfoldable pub retry_blocked_task :
      RetryBlockedTaskRequest → StepOf RecoveryError BlockedTaskRequeueResult
  retry_blocked_task request files =
      guarded request (retry_guards journal paths request files) files
