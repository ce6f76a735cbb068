-- ===== src/Runtime/Examples/Blocked.antt =====
-- A blocked task that is retried automatically.
use millrace_rs.Base.{
  String, ◌==◌, eq_iff, ◌≡◌, ◌≢◌, refl, ◌+◌, ◌≤◌, Bool-cases, inl, inr, true, false, none, some, [],
  ok, if◌then◌else◌, filter, arith,
}
use millrace_rs.Base.Text.{
  trim, is_whitespace, drop_start, drop_end, all_chars, is_ascii_alphanumeric,
}
use millrace_rs.Base.TextLines.{lines, ends_line}
use millrace_rs.Contracts.Enums.{WorkItemKind}
use millrace_rs.Contracts.WorkItemKind
use millrace_rs.Contracts.WorkRefs.{is_identifier_char, validate_safe_identifier}
use millrace_rs.Runtime.LaneState.{require_non_blank, require_optional_non_blank, validate_literal}
use millrace_rs.Runtime.RunnerFailureClass.{failure_class_allows_auto_requeue, runner_failure_class}
use millrace_rs.Runtime.BlockedRecovery.{
  Journal, BlockedOrigin, FailureScope, RetryBlockedTaskRequest, Granted, retry_guards,
  validate_blocked_task_locations, read_task_document, load_blocked_item_metadata, retry_metadata,
  count_auto_requeues, allows_auto_requeue, validate_requeue_result,
}
use millrace_rs.Runtime.BlockedRecovery.Retry.{
  retry_blocked_task, requeue_guarded, requeue_result, refresh_snapshot_queue_depths,
  write_runtime_event,
}
use millrace_rs.Runtime.BlockedRecovery.Requeued.{IsRetried, retry-eq-ok}
use millrace_rs.Runtime.BlockedRecovery.Budget.{JournalLaws, begin, retried, Retries-bounded}
use millrace_rs.Workspace.Files.{Files, ◌>>=◌, write, is_at, moved, appended}
use millrace_rs.Workspace.Samples.{paths, no_files}
use millrace_rs.Workspace.Queue.{move_if, move_item_from_state}
use millrace_rs.Workspace.Queue.Operations.{
  audit_error, validate_blocked_requeue_audit, append_blocked_requeue_audit, requeue_blocked_task,
}
use millrace_rs.Workspace.Claims.{Host}

abbrev pub host : Host
host = record {
  read_dir = λ files directory. [];
  decimal = λ n. "0";
  invalid_artifact_line = λ error name source. error;
}

abbrev pub journal : Journal
journal = record {
  parse_task = λ raw path. ok (record {
    task_id = raw;
    root_spec_id = none;
    spec_id = none;
    root_idea_id = none;
    depends_on = [];
    updated_at = none;
    created_at = "2026-01-01T00:00:00Z";
  });
  metadata_from_json = λ raw. some (record {
    work_item_kind = WorkItemKind.task;
    work_item_id = "a";
    root_spec_id = none;
    root_idea_id = none;
    blocked_origin = BlockedOrigin.runner_failure;
    failure_scope = FailureScope.provider;
    source_run_id = none;
    source_plane = none;
    source_stage = none;
    terminal_result = none;
    stage_result_path = none;
    stdout_path = none;
    stderr_path = none;
    blocked_at = "2026-01-01T00:00:00Z";
    failure_class = raw;
    auto_requeue_candidate = true;
    failure_classifier_code = none;
  });
  is_auto_record = λ line. line == "auto";
  requeue_failure = λ request files. none;
  requeue_record = λ request failure_class attempt. if request.auto then "auto" else "manual";
  requeued_event = λ result. "requeued";
  snapshot_from_json = λ raw. none;
  snapshot_to_json = λ snapshot. none;
  now = "2026-01-01T00:00:00Z";
}

journal-JournalLaws : JournalLaws journal
unfolding all_chars trim is_whitespace drop_start drop_end
journal-JournalLaws = record {
  one_line = λ request failure_class attempt. elim (Bool-cases request.auto) [
    | inl e ↦ rw e refl
    | inr e ↦ rw e refl
  ];
  not_blank = λ request failure_class attempt. elim (Bool-cases request.auto) [
    | inl e ↦ rw e refl
    | inr e ↦ rw e refl
  ];
  read_back = λ request failure_class attempt. elim (Bool-cases request.auto) [
    | inl e ↦ rw e refl
    | inr e ↦ rw e refl
  ];
}

abbrev pub files : Files
files =
    write (write no_files "tasks/blocked" "a.md" (some "a")) "runtime/diagnostics/blocked"
      "task-a.json" (some "runner_timeout")

abbrev pub request : RetryBlockedTaskRequest
request = record {
  task_id = "a";
  reason = "transient";
  actor = "runtime-daemon";
  auto = true;
  force = false;
  root_spec_id = none;
  diagnostics_path = none;
  max_auto_requeues_per_work_item = some 1;
}

abbrev granted : Granted
granted = record { failure_class = some "runner_timeout"; attempt_number = 1 }

retried_once : retry_blocked_task host journal paths request files ≡ (
  ok (requeue_result host journal paths request granted),
  (retry_blocked_task host journal paths request files).1,
)
unfolding retry_blocked_task retry_guards validate_blocked_task_locations read_task_document
    load_blocked_item_metadata retry_metadata count_auto_requeues allows_auto_requeue
    failure_class_allows_auto_requeue runner_failure_class validate_requeue_result requeue_guarded
    requeue_result refresh_snapshot_queue_depths write_runtime_event requeue_blocked_task
    append_blocked_requeue_audit validate_blocked_requeue_audit audit_error move_if
    move_item_from_state moved appended write is_at trim is_whitespace drop_start drop_end lines
    filter require_non_blank require_optional_non_blank validate_literal validate_safe_identifier
    is_identifier_char is_ascii_alphanumeric all_chars WorkItemKind.as_str ◌>>=◌
retried_once = refl

differ : {a b : String} → (a == b) ≡ false → a ≢ b
differ {a} {b} h e = let k : (a == b) ≡ true = (eq_iff a b).1 e in ground arith

retries_bounded_example : count_auto_requeues journal paths "a" files + 1 ≤ 1
unfolding count_auto_requeues lines ends_line write is_at filter
retries_bounded_example =
    Retries-bounded host journal paths journal-JournalLaws (differ refl) (differ refl) "a" 1 files
      (retry_blocked_task host journal paths request files).1 1 refl (omega arith)
      (retried request (requeue_result host journal paths request granted) begin refl refl refl refl
        retried_once)

retried_example :
    IsRetried journal paths request files (retry_blocked_task host journal paths request files).1
retried_example =
    retry-eq-ok host journal paths request files
      (retry_blocked_task host journal paths request files).1
      (requeue_result host journal paths request granted) (differ refl) (differ refl) retried_once
