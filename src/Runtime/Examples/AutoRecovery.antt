-- ===== src/Runtime/Examples/AutoRecovery.antt =====
-- A queued task waits for a blocked one, which the daemon retries.
use millrace_rs.Base.{
  String, ◌==◌, ◌≡◌, refl, true, none, some, is_some, [], ◌∷◌, ok, if◌then◌else◌, filter, any,
}
use millrace_rs.Base.Dict.{lookup, insert}
use millrace_rs.Base.Oldest.{oldest, sort_with, insert_by}
use millrace_rs.Base.Sort.{sort_by, insert_sorted}
use millrace_rs.Base.Text.{
  trim, is_whitespace, drop_start, drop_end, all_chars, is_ascii_alphanumeric,
}
use millrace_rs.Base.TextLines.{lines}
use millrace_rs.Contracts.WorkItemKind
use millrace_rs.Contracts.WorkRefs.{is_identifier_char, validate_safe_identifier}
use millrace_rs.Runtime.LaneState.{require_non_blank, require_optional_non_blank, validate_literal}
use millrace_rs.Runtime.PlaneMap
use millrace_rs.Runtime.PlaneMap.{is_empty, insert as put}
use millrace_rs.Runtime.State.{RuntimeSnapshot}
use millrace_rs.Runtime.RunnerFailureClass.{failure_class_allows_auto_requeue, runner_failure_class}
use millrace_rs.Runtime.BlockedRecovery.{
  Journal, BlockedTaskRequeueResult, retry_guards, validate_blocked_task_locations,
  read_task_document, load_blocked_item_metadata, retry_metadata, count_auto_requeues,
  allows_auto_requeue, validate_requeue_result, Granted,
}
use millrace_rs.Runtime.BlockedRecovery.Retry.{
  retry_blocked_task, requeue_guarded, requeue_result, refresh_snapshot_queue_depths,
  write_runtime_event, count_markdown_files, with_queue_depths, sync_plane_queue_depths,
}
use millrace_rs.Runtime.BlockedRecovery.Stranded.{
  validate_metadata, validate_dependents, validate_dependency, insert_id, add_dependent,
  add_candidate, read_task_document_or_none, markdown_stems, over_dependencies, over_queued,
  build_auto_recovery_candidate, find_auto_recovery_candidate, AutoRecoveryCandidate,
  StrandedBlockedDependency,
}
use millrace_rs.Runtime.BlockedRecovery.Auto.{
  AutoRecoveryConfig, Reports, get, last, cooldown_of, still_cooling, auto_recovery_cooldown_active,
  holds_back, write_auto_recovery_diagnostics, auto_request, refresh_in_place, recover,
  within_budget, search, attempt_stranded_dependency_auto_recovery,
}
use millrace_rs.Runtime.BlockedRecovery.Diagnostics.{
  diagnostic, validate_diagnostic, validate_planes, active_plane_names,
}
use millrace_rs.Runtime.BlockedRecovery.Find.{
  gather, over_missing, gather_all, find_stranded_blocked_dependency,
}
use millrace_rs.Runtime.BlockedRecovery.FindSame.{find-eq-find_auto}
use millrace_rs.Runtime.BlockedRecovery.AutoSafe.{IsSafeRetry, attempt-IsSafeRetry}
use millrace_rs.Runtime.Examples.{snapshot}
use millrace_rs.Runtime.Examples.Blocked
use millrace_rs.Workspace.Files.{Files, ◌>>=◌, write, is_at, moved, appended}
use millrace_rs.Workspace.Samples.{paths}
use millrace_rs.Workspace.Queue.{move_if, move_item_from_state}
use millrace_rs.Workspace.Queue.Operations.{
  audit_error, validate_blocked_requeue_audit, append_blocked_requeue_audit, requeue_blocked_task,
}
use millrace_rs.Workspace.Claims.{Host}
use millrace_rs.Workspace.Claims.Documents.{effective_root_spec_task}
use millrace_rs.Workspace.Claims.Listing.{markdown_stem}

abbrev host : Host
host = record Blocked.host {
  read_dir =
      λ files directory. filter (λ name. is_some (files directory name)) ("a.md" ∷ "b.md" ∷ []);
}

abbrev journal : Journal
journal = record Blocked.journal {
  parse_task = λ raw path. ok (record {
    task_id = raw;
    root_spec_id = none;
    spec_id = none;
    root_idea_id = none;
    depends_on = if raw == "b" then "a" ∷ [] else [];
    updated_at = none;
    created_at = "2026-01-01T00:00:00Z";
  });
  snapshot_to_json = λ s. some "{}";
}

abbrev reports : Reports
reports = record {
  nanoseconds = λ t. if t == "2026-01-01T00:00:00Z" then some 0 else some 600_000_000_000;
  parse_time = λ field t. ok tt;
  compact = λ t. some "20260101T001000Z";
  to_json = λ report. some report.decision;
  event = λ kind now dependency reason path attempt. kind;
}

abbrev config : AutoRecoveryConfig
config = record {
  enabled = true;
  blocked_dependency_retry_enabled = true;
  max_auto_requeues_per_work_item = 3;
  cooldown_seconds = 300 ∷ 900 ∷ 3_600 ∷ [];
}

abbrev idle : RuntimeSnapshot
idle = record snapshot { active_runs_by_plane = PlaneMap.empty }

abbrev files : Files
files = write Blocked.files "tasks/queue" "b.md" (some "b")

abbrev now : String
now = "2026-01-01T00:10:00Z"

abbrev granted : Granted
granted = record { failure_class = some "runner_timeout"; attempt_number = 1 }

abbrev candidate : AutoRecoveryCandidate
candidate = record {
  dependency = record {
    blocked_task_id = "a";
    queued_dependent_ids = "b" ∷ [];
    root_spec_id = none;
    metadata = journal.metadata_from_json "runner_timeout";
  };
  blocked_root_spec_id = none;
  lineage_compatible = true;
}

abbrev retry : BlockedTaskRequeueResult
retry =
    requeue_result host journal paths
      (auto_request host journal reports paths config idle now candidate
        "runtime/diagnostics/auto-recovery/20260101T001000Z-a.json")
      granted

recovers_example : IsSafeRetry host journal reports paths config idle now files retry
unfolding retry_blocked_task retry_guards validate_blocked_task_locations read_task_document
    load_blocked_item_metadata retry_metadata count_auto_requeues allows_auto_requeue
    failure_class_allows_auto_requeue runner_failure_class validate_requeue_result requeue_guarded
    requeue_result refresh_snapshot_queue_depths write_runtime_event requeue_blocked_task
    append_blocked_requeue_audit validate_blocked_requeue_audit audit_error move_if
    move_item_from_state moved appended write is_at trim is_whitespace drop_start drop_end lines
    filter require_non_blank require_optional_non_blank validate_literal validate_safe_identifier
    is_identifier_char is_ascii_alphanumeric all_chars WorkItemKind.as_str count_markdown_files
    with_queue_depths sync_plane_queue_depths validate_metadata validate_dependents
    validate_dependency insert_id add_dependent add_candidate read_task_document_or_none
    markdown_stems over_dependencies over_queued build_auto_recovery_candidate
    find_auto_recovery_candidate get last cooldown_of still_cooling auto_recovery_cooldown_active
    holds_back write_auto_recovery_diagnostics diagnostic validate_diagnostic validate_planes
    active_plane_names auto_request refresh_in_place recover within_budget search
    attempt_stranded_dependency_auto_recovery oldest sort_with insert_by sort_by insert_sorted
    lookup insert any markdown_stem effective_root_spec_task is_empty put ◌>>=◌
recovers_example = attempt-IsSafeRetry host journal reports paths config idle now files retry (
  _,
  (attempt_stranded_dependency_auto_recovery host journal reports paths config idle now files).1,
  refl,
)

abbrev stranded : StrandedBlockedDependency
stranded = candidate.dependency

finds_example :
    (candidate.lineage_compatible ≡ true)
    × (candidate.dependency.blocked_task_id ≡ stranded.blocked_task_id)
    × (candidate.dependency.queued_dependent_ids ≡ stranded.queued_dependent_ids)
    × (candidate.dependency.metadata ≡ stranded.metadata)
unfolding write is_at trim is_whitespace drop_start drop_end filter require_non_blank
    require_optional_non_blank validate_safe_identifier is_identifier_char is_ascii_alphanumeric
    all_chars WorkItemKind.as_str load_blocked_item_metadata validate_metadata validate_dependents
    validate_dependency insert_id add_dependent add_candidate read_task_document_or_none
    markdown_stems over_dependencies over_queued build_auto_recovery_candidate
    find_auto_recovery_candidate oldest sort_with insert_by sort_by insert_sorted lookup insert any
    markdown_stem effective_root_spec_task gather over_missing gather_all
    find_stranded_blocked_dependency
finds_example =
    find-eq-find_auto host journal paths files reports.parse_time candidate stranded refl refl
