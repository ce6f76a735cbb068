-- ===== src/Runtime/Examples/Metadata.antt =====
-- A task is blocked by a run that was timed out, and retried later.
use millrace_rs.Base.{◌==◌, ◌≡◌, refl, sym, ap, true, false, none, some, ok, ◌⊎◌, if◌then◌else◌}
use millrace_rs.Base.Text.{trim, is_whitespace, drop_start, drop_end}
use millrace_rs.Contracts.Enums.{
  Plane, StageName, WorkItemKind, TerminalResult, ExecutionTerminalResult, ResultClass,
}
use millrace_rs.Contracts.ExecutionTerminalResult
use millrace_rs.Contracts.Plane
use millrace_rs.Contracts.StageName
use millrace_rs.Contracts.WorkItemKind
use millrace_rs.Contracts.Validation.{terminal_str}
use millrace_rs.Runtime.FailureClass.{non_blank}
use millrace_rs.Runtime.FailureClassifierCode
use millrace_rs.Runtime.FailureClassifierCode.{FailureClassifierCode}
use millrace_rs.Runtime.Router.{RouterAction, RouterDecision}
use millrace_rs.Runtime.State.{StageResultEnvelope}
use millrace_rs.Runtime.RunnerFailureClass.{failure_class_allows_auto_requeue, runner_failure_class}
use millrace_rs.Runtime.BlockedRecovery.{Journal, BlockedItemMetadata, BlockedOrigin, FailureScope}
use millrace_rs.Runtime.BlockedRecovery.Stranded.{read_task_document_or_none}
use millrace_rs.Runtime.BlockedRecovery.Metadata.{
  Writer, metadata_string, metadata_bool, blocked_origin_from_value, failure_scope_from_value,
  blocked_origin_for_stage_result, failure_scope_for_stage_result, blocked_failure_class,
  relative_to_root, string_path_relative_to_root, lineage_candidates, first_lineage,
  blocked_work_item_lineage, build_blocked_item_metadata, persist_blocked_item_metadata,
}
use millrace_rs.Runtime.BlockedRecovery.Persisted.{IsRefused, IsStored, persist-IsStored}
use millrace_rs.Runtime.Examples.Blocked
use millrace_rs.Runtime.Examples.Blocked.{host}
use millrace_rs.Workspace.Files.{Files, write, is_at, moved}
use millrace_rs.Workspace.Claims.Documents.{effective_root_spec_task}
use millrace_rs.Workspace.Interventions.{strip_root}
use millrace_rs.Workspace.Queue.{WorkspacePaths}
use millrace_rs.Workspace.Samples
use millrace_rs.Workspace.Samples.{no_files}

abbrev paths : WorkspacePaths
paths = record Samples.paths { root = "/work" }

abbrev timed_out : StageResultEnvelope
timed_out = record {
  run_id = "run-7";
  plane = Plane.execution;
  stage = StageName.builder;
  node_id = "builder";
  stage_kind_id = "builder";
  work_item_kind = WorkItemKind.task;
  work_item_id = "a";
  terminal_result = TerminalResult.execution ExecutionTerminalResult.blocked;
  result_class = ResultClass.blocked;
  metadata = λ key.
      if key == "failure_class"
      then some "runner_timeout"
      else if key == "normalization_source"
      then some "failure"
      else if key == "failure_scope"
      then some "provider"
      else if key == "failure_classifier_code"
      then some "exit_timeout"
      else none;
  metadata_flag = λ key. if key == "auto_requeue_candidate" then some true else none;
  stdout_path = some "/work/runs/out";
  stderr_path = some "runs/err";
  completed_at = "2026-01-01T02:00:00Z";
}

abbrev decision : RouterDecision
decision = record {
  action = RouterAction.blocked;
  next_plane = none;
  next_stage = none;
  reason = "blocked";
  next_node_id = none;
  next_stage_kind_id = none;
  failure_class = none;
  counter_key = none;
  create_incident = false;
}

abbrev expected : BlockedItemMetadata
expected = record {
  work_item_kind = WorkItemKind.task;
  work_item_id = "a";
  root_spec_id = none;
  root_idea_id = none;
  blocked_at = "2026-01-01T02:00:00Z";
  blocked_origin = BlockedOrigin.runner_failure;
  failure_class = "runner_timeout";
  failure_scope = FailureScope.provider;
  auto_requeue_candidate = true;
  failure_classifier_code = some FailureClassifierCode.exit_timeout;
  source_run_id = some "run-7";
  source_plane = some "execution";
  source_stage = some "builder";
  terminal_result = some "BLOCKED";
  stage_result_path = some "runs/result.json";
  stdout_path = some "runs/out";
  stderr_path = some "runs/err";
}

abbrev journal : Journal
journal = record Blocked.journal { metadata_from_json = λ raw. some expected }

abbrev writer : Writer
writer metadata = ok "json"

abbrev before : Files
before = write no_files "tasks/active" "a.md" (some "a")

abbrev persisted : Files
persisted =
    (persist_blocked_item_metadata host journal paths writer (λ field time. ok tt) timed_out
      decision ("/work/runs", "result.json") before).1

abbrev later : Files
later = moved persisted "tasks/active" "tasks/blocked" "a.md"

built_expected :
    build_blocked_item_metadata host journal paths timed_out decision
      ("/work/runs", "result.json")
      before
    ≡ expected
unfolding build_blocked_item_metadata blocked_work_item_lineage first_lineage lineage_candidates
    metadata_string metadata_bool blocked_origin_from_value failure_scope_from_value
    blocked_origin_for_stage_result failure_scope_for_stage_result blocked_failure_class
    relative_to_root string_path_relative_to_root strip_root read_task_document_or_none non_blank
    failure_class_allows_auto_requeue runner_failure_class FailureClassifierCode.from_value
    Plane.as_str StageName.as_str ExecutionTerminalResult.as_str terminal_str write is_at trim
    is_whitespace drop_start drop_end effective_root_spec_task
built_expected = refl

stored_example :
    IsRefused host journal paths writer
      (λ field time. ok tt)
      timed_out
      decision
      ("/work/runs", "result.json")
      before
    ⊎ IsStored host journal paths writer
        (λ field time. ok tt)
        timed_out
        decision
        ("/work/runs", "result.json")
        before
stored_example =
    persist-IsStored host journal paths writer (λ field time. ok tt) timed_out decision
      ("/work/runs", "result.json") before (λ payload valid written. sym (ap some built_expected))
