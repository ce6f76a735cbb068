-- ===== src/Workspace/Interventions/InvalidArtifact.antt =====
-- workspace/queue_store.rs: an incoming incident that is no valid document is archived by its file name.
use text.Mathlib.Text.{starts_with}
use millrace_rs.Base.{
  String, ◌==◌, Bool, true, false, not, ◌&&◌, ◌||◌, Option, none, some, is_some, [], any,
  if◌then◌else◌, ok,
}
use millrace_rs.Base.Text.{concat, trim, is_blank, contains_part, ends_with}
use millrace_rs.Base.TextLines.{lines}
use millrace_rs.Contracts.Enums.{WorkItemKind}
use millrace_rs.Workspace.Files.{FileStep, FilePath, ◌>>=◌, pure, fail}
use millrace_rs.Workspace.Queue.{WorkspacePaths}
use millrace_rs.Workspace.Interventions.{
  OperatorInterventionAction, OperatorInterventionContext, OperatorInterventionResult, Clerk,
  clean_reason, intervention_times, InterventionRecordInput, with_record,
}
use millrace_rs.Workspace.Interventions.Archive.{rename_to_free}

unfoldable pub validate_single_relative_filename : String → FileStep String
validate_single_relative_filename filename =
    if not (trim filename == filename)
      || is_blank (trim filename)
      || starts_with (trim filename) "/"
      || contains_part "/" (trim filename)
      || contains_part "\\" (trim filename)
    then fail "filename must be a single relative filename"
    else pure (trim filename)

module _ (clerk : Clerk) (paths : WorkspacePaths) where
  abbrev in_json : String → Option String → Bool
  in_json filename none = false
  in_json filename (some json) = contains_part filename json

  abbrev pub mentions : String → String → Bool
  mentions filename line =
      not (is_blank (trim line))
      && (contains_part filename line || in_json filename (clerk.json_text line))

  abbrev log_mentions : String → Option String → Bool
  log_mentions filename none = false
  log_mentions filename (some raw) = any (mentions filename) (lines raw)

  unfoldable pub invalid_artifacts_log_mentions : String → FileStep Bool
  invalid_artifacts_log_mentions filename files = (
    ok (log_mentions filename (files paths.incidents_incoming_dir "invalid-artifacts.jsonl")),
    files,
  )

  abbrev archived_dir : String
  archived_dir = concat paths.incidents_incoming_dir "/invalid-archived"

  abbrev artifact_input : String → FilePath → String → String × String → InterventionRecordInput
  artifact_input name destination reason (issued_at, applied_at) = record {
    action = OperatorInterventionAction.archive_invalid_incident;
    work_item_kind = WorkItemKind.incident;
    work_item_id = name;
    source_state = "incoming_invalid";
    destination_state = "archived";
    source_path = (paths.incidents_incoming_dir, name);
    destination_path = destination;
    reason = reason;
    issued_at = issued_at;
    applied_at = applied_at;
    replacement_work_item_id = none;
    affected_dependents = [];
  }

  abbrev archive_artifact :
      String
      → OperatorInterventionContext
      → String
      → String × String
      → FilePath
      → FileStep OperatorInterventionResult
  archive_artifact name context reason times destination =
      rename_to_free (paths.incidents_incoming_dir, name) destination >>= λ _.
      with_record clerk paths context archived_dir "invalid_incident_artifact_archived"
        (artifact_input name destination reason times)

  abbrev archive_mentioned :
      String → String → OperatorInterventionContext → Bool → FileStep OperatorInterventionResult
  archive_mentioned name reason context mentioned files =
      (if not (ends_with ".invalid" name) && not mentioned
          then fail
              "invalid incident artifact must end with .invalid or be listed in invalid-artifacts.jsonl"
          else (clean_reason reason >>= λ cleaned.
              (intervention_times clerk context >>= λ times.
              archive_artifact name context cleaned times
                (archived_dir, concat name (concat "." (clerk.archive_suffix files times.1))))))
        files

  abbrev archive_present :
      String → String → OperatorInterventionContext → Bool → FileStep OperatorInterventionResult
  archive_present name reason context false =
      fail (concat "invalid incident artifact not found: " name)
  archive_present name reason context true = invalid_artifacts_log_mentions name >>= λ mentioned.
      archive_mentioned name reason context mentioned

  unfoldable pub archive_invalid_incident_artifact :
      String → String → OperatorInterventionContext → FileStep OperatorInterventionResult
  archive_invalid_incident_artifact filename reason context files =
      (validate_single_relative_filename filename >>= λ name.
      archive_present name reason context (is_some (files paths.incidents_incoming_dir name)))
        files
