-- ===== src/Runtime/BlockedRecovery/Metadata.antt =====
-- runtime/blocked_recovery.rs: what is kept of a blocked item is made from the stage result that blocked it, and stored.
-- Paths have no empty, `.` or `..` components.
use Prim.Native.Char.{Char}
use text.Mathlib.Text.{starts_with}
use mathlib.Core.Option
use millrace_rs.Base.{
  String, ◌==◌, Bool, true, false, ◌&&◌, Option, none, some, or_else, unwrap_or, List, [], ◌∷◌,
  if◌then◌else◌, Result, ok, err,
}
use millrace_rs.Base.Text.{concat}
use millrace_rs.Contracts.Enums.{WorkItemKind}
use millrace_rs.Contracts.Plane
use millrace_rs.Contracts.StageName
use millrace_rs.Contracts.WorkItemKind
use millrace_rs.Contracts.Validation.{terminal_str}
use millrace_rs.Runtime.FailureClass.{non_blank}
use millrace_rs.Runtime.FailureClassifierCode
use millrace_rs.Runtime.FailureClassifierCode.{FailureClassifierCode}
use millrace_rs.Runtime.LaneState.{RuntimeJsonError}
use millrace_rs.Runtime.Router.{RouterDecision}
use millrace_rs.Runtime.State.{StageResultEnvelope, Timestamp}
use millrace_rs.Workspace.Files.{Files, FilePath, StepOf, write}
use millrace_rs.Workspace.Queue.{WorkspacePaths, document_name}
use millrace_rs.Workspace.Claims.{Host}
use millrace_rs.Workspace.Claims.Documents.{TaskDocument, effective_root_spec_task}
use millrace_rs.Workspace.Claims.Select.{path_text}
use millrace_rs.Workspace.Interventions.{strip_root}
use millrace_rs.Runtime.RunnerFailureClass.{failure_class_allows_auto_requeue}
use millrace_rs.Runtime.BlockedRecovery.{
  Journal, BlockedItemMetadata, BlockedOrigin, FailureScope, RecoveryError, invalid_state,
  invalid_record,
}
use millrace_rs.Runtime.BlockedRecovery.Stranded.{validate_metadata, read_task_document_or_none}

unfoldable pub metadata_string : StageResultEnvelope → String → Option String
metadata_string stage_result key = non_blank (stage_result.metadata key)

unfoldable pub metadata_bool : StageResultEnvelope → String → Bool
metadata_bool stage_result key = unwrap_or (stage_result.metadata_flag key) false

unfoldable pub blocked_origin_from_value : String → Option BlockedOrigin
blocked_origin_from_value value =
    if value == "stage_terminal"
    then some BlockedOrigin.stage_terminal
    else if value == "runner_failure"
    then some BlockedOrigin.runner_failure
    else if value == "runtime_capability_gate"
    then some BlockedOrigin.runtime_capability_gate
    else if value == "runtime_exception"
    then some BlockedOrigin.runtime_exception
    else if value == "operator"
    then some BlockedOrigin.operator
    else if value == "unknown"
    then some BlockedOrigin.unknown
    else none

unfoldable pub failure_scope_from_value : String → Option FailureScope
failure_scope_from_value value =
    if value == "environment"
    then some FailureScope.environment
    else if value == "provider"
    then some FailureScope.provider
    else if value == "local_configuration"
    then some FailureScope.local_configuration
    else if value == "contract"
    then some FailureScope.contract
    else if value == "runtime_policy"
    then some FailureScope.runtime_policy
    else if value == "semantic"
    then some FailureScope.semantic
    else if value == "unknown"
    then some FailureScope.unknown
    else none

-- `Option::and_then`
abbrev and_then : {A B : Type 0} → Option A → (A → Option B) → Option B
and_then none f = none
and_then (some a) f = f a

abbrev is_failure : Option String → Bool
is_failure none = false
is_failure (some source) = source == "failure"

unfoldable pub blocked_origin_for_stage_result : StageResultEnvelope → BlockedOrigin
blocked_origin_for_stage_result stage_result =
    unwrap_or (and_then (metadata_string stage_result "blocked_origin") blocked_origin_from_value) (
      if is_failure (metadata_string stage_result "normalization_source")
      then BlockedOrigin.runner_failure
      else BlockedOrigin.stage_terminal)

abbrev default_scope : BlockedOrigin → FailureScope
default_scope BlockedOrigin.stage_terminal = FailureScope.semantic
default_scope _ = FailureScope.unknown

unfoldable pub failure_scope_for_stage_result : StageResultEnvelope → BlockedOrigin → FailureScope
failure_scope_for_stage_result stage_result blocked_origin =
    unwrap_or (and_then (metadata_string stage_result "failure_scope") failure_scope_from_value)
      (default_scope blocked_origin)

-- The class that the stage result names, else the decision's.
unfoldable pub blocked_failure_class : StageResultEnvelope → RouterDecision → String
blocked_failure_class stage_result decision =
    unwrap_or (or_else (metadata_string stage_result "failure_class") decision.failure_class)
      "stage_declared_blocked"

-- `Path::is_absolute`
abbrev is_absolute : String → Bool
is_absolute path = starts_with path "/"

-- Whether the text has a `/`, and what stands before and after the last one.
abbrev prepend : Char → Bool × FilePath → Bool × FilePath
prepend c (true, (directory, name)) = (true, (String.◌∷◌ c directory, name))
prepend c (false, (directory, name)) =
    if String.◌∷◌ c String.[] == "/"
    then (true, (directory, name))
    else (false, (directory, String.◌∷◌ c name))

unfoldable pub split_path : String → Bool × FilePath
split_path String.[] = (false, ("", ""))
split_path (String.◌∷◌ c path) = prepend c (split_path path)

module _ (paths : WorkspacePaths) where
  unfoldable pub relative_to_root : String → String
  relative_to_root path = unwrap_or (strip_root paths.root path) path

  abbrev pub path_relative_to_root : FilePath → String
  path_relative_to_root (directory, name) = relative_to_root (path_text directory name)

  unfoldable pub string_path_relative_to_root : String → String
  string_path_relative_to_root raw_path =
      if is_absolute raw_path then relative_to_root raw_path else raw_path

  -- `paths.root.join(path)`
  unfoldable pub join_root : String → FilePath
  join_root path =
      let (slash, place) =
        split_path (if is_absolute path then path else path_text paths.root path) in
      place

  abbrev joined : Option String → List FilePath
  joined none = []
  joined (some active_path) = join_root active_path ∷ []

  -- Where the blocked task may stand, in the order in which the places are tried.
  unfoldable pub lineage_candidates : StageResultEnvelope → List FilePath
  lineage_candidates stage_result =
      (paths.tasks_blocked_dir, document_name stage_result.work_item_id)
      ∷ (paths.tasks_active_dir, document_name stage_result.work_item_id)
      ∷ joined (metadata_string stage_result "active_work_item_path")

  -- `blocked_metadata_path`
  abbrev pub metadata_path : WorkItemKind → String → FilePath
  metadata_path kind item_id = (
    concat paths.runtime_root "/diagnostics/blocked",
    concat (WorkItemKind.as_str kind) (concat "-" (concat item_id ".json")),
  )

-- Writing JSON is third-party code.
abbrev pub Writer : Type 0
Writer = BlockedItemMetadata → Result String String

module _ (host : Host) (journal : Journal) (paths : WorkspacePaths) where
  abbrev lineage_of :
      Option TaskDocument → Option String × Option String → Option String × Option String
  lineage_of none rest = rest
  lineage_of (some task) rest = (task.root_idea_id, effective_root_spec_task task)

  unfoldable pub first_lineage : Files → List FilePath → Option String × Option String
  first_lineage files [] = (none, none)
  first_lineage files ((directory, name) ∷ candidates) =
      lineage_of (read_task_document_or_none host journal paths files directory name)
        (first_lineage files candidates)

  -- The root idea and the root spec.
  unfoldable pub blocked_work_item_lineage :
      StageResultEnvelope → Files → Option String × Option String
  blocked_work_item_lineage stage_result files = elim stage_result.work_item_kind [
    | WorkItemKind.task ↦ first_lineage files (lineage_candidates paths stage_result)
    | _ ↦ (none, none)
  ]

  unfoldable pub build_blocked_item_metadata :
      StageResultEnvelope → RouterDecision → FilePath → Files → BlockedItemMetadata
  build_blocked_item_metadata stage_result decision stage_result_path files =
      let (root_idea_id, root_spec_id) = blocked_work_item_lineage stage_result files in
      let failure_class = blocked_failure_class stage_result decision in
      let blocked_origin = blocked_origin_for_stage_result stage_result in
      record {
        work_item_kind = stage_result.work_item_kind;
        work_item_id = stage_result.work_item_id;
        root_spec_id = root_spec_id;
        root_idea_id = root_idea_id;
        blocked_at = stage_result.completed_at;
        blocked_origin = blocked_origin;
        failure_class = failure_class;
        failure_scope = failure_scope_for_stage_result stage_result blocked_origin;
        auto_requeue_candidate =
            metadata_bool stage_result "auto_requeue_candidate"
            && failure_class_allows_auto_requeue failure_class;
        failure_classifier_code =
            and_then (metadata_string stage_result "failure_classifier_code")
              FailureClassifierCode.from_value;
        source_run_id = some stage_result.run_id;
        source_plane = some (Plane.as_str stage_result.plane);
        source_stage = some (StageName.as_str stage_result.stage);
        terminal_result = some (terminal_str stage_result.terminal_result);
        stage_result_path = some (path_relative_to_root paths stage_result_path);
        stdout_path = Option.map (string_path_relative_to_root paths) stage_result.stdout_path;
        stderr_path = Option.map (string_path_relative_to_root paths) stage_result.stderr_path;
      }

  module _ (writer : Writer)
      (parse_time : String → Timestamp → Result RuntimeJsonError (Unit {0})) where
    -- `write_pretty_json`
    abbrev written :
        FilePath
        → BlockedItemMetadata
        → Result String String
        → StepOf RecoveryError (FilePath × BlockedItemMetadata)
    written path metadata (err message) files = (err (invalid_state message), files)
    written (directory, name) metadata (ok payload) files =
        (ok ((directory, name), metadata), write files directory name (some (concat payload "\n")))

    abbrev stored :
        BlockedItemMetadata
        → Result RuntimeJsonError (Unit {0})
        → StepOf RecoveryError (FilePath × BlockedItemMetadata)
    stored metadata (err e) files = (err (invalid_record e), files)
    stored metadata (ok _) files =
        written (metadata_path paths metadata.work_item_kind metadata.work_item_id) metadata
          (writer metadata) files

    -- The path and the metadata that are stored there.
    unfoldable pub persist_blocked_item_metadata :
        StageResultEnvelope
        → RouterDecision
        → FilePath
        → StepOf RecoveryError (FilePath × BlockedItemMetadata)
    persist_blocked_item_metadata stage_result decision stage_result_path files =
        let metadata = build_blocked_item_metadata stage_result decision stage_result_path files in
        stored metadata (validate_metadata parse_time metadata) files
