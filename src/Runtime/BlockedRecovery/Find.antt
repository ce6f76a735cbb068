-- ===== src/Runtime/BlockedRecovery/Find.antt =====
-- `find_stranded_blocked_dependency` of runtime/blocked_recovery.rs.
use millrace_rs.Base.{
  String, ◌==◌, not, Option, none, some, or_else, unwrap_or, List, [], ◌∷◌, any, filter,
  if◌then◌else◌, Result, ok, ◌>>=◌, map_err,
}
use millrace_rs.Base.Dict.{lookup, insert}
use millrace_rs.Base.Oldest.{oldest}
use millrace_rs.Base.Sort.{text_lt}
use millrace_rs.Contracts.Enums.{WorkItemKind}
use millrace_rs.Runtime.LaneState.{RuntimeJsonError}
use millrace_rs.Runtime.State.{Timestamp}
use millrace_rs.Workspace.Files.{Files}
use millrace_rs.Workspace.Queue.{WorkspacePaths, document_name}
use millrace_rs.Workspace.Claims.{Host}
use millrace_rs.Workspace.Claims.Documents.{TaskDocument, effective_root_spec_task}
use millrace_rs.Workspace.Claims.Found.{listed}
use millrace_rs.Runtime.BlockedRecovery.{
  Journal, RecoveryError, invalid_record, load_blocked_item_metadata,
}
use millrace_rs.Runtime.BlockedRecovery.Stranded.{
  StrandedBlockedDependency, validate_dependency, insert_id, root_mismatch,
  read_task_document_or_none, markdown_stems,
}

-- `dependents_by_blocked_id` and `root_by_blocked_id`
pub record Gathered : Type 0 where
  pub dependents : List (String × List String)
  pub roots : List (String × Option String)

unfoldable pub gather : String → Option String → Option String → String → Gathered → Gathered
gather dependency blocked_root queued_root queued_id gathered =
    if root_mismatch queued_root blocked_root then gathered else record {
      dependents =
          insert dependency
            (insert_id queued_id (unwrap_or (lookup dependency gathered.dependents) []))
            gathered.dependents;
      roots = insert dependency (or_else blocked_root queued_root) gathered.roots;
    }

abbrev pub flatten : Option (Option String) → Option String
flatten none = none
flatten (some o) = o

module _ (host : Host) (journal : Journal) (paths : WorkspacePaths) (files : Files) where
  abbrev pub gather_blocked : TaskDocument → String → Option TaskDocument → Gathered → Gathered
  gather_blocked queued dependency none gathered = gathered
  gather_blocked queued dependency (some blocked) gathered =
      gather dependency (effective_root_spec_task blocked) (effective_root_spec_task queued)
        queued.task_id gathered

  -- The loop over the missing dependencies.
  unfoldable pub over_missing : TaskDocument → List String → Gathered → Gathered
  over_missing queued [] gathered = gathered
  over_missing queued (dependency ∷ dependencies) gathered = over_missing queued dependencies (
      gather_blocked queued dependency
        (read_task_document_or_none host journal paths files paths.tasks_blocked_dir
          (document_name dependency))
        gathered)

  abbrev pub missing : List String → TaskDocument → List String
  missing completed queued = filter (λ d. not (any (λ c. c == d) completed)) queued.depends_on

  abbrev pub gather_queued : List String → Option TaskDocument → Gathered → Gathered
  gather_queued completed none gathered = gathered
  gather_queued completed (some queued) gathered =
      over_missing queued (missing completed queued) gathered

  -- The loop over the queued tasks.
  unfoldable pub gather_all : List String → List String → Gathered → Gathered
  gather_all completed [] gathered = gathered
  gather_all completed (name ∷ names) gathered = gather_all completed names (
      gather_queued completed
        (read_task_document_or_none host journal paths files paths.tasks_queue_dir name) gathered)

  module _ (parse_time : String → Timestamp → Result RuntimeJsonError (Unit {0})) where
    abbrev pub validated :
        StrandedBlockedDependency → Result RecoveryError (Option StrandedBlockedDependency)
    validated d = map_err invalid_record (validate_dependency parse_time d) >>= λ _. ok (some d)

    abbrev pub stranded_first :
        Option (String × List String)
        → List (String × Option String)
        → Result RecoveryError (Option StrandedBlockedDependency)
    stranded_first none roots = ok none
    stranded_first (some (blocked_task_id, dependent_ids)) roots = validated (record {
      blocked_task_id = blocked_task_id;
      queued_dependent_ids = dependent_ids;
      root_spec_id = flatten (lookup blocked_task_id roots);
      metadata = load_blocked_item_metadata journal paths WorkItemKind.task blocked_task_id files;
    })

    abbrev pub stranded_of : Gathered → Result RecoveryError (Option StrandedBlockedDependency)
    stranded_of gathered =
        stranded_first (oldest (λ a b. text_lt a.0 b.0) gathered.dependents) gathered.roots

    unfoldable pub find_stranded_blocked_dependency :
        Result RecoveryError (Option StrandedBlockedDependency)
    find_stranded_blocked_dependency = stranded_of (
        gather_all (markdown_stems host journal paths files paths.tasks_done_dir)
          (listed host paths.tasks_queue_dir files) (record { dependents = []; roots = [] }))
