-- ===== src/Workspace/Interventions/Archive.antt =====
-- workspace/queue_store.rs: an item is looked for in directories of its kind, and archived beside them.
use millrace_rs.Base.{
  String, Option, none, some, is_some, unwrap_or, List, [], ◌∷◌, ◌++◌, if◌then◌else◌, ok, err,
}
use millrace_rs.Base.Text.{concat}
use millrace_rs.Contracts.Enums.{WorkItemKind}
use millrace_rs.Workspace.Files.{
  Files, FileStep, FilePath, ◌>>=◌, pure, fail, write, invalid_state, text,
}
use millrace_rs.Workspace.Queue.{WorkspacePaths, document_name}
use millrace_rs.Workspace.Claims.Select.{path_text}
use millrace_rs.Workspace.Interventions.{
  OperatorInterventionAction, OperatorInterventionContext, OperatorInterventionResult,
  LocatedInterventionItem, Clerk, clean_reason, intervention_times, InterventionRecordInput,
  with_record,
}

-- The name of a state and its directory.
abbrev pub StateDir : Type 0
StateDir = String × String

module _ (files : Files) (kind : WorkItemKind) (item_id : String) where
  abbrev pub located : StateDir → LocatedInterventionItem
  located (state, directory) = record {
    work_item_kind = kind;
    work_item_id = item_id;
    state = state;
    directory = directory;
    name = document_name item_id;
  }

  -- The loop over the states: those in whose directory the item is.
  unfoldable pub candidates : List StateDir → List LocatedInterventionItem
  candidates [] = []
  candidates (place ∷ places) =
      let rest = candidates places in
      if is_some (files place.1 (document_name item_id)) then located place ∷ rest else rest

-- The only candidate.
abbrev pub only : List LocatedInterventionItem → String → String → FileStep LocatedInterventionItem
only [] missing ambiguous = fail missing
only (item ∷ []) missing ambiguous = pure item
only (_ ∷ _ ∷ _) missing ambiguous = fail ambiguous

unfoldable pub join_states : List StateDir → String
join_states [] = ""
join_states ((state, _) ∷ []) = state
join_states ((state, _) ∷ place ∷ places) =
    concat state (concat ", " (join_states (place ∷ places)))

abbrev not_in_state : String → String → List StateDir → String
not_in_state what item_id places =
    concat what
      (concat " " (concat item_id (concat " is not in an allowed state: " (join_states places))))

abbrev in_many_states : String → String → String
in_many_states what item_id = concat what (concat " " (concat item_id " exists in multiple states"))

module _ (paths : WorkspacePaths) where
  unfoldable pub locate_exact_task : String → List StateDir → FileStep LocatedInterventionItem
  locate_exact_task task_id places files =
      only (candidates files WorkItemKind.task task_id places) (not_in_state "task" task_id places)
        (in_many_states "task" task_id) files

  unfoldable pub locate_incident : String → FileStep LocatedInterventionItem
  locate_incident incident_id files =
      only (candidates files WorkItemKind.incident incident_id places)
        (not_in_state "incident" incident_id places) (in_many_states "incident" incident_id) files
    where
      places : List StateDir
      places =
          ("incoming", paths.incidents_incoming_dir)
          ∷ ("active", paths.incidents_active_dir)
          ∷ ("blocked", paths.incidents_blocked_dir)
          ∷ []

  abbrev pub cancelable_places : WorkItemKind → List StateDir
  cancelable_places WorkItemKind.task =
      ("queue", paths.tasks_queue_dir) ∷ ("blocked", paths.tasks_blocked_dir) ∷ []
  cancelable_places WorkItemKind.probe =
      ("queue", paths.probes_queue_dir) ∷ ("blocked", paths.probes_blocked_dir) ∷ []
  cancelable_places WorkItemKind.spec =
      ("queue", paths.specs_queue_dir) ∷ ("blocked", paths.specs_blocked_dir) ∷ []
  cancelable_places WorkItemKind.incident =
      ("incoming", paths.incidents_incoming_dir) ∷ ("blocked", paths.incidents_blocked_dir) ∷ []
  cancelable_places _ = []

  unfoldable pub locate_cancelable_for_kind :
      Files → String → WorkItemKind → List LocatedInterventionItem
  locate_cancelable_for_kind files item_id kind =
      candidates files kind item_id (cancelable_places kind)

  unfoldable pub locate_for_kinds :
      Files → String → List WorkItemKind → List LocatedInterventionItem
  locate_for_kinds files item_id [] = []
  locate_for_kinds files item_id (kind ∷ kinds) =
      locate_cancelable_for_kind files item_id kind ++ locate_for_kinds files item_id kinds

  abbrev pub kinds_of : Option WorkItemKind → List WorkItemKind
  kinds_of (some kind) = kind ∷ []
  kinds_of none =
      WorkItemKind.task ∷ WorkItemKind.probe ∷ WorkItemKind.spec ∷ WorkItemKind.incident ∷ []

  unfoldable pub locate_cancelable_work_item :
      String → Option WorkItemKind → FileStep LocatedInterventionItem
  locate_cancelable_work_item item_id kind files =
      only (locate_for_kinds files item_id (kinds_of kind))
        (concat "cancelable work item not found: " item_id)
        (concat "work item id is ambiguous; pass --kind for " item_id) files

pub record ArchiveLocatedOptions : Type 0 where
  pub action : OperatorInterventionAction
  pub destination_state : String
  pub archive_name : String
  pub event_type : String
  pub reason : String
  pub context : OperatorInterventionContext
  pub replacement_work_item_id : Option String
  pub affected_dependents : List String
  pub explicit_archive_parent : Option String

-- `fs::rename`, to any directory and any name.
unfoldable pub renamed_to : Files → FilePath → FilePath → Files
renamed_to files (d, n) (d', n') = write (write files d n none) d' n' (files d n)

-- A rename, unless there is a file of the new name.
unfoldable pub rename_to_free : FilePath → FilePath → FileStep (Unit {0})
rename_to_free source destination files =
    if is_some (files destination.0 destination.1)
    then (
      err (
          invalid_state (
            text (
              concat "archive destination already exists: "
                (path_text destination.0 destination.1)))),
      files,
    )
    else (ok tt, renamed_to files source destination)

module _ (clerk : Clerk) (paths : WorkspacePaths) where
  abbrev pub archive_dir : LocatedInterventionItem → ArchiveLocatedOptions → String
  archive_dir item options =
      concat (unwrap_or options.explicit_archive_parent item.directory)
        (concat "/" options.archive_name)

  abbrev pub archived_name : LocatedInterventionItem → String → String
  archived_name item suffix =
      concat item.work_item_id (concat "." (concat suffix (concat "." (concat item.state ".md"))))

  abbrev pub archive_input :
      LocatedInterventionItem
      → ArchiveLocatedOptions
      → FilePath
      → String
      → String × String
      → InterventionRecordInput
  archive_input item options destination reason (issued_at, applied_at) = record {
    action = options.action;
    work_item_kind = item.work_item_kind;
    work_item_id = item.work_item_id;
    source_state = item.state;
    destination_state = options.destination_state;
    source_path = (item.directory, item.name);
    destination_path = destination;
    reason = reason;
    issued_at = issued_at;
    applied_at = applied_at;
    replacement_work_item_id = options.replacement_work_item_id;
    affected_dependents = options.affected_dependents;
  }

  -- The part of `archive_located_item` that changes files.
  unfoldable pub archive_to :
      LocatedInterventionItem
      → ArchiveLocatedOptions
      → String
      → String × String
      → FilePath
      → FileStep OperatorInterventionResult
  archive_to item options reason times destination =
      rename_to_free (item.directory, item.name) destination >>= λ _.
      with_record clerk paths options.context (archive_dir item options) options.event_type
        (archive_input item options destination reason times)

  abbrev pub destination_of :
      Files → LocatedInterventionItem → ArchiveLocatedOptions → String × String → FilePath
  destination_of files item options times =
      (archive_dir item options, archived_name item (clerk.archive_suffix files times.1))

  unfoldable pub archive_located_item :
      LocatedInterventionItem → ArchiveLocatedOptions → FileStep OperatorInterventionResult
  archive_located_item item options files =
      (clean_reason options.reason >>= λ reason.
      (intervention_times clerk options.context >>= λ times.
      archive_to item options reason times (destination_of files item options times)))
        files
