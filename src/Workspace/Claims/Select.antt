-- ===== src/Workspace/Claims/Select.antt =====
-- workspace/queue_store.rs: the selection of the oldest eligible document of a directory. The five selectors have the
-- same body but for the kind of the document and the documents that they pass over.
use millrace_rs.Base.{
  String, ◌==◌, Bool, true, false, ◌&&◌, Option, none, some, List, [], ◌∷◌, ◌++◌, any, all, Result,
  ok, err, if◌then◌else◌,
}
use millrace_rs.Base.Text.{concat}
use millrace_rs.Base.Oldest.{pair_lt, triple_lt, oldest}
use millrace_rs.Contracts.Enums.{WorkItemKind}
use millrace_rs.Contracts.WorkItemKind
use millrace_rs.Workspace.Files.{FileStep, ◌>>=◌, pure}
use millrace_rs.Workspace.Queue.{WorkspacePaths}
use millrace_rs.Workspace.Claims.{Host}
use millrace_rs.Workspace.Claims.Documents.{
  Codecs, TaskDocument, effective_root_spec_task, effective_root_spec_spec,
  effective_root_spec_incident,
}
use millrace_rs.Workspace.Claims.Listing.{list_markdown_files, path_stem, ids_in_directory}
use millrace_rs.Workspace.Claims.Quarantine.{quarantine_invalid_artifact}

-- `name` is the name of the file in its directory.
pub record Candidate : Type 0 where
  pub created_at : String
  pub item_id : String
  pub name : String

-- `path.display()`
abbrev pub path_text : String → String → String
path_text directory name = concat directory (concat "/" name)

-- `fs::read_to_string`: a missing file is `NotFound`.
abbrev pub read_to_string : String → String → FileStep (Option String)
read_to_string directory name files = (ok (files directory name), files)

abbrev pub comes_before : Candidate → Candidate → Bool
comes_before a b = pair_lt (a.created_at, a.item_id) (b.created_at, b.item_id)

module _ {Document : Type 0} (host : Host) (parse : String → String → Result String Document)
    (id_of order_of : Document → String) (id_field : String) (eligible : Document → Bool)
    (directory : String) where
  abbrev pub candidate_of : String → Document → Candidate
  candidate_of name document = record {
    created_at = order_of document;
    item_id = id_of document;
    name = name;
  }

  unfoldable pub mismatch : String → String → String
  mismatch expected found =
      concat "filename stem does not match "
        (concat id_field (concat ": expected " (concat expected (concat ", found " found))))

  -- A document that was parsed, and the stem of its file.
  unfoldable pub judge : String → Document → String → FileStep (Option Candidate)
  judge name document stem =
      if stem == id_of document
      then pure (if eligible document then some (candidate_of name document) else none)
      else (quarantine_invalid_artifact host directory name (mismatch (id_of document) stem)
          >>= λ _. pure none)

  abbrev parsed : String → Result String Document → FileStep (Option Candidate)
  parsed name (ok document) = path_stem name >>= λ stem. judge name document stem
  parsed name (err error) = quarantine_invalid_artifact host directory name error >>= λ _. pure none

  abbrev opened : String → Option String → FileStep (Option Candidate)
  opened name none = pure none
  opened name (some raw) = parsed name (parse raw (path_text directory name))

  -- One round of the loop over the files.
  unfoldable pub examine : String → FileStep (Option Candidate)
  examine name = read_to_string directory name >>= λ content. opened name content

  abbrev pub pushed : Option Candidate → List Candidate → List Candidate
  pushed none rest = rest
  pushed (some candidate) rest = candidate ∷ rest

  unfoldable pub candidates : List String → FileStep (List Candidate)
  candidates [] = pure []
  candidates (name ∷ names) =
      examine name >>= λ found. (candidates names >>= λ rest. pure (pushed found rest))

  unfoldable pub select_oldest : FileStep (Option Candidate)
  select_oldest = list_markdown_files host directory >>= λ names.
      (candidates names >>= λ found. pure (oldest comes_before found))

abbrev pub root_matches : Option String → Option String → Bool
root_matches none effective = true
root_matches (some expected) none = false
root_matches (some expected) (some effective) = effective == expected

-- The task belongs to the root spec, if one is given, and what it depends on is done.
unfoldable pub is_eligible_task : Option String → List String → TaskDocument → Bool
is_eligible_task root_spec_id completed_task_ids d =
    root_matches root_spec_id (effective_root_spec_task d)
    && all (λ dependency. any (λ id. id == dependency) completed_task_ids) d.depends_on

module _ (host : Host) (codecs : Codecs) where
  unfoldable pub select_oldest_eligible_task :
      WorkspacePaths → Option String → FileStep (Option Candidate)
  select_oldest_eligible_task paths root_spec_id =
      ids_in_directory host paths.tasks_done_dir >>= λ completed_task_ids.
      select_oldest host codecs.task.parse (λ d. d.task_id) (λ d. d.created_at) "task_id"
        (is_eligible_task root_spec_id completed_task_ids) paths.tasks_queue_dir

  unfoldable pub select_oldest_spec_candidate : String → Option String → FileStep (Option Candidate)
  select_oldest_spec_candidate directory root_spec_id =
      select_oldest host codecs.spec.parse (λ d. d.spec_id) (λ d. d.created_at) "spec_id"
        (λ d. root_matches root_spec_id (effective_root_spec_spec d)) directory

  unfoldable pub select_oldest_probe_candidate : String → FileStep (Option Candidate)
  select_oldest_probe_candidate directory =
      select_oldest host codecs.probe.parse (λ d. d.probe_id) (λ d. d.created_at) "probe_id"
        (λ _. true) directory

  unfoldable pub select_oldest_incident : String → Option String → FileStep (Option Candidate)
  select_oldest_incident directory root_spec_id =
      select_oldest host codecs.incident.parse (λ d. d.incident_id) (λ d. d.opened_at) "incident_id"
        (λ d. root_matches root_spec_id (effective_root_spec_incident d)) directory

  unfoldable pub select_oldest_learning_request : String → FileStep (Option Candidate)
  select_oldest_learning_request directory =
      select_oldest host codecs.learning_request.parse (λ d. d.learning_request_id)
        (λ d. d.created_at) "learning_request_id" (λ _. true) directory

  abbrev of_kind : WorkItemKind → Option Candidate → List (WorkItemKind × Candidate)
  of_kind kind none = []
  of_kind kind (some candidate) = (kind, candidate) ∷ []

  abbrev probe_unless_rooted : WorkspacePaths → Option String → FileStep (Option Candidate)
  probe_unless_rooted paths none = select_oldest_probe_candidate paths.probes_queue_dir
  probe_unless_rooted paths (some root_spec_id) = pure none

  abbrev pub kinds_before : WorkItemKind × Candidate → WorkItemKind × Candidate → Bool
  kinds_before a b =
      triple_lt (a.1.created_at, (WorkItemKind.as_str a.0, a.1.item_id))
        (b.1.created_at, (WorkItemKind.as_str b.0, b.1.item_id))

  unfoldable pub select_oldest_probe_or_spec :
      WorkspacePaths → Option String → FileStep (Option (WorkItemKind × Candidate))
  select_oldest_probe_or_spec paths root_spec_id =
      probe_unless_rooted paths root_spec_id >>= λ probe.
      (select_oldest_spec_candidate paths.specs_queue_dir root_spec_id >>= λ spec.
      pure
        (oldest kinds_before (of_kind WorkItemKind.probe probe ++ of_kind WorkItemKind.spec spec)))
