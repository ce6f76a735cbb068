-- ===== src/Workspace/Claims/Enqueue.antt =====
-- workspace/queue_store.rs: a document is validated and written into its queue, if its id is in none of the
-- directories of its kind.
use millrace_rs.Base.{String, Bool, true, false, some, List, [], ◌∷◌, Result, ok, err}
use millrace_rs.Base.Text.{concat}
use millrace_rs.Contracts.Enums.{WorkItemKind}
use millrace_rs.Contracts.WorkItemKind
use millrace_rs.Workspace.Files.{
  FileStep, FilePath, ◌>>=◌, pure, fail, exists, write, work_document,
}
use millrace_rs.Workspace.Queue.{WorkspacePaths, document_name}
use millrace_rs.Workspace.Claims.Documents.{
  Codec, Codecs, TaskDocument, SpecDocument, ProbeDocument, IncidentDocument,
  LearningRequestDocument,
}

abbrev pub already_exists : String → WorkItemKind → String
already_exists item_id kind =
    concat (WorkItemKind.as_str kind) (concat " " (concat item_id " already exists"))

abbrev refuse_if : Bool → String → WorkItemKind → FileStep (Unit {0}) → FileStep (Unit {0})
refuse_if true item_id kind rest = fail (already_exists item_id kind)
refuse_if false item_id kind rest = rest

unfoldable pub ensure_unique_id : String → List String → WorkItemKind → FileStep (Unit {0})
ensure_unique_id item_id [] kind = pure tt
ensure_unique_id item_id (directory ∷ directories) kind =
    exists directory (document_name item_id) >>= λ taken.
    refuse_if taken item_id kind (ensure_unique_id item_id directories kind)

unfoldable pub write_document : String → String → String → FileStep (Unit {0})
write_document directory name raw files = (ok tt, write files directory name (some raw))

abbrev pub validated : Result String (Unit {0}) → String → String → FileStep (Unit {0})
validated (ok _) directory name files = (ok tt, files)
validated (err source) directory name files = (err (work_document directory name source), files)

-- The five operations have the same body but for the kind of the document and its directories, of which the first
-- is the queue.
unfoldable pub enqueue :
    {Document : Type 0}
    → Codec Document
    → (Document → String)
    → WorkItemKind
    → String
    → List String
    → Document
    → FileStep FilePath
enqueue codec id_of kind queue_dir others document =
    validated (codec.validate document) queue_dir (document_name (id_of document)) >>= λ _.
    (ensure_unique_id (id_of document) (queue_dir ∷ others) kind >>= λ _.
    (write_document queue_dir (document_name (id_of document)) (codec.render document) >>= λ _.
    pure (queue_dir, document_name (id_of document))))

module _ (codecs : Codecs) (paths : WorkspacePaths) where
  unfoldable pub enqueue_task : TaskDocument → FileStep FilePath
  enqueue_task =
      enqueue codecs.task (λ d. d.task_id) WorkItemKind.task paths.tasks_queue_dir
        (paths.tasks_active_dir ∷ paths.tasks_done_dir ∷ paths.tasks_blocked_dir ∷ [])

  unfoldable pub enqueue_spec : SpecDocument → FileStep FilePath
  enqueue_spec =
      enqueue codecs.spec (λ d. d.spec_id) WorkItemKind.spec paths.specs_queue_dir
        (paths.specs_active_dir ∷ paths.specs_done_dir ∷ paths.specs_blocked_dir ∷ [])

  unfoldable pub enqueue_probe : ProbeDocument → FileStep FilePath
  enqueue_probe =
      enqueue codecs.probe (λ d. d.probe_id) WorkItemKind.probe paths.probes_queue_dir
        (paths.probes_active_dir ∷ paths.probes_done_dir ∷ paths.probes_blocked_dir ∷ [])

  unfoldable pub enqueue_incident : IncidentDocument → FileStep FilePath
  enqueue_incident =
      enqueue codecs.incident (λ d. d.incident_id) WorkItemKind.incident
        paths.incidents_incoming_dir
        (paths.incidents_active_dir ∷ paths.incidents_resolved_dir ∷ paths.incidents_blocked_dir
          ∷ [])

  unfoldable pub enqueue_learning_request : LearningRequestDocument → FileStep FilePath
  enqueue_learning_request =
      enqueue codecs.learning_request (λ d. d.learning_request_id) WorkItemKind.learning_request
        paths.learning_requests_queue_dir
        (paths.learning_requests_active_dir ∷ paths.learning_requests_done_dir
          ∷ paths.learning_requests_blocked_dir ∷ [])
