-- ===== src/Workspace/Interventions/Cascade.antt =====
-- A task is superseded and its queued dependents are retargeted.
use millrace_rs.Base.{String, ◌≡◌, true, some, List, Result, ok, err}
use millrace_rs.Base.Sort.{sort_by}
use millrace_rs.Workspace.Files.{Files, QueueStoreError}
use millrace_rs.Workspace.Queue.{WorkspacePaths, document_name}
use millrace_rs.Workspace.Claims.{Host}
use millrace_rs.Workspace.Claims.Documents.{Codecs, TaskDocument}
use millrace_rs.Workspace.Claims.Found.{listed}
use millrace_rs.Workspace.Claims.Listing.{is_markdown}
use millrace_rs.Workspace.Interventions.{Clerk}
use millrace_rs.Workspace.Interventions.Tasks.{QueuedDependent, queued_task, dependents_among}

module _ (host : Host) (codecs : Codecs) (clerk : Clerk) (paths : WorkspacePaths) where
  -- A queued task stands under its id.
  abbrev pub IsNamed : Files → Type 0
  IsNamed files =
      (name : String) (task : TaskDocument)
      → is_markdown name ≡ true
      → queued_task host codecs clerk paths files name ≡ some task
      → name ≡ document_name task.task_id

  dependents_of : Files → String → List QueuedDependent
  dependents_of files old_id =
      sort_by (λ d. d.name)
        (dependents_among host codecs clerk paths files old_id
          (listed host paths.tasks_queue_dir files))

  list_in :
      List QueuedDependent
      → Result QueueStoreError (List QueuedDependent) × Files
      → List QueuedDependent
  list_in other (ok dependents, _) = dependents
  list_in other (err _, _) = other
