-- ===== src/Workspace/Interventions/Tasks.antt =====
-- workspace/queue_store.rs: a queued task's dependency is changed for another task, and a task is superseded by one.
use millrace_rs.Base.{
  String, ◌==◌, ℕ, zero, suc, Bool, true, false, Option, none, some, is_some, List, [], ◌∷◌, ◌++◌,
  any, map, if◌then◌else◌, Result, ok, err, to_option, ◌||◌,
}
use millrace_rs.Base.Sort.{sort_by}
use millrace_rs.Base.Text.{concat}
use millrace_rs.Contracts.Enums.{WorkItemKind}
use millrace_rs.Contracts.WorkRefs.{validate_safe_identifier}
use millrace_rs.Workspace.Files.{Files, FileStep, ◌>>=◌, pure, fail, lift, work_document}
use millrace_rs.Workspace.Queue.{WorkspacePaths, document_name}
use millrace_rs.Workspace.Claims.{Host}
use millrace_rs.Workspace.Claims.Documents.{Codecs, TaskDocument}
use millrace_rs.Workspace.Claims.Enqueue.{write_document}
use millrace_rs.Workspace.Claims.Listing.{list_markdown_files}
use millrace_rs.Workspace.Claims.Select.{path_text}
use millrace_rs.Workspace.Interventions.{
  OperatorInterventionAction, OperatorInterventionContext, OperatorInterventionResult, Clerk,
  clean_reason, intervention_times, InterventionRecordInput, with_record,
}
use millrace_rs.Workspace.Interventions.Archive.{
  ArchiveLocatedOptions, archive_located_item, locate_exact_task,
}
use millrace_rs.Workspace.Interventions.Operations.{cancel_work_item}

-- `no_cascade` is the source's `None`.
pub data MailboxSupersedeCascade : Type 0 where
  no_cascade retarget cancel : MailboxSupersedeCascade

pub record QueuedDependent : Type 0 where
  pub task_id : String
  pub name : String

unfoldable pub occurrences : String → List String → ℕ
occurrences id [] = 0
occurrences id (x ∷ xs) = let rest = occurrences id xs in if x == id then suc rest else rest

unfoldable pub retargeted : String → String → List String → List String
retargeted old_id new_id = map (λ dependency. if dependency == old_id then new_id else dependency)

module _ (paths : WorkspacePaths) where
  abbrev pub is_replacement : Files → String → Bool
  is_replacement files task_id =
      is_some (files paths.tasks_queue_dir (document_name task_id))
      || is_some (files paths.tasks_active_dir (document_name task_id))
      || is_some (files paths.tasks_done_dir (document_name task_id))

  unfoldable pub require_replacement_task : String → FileStep (Unit {0})
  require_replacement_task task_id files =
      (if is_replacement files task_id
          then pure tt
          else fail (concat "replacement task is not queued, active, or done: " task_id))
        files

module _ (host : Host) (codecs : Codecs) (clerk : Clerk) (paths : WorkspacePaths) where
  -- What a file of the queue parses to.
  abbrev pub parsed : String → Option String → Option TaskDocument
  parsed name none = none
  parsed name (some raw) = to_option (codecs.task.parse raw (path_text paths.tasks_queue_dir name))

  unfoldable pub queued_task : Files → String → Option TaskDocument
  queued_task files name = parsed name (files paths.tasks_queue_dir name)

  abbrev pub dependent_of : String → String → Option TaskDocument → List QueuedDependent
  dependent_of old_task_id name none = []
  dependent_of old_task_id name (some task) =
      if any (λ d. d == old_task_id) task.depends_on
      then record { task_id = task.task_id; name = name } ∷ []
      else []

  -- The loop over the queued documents: one that cannot be read is passed over.
  unfoldable pub dependents_among : Files → String → List String → List QueuedDependent
  dependents_among files old_task_id [] = []
  dependents_among files old_task_id (name ∷ names) =
      dependent_of old_task_id name (queued_task files name)
      ++ dependents_among files old_task_id names

  unfoldable pub queued_dependents : String → FileStep (List QueuedDependent)
  queued_dependents old_task_id =
      list_markdown_files host paths.tasks_queue_dir >>= λ names. dependents_in names
    where
      dependents_in : List String → FileStep (List QueuedDependent)
      dependents_in names files =
          (ok (sort_by (λ d. d.name) (dependents_among files old_task_id names)), files)

  abbrev pub task_or_error : String → Result String TaskDocument → FileStep TaskDocument
  task_or_error name (ok task) files = (ok task, files)
  task_or_error name (err error) files =
      (err (work_document paths.tasks_queue_dir name error), files)

  abbrev pub opened : String → Option String → FileStep TaskDocument
  opened name none files = fail "task is not queued" files
  opened name (some raw) files =
      task_or_error name (codecs.task.parse raw (path_text paths.tasks_queue_dir name)) files

  unfoldable pub depends_once : String → String → ℕ → FileStep (Unit {0})
  depends_once task_id old_dependency_id zero =
      fail (concat "task " (concat task_id (concat " does not depend on " old_dependency_id)))
  depends_once task_id old_dependency_id (suc zero) = pure tt
  depends_once task_id old_dependency_id (suc (suc _)) =
      fail (concat "task " (concat task_id (concat " has duplicate dependency " old_dependency_id)))

  abbrev pub retarget_input : String → String → String → String × String → InterventionRecordInput
  retarget_input task_id new_dependency_id reason (issued_at, applied_at) = record {
    action = OperatorInterventionAction.retarget_dependency;
    work_item_kind = WorkItemKind.task;
    work_item_id = task_id;
    source_state = "queue";
    destination_state = "queue";
    source_path = (paths.tasks_queue_dir, document_name task_id);
    destination_path = (paths.tasks_queue_dir, document_name task_id);
    reason = reason;
    issued_at = issued_at;
    applied_at = applied_at;
    replacement_work_item_id = some new_dependency_id;
    affected_dependents = task_id ∷ [];
  }

  unfoldable pub retarget_document : String → String → String × String → TaskDocument → TaskDocument
  retarget_document old_dependency_id new_dependency_id times task = record task {
    depends_on = retargeted old_dependency_id new_dependency_id task.depends_on;
    updated_at = some times.1;
  }

  -- The part of `retarget_queued_task_dependency` that changes files.
  unfoldable pub rewrite_task :
      String
      → String
      → String
      → String
      → OperatorInterventionContext
      → String × String
      → TaskDocument
      → FileStep OperatorInterventionResult
  rewrite_task task_id old_dependency_id new_dependency_id reason context times task =
      write_document paths.tasks_queue_dir (document_name task_id)
        (codecs.task.render (retarget_document old_dependency_id new_dependency_id times task))
      >>= λ _.
          with_record clerk paths context paths.tasks_queue_dir "task_dependency_retargeted"
            (retarget_input task_id new_dependency_id reason times)

  abbrev pub retarget_queued :
      Bool
      → String
      → String
      → String
      → String
      → OperatorInterventionContext
      → String × String
      → FileStep OperatorInterventionResult
  retarget_queued false task_id old_dependency_id new_dependency_id reason context times files =
      fail (concat "task " (concat task_id " is not queued")) files
  retarget_queued true task_id old_dependency_id new_dependency_id reason context times files =
      (require_replacement_task paths new_dependency_id >>= λ _.
      (opened (document_name task_id) (files paths.tasks_queue_dir (document_name task_id))
        >>= λ task.
            (depends_once task_id old_dependency_id (occurrences old_dependency_id task.depends_on)
              >>= λ _.
                  rewrite_task task_id old_dependency_id new_dependency_id reason context times
                    task)))
        files

  unfoldable pub retarget_checked :
      String
      → String
      → String
      → OperatorInterventionContext
      → String
      → String × String
      → FileStep OperatorInterventionResult
  retarget_checked task_id old_dependency_id new_dependency_id context reason times files =
      retarget_queued (is_some (files paths.tasks_queue_dir (document_name task_id))) task_id
        old_dependency_id new_dependency_id reason context times files

  unfoldable pub retarget_queued_task_dependency :
      String
      → String
      → String
      → String
      → OperatorInterventionContext
      → FileStep OperatorInterventionResult
  retarget_queued_task_dependency task_id old_dependency_id new_dependency_id reason context =
      lift (validate_safe_identifier task_id "task_id") >>= λ _.
      (lift (validate_safe_identifier old_dependency_id "old_dependency_id") >>= λ _.
      (lift (validate_safe_identifier new_dependency_id "new_dependency_id") >>= λ _.
      (clean_reason reason >>= λ cleaned.
      (intervention_times clerk context >>= λ times.
      retarget_checked task_id old_dependency_id new_dependency_id context cleaned times))))

  unfoldable pub for_each :
      (String → FileStep OperatorInterventionResult) → List QueuedDependent → FileStep (Unit {0})
  for_each step [] = pure tt
  for_each step (dependent ∷ dependents) = step dependent.task_id >>= λ _. for_each step dependents

  abbrev pub cascaded :
      MailboxSupersedeCascade
      → String
      → String
      → String
      → OperatorInterventionContext
      → List QueuedDependent
      → FileStep (Unit {0})
  cascaded MailboxSupersedeCascade.no_cascade old_id new_id reason context dependents = pure tt
  cascaded MailboxSupersedeCascade.retarget old_id new_id reason context dependents =
      for_each (λ id. retarget_queued_task_dependency id old_id new_id reason context) dependents
  cascaded MailboxSupersedeCascade.cancel old_id new_id reason context dependents =
      for_each (λ id. cancel_work_item clerk paths id (some WorkItemKind.task) reason context)
        dependents

  abbrev pub superseded_options :
      String
      → String
      → String
      → OperatorInterventionContext
      → List QueuedDependent
      → ArchiveLocatedOptions
  superseded_options old_id new_id reason context dependents = record {
    action = OperatorInterventionAction.supersede;
    destination_state = "superseded";
    archive_name = "superseded";
    event_type = "task_superseded";
    reason = reason;
    context = context;
    replacement_work_item_id = some new_id;
    affected_dependents = map (λ d. d.task_id) dependents;
    explicit_archive_parent = none;
  }

  abbrev pub supersede_located :
      String
      → String
      → String
      → MailboxSupersedeCascade
      → OperatorInterventionContext
      → FileStep OperatorInterventionResult
  supersede_located old_id new_id reason cascade context =
      locate_exact_task paths old_id
        (("blocked", paths.tasks_blocked_dir) ∷ ("queue", paths.tasks_queue_dir) ∷ [])
      >>= λ item.
          (require_replacement_task paths new_id >>= λ _.
          (queued_dependents old_id >>= λ dependents.
          (archive_located_item clerk paths item
              (superseded_options old_id new_id reason context dependents)
            >>= λ result.
                (cascaded cascade old_id new_id reason context dependents >>= λ _. pure result))))

  unfoldable pub supersede_task :
      String
      → String
      → String
      → MailboxSupersedeCascade
      → OperatorInterventionContext
      → FileStep OperatorInterventionResult
  supersede_task old_task_id replacement_task_id reason cascade context =
      lift (validate_safe_identifier old_task_id "old_task_id") >>= λ _.
      (lift (validate_safe_identifier replacement_task_id "replacement_task_id") >>= λ _.
      (if old_task_id == replacement_task_id
        then fail "replacement task must be different from superseded task"
        else supersede_located old_task_id replacement_task_id reason cascade context))
