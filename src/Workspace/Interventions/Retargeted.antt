-- ===== src/Workspace/Interventions/Retargeted.antt =====
-- What the change of a queued task's dependency does to the files.
use millrace_rs.Base.{
  String, ◌==◌, eq_iff, ◌≡◌, ◌≢◌, refl, sym, ap, ◌∙◌, inl, inr, ℕ, zero, suc, Bool, Bool-cases,
  true, false, Option, none, some, is_some, List, [], ◌∷◌, any, Result, to_option, ok, err, arith,
}
use millrace_rs.Contracts.WorkRefs.{validate_safe_identifier}
use millrace_rs.Workspace.Files.{Files, QueueStoreError, ◌>>=◌, lift, write}
use millrace_rs.Workspace.Files.Steps.{bind-ok_read, err-ne-ok}
use millrace_rs.Workspace.Queue.{WorkspacePaths, document_name}
use millrace_rs.Workspace.Claims.{Host}
use millrace_rs.Workspace.Claims.Documents.{Codecs, TaskDocument}
use millrace_rs.Workspace.Claims.Enqueue.{write_document}
use millrace_rs.Workspace.Claims.Select.{path_text}
use millrace_rs.Workspace.Interventions.{
  OperatorInterventionContext, OperatorInterventionResult, Clerk, clean_reason, intervention_times,
}
use millrace_rs.Workspace.Interventions.Archived.{
  clean_reason-keeps, intervention_times-keeps, with_record-other,
}
use millrace_rs.Workspace.Interventions.Cancelled.{lift-keeps}
use millrace_rs.Workspace.Interventions.Tasks.{
  occurrences, retargeted, require_replacement_task, is_replacement, queued_task, task_or_error,
  opened, parsed, depends_once, retarget_input, retarget_document, rewrite_task, retarget_queued,
  retarget_checked, retarget_queued_task_dependency,
}

-- A dependency that is changed for another is none any more.
pub retargeted-none :
    (old_id new_id : String) (ids : List String)
    → (old_id == new_id) ≡ false
    → any (λ d. d == old_id) (retargeted old_id new_id ids) ≡ false
unfolding retargeted any
retargeted-none old_id new_id [] apart = refl
retargeted-none old_id new_id (id ∷ ids) apart =
    let later = retargeted-none old_id new_id ids apart in
    let new_is_old : (new_id == old_id) ≡ false =
      ground (arith, eq_iff old_id new_id, eq_iff new_id old_id) in
    elim (Bool-cases (id == old_id)) [
      | inl e ↦ rw (e, new_is_old, later) refl
      | inr e ↦ rw (e, e, later) refl
    ]

pub require_replacement-keeps :
    (paths : WorkspacePaths) (id : String) (files : Files)
    → (require_replacement_task paths id files).1 ≡ files
unfolding require_replacement_task
require_replacement-keeps paths id files = elim (Bool-cases (is_replacement paths files id)) [
  | inl e ↦ rw e refl
  | inr e ↦ rw e refl
]

module _ (host : Host) (codecs : Codecs) (clerk : Clerk) (paths : WorkspacePaths) where
  opened-keeps :
      (name : String) (o : Option String) (files : Files)
      → (opened host codecs clerk paths name o files).1 ≡ files
  opened-keeps name none files = refl
  opened-keeps name (some raw) files =
      on (codecs.task.parse raw (path_text paths.tasks_queue_dir name))
    where
      on :
          (r : Result String TaskDocument)
          → (task_or_error host codecs clerk paths name r files).1 ≡ files
      on (ok task) = refl
      on (err error) = refl

  task_in : Result QueueStoreError TaskDocument × Files → Option TaskDocument
  task_in (ok task, _) = some task
  task_in (err _, _) = none

  opened-ok :
      (name : String) (o : Option String) (files : Files) (task : TaskDocument)
      → opened host codecs clerk paths name o files ≡ (ok task, files)
      → parsed host codecs clerk paths name o ≡ some task
  unfolding task_in
  opened-ok name none files task h = absurd (err-ne-ok _ task files files h)
  opened-ok name (some raw) files task h =
      on (codecs.task.parse raw (path_text paths.tasks_queue_dir name)) h
    where
      on :
          (r : Result String TaskDocument)
          → task_or_error host codecs clerk paths name r files ≡ (ok task, files)
          → to_option r ≡ some task
      on (ok found) k = ap task_in k
      on (err error) k = absurd (err-ne-ok _ task files files k)

  depends_once-keeps :
      (task_id old_id : String) (n : ℕ) (files : Files)
      → (depends_once host codecs clerk paths task_id old_id n files).1 ≡ files
  unfolding depends_once
  depends_once-keeps task_id old_id zero files = refl
  depends_once-keeps task_id old_id (suc zero) files = refl
  depends_once-keeps task_id old_id (suc (suc n)) files = refl

  -- One document of the queue is rewritten; only logs differ beside it.
  pub record Rewrites (task_id old_id new_id : String) (files files' : Files) : Type 0 where
    pub task : TaskDocument
    pub times : String × String
    pub was : queued_task host codecs clerk paths files (document_name task_id) ≡ some task
    pub rewritten :
        (d n : String)
        → "interventions.jsonl" ≢ n
        → "runtime_events.jsonl" ≢ n
        → files' d n
          ≡ write files paths.tasks_queue_dir
              (document_name task_id)
              (some (
                codecs.task.render
                  (retarget_document host codecs clerk paths old_id new_id times task)))
              d
              n

  queued-Rewrites :
      (present : Bool) (task_id old_id new_id reason : String)
      (context : OperatorInterventionContext) (times : String × String) (files files' : Files)
      (r : OperatorInterventionResult)
      → retarget_queued host codecs clerk paths present task_id old_id new_id reason context times
          files
        ≡ (ok r, files')
      → Rewrites task_id old_id new_id files files'
  unfolding queued_task rewrite_task write_document ◌>>=◌
  queued-Rewrites false task_id old_id new_id reason context times files files' r h =
      absurd (err-ne-ok _ r files files' h)
  queued-Rewrites true task_id old_id new_id reason context times files files' r h =
      let (_, _, k) =
        bind-ok_read (require_replacement_task paths new_id) _ files files' r
          (require_replacement-keeps paths new_id files) h in
      let (task, o, l) =
        bind-ok_read
          (opened host codecs clerk paths (document_name task_id)
            (files paths.tasks_queue_dir (document_name task_id)))
          _ files files' r
          (opened-keeps (document_name task_id)
            (files paths.tasks_queue_dir (document_name task_id)) files)
          k in
      let (_, _, m) =
        bind-ok_read
          (depends_once host codecs clerk paths task_id old_id (occurrences old_id task.depends_on))
          _ files files' r
          (depends_once-keeps task_id old_id (occurrences old_id task.depends_on) files) l in
      record {
        task = task;
        times = times;
        was =
            opened-ok (document_name task_id) (files paths.tasks_queue_dir (document_name task_id))
              files task o;
        rewritten = λ d n a b.
            ap (λ (x : Result QueueStoreError OperatorInterventionResult × Files). x.1 d n) (sym m)
            ∙ with_record-other clerk paths context paths.tasks_queue_dir
                "task_dependency_retargeted"
                (retarget_input host codecs clerk paths task_id new_id reason times) _ d n a b;
      }

  -- The change of a dependency rewrites the task's document in the queue.
  pub retarget-Rewrites :
      (task_id old_id new_id reason : String) (context : OperatorInterventionContext)
      (files files' : Files) (r : OperatorInterventionResult)
      → retarget_queued_task_dependency host codecs clerk paths task_id old_id new_id reason context
          files
        ≡ (ok r, files')
      → Rewrites task_id old_id new_id files files'
  unfolding retarget_queued_task_dependency retarget_checked
  retarget-Rewrites task_id old_id new_id reason context files files' r h =
      let (_, _, k) =
        bind-ok_read (lift (validate_safe_identifier task_id "task_id")) _ files files' r
          (lift-keeps (validate_safe_identifier task_id "task_id") files) h in
      let (_, _, l) =
        bind-ok_read (lift (validate_safe_identifier old_id "old_dependency_id")) _ files files' r
          (lift-keeps (validate_safe_identifier old_id "old_dependency_id") files) k in
      let (_, _, m) =
        bind-ok_read (lift (validate_safe_identifier new_id "new_dependency_id")) _ files files' r
          (lift-keeps (validate_safe_identifier new_id "new_dependency_id") files) l in
      let (cleaned, _, n) =
        bind-ok_read (clean_reason reason) _ files files' r (clean_reason-keeps reason files) m in
      let (times, _, o) =
        bind-ok_read (intervention_times clerk context) _ files files' r
          (intervention_times-keeps clerk context files) n in
      queued-Rewrites (is_some (files paths.tasks_queue_dir (document_name task_id))) task_id old_id
        new_id cleaned context times files files' r o
