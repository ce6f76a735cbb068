-- ===== src/Workspace/Queue/Audit.antt =====
-- A blocked task is requeued with an audit record: it is checked before anything is moved, and appended afterwards.
use millrace_rs.Base.{
  String, ◌≡◌, ◌≢◌, refl, sym, ap, ◌∙◌, ◌⊎◌, ℕ, inl, inr, Option-cases, Option, none, some, Result,
  err, Result-cases, arith,
}
use millrace_rs.Contracts.Enums.{WorkItemKind}
use millrace_rs.Workspace.Files.{
  Files, FileStep, FilePath, QueueStoreError, ◌>>=◌, moved, appended, write-other_name,
}
use millrace_rs.Workspace.Queue.{WorkspacePaths, document_name, log_name, move_item_from_state}
use millrace_rs.Workspace.Queue.Operations.{
  AuditFailure, with_part, audit_error, validate_blocked_requeue_audit,
  append_blocked_requeue_audit, requeue_blocked_task,
}
use millrace_rs.Workspace.Queue.Moves.{move_from-moved, move_from-unchanged}

-- No file has changed; or the audit record could not be appended, and then the document has been moved, and no file
-- differs beside it but the log of the task.
abbrev pub FailsAt :
    WorkspacePaths → String → Option AuditFailure → QueueStoreError → Files → Files → Type 0
FailsAt paths task_id failure e files files' =
    (files' ≡ files)
    ⊎ ((f : AuditFailure) × (failure ≡ some f)
        × (f.error ≡ e)
        × ((d n : String)
            → log_name task_id ≢ n
            → files' d n
              ≡ moved files paths.tasks_blocked_dir paths.tasks_queue_dir (document_name task_id) d
                  n))

with_part-other :
    (files : Files) (directory name d n : String) (o : Option String)
    → name ≢ n
    → with_part files directory name o d n ≡ files d n
unfolding appended
with_part-other files directory name d n none apart = refl
with_part-other files directory name d n (some part) apart =
    write-other_name files directory name d n _ apart

-- When the requeue of a blocked task reports an error, then either no file has changed; or its audit record could not be
-- appended, and then the document has been moved all the same, and no other file has changed but the log of the task. The
-- checks of the record come before the move.
pub requeue_blocked-FailsAt :
    (paths : WorkspacePaths) (failure : Option AuditFailure) (line task_id reason actor : String)
    (attempt_number : Option ℕ) (files files' : Files) (e : QueueStoreError)
    → requeue_blocked_task paths failure line task_id reason actor attempt_number files
      ≡ (err e, files')
    → FailsAt paths task_id failure e files files'
unfolding requeue_blocked_task append_blocked_requeue_audit validate_blocked_requeue_audit ◌>>=◌
requeue_blocked-FailsAt paths failure line task_id reason actor attempt_number files files' e h =
    elim (Option-cases (audit_error reason actor attempt_number)) [
      | inr (message, k) ↦ inl (sym (ap snd (rw k at h)))
      | inl k ↦ elim (Result-cases (move files).0) [
        | inl (destination, m) ↦ elim (Option-cases failure) [
          | inl f ↦ absurd (ground (arith, ap fst (rw (k, m, f) at h)))
          | inr (lost, f) ↦
              let same : with_part (move files).1 paths.tasks_queue_dir (log_name task_id)
                    lost.written
                  ≡ files' =
                ap snd (rw (k, m, f) at h) in
              inr (
                lost,
                f,
                ground (arith, ap fst (rw (k, m, f) at h)),
                λ d n apart. rw (← same) (
                    with_part-other (move files).1 paths.tasks_queue_dir (log_name task_id) d n
                      lost.written apart
                    ∙ ap (λ (g : Files). g d n)
                        (move_from-moved files (move files).1 paths.tasks_blocked_dir
                          paths.tasks_queue_dir task_id "blocked" WorkItemKind.task destination
                          (ap (λ r. (r, (move files).1)) m))),
              )
        ]
        | inr (e', m) ↦
            let same : move files ≡ (err e', (move files).1) = ap (λ r. (r, (move files).1)) m in
            inl (
              sym (ap snd (rw (k, m) at h))
              ∙ move_from-unchanged files (move files).1 paths.tasks_blocked_dir
                  paths.tasks_queue_dir task_id "blocked" WorkItemKind.task e' same)
      ]
    ]
  where
    move : FileStep FilePath
    move =
        move_item_from_state paths.tasks_blocked_dir paths.tasks_queue_dir task_id WorkItemKind.task
          "blocked"

    fst : Result QueueStoreError FilePath × Files → Result QueueStoreError FilePath
    fst r = r.0

    snd : Result QueueStoreError FilePath × Files → Files
    snd r = r.1
