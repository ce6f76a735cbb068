-- ===== src/Runtime/BlockedRecovery/Requeued.antt =====
-- What a retry that succeeds has checked, and what it leaves in the task's log.
use millrace_rs.Base.{
  String, ◌≡◌, ◌≢◌, refl, sym, ap, ◌∙◌, inl, inr, ℕ, ◌+◌, Bool, true, false, not, ◌||◌, Option,
  Option-cases, none, some, is_some, unwrap_or, leb, Result, Result-cases, ok, arith,
}
use millrace_rs.Base.Text.{concat, trim}
use millrace_rs.Contracts.Enums.{WorkItemKind}
use millrace_rs.Workspace.Files.{
  Files, FilePath, FileStep, QueueStoreError, ◌>>=◌, write, moved, appended, write-here,
  write-other_dir, write-other_name,
}
use millrace_rs.Workspace.Queue.{WorkspacePaths, document_name, log_name}
use millrace_rs.Workspace.Queue.Moves.{log-ne-document, move_from-present}
use millrace_rs.Workspace.Queue.Operations.{
  AuditFailure, audit_error, validate_blocked_requeue_audit, append_blocked_requeue_audit,
  requeue_blocked_task,
}
use millrace_rs.Workspace.Claims.{Host}
use millrace_rs.Runtime.State.{RuntimeSnapshot}
use millrace_rs.Runtime.BlockedRecovery.{
  Journal, RecoveryError, RetryBlockedTaskRequest, BlockedTaskRequeueResult, Granted, require,
  retry_guards, retry_metadata, blocked_metadata_allows_auto_requeue, budget, count_auto_requeues,
  validate_blocked_task_locations, validate_requeue_result,
}
use millrace_rs.Runtime.BlockedRecovery.Retry.{
  refresh_snapshot_queue_depths, write_runtime_event, requeue_result, requeue_guarded,
  retry_blocked_task, refreshed, saved, loaded, with_queue_depths,
}

require-eq-ok : (b : Bool) (message : String) → require b message ≡ ok tt → b ≡ true
require-eq-ok true message h = refl
require-eq-ok false message h = absurd (ground arith)

module _ (journal : Journal) (paths : WorkspacePaths) (request : RetryBlockedTaskRequest) where
  -- The task is blocked and in no other state; unless the retry is forced, its metadata allows an automatic requeue and
  -- its budget is not used up.
  pub record IsGranted (files : Files) (granted : Granted) : Type 0 where
    pub is_blocked : is_some (files paths.tasks_blocked_dir (document_name request.task_id)) ≡ true
    pub not_queued : is_some (files paths.tasks_queue_dir (document_name request.task_id)) ≡ false
    pub not_active : is_some (files paths.tasks_active_dir (document_name request.task_id)) ≡ false
    pub not_done : is_some (files paths.tasks_done_dir (document_name request.task_id)) ≡ false
    pub allowed :
        (request.force
          || blocked_metadata_allows_auto_requeue (retry_metadata journal paths request files))
        ≡ true
    pub within :
        (request.force
          || not (
              leb
                (budget journal paths request)
                (count_auto_requeues journal paths request.task_id files)))
        ≡ true
    pub number :
        granted.attempt_number ≡ count_auto_requeues journal paths request.task_id files + 1

  pub retry_guards-IsGranted :
      (files : Files) (granted : Granted)
      → retry_guards journal paths request files ≡ ok granted
      → IsGranted files granted
  unfolding retry_guards validate_blocked_task_locations
  retry_guards-IsGranted files granted h = record {
    is_blocked = ground arith;
    not_queued = ground arith;
    not_active = ground arith;
    not_done = ground arith;
    allowed = ground arith;
    within = ground arith;
    number = ground arith;
  }

-- A requeue that succeeds appends its record to the task's log in the queue.
requeue_blocked-log :
    (paths : WorkspacePaths) (failure : Option AuditFailure)
    (line task_id reason actor content : String) (attempt_number : Option ℕ) (files files' : Files)
    (path : FilePath)
    → files paths.tasks_blocked_dir (document_name task_id) ≡ some content
    → files paths.tasks_queue_dir (document_name task_id) ≡ none
    → requeue_blocked_task paths failure line task_id reason actor attempt_number files
      ≡ (ok path, files')
    → files' paths.tasks_queue_dir (log_name task_id)
      ≡ some (concat (unwrap_or (files paths.tasks_queue_dir (log_name task_id)) "") line)
unfolding requeue_blocked_task append_blocked_requeue_audit validate_blocked_requeue_audit appended
    moved ◌>>=◌
requeue_blocked-log paths failure line task_id reason actor content attempt_number files files' path
      here free h =
    elim (Option-cases (audit_error reason actor attempt_number)) [
      | inr (message, k) ↦ absurd (ground (arith, ap fst (rw k at h)))
      | inl k ↦
          let m =
            move_from-present files paths.tasks_blocked_dir paths.tasks_queue_dir task_id content
              "blocked" WorkItemKind.task here free in
          elim (Option-cases failure) [
            | inr (lost, f) ↦ absurd (ground (arith, ap fst (rw (k, m, f) at h)))
            | inl f ↦
                let same : logged ≡ files' = ap snd (rw (k, m, f) at h) in
                rw (← same) (
                  write-here between paths.tasks_queue_dir (log_name task_id) _
                  ∙ ap (λ o. some (concat (unwrap_or o "") line)) untouched)
          ]
    ]
  where
    fst : Result QueueStoreError FilePath × Files → Result QueueStoreError FilePath
    fst r = r.0

    snd : Result QueueStoreError FilePath × Files → Files
    snd r = r.1

    between : Files
    between = moved files paths.tasks_blocked_dir paths.tasks_queue_dir (document_name task_id)

    logged : Files
    logged = appended between paths.tasks_queue_dir (log_name task_id) line

    other : document_name task_id ≢ log_name task_id
    other e = log-ne-document task_id (sym e)

    untouched :
        between paths.tasks_queue_dir (log_name task_id)
        ≡ files paths.tasks_queue_dir (log_name task_id)
    untouched =
        write-other_name (write files paths.tasks_blocked_dir (document_name task_id) none)
          paths.tasks_queue_dir (document_name task_id) paths.tasks_queue_dir (log_name task_id) _
          other
        ∙ write-other_name files paths.tasks_blocked_dir (document_name task_id)
            paths.tasks_queue_dir (log_name task_id) none other

-- The refresh writes in the directory of states only.
refresh-other :
    (host : Host) (journal : Journal) (paths : WorkspacePaths) (files : Files) (d n : String)
    → paths.state_dir ≢ d
    → refresh_snapshot_queue_depths host journal paths files d n ≡ files d n
unfolding refresh_snapshot_queue_depths
refresh-other host journal paths files d n apart =
    past_refresh (loaded host journal paths (files paths.state_dir "runtime_snapshot.json"))
  where
    past_save : (o : Option String) → saved host journal paths files o d n ≡ files d n
    past_save none = refl
    past_save (some json) =
        write-other_dir files paths.state_dir "runtime_snapshot.json" d n (some json) apart

    past_refresh :
        (o : Option RuntimeSnapshot) → refreshed host journal paths files o d n ≡ files d n
    past_refresh none = refl
    past_refresh (some snapshot) =
        past_save (journal.snapshot_to_json (with_queue_depths host journal paths files snapshot))

-- The retry was granted, and its record stands at the end of the task's log in the queue.
abbrev pub IsRetried : Journal → WorkspacePaths → RetryBlockedTaskRequest → Files → Files → Type 0
IsRetried journal paths request files files' =
    (granted : Granted) × IsGranted journal paths request files granted
    × (files' paths.tasks_queue_dir (log_name request.task_id)
        ≡ some (
            concat (unwrap_or (files paths.tasks_queue_dir (log_name request.task_id)) "") (
              concat (journal.requeue_record request granted.failure_class granted.attempt_number)
                "\n")))

-- A retry that succeeds was granted: the task was blocked and in no other state, and unless the retry was forced, its
-- metadata allowed an automatic requeue and its budget was not used up. Its record stands at the end of the task's log
-- in the queue. The directories of states and of logs are not that of the queue.
pub retry-eq-ok :
    (host : Host) (journal : Journal) (paths : WorkspacePaths) (request : RetryBlockedTaskRequest)
    (files files' : Files) (result : BlockedTaskRequeueResult)
    → paths.state_dir ≢ paths.tasks_queue_dir
    → paths.logs_dir ≢ paths.tasks_queue_dir
    → retry_blocked_task host journal paths request files ≡ (ok result, files')
    → IsRetried journal paths request files files'
unfolding retry_blocked_task requeue_guarded write_runtime_event appended ◌>>=◌
retry-eq-ok host journal paths request files files' result state_apart logs_apart h =
    elim (Result-cases (retry_guards journal paths request files)) [
      | inr (e, k) ↦ absurd (ground (arith, ap fst (rw k at h)))
      | inl (granted, k) ↦
          let g = retry_guards-IsGranted journal paths request files granted k in
          elim (Result-cases (requeue granted files).0) [
            | inr (e, m) ↦ absurd (ground (arith, ap fst (rw (k, m) at h)))
            | inl (path, m) ↦
                elim (Result-cases
                  (validate_requeue_result (requeue_result host journal paths request granted))) [
                    | inr (e, v) ↦ absurd (ground (arith, ap fst (rw (k, m, v) at h)))
                    | inl (_, v) ↦
                        let same : final granted ≡ files' = ap snd (rw (k, m, v) at h) in
                        (granted, g, rw (← same) (log_after granted g path m))
                  ]
          ]
    ]
  where
    fst :
        Result RecoveryError BlockedTaskRequeueResult × Files
        → Result RecoveryError BlockedTaskRequeueResult
    fst r = r.0

    snd : Result RecoveryError BlockedTaskRequeueResult × Files → Files
    snd r = r.1

    record_of : Granted → String
    record_of granted =
        concat (journal.requeue_record request granted.failure_class granted.attempt_number) "\n"

    requeue : Granted → FileStep FilePath
    requeue granted =
        requeue_blocked_task paths (journal.requeue_failure request files) (record_of granted)
          request.task_id (trim request.reason) request.actor (some granted.attempt_number)

    refreshed_files : Granted → Files
    refreshed_files granted =
        refresh_snapshot_queue_depths host journal paths (requeue granted files).1

    final : Granted → Files
    final granted =
        appended (refreshed_files granted) paths.logs_dir "runtime_events.jsonl"
          (concat (journal.requeued_event (requeue_result host journal paths request granted)) "\n")

    content_of :
        is_some (files paths.tasks_blocked_dir (document_name request.task_id)) ≡ true → String
    content_of b = unwrap_or (files paths.tasks_blocked_dir (document_name request.task_id)) ""

    held :
        (b : is_some (files paths.tasks_blocked_dir (document_name request.task_id)) ≡ true)
        → files paths.tasks_blocked_dir (document_name request.task_id) ≡ some (content_of b)
    held b = ground arith

    free :
        is_some (files paths.tasks_queue_dir (document_name request.task_id)) ≡ false
        → files paths.tasks_queue_dir (document_name request.task_id) ≡ none
    free b = ground arith

    log_after :
        (granted : Granted)
        → IsGranted journal paths request files granted
        → (path : FilePath) → (requeue granted files).0 ≡ ok path
        → final granted paths.tasks_queue_dir (log_name request.task_id)
          ≡ some (
              concat
                (unwrap_or (files paths.tasks_queue_dir (log_name request.task_id)) "")
                (record_of granted))
    log_after granted g path m =
        write-other_dir (refreshed_files granted) paths.logs_dir "runtime_events.jsonl"
          paths.tasks_queue_dir (log_name request.task_id) _ logs_apart
        ∙ (refresh-other host journal paths (requeue granted files).1 paths.tasks_queue_dir
              (log_name request.task_id) state_apart
            ∙ requeue_blocked-log paths (journal.requeue_failure request files) (record_of granted)
                request.task_id (trim request.reason) request.actor (content_of g.is_blocked)
                (some granted.attempt_number) files (requeue granted files).1 path
                (held g.is_blocked) (free g.not_queued)
                (ap (λ r. (r, (requeue granted files).1)) m))
