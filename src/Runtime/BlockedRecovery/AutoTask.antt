-- ===== src/Runtime/BlockedRecovery/AutoTask.antt =====
-- An automatic retry is one of the candidate's task.
use millrace_rs.Base.{◌≡◌, sym, ap, ℕ, true, some, Result, ok, err}
use millrace_rs.Runtime.State.{RuntimeSnapshot, Timestamp}
use millrace_rs.Workspace.Files.{Files}
use millrace_rs.Workspace.Files.Steps.{bind-ok, err-ne-ok}
use millrace_rs.Workspace.Queue.{WorkspacePaths}
use millrace_rs.Workspace.Claims.{Host}
use millrace_rs.Runtime.BlockedRecovery.{
  Journal, BlockedItemMetadata, RecoveryError, BlockedTaskRequeueResult, RetryBlockedTaskRequest,
  Granted, retry_guards,
}
use millrace_rs.Runtime.BlockedRecovery.Retry.{
  guarded, requeue_guarded, requeue_result, retry_blocked_task,
}
use millrace_rs.Runtime.BlockedRecovery.Stranded.{AutoRecoveryCandidate}
use millrace_rs.Runtime.BlockedRecovery.Auto.{
  AutoRecoveryConfig, Reports, Attempt, auto_request, recover,
}

module _ (host : Host) (journal : Journal) (paths : WorkspacePaths) where
  given : {A : Type 0} → A → Result RecoveryError A × Files → A
  given a (ok b, files) = b
  given a (err e, files) = a

  requeue_guarded-result :
      (request : RetryBlockedTaskRequest) (granted : Granted) (files files' : Files)
      (result : BlockedTaskRequeueResult)
      → requeue_guarded host journal paths request granted files ≡ (ok result, files')
      → requeue_result host journal paths request granted ≡ result
  unfolding requeue_guarded given
  requeue_guarded-result request granted files files' result h =
      let (_, files1, _, h1) = bind-ok _ _ files files' result h in
      let (_, files2, _, h2) = bind-ok _ _ files1 files' result h1 in
      let (_, files3, _, h3) = bind-ok _ _ files2 files' result h2 in
      let (_, files4, _, h4) = bind-ok _ _ files3 files' result h3 in ap (given result) h4

  -- The result of a retry names the task of the request.
  retry-task_id :
      (request : RetryBlockedTaskRequest) (files files' : Files) (result : BlockedTaskRequeueResult)
      → retry_blocked_task host journal paths request files ≡ (ok result, files')
      → (result.task_id ≡ request.task_id) × (result.auto ≡ request.auto)
  unfolding retry_blocked_task requeue_result
  retry-task_id request files files' result h = on (retry_guards journal paths request files) h
    where
      on :
          (r : Result RecoveryError Granted)
          → guarded host journal paths request r files ≡ (ok result, files')
          → (result.task_id ≡ request.task_id) × (result.auto ≡ request.auto)
      on (err e) k = absurd (err-ne-ok e result files files' k)
      on (ok granted) k =
          let same = sym (requeue_guarded-result request granted files files' result k) in
          (
            ap (λ (r : BlockedTaskRequeueResult). r.task_id) same,
            ap (λ (r : BlockedTaskRequeueResult). r.auto) same,
          )

-- The retry is an automatic one of the candidate's task.
abbrev pub IsRetryOf : AutoRecoveryCandidate → BlockedTaskRequeueResult → Type 0
IsRetryOf candidate result =
    (result.task_id ≡ candidate.dependency.blocked_task_id) × (result.auto ≡ true)

-- A recovery that ends with a result has retried the candidate's task.
pub recover-IsRetryOf :
    (host : Host) (journal : Journal) (reports : Reports) (paths : WorkspacePaths)
    (config : AutoRecoveryConfig) (snapshot : RuntimeSnapshot) (now : Timestamp)
    (candidate : AutoRecoveryCandidate) (metadata : BlockedItemMetadata) (n : ℕ)
    (files files' : Files) (s : RuntimeSnapshot) (result : BlockedTaskRequeueResult)
    → recover host journal reports paths config snapshot now candidate metadata n files
      ≡ (ok (s, some result), files')
    → IsRetryOf candidate result
unfolding recover auto_request
recover-IsRetryOf host journal reports paths config snapshot now candidate metadata n files files' s
      result h =
    let (path, files1, _, h1) = bind-ok _ _ files files' (s, some result) h in
    let (retried, files2, e, h2) = bind-ok _ _ files1 files' (s, some result) h1 in
    let (refreshed, files3, _, h3) = bind-ok _ _ files2 files' (s, some result) h2 in
    let (_, files4, _, h4) = bind-ok _ _ files3 files' (s, some result) h3 in
    let same : retried ≡ result = ap (retried_of retried) h4 in
    rw same at (
      retry-task_id host journal paths
        (auto_request host journal reports paths config snapshot now candidate path) files1 files2
        retried e)
  where
    retried_of :
        BlockedTaskRequeueResult → Result RecoveryError Attempt × Files → BlockedTaskRequeueResult
    retried_of r (ok (t, some x), f) = x
    retried_of r _ = r
