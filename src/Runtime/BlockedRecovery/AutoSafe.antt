-- ===== src/Runtime/BlockedRecovery/AutoSafe.antt =====
-- When the daemon retries a blocked task by itself.
use millrace_rs.Base.{
  String, ◌≡◌, refl, ap, ◌∙◌, ◌⊎◌, inl, inr, ℕ, if◌then◌else◌, ◌+◌, ◌<◌, Bool, Bool-cases, true,
  false, ◌&&◌, Option, Option-cases, none, some, leb, Result, Result-cases, ok, arith,
}
use millrace_rs.Runtime.PlaneMap
use millrace_rs.Runtime.State.{RuntimeSnapshot, Timestamp}
use millrace_rs.Workspace.Files.{Files, StepOf, ◌>>=◌}
use millrace_rs.Workspace.Queue.{WorkspacePaths}
use millrace_rs.Workspace.Claims.{Host}
use millrace_rs.Runtime.BlockedRecovery.{
  Journal, BlockedItemMetadata, RecoveryError, BlockedTaskRequeueResult, allows_auto_requeue,
  count_auto_requeues,
}
use millrace_rs.Runtime.BlockedRecovery.Retry.{count_markdown_files, write_runtime_event}
use millrace_rs.Runtime.BlockedRecovery.Diagnostics.{diagnostic, validate_diagnostic}
use millrace_rs.Runtime.BlockedRecovery.Stranded.{
  AutoRecoveryCandidate, find_auto_recovery_candidate,
}
use millrace_rs.Runtime.BlockedRecovery.StrandedSound.{IsStranding, find-IsStranding}
use millrace_rs.Runtime.BlockedRecovery.AutoTask.{IsRetryOf, recover-IsRetryOf}
use millrace_rs.Runtime.BlockedRecovery.Auto.{
  AutoRecoveryConfig, Reports, Attempt, holds_back, auto_recovery_cooldown_active,
  write_auto_recovery_diagnostics, write_auto_recovery_skip, skip, within_budget, with_metadata,
  with_candidate, search, attempt_stranded_dependency_auto_recovery,
}

module _ (host : Host) (journal : Journal) (reports : Reports) (paths : WorkspacePaths)
    (config : AutoRecoveryConfig) (snapshot : RuntimeSnapshot) (now : Timestamp) where
  -- The step ends with a retry.
  abbrev pub EndsRetried : StepOf RecoveryError Attempt → Files → BlockedTaskRequeueResult → Type 0
  EndsRetried step files result =
      (s : RuntimeSnapshot) × (files' : Files) × (step files ≡ (ok (s, some result), files'))

  fst : Result RecoveryError Attempt × Files → Result RecoveryError Attempt
  fst r = r.0

  skip-unreported :
      (candidate : AutoRecoveryCandidate) (reason compact : String) (n : ℕ) (files files' : Files)
      (s : RuntimeSnapshot) (result : BlockedTaskRequeueResult)
      → reports.compact now ≡ some compact
      → skip host journal reports paths config snapshot now candidate reason n files
        ≡ (ok (s, some result), files')
      → ⊥
  unfolding write_auto_recovery_skip write_auto_recovery_diagnostics write_runtime_event fst ◌>>=◌
  skip-unreported candidate reason compact n files files' s result k h =
      let report = diagnostic snapshot now candidate.dependency "skip" reason n in
      elim (Result-cases (validate_diagnostic reports.parse_time report)) [
        | inr (e, v) ↦ ground (arith, ap fst (rw (k, v) at h))
        | inl (_, v) ↦ elim (Option-cases (reports.to_json report)) [
          | inl j ↦ ground (arith, ap fst (rw (k, v, j) at h))
          | inr (json, j) ↦ ground (arith, ap fst (rw (k, v, j) at h))
        ]
      ]

  skip-never :
      (candidate : AutoRecoveryCandidate) (reason : String) (n : ℕ) (files : Files)
      (result : BlockedTaskRequeueResult)
      → EndsRetried
          (skip host journal reports paths config snapshot now candidate reason n)
          files
          result
      → ⊥
  unfolding write_auto_recovery_skip write_auto_recovery_diagnostics write_runtime_event fst ◌>>=◌
  skip-never candidate reason n files result (s, files', h) =
      elim (Option-cases (reports.compact now)) [
        | inl k ↦ ground (arith, ap fst (rw k at h))
        | inr (compact, k) ↦ skip-unreported candidate reason compact n files files' s result k h
      ]

  abbrev pub IsIdle : Type 0
  IsIdle =
      (config.enabled ≡ true)
      × (config.blocked_dependency_retry_enabled ≡ true)
      × (snapshot.paused ≡ false)
      × (snapshot.stop_requested ≡ false)
      × (PlaneMap.is_empty snapshot.active_runs_by_plane ≡ true)

  unheld-IsIdle : holds_back config snapshot ≡ false → IsIdle
  unfolding holds_back
  unheld-IsIdle h = (
    ground (arith, h),
    ground (arith, h),
    ground (arith, h),
    ground (arith, h),
    ground (arith, h),
  )

  -- What the daemon has found out about the task that it retries, and the retry.
  pub record IsSafeRetry (files : Files) (result : BlockedTaskRequeueResult) : Type 0 where
    pub undisturbed : IsIdle
    pub candidate : AutoRecoveryCandidate
    pub retried : IsRetryOf candidate result
    pub metadata : BlockedItemMetadata
    pub found :
        find_auto_recovery_candidate host journal paths files reports.parse_time
        ≡ ok (some candidate)
    pub stranding : IsStranding host journal paths files false candidate.dependency.blocked_task_id
    pub recorded : candidate.dependency.metadata ≡ some metadata
    pub transient : allows_auto_requeue metadata ≡ true
    pub within :
        count_auto_requeues journal paths candidate.dependency.blocked_task_id files
        < config.max_auto_requeues_per_work_item
    pub cool :
        auto_recovery_cooldown_active reports config metadata
          (count_auto_requeues journal paths candidate.dependency.blocked_task_id files)
          now
        ≡ ok false

  attempts : AutoRecoveryCandidate → Files → ℕ
  attempts candidate files =
      count_auto_requeues journal paths candidate.dependency.blocked_task_id files

  -- The candidate may be retried, and it is.
  record IsChosen (candidate : AutoRecoveryCandidate) (files : Files)
      (result : BlockedTaskRequeueResult) : Type 0 where
    retried : IsRetryOf candidate result
    metadata : BlockedItemMetadata
    compatible : candidate.lineage_compatible ≡ true
    recorded : candidate.dependency.metadata ≡ some metadata
    transient : allows_auto_requeue metadata ≡ true
    within : attempts candidate files < config.max_auto_requeues_per_work_item
    cool :
        auto_recovery_cooldown_active reports config metadata (attempts candidate files) now
        ≡ ok false

  branch :
      (b : Bool) (x y : StepOf RecoveryError Attempt) (files : Files)
      (result : BlockedTaskRequeueResult)
      → EndsRetried (if b then x else y) files result
      → ((b ≡ true) × EndsRetried x files result) ⊎ ((b ≡ false) × EndsRetried y files result)
  branch true x y files result h = inl (refl, h)
  branch false x y files result h = inr (refl, h)

  -- The same of a candidate with the metadata that it has.
  MayRetry :
      AutoRecoveryCandidate → Files → BlockedTaskRequeueResult → Option BlockedItemMetadata → Type 0
  MayRetry candidate files result o =
      IsRetryOf candidate result
      × (metadata : BlockedItemMetadata) × (o ≡ some metadata)
      × (allows_auto_requeue metadata ≡ true)
      × (attempts candidate files < config.max_auto_requeues_per_work_item)
      × (auto_recovery_cooldown_active reports config metadata (attempts candidate files) now
          ≡ ok false)

  budget-MayRetry :
      (candidate : AutoRecoveryCandidate) (files : Files) (result : BlockedTaskRequeueResult)
      (metadata : BlockedItemMetadata)
      → allows_auto_requeue metadata ≡ true
      → EndsRetried
          (within_budget host journal reports paths config snapshot now candidate metadata
            (attempts candidate files))
          files
          result
      → MayRetry candidate files result (some metadata)
  unfolding MayRetry within_budget fst ◌>>=◌
  budget-MayRetry candidate files result metadata t (s, files', h) =
      elim (Bool-cases (leb config.max_auto_requeues_per_work_item (attempts candidate files))) [
        | inl w ↦ absurd (
            skip-never candidate "retry_budget_exhausted" (attempts candidate files + 1) files
              result (s, files', rw w at h))
        | inr w ↦
            elim (Result-cases (
              auto_recovery_cooldown_active reports config metadata (attempts candidate files)
                now)) [
                  | inr (e, c) ↦ absurd (ground (arith, ap fst (rw (w, c) at h)))
                  | inl (hot, c) ↦ elim (Bool-cases hot) [
                    | inl k ↦ absurd (
                        skip-never candidate "cooldown_active" (attempts candidate files + 1) files
                          result (s, files', rw (w, c, k) at h))
                    | inr k ↦ (
                      recover-IsRetryOf host journal reports paths config snapshot now candidate
                          metadata (attempts candidate files) files files' s result
                          (rw (w, c, k) at h),
                      metadata,
                      refl,
                      t,
                      ground arith,
                      c ∙ ap ok k,
                    )
                  ]
                ]
      ]

  metadata-MayRetry :
      (candidate : AutoRecoveryCandidate) (files : Files) (result : BlockedTaskRequeueResult)
      (o : Option BlockedItemMetadata)
      → EndsRetried
          (with_metadata host journal reports paths config snapshot now candidate o)
          files
          result
      → MayRetry candidate files result o
  unfolding attempts
  metadata-MayRetry candidate files result none h =
      absurd (skip-never candidate "missing_or_invalid_metadata" 1 files result h)
  metadata-MayRetry candidate files result (some metadata) h =
      elim (branch (allows_auto_requeue metadata) _ _ files result h) [
        | inl (t, k) ↦ budget-MayRetry candidate files result metadata t k
        | inr (_, k) ↦
            absurd (skip-never candidate "blocked_dependency_not_retryable" 1 files result k)
      ]

  with_candidate-IsChosen :
      (candidate : AutoRecoveryCandidate) (files : Files) (result : BlockedTaskRequeueResult)
      → EndsRetried
          (with_candidate host journal reports paths config snapshot now (some candidate))
          files
          result
      → IsChosen candidate files result
  unfolding MayRetry
  with_candidate-IsChosen candidate files result h =
      elim (branch candidate.lineage_compatible _ _ files result h) [
        | inr (_, k) ↦ absurd (skip-never candidate "root_spec_mismatch" 1 files result k)
        | inl (l, k) ↦
            let (retried, metadata, m, t, w, c) =
              metadata-MayRetry candidate files result candidate.dependency.metadata k in
            record {
              retried = retried;
              metadata = metadata;
              compatible = l;
              recorded = m;
              transient = t;
              within = w;
              cool = c;
            }
      ]

  -- The daemon retries a blocked task by itself only while nothing runs and it is neither paused nor to be stopped, with
  -- both of its settings on; and only the candidate of its search, a blocked task for which a queued task waits whose
  -- lineage does not differ, whose metadata allows it, within its budget and after its cooldown.
  pub attempt-IsSafeRetry :
      (files : Files) (result : BlockedTaskRequeueResult)
      → EndsRetried
          (attempt_stranded_dependency_auto_recovery host journal reports paths config snapshot now)
          files
          result
      → IsSafeRetry files result
  unfolding attempt_stranded_dependency_auto_recovery search attempts fst ◌>>=◌
  attempt-IsSafeRetry files result (s, files', h) = elim (Bool-cases (holds_back config snapshot)) [
    | inl a ↦ absurd (ground (arith, ap fst (rw a at h)))
    | inr a ↦
        elim (Bool-cases (
          leb snapshot.queue_depth_execution 0
          && leb (count_markdown_files host journal paths files paths.tasks_queue_dir) 0)) [
            | inl b ↦ absurd (ground (arith, ap fst (rw (a, b) at h)))
            | inr b ↦
                elim (Result-cases
                  (find_auto_recovery_candidate host journal paths files reports.parse_time)) [
                    | inr (e, c) ↦ absurd (ground (arith, ap fst (rw (a, b, c) at h)))
                    | inl (o, c) ↦ elim (Option-cases o) [
                      | inl d ↦ absurd (ground (arith, ap fst (rw (a, b, c, d) at h)))
                      | inr (candidate, d) ↦
                          let chosen =
                            with_candidate-IsChosen candidate files result
                              (s, files', rw (a, b, c, d) at h) in
                          record {
                            undisturbed = unheld-IsIdle a;
                            candidate = candidate;
                            retried = chosen.retried;
                            metadata = chosen.metadata;
                            found = c ∙ ap ok d;
                            stranding = rw chosen.compatible at (
                                find-IsStranding host journal paths files reports.parse_time
                                  candidate (c ∙ ap ok d));
                            recorded = chosen.recorded;
                            transient = chosen.transient;
                            within = chosen.within;
                            cool = chosen.cool;
                          }
                    ]
                  ]
          ]
  ]
