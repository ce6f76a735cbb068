-- ===== src/Runtime/BlockedRecovery/Auto.antt =====
-- runtime/blocked_recovery.rs: in an idle cycle the daemon retries the blocked task that strands queued ones. Cooldowns are
-- below 2 ^ 63 seconds.
use Prim.Native.Nat.{◌/◌}
use millrace_rs.Base.{
  String, ℕ, zero, suc, ◌+◌, ◌-◌, Bool, true, false, not, ◌&&◌, ◌||◌, Option, none, some, List, [],
  ◌∷◌, ltb, leb, if◌then◌else◌, Result, ok, err, map_err, unwrap_or, or_else,
}
use millrace_rs.Base.Text.{concat}
use millrace_rs.Runtime.PlaneMap
use millrace_rs.Runtime.LaneState.{RuntimeJsonError}
use millrace_rs.Runtime.State.{RuntimeSnapshot, Timestamp}
use millrace_rs.Workspace.Files.{StepOf, ◌>>=◌, pure, write}
use millrace_rs.Workspace.Queue.{WorkspacePaths}
use millrace_rs.Workspace.Claims.{Host}
use millrace_rs.Runtime.BlockedRecovery.{
  Journal, BlockedItemMetadata, RecoveryError, invalid_state, invalid_record, state_store, time,
  RetryBlockedTaskRequest, BlockedTaskRequeueResult, allows_auto_requeue, count_auto_requeues,
}
use millrace_rs.Runtime.BlockedRecovery.Retry.{
  count_markdown_files, with_queue_depths, write_runtime_event, retry_blocked_task,
}
use millrace_rs.Runtime.BlockedRecovery.Diagnostics.{
  BlockedDependencyAutoRecoveryDiagnostic, diagnostic, validate_diagnostic,
}
use millrace_rs.Runtime.BlockedRecovery.Stranded.{
  StrandedBlockedDependency, AutoRecoveryCandidate, find_auto_recovery_candidate,
}

pub record AutoRecoveryConfig : Type 0 where
  pub enabled : Bool
  pub blocked_dependency_retry_enabled : Bool
  pub max_auto_requeues_per_work_item : ℕ
  pub cooldown_seconds : List ℕ

-- Times in nanoseconds and their calendar form in a file's name, none for a text that is not a time; the check that a text
-- is a time; and JSON. An event's text is made of its kind and time, the task, the reason or the failure class, the path
-- of the diagnostics and the attempt.
pub record Reports : Type 0 where
  pub nanoseconds : Timestamp → Option ℕ
  pub compact : Timestamp → Option String
  pub parse_time : String → Timestamp → Result RuntimeJsonError (Unit {0})
  pub to_json : BlockedDependencyAutoRecoveryDiagnostic → Option String
  pub event : String → Timestamp → StrandedBlockedDependency → String → String → Option ℕ → String

-- `slice::get` and `slice::last`
unfoldable pub get : List ℕ → ℕ → Option ℕ
get [] i = none
get (x ∷ xs) zero = some x
get (x ∷ xs) (suc i) = get xs i

unfoldable pub last : List ℕ → Option ℕ
last [] = none
last (x ∷ []) = some x
last (x ∷ y ∷ xs) = last (y ∷ xs)

unfoldable pub cooldown_of : AutoRecoveryConfig → ℕ → ℕ
cooldown_of config auto_attempts =
    unwrap_or (or_else (get config.cooldown_seconds auto_attempts) (last config.cooldown_seconds)) 0

-- `(now - blocked_at).whole_seconds() < cooldown_seconds`, whose left side is negative from one second on.
unfoldable pub still_cooling : ℕ → ℕ → ℕ → Bool
still_cooling now blocked_at cooldown =
    if leb blocked_at now
    then ltb ((now - blocked_at) / 1_000_000_000) cooldown
    else (ltb 0 cooldown || leb 1_000_000_000 (blocked_at - now))

module _ (reports : Reports) where
  abbrev cooling : Option ℕ → Option ℕ → ℕ → Result RecoveryError Bool
  cooling none blocked_at cooldown = err (time "auto_recovery.now")
  cooling (some now) none cooldown = err (time "auto_recovery.blocked_at")
  cooling (some now) (some blocked_at) cooldown = ok (still_cooling now blocked_at cooldown)

  unfoldable pub auto_recovery_cooldown_active :
      AutoRecoveryConfig → BlockedItemMetadata → ℕ → Timestamp → Result RecoveryError Bool
  auto_recovery_cooldown_active config metadata auto_attempts now =
      cooling (reports.nanoseconds now) (reports.nanoseconds metadata.blocked_at)
        (cooldown_of config auto_attempts)

-- The idle cycle is not to be disturbed.
unfoldable pub holds_back : AutoRecoveryConfig → RuntimeSnapshot → Bool
holds_back config snapshot =
    not config.enabled
    || not config.blocked_dependency_retry_enabled
    || snapshot.paused
    || snapshot.stop_requested
    || not (PlaneMap.is_empty snapshot.active_runs_by_plane)

-- The snapshot after an attempt, and the retry, if one was made.
abbrev pub Attempt : Type 0
Attempt = RuntimeSnapshot × Option BlockedTaskRequeueResult

module _ (host : Host) (journal : Journal) (reports : Reports) (paths : WorkspacePaths)
    (config : AutoRecoveryConfig) (snapshot : RuntimeSnapshot) (now : Timestamp) where
  abbrev pub lift : {A : Type 0} → Result RecoveryError A → StepOf RecoveryError A
  lift r files = (r, files)

  abbrev compact_timestamp : Option String → Result RecoveryError String
  compact_timestamp none = err (time "auto_recovery.created_at")
  compact_timestamp (some compact) = ok compact

  abbrev write_pretty_json : String → String → Option String → StepOf RecoveryError String
  write_pretty_json directory name none files = (err (invalid_state "JSON"), files)
  write_pretty_json directory name (some json) files =
      (ok (concat directory (concat "/" name)), write files directory name (some json))

  abbrev pub write_report :
      BlockedDependencyAutoRecoveryDiagnostic → String → StepOf RecoveryError String
  write_report report compact =
      lift (map_err invalid_record (validate_diagnostic reports.parse_time report)) >>= λ _.
      write_pretty_json (concat paths.runtime_root "/diagnostics/auto-recovery")
        (concat compact (concat "-" (concat report.blocked_task_id ".json")))
        (reports.to_json report)

  unfoldable pub write_auto_recovery_diagnostics :
      StrandedBlockedDependency → String → String → ℕ → StepOf RecoveryError String
  write_auto_recovery_diagnostics dependency decision reason auto_attempt_number =
      lift (compact_timestamp (reports.compact now)) >>= λ compact.
      write_report (diagnostic snapshot now dependency decision reason auto_attempt_number) compact

  abbrev pub log :
      String
      → StrandedBlockedDependency
      → String
      → String
      → Option ℕ
      → StepOf RecoveryError (Unit {0})
  log event_type dependency reason diagnostics_path attempt_number =
      write_runtime_event host journal paths
        (reports.event event_type now dependency reason diagnostics_path attempt_number)

  unfoldable pub write_auto_recovery_skip :
      AutoRecoveryCandidate → String → ℕ → StepOf RecoveryError (Unit {0})
  write_auto_recovery_skip candidate reason auto_attempt_number =
      write_auto_recovery_diagnostics candidate.dependency "skip" reason auto_attempt_number
      >>= λ path.
          (log "blocked_dependency_auto_requeue_skipped" candidate.dependency reason path none
            >>= λ _.
                log "blocked_lineage_requires_operator_review" candidate.dependency reason path
                  none)

  abbrev pub skip : AutoRecoveryCandidate → String → ℕ → StepOf RecoveryError Attempt
  skip candidate reason auto_attempt_number =
      write_auto_recovery_skip candidate reason auto_attempt_number >>= λ _. pure (snapshot, none)

  unfoldable pub auto_request : AutoRecoveryCandidate → String → RetryBlockedTaskRequest
  auto_request candidate diagnostics_path = record {
    task_id = candidate.dependency.blocked_task_id;
    reason = "transient blocked dependency auto-recovery";
    actor = "runtime-daemon";
    auto = true;
    force = false;
    root_spec_id = candidate.blocked_root_spec_id;
    diagnostics_path = some diagnostics_path;
    max_auto_requeues_per_work_item = some config.max_auto_requeues_per_work_item;
  }

  abbrev save : Option String → StepOf RecoveryError (Unit {0})
  save none files = (err state_store, files)
  save (some json) files = (ok tt, write files paths.state_dir "runtime_snapshot.json" (some json))

  unfoldable pub refresh_in_place : StepOf RecoveryError RuntimeSnapshot
  refresh_in_place files =
      (save (
            journal.snapshot_to_json
              (record (with_queue_depths host journal paths files snapshot) { updated_at = now }))
          >>= λ _.
              pure
                (record (with_queue_depths host journal paths files snapshot) { updated_at = now }))
        files

  unfoldable pub recover :
      AutoRecoveryCandidate → BlockedItemMetadata → ℕ → StepOf RecoveryError Attempt
  recover candidate metadata auto_attempts =
      write_auto_recovery_diagnostics candidate.dependency "requeue" "transient blocked dependency"
        (auto_attempts + 1)
      >>= λ path.
          (retry_blocked_task host journal paths (auto_request candidate path) >>= λ result.
          (refresh_in_place >>= λ refreshed.
          (log "blocked_dependency_auto_requeued" candidate.dependency metadata.failure_class path
              (some result.attempt_number)
            >>= λ _. pure (refreshed, some result))))

  abbrev pub unless_cooling :
      AutoRecoveryCandidate → BlockedItemMetadata → ℕ → Bool → StepOf RecoveryError Attempt
  unless_cooling candidate metadata auto_attempts true =
      skip candidate "cooldown_active" (auto_attempts + 1)
  unless_cooling candidate metadata auto_attempts false = recover candidate metadata auto_attempts

  unfoldable pub within_budget :
      AutoRecoveryCandidate → BlockedItemMetadata → ℕ → StepOf RecoveryError Attempt
  within_budget candidate metadata auto_attempts =
      if leb config.max_auto_requeues_per_work_item auto_attempts
      then skip candidate "retry_budget_exhausted" (auto_attempts + 1)
      else (lift (auto_recovery_cooldown_active reports config metadata auto_attempts now)
          >>= λ active. unless_cooling candidate metadata auto_attempts active)

  abbrev pub with_metadata :
      AutoRecoveryCandidate → Option BlockedItemMetadata → StepOf RecoveryError Attempt
  with_metadata candidate none files = skip candidate "missing_or_invalid_metadata" 1 files
  with_metadata candidate (some metadata) files =
      (if allows_auto_requeue metadata
          then within_budget candidate metadata
              (count_auto_requeues journal paths candidate.dependency.blocked_task_id files)
          else skip candidate "blocked_dependency_not_retryable" 1)
        files

  abbrev pub with_candidate : Option AutoRecoveryCandidate → StepOf RecoveryError Attempt
  with_candidate none = pure (snapshot, none)
  with_candidate (some candidate) =
      if candidate.lineage_compatible
      then with_metadata candidate candidate.dependency.metadata
      else skip candidate "root_spec_mismatch" 1

  unfoldable pub search : StepOf RecoveryError Attempt
  search files =
      (lift (find_auto_recovery_candidate host journal paths files reports.parse_time) >>= λ found.
      with_candidate found)
        files

  unfoldable pub attempt_stranded_dependency_auto_recovery : StepOf RecoveryError Attempt
  attempt_stranded_dependency_auto_recovery files =
      if holds_back config snapshot
      then (ok (snapshot, none), files)
      else if leb snapshot.queue_depth_execution 0
          && leb (count_markdown_files host journal paths files paths.tasks_queue_dir) 0
      then (ok (snapshot, none), files)
      else search files
