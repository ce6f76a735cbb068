-- ===== src/Runtime/BlockedRecovery/Diagnostics.antt =====
-- runtime/blocked_recovery.rs, with its records in contracts/runtime_json.rs: the report on a decision whether to retry a
-- blocked task.
use millrace_rs.Base.{
  String, ◌==◌, ℕ, Bool, true, false, Option, none, some, List, [], ◌∷◌, any, leb, if◌then◌else◌,
  Result, ok, err, ◌>>=◌,
}
use millrace_rs.Base.Text.{concat}
use millrace_rs.Contracts.WorkRefs.{validate_safe_identifier}
use millrace_rs.Contracts.Enums.{Plane}
use millrace_rs.Contracts.Plane
use millrace_rs.Runtime.PlaneMap.{PlaneMap}
use millrace_rs.Runtime.LaneState.{
  RuntimeJsonError, lift_contract, invalid_field, require_non_blank, require_optional_non_blank,
  validate_literal,
}
use millrace_rs.Runtime.State.{ActiveRunState, RuntimeSnapshot, Timestamp}
use millrace_rs.Runtime.BlockedRecovery.{BlockedItemMetadata}
use millrace_rs.Runtime.BlockedRecovery.Stranded.{
  StrandedBlockedDependency, validate_optional_metadata, validate_dependents, not_empty,
}

pub record AutoRecoveryPreRecoverySnapshot : Type 0 where
  pub process_running : Bool
  pub paused : Bool
  pub stop_requested : Bool
  pub active_runs_by_plane : List String
  pub queue_depth_execution : ℕ
  pub queue_depth_planning : ℕ
  pub queue_depth_learning : ℕ

pub record BlockedDependencyAutoRecoveryDiagnostic : Type 0 where
  pub schema_version : String
  pub kind : String
  pub decision : String
  pub reason : String
  pub created_at : Timestamp
  pub blocked_task_id : String
  pub queued_dependent_ids : List String
  pub root_spec_id : Option String
  pub auto_attempt_number : ℕ
  pub metadata : Option BlockedItemMetadata
  pub pre_recovery_snapshot : AutoRecoveryPreRecoverySnapshot

abbrev unseen_plane : Bool → String → Result RuntimeJsonError (Unit {0})
unseen_plane true plane =
    err
      (invalid_field "active_runs_by_plane" (concat "duplicate active plane `" (concat plane "`")))
unseen_plane false plane = ok tt

unfoldable pub validate_planes : List String → List String → Result RuntimeJsonError (Unit {0})
validate_planes seen [] = ok tt
validate_planes seen (plane ∷ planes) = do
  _ ← require_non_blank "active_runs_by_plane" plane
  _ ← unseen_plane (any (λ s. s == plane) seen) plane
  validate_planes (plane ∷ seen) planes

abbrev from_one : ℕ → Result RuntimeJsonError (Unit {0})
from_one n = if leb 1 n then ok tt else err (invalid_field "auto_attempt_number" "must be >= 1")

-- `parse_time` tells whether a text is a time.
unfoldable pub validate_diagnostic :
    (String → Timestamp → Result RuntimeJsonError (Unit {0}))
    → BlockedDependencyAutoRecoveryDiagnostic
    → Result RuntimeJsonError (Unit {0})
validate_diagnostic parse_time d = do
  _ ← validate_literal "schema_version" d.schema_version "1.0"
  _ ← validate_literal "kind" d.kind "blocked_dependency_auto_recovery"
  _ ← require_non_blank "decision" d.decision
  _ ← require_non_blank "reason" d.reason
  _ ← parse_time "created_at" d.created_at
  _ ← lift_contract (validate_safe_identifier d.blocked_task_id "blocked_task_id")
  _ ← not_empty d.queued_dependent_ids
  _ ← validate_dependents [] d.queued_dependent_ids
  _ ← require_optional_non_blank "root_spec_id" d.root_spec_id
  _ ← from_one d.auto_attempt_number
  _ ← validate_optional_metadata parse_time d.metadata
  validate_planes [] d.pre_recovery_snapshot.active_runs_by_plane

abbrev key : Option ActiveRunState → String → List String → List String
key none plane planes = planes
key (some run) plane planes = plane ∷ planes

-- The names of the planes with an active run.
unfoldable pub active_plane_names : PlaneMap ActiveRunState → List String
active_plane_names runs = key runs.at_execution (Plane.as_str Plane.execution) (
    key runs.at_planning (Plane.as_str Plane.planning)
      (key runs.at_learning (Plane.as_str Plane.learning) []))

unfoldable pub diagnostic :
    RuntimeSnapshot
    → Timestamp
    → StrandedBlockedDependency
    → String
    → String
    → ℕ
    → BlockedDependencyAutoRecoveryDiagnostic
diagnostic snapshot now candidate decision reason auto_attempt_number = record {
  schema_version = "1.0";
  kind = "blocked_dependency_auto_recovery";
  decision = decision;
  reason = reason;
  created_at = now;
  blocked_task_id = candidate.blocked_task_id;
  queued_dependent_ids = candidate.queued_dependent_ids;
  root_spec_id = candidate.root_spec_id;
  auto_attempt_number = auto_attempt_number;
  metadata = candidate.metadata;
  pre_recovery_snapshot = record {
    process_running = snapshot.process_running;
    paused = snapshot.paused;
    stop_requested = snapshot.stop_requested;
    active_runs_by_plane = active_plane_names snapshot.active_runs_by_plane;
    queue_depth_execution = snapshot.queue_depth_execution;
    queue_depth_planning = snapshot.queue_depth_planning;
    queue_depth_learning = snapshot.queue_depth_learning;
  };
}
