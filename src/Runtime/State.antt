-- ===== src/Runtime/State.antt =====
-- contracts/runtime_json.rs: the records that the runtime keeps. Fields that no modelled operation
-- reads or writes are left out; a `Timestamp` is its text.
use millrace_rs.Base.{String, ℕ, Bool, Option, List}
use millrace_rs.Contracts.Enums.{Plane, StageName, WorkItemKind, TerminalResult, ResultClass}
use millrace_rs.Runtime.PlaneMap.{PlaneMap}
use millrace_rs.Contracts.Error.{ContractError}

abbrev pub Timestamp : Type 0
Timestamp = String

-- `RuntimeTickError`: the cases that the modelled code raises.
pub data RuntimeTickError : Type 0 where
  contract : ContractError → RuntimeTickError
  invalid_state : String → RuntimeTickError

pub data ActiveRunRequestKind : Type 0 where
  active_work_item closure_target learning_request : ActiveRunRequestKind

pub data LaneRuntimeStatus : Type 0 where
  idle active paused draining stopped blocked : LaneRuntimeStatus

pub data PauseSource : Type 0 where
  operator usage_governance : PauseSource

pub record ActiveRunState : Type 0 where
  pub plane : Plane
  pub lane_id : String
  pub stage : StageName
  pub node_id : String
  pub stage_kind_id : String
  pub run_id : String
  pub compiled_plan_id : String
  pub compiled_plan_fingerprint : String
  pub request_kind : ActiveRunRequestKind
  pub work_item_family_id : Option String
  pub work_item_kind : Option WorkItemKind
  pub work_item_id : Option String
  pub closure_target_root_spec_id : Option String
  pub closure_target_root_idea_id : Option String
  pub active_since : Timestamp
  pub running_status_marker : Option String

pub record LaneRuntimeState : Type 0 where
  pub lane_id : String
  pub plane : Plane
  pub status : LaneRuntimeStatus
  pub compiled_plan_id : String
  pub compiled_plan_fingerprint : String
  pub active_run_ids : List String
  pub active_work_refs : List String
  pub pause_requested : Bool
  pub stop_requested : Bool
  pub drain_requested : Bool
  pub mutation_lock_refs : List String
  pub completion_target_refs : List String
  pub failure_counter_refs : List String
  pub last_claim_attempt_at : Option Timestamp
  pub last_terminal_outcome : Option String

pub record RuntimeSnapshot : Type 0 where
  pub process_running : Bool
  pub paused : Bool
  pub pause_sources : List PauseSource
  pub stop_requested : Bool
  pub compiled_plan_id : String
  pub compiled_plan_fingerprint : String
  pub active_plane : Option Plane
  pub active_stage : Option StageName
  pub active_node_id : Option String
  pub active_stage_kind_id : Option String
  pub active_run_id : Option String
  pub active_work_item_family_id : Option String
  pub active_work_item_kind : Option WorkItemKind
  pub active_work_item_id : Option String
  pub active_since : Option Timestamp
  pub active_runs_by_plane : PlaneMap ActiveRunState
  pub lanes_by_id : List (String × LaneRuntimeState)
  pub execution_status_marker : String
  pub planning_status_marker : String
  pub learning_status_marker : String
  pub status_markers_by_plane : PlaneMap String
  pub queue_depth_execution : ℕ
  pub queue_depth_planning : ℕ
  pub queue_depth_learning : ℕ
  pub queue_depths_by_plane : PlaneMap ℕ
  pub current_failure_class : Option String
  pub troubleshoot_attempt_count : ℕ
  pub mechanic_attempt_count : ℕ
  pub fix_cycle_count : ℕ
  pub consultant_invocations : ℕ
  pub updated_at : Timestamp

pub record RecoveryCounterEntry : Type 0 where
  pub failure_class : String
  pub work_item_id : String
  pub work_item_kind : WorkItemKind
  pub troubleshoot_attempt_count : ℕ
  pub mechanic_attempt_count : ℕ
  pub fix_cycle_count : ℕ
  pub consultant_invocations : ℕ
  pub last_updated_at : Timestamp

pub record RecoveryCounters : Type 0 where
  pub entries : List RecoveryCounterEntry

-- `metadata key` is `metadata.get(key).and_then(Value::as_str)`: the text under a key, if the JSON
-- value there is a text, and `metadata_flag key` the same with `Value::as_bool`.
pub record StageResultEnvelope : Type 0 where
  pub run_id : String
  pub plane : Plane
  pub stage : StageName
  pub node_id : String
  pub stage_kind_id : String
  pub work_item_kind : WorkItemKind
  pub work_item_id : String
  pub terminal_result : TerminalResult
  pub result_class : ResultClass
  pub metadata : String → Option String
  pub metadata_flag : String → Option Bool
  pub stdout_path : Option String
  pub stderr_path : Option String
  pub completed_at : Timestamp
