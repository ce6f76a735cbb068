-- ===== src/Runtime/SchedulerPolicy.antt =====
-- contracts/workflow_primitives.rs: the scheduler's lanes and their conflict policies, with the fields
-- that lane scheduling reads.
use millrace_rs.Base.{String, ℕ, List}
use millrace_rs.Contracts.Enums.{Plane}

pub record WorkflowLaneDefinition : Type 0 where
  pub lane_id : String
  pub plane : Plane
  pub max_active_runs : ℕ

pub record LaneConflictPolicyDefinition : Type 0 where
  pub lane_ids : List String
  pub concurrent_with_lane_ids : List String
  pub conflict_scopes : List String
  pub lock_acquisition_order : List String

pub record WorkflowPlaneSchedulerPolicyDefinition : Type 0 where
  pub lanes : List WorkflowLaneDefinition
  pub lane_conflict_policies : List LaneConflictPolicyDefinition
