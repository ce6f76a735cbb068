-- ===== src/Runtime/LaneDispatch.antt =====
-- runtime/lanes.rs: whether a run may start on a lane beside the lanes that are active.
pub mod Capacity
pub mod Beside
use millrace_rs.Base.{
  String, ◌==◌, ℕ, suc, Bool, true, false, not, ◌&&◌, ◌||◌, Option, none, some, List, [], ◌∷◌, find,
  any, all, filter, length, is_empty, leb, if◌then◌else◌,
}
use millrace_rs.Base.Text.{trim, is_blank}
use millrace_rs.Contracts.Enums.{Plane}
use millrace_rs.Runtime.SchedulerPolicy.{
  WorkflowLaneDefinition, LaneConflictPolicyDefinition, WorkflowPlaneSchedulerPolicyDefinition,
}
use millrace_rs.Runtime.Dispatch.{PlaneConcurrencyPolicyDefinition, can_dispatch_plane}

-- `contains` on a vector of texts.
abbrev pub contains_text : List String → String → Bool
contains_text texts text = any (λ t. t == text) texts

unfoldable pub conflict_allows : String → String → LaneConflictPolicyDefinition → Bool
conflict_allows first_lane_id second_lane_id conflict =
    any (λ lane_id. lane_id == first_lane_id) conflict.lane_ids
    && any (λ lane_id. lane_id == second_lane_id) conflict.concurrent_with_lane_ids
    && (is_empty conflict.conflict_scopes
        || all (λ lane_id. contains_text conflict.lock_acquisition_order lane_id) conflict.lane_ids)

unfoldable pub lane_policy_allows : WorkflowPlaneSchedulerPolicyDefinition → String → String → Bool
lane_policy_allows policy first_lane_id second_lane_id =
    any (conflict_allows first_lane_id second_lane_id) policy.lane_conflict_policies

-- The first loop: the ids that are not blank, trimmed.
unfoldable pub active_ids : List String → List String
active_ids [] = []
active_ids (lane_id ∷ lane_ids) =
    let rest = active_ids lane_ids in if is_blank (trim lane_id) then rest else trim lane_id ∷ rest

unfoldable pub same_lane_count : String → List String → ℕ
same_lane_count candidate_lane_id lane_ids =
    length (filter (λ lane_id. lane_id == candidate_lane_id) lane_ids)

unfoldable pub lane_by_id :
    WorkflowPlaneSchedulerPolicyDefinition → String → Option WorkflowLaneDefinition
lane_by_id policy lane_id = find (λ lane. lane.lane_id == lane_id) policy.lanes

-- One round of the second loop, on the planes that the later rounds collect.
unfoldable pub beside :
    WorkflowPlaneSchedulerPolicyDefinition
    → String
    → WorkflowLaneDefinition
    → Option WorkflowLaneDefinition
    → Option (List Plane)
    → Option (List Plane)
beside policy candidate_lane_id candidate_lane none planes = none
beside policy candidate_lane_id candidate_lane (some active_lane) none = none
beside policy candidate_lane_id candidate_lane (some active_lane) (some planes) =
    if active_lane.lane_id == candidate_lane_id
    then some planes
    else if not (lane_policy_allows policy candidate_lane.lane_id active_lane.lane_id)
        || not (lane_policy_allows policy active_lane.lane_id candidate_lane.lane_id)
    then none
    else some (active_lane.plane ∷ planes)

-- The second loop: the planes of the active lanes, or `none` where it returns `false`.
unfoldable pub active_planes :
    WorkflowPlaneSchedulerPolicyDefinition
    → String
    → WorkflowLaneDefinition
    → List String
    → Option (List Plane)
active_planes policy candidate_lane_id candidate_lane [] = some []
active_planes policy candidate_lane_id candidate_lane (active_lane_id ∷ lane_ids) =
    beside policy candidate_lane_id candidate_lane (lane_by_id policy active_lane_id)
      (active_planes policy candidate_lane_id candidate_lane lane_ids)

unfoldable pub dispatch_beside :
    Option PlaneConcurrencyPolicyDefinition → Plane → Option (List Plane) → Bool
dispatch_beside concurrency_policy plane none = false
dispatch_beside concurrency_policy plane (some planes) =
    can_dispatch_plane concurrency_policy planes plane

unfoldable pub dispatch_on :
    WorkflowPlaneSchedulerPolicyDefinition
    → Option PlaneConcurrencyPolicyDefinition
    → List String
    → String
    → Option WorkflowLaneDefinition
    → Bool
dispatch_on policy concurrency_policy lane_ids candidate_lane_id none = false
dispatch_on policy concurrency_policy lane_ids candidate_lane_id (some candidate_lane) =
    if leb candidate_lane.max_active_runs (same_lane_count candidate_lane_id lane_ids)
    then false
    else dispatch_beside concurrency_policy candidate_lane.plane
        (active_planes policy candidate_lane_id candidate_lane lane_ids)

unfoldable pub can_dispatch_lane :
    Option WorkflowPlaneSchedulerPolicyDefinition
    → Option PlaneConcurrencyPolicyDefinition
    → List String
    → String
    → Bool
can_dispatch_lane none concurrency_policy lane_ids candidate_lane_id =
    leb (length (filter (λ lane_id. not (is_blank (trim lane_id))) lane_ids)) 0
can_dispatch_lane (some policy) concurrency_policy lane_ids candidate_lane_id =
    dispatch_on policy concurrency_policy (active_ids lane_ids) candidate_lane_id
      (lane_by_id policy candidate_lane_id)
