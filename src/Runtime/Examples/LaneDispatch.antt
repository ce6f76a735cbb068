-- ===== src/Runtime/Examples/LaneDispatch.antt =====
-- The planning lane starts a run beside the execution lane.
use millrace_rs.Base.{◌≡◌, refl, true, some, [], ◌∷◌, find, any, all, filter, Has, here, arith}
use millrace_rs.Base.Text.{trim, drop_start, drop_end, is_whitespace}
use millrace_rs.Base.{◌≢◌, contains}
use millrace_rs.Contracts.Enums.{Plane, Plane-discrete}
use millrace_rs.Runtime.SchedulerPolicy.{
  WorkflowLaneDefinition, LaneConflictPolicyDefinition, WorkflowPlaneSchedulerPolicyDefinition,
}
use millrace_rs.Runtime.Dispatch.{
  PlaneConcurrencyPolicyDefinition, can_dispatch_plane, active_plane_set, allowed_beside,
  all_compatible, pair_in_groups, pair_in_group,
}
use millrace_rs.Runtime.Dispatch.Compatible.{IsCompatible}
use millrace_rs.Runtime.LaneDispatch.{
  conflict_allows, lane_policy_allows, active_ids, same_lane_count, lane_by_id, beside,
  active_planes, dispatch_beside, dispatch_on, can_dispatch_lane,
}
use millrace_rs.Runtime.LaneDispatch.Capacity.{WithinCapacity, can_dispatch_lane-WithinCapacity}
use millrace_rs.Runtime.LaneDispatch.Beside.{RunsBeside, can_dispatch_lane-RunsBeside}

abbrev planning_lane : WorkflowLaneDefinition
planning_lane = record { lane_id = "planning.main"; plane = Plane.planning; max_active_runs = 1 }

abbrev both_lanes : LaneConflictPolicyDefinition
both_lanes = record {
  lane_ids = "execution.main" ∷ "planning.main" ∷ [];
  concurrent_with_lane_ids = "execution.main" ∷ "planning.main" ∷ [];
  conflict_scopes = [];
  lock_acquisition_order = [];
}

abbrev lanes : WorkflowPlaneSchedulerPolicyDefinition
lanes = record {
  lanes =
      record { lane_id = "execution.main"; plane = Plane.execution; max_active_runs = 1 }
      ∷ planning_lane
      ∷ [];
  lane_conflict_policies = both_lanes ∷ [];
}

abbrev concurrency : PlaneConcurrencyPolicyDefinition
concurrency = record {
  mutually_exclusive_planes = [];
  may_run_concurrently = (Plane.execution ∷ Plane.planning ∷ []) ∷ [];
}

-- The dispatch test, opened for computation.
dispatching : Unit {0}
unfolding can_dispatch_lane dispatch_on dispatch_beside active_planes beside lane_by_id
    same_lane_count active_ids lane_policy_allows conflict_allows can_dispatch_plane
    active_plane_set allowed_beside all_compatible pair_in_groups pair_in_group find any all filter
    contains Plane-discrete trim drop_start drop_end is_whitespace
dispatching = tt

execution_starts : can_dispatch_lane (some lanes) (some concurrency) [] "execution.main" ≡ true
unfolding dispatching
execution_starts = refl

planning_starts :
    can_dispatch_lane (some lanes) (some concurrency) ("execution.main" ∷ []) "planning.main" ≡ true
unfolding dispatching
planning_starts = refl

execution_trimmed : trim "execution.main" ≡ "execution.main"
unfolding dispatching
execution_trimmed = refl

planning_trimmed : trim "planning.main" ≡ "planning.main"
unfolding dispatching
planning_trimmed = refl

nothing-WithinCapacity : WithinCapacity lanes []
unfolding dispatching
nothing-WithinCapacity lane_id lane h = omega arith

execution-WithinCapacity : WithinCapacity lanes ("execution.main" ∷ [])
execution-WithinCapacity =
    can_dispatch_lane-WithinCapacity lanes (some concurrency) [] "execution.main" execution_trimmed
      nothing-WithinCapacity execution_starts

planning_found : lane_by_id lanes "planning.main" ≡ some planning_lane
unfolding dispatching
planning_found = refl

execution_active : Has "execution.main" (active_ids ("execution.main" ∷ []))
unfolding dispatching
execution_active = here

can_dispatch_lane-RunsBeside_example :
    RunsBeside lanes "planning.main" planning_lane "execution.main"
      (λ p. (Plane.planning ≢ p) × IsCompatible concurrency Plane.planning p)
can_dispatch_lane-RunsBeside_example =
    can_dispatch_lane-RunsBeside lanes concurrency ("execution.main" ∷ []) "planning.main"
      planning_lane "execution.main" planning_found planning_starts execution_active
