-- ===== src/Runtime/LaneDispatch/Capacity.antt =====
-- The test of a lane's capacity: a run that passes it has room on its lane.
use millrace_rs.Base.{
  String, ◌==◌, eq_iff, ◌≡◌, ◌≤◌, suc, inl, inr, true, Bool-cases, Option, some, List, ◌∷◌, filter,
  leb, arith,
}
use millrace_rs.Base.Text.{trim, is_blank}
use millrace_rs.Runtime.SchedulerPolicy.{
  WorkflowLaneDefinition, WorkflowPlaneSchedulerPolicyDefinition,
}
use millrace_rs.Runtime.Dispatch.{PlaneConcurrencyPolicyDefinition}
use millrace_rs.Runtime.LaneDispatch.{
  active_ids, same_lane_count, lane_by_id, dispatch_on, can_dispatch_lane,
}

-- Each declared lane occurs at most as often among the active lanes as it may have runs.
abbrev pub WithinCapacity : WorkflowPlaneSchedulerPolicyDefinition → List String → Type 0
WithinCapacity policy lane_ids =
    (lane_id : String) (lane : WorkflowLaneDefinition)
    → lane_by_id policy lane_id ≡ some lane
    → same_lane_count lane_id (active_ids lane_ids) ≤ lane.max_active_runs

dispatched-room :
    (policy : WorkflowPlaneSchedulerPolicyDefinition)
    (concurrency : Option PlaneConcurrencyPolicyDefinition) (lane_ids : List String)
    (candidate : String) (lane : WorkflowLaneDefinition)
    → lane_by_id policy candidate ≡ some lane
    → can_dispatch_lane (some policy) concurrency lane_ids candidate ≡ true
    → suc (same_lane_count candidate (active_ids lane_ids)) ≤ lane.max_active_runs
unfolding can_dispatch_lane dispatch_on
dispatched-room policy concurrency lane_ids candidate lane found h =
    elim (Bool-cases (leb lane.max_active_runs (same_lane_count candidate (active_ids lane_ids)))) [
      | inl full ↦ absurd (ground (arith, rw (found, full) at h))
      | inr free ↦ ground arith
    ]

-- A run may only start on a lane that has room for it: when the test lets a run start on a lane, then no
-- declared lane exceeds its `max_active_runs` after the start, if none did before. The candidate is the
-- id of a lane without blanks around it.
pub can_dispatch_lane-WithinCapacity :
    (policy : WorkflowPlaneSchedulerPolicyDefinition)
    (concurrency : Option PlaneConcurrencyPolicyDefinition) (lane_ids : List String)
    (candidate : String)
    → trim candidate ≡ candidate
    → WithinCapacity policy lane_ids
    → can_dispatch_lane (some policy) concurrency lane_ids candidate ≡ true
    → WithinCapacity policy (candidate ∷ lane_ids)
unfolding active_ids same_lane_count filter
can_dispatch_lane-WithinCapacity policy concurrency lane_ids candidate trimmed within h lane_id lane
      found =
    elim (Bool-cases (is_blank candidate)) [
      | inl b ↦ rw (trimmed, b) (within lane_id lane found)
      | inr b ↦
          rw (trimmed, b)
            (elim (Bool-cases (candidate == lane_id)) [
              | inl e ↦
                  let same = (eq_iff candidate lane_id).0 e in
                  let room =
                    dispatched-room policy concurrency lane_ids candidate lane (rw same found) h in
                  rw e (rw same at room)
              | inr e ↦ rw e (within lane_id lane found)
            ])
    ]
