-- ===== src/Runtime/Lanes.antt =====
-- runtime/lanes.rs: the lanes of the scheduler in the snapshot, and whether a lane may start a run. The
-- plan's fingerprint is a hash of JSON text, which third-party code computes: a parameter.
use millrace_rs.Base.{
  String, ◌==◌, false, not, Option, none, some, List, [], ◌∷◌, ◌++◌, map, filter, is_empty,
  unwrap_or, if◌then◌else◌,
}
use millrace_rs.Base.Text.{concat, trim, is_blank}
use millrace_rs.Base.Dict.{lookup, insert}
use millrace_rs.Base.Sort.{sort_by}
use millrace_rs.Contracts.Enums.{Plane}
use millrace_rs.Contracts.Plane
use millrace_rs.Runtime.PlaneMap
use millrace_rs.Runtime.PlaneMap.{PlaneMap}
use millrace_rs.Runtime.SchedulerPolicy.{
  WorkflowLaneDefinition, WorkflowPlaneSchedulerPolicyDefinition,
}
use millrace_rs.Runtime.State.{
  ActiveRunState, LaneRuntimeState, LaneRuntimeStatus, RuntimeSnapshot, Timestamp,
}
use millrace_rs.Runtime.Plan.{CompiledRunPlan}

unfoldable pub default_lane_id_for_plane : Plane → String
default_lane_id_for_plane plane = concat (Plane.as_str plane) ".main"

-- The lane that an active run belongs to.
unfoldable pub lane_id_of_run : ActiveRunState → String
lane_id_of_run run =
    if is_blank (trim run.lane_id) then default_lane_id_for_plane run.plane else run.lane_id

ref_of : Option String → Option String → Option String → String → String
ref_of (some family_id) (some work_item_id) root run_id = concat family_id (concat ":" work_item_id)
ref_of family_id work_item_id (some root_spec_id) run_id = concat "closure_target:" root_spec_id
ref_of family_id work_item_id none run_id = concat "run:" run_id

unfoldable pub active_work_ref : ActiveRunState → String
unfolding ref_of
active_work_ref run =
    ref_of run.work_item_family_id run.work_item_id run.closure_target_root_spec_id run.run_id

-- `lane_state_for_active_runs` on the runs `primary ∷ rest`; it panics where there are none.
unfoldable pub lane_state_for_active_runs :
    String → Plane → ActiveRunState → List ActiveRunState → LaneRuntimeState
lane_state_for_active_runs lane_id plane primary rest = record {
  lane_id = lane_id;
  plane = plane;
  status = LaneRuntimeStatus.active;
  compiled_plan_id = primary.compiled_plan_id;
  compiled_plan_fingerprint = primary.compiled_plan_fingerprint;
  active_run_ids = map (λ (run : ActiveRunState). run.run_id) (primary ∷ rest);
  active_work_refs = map active_work_ref (primary ∷ rest);
  pause_requested = false;
  stop_requested = false;
  drain_requested = false;
  mutation_lock_refs = [];
  completion_target_refs = [];
  failure_counter_refs = [];
  last_claim_attempt_at = none;
  last_terminal_outcome = none;
}

unfoldable pub snapshot_with_lane_active_run : ActiveRunState → RuntimeSnapshot → RuntimeSnapshot
snapshot_with_lane_active_run run snapshot = record snapshot {
  lanes_by_id =
      insert (lane_id_of_run run) (lane_state_for_active_runs (lane_id_of_run run) run.plane run [])
        snapshot.lanes_by_id;
}

-- The body of `snapshot_without_lane_active_run` on the lane's state.
unfoldable pub without_run :
    String → Timestamp → Option String → LaneRuntimeState → LaneRuntimeState
without_run run_id now terminal_outcome existing =
    let ids = filter (λ active_id. not (active_id == run_id)) existing.active_run_ids in
    record existing {
      active_run_ids = ids;
      status = if is_empty ids then LaneRuntimeStatus.idle else existing.status;
      active_work_refs = if is_empty ids then [] else existing.active_work_refs;
      last_claim_attempt_at = some now;
      last_terminal_outcome = terminal_outcome;
    }

lanes_without_run :
    String
    → String
    → Timestamp
    → Option String
    → Option LaneRuntimeState
    → List (String × LaneRuntimeState)
    → List (String × LaneRuntimeState)
lanes_without_run lane_id run_id now terminal_outcome none lanes = lanes
lanes_without_run lane_id run_id now terminal_outcome (some existing) lanes =
    insert lane_id (without_run run_id now terminal_outcome existing) lanes

unfoldable pub snapshot_without_lane_active_run :
    String → String → Timestamp → Option String → RuntimeSnapshot → RuntimeSnapshot
unfolding lanes_without_run
snapshot_without_lane_active_run lane_id run_id now terminal_outcome snapshot = record snapshot {
  lanes_by_id =
      lanes_without_run lane_id run_id now terminal_outcome (lookup lane_id snapshot.lanes_by_id)
        snapshot.lanes_by_id;
}

-- The pairs of a table's keys and values, in the order of the planes.
entry_at : {V : Type 0} → PlaneMap V → Plane → List (Plane × V)
entry_at m plane = elim (PlaneMap.get m plane) [ none ↦ [] | some v ↦ (plane, v) ∷ [] ]

unfoldable pub entries : {V : Type 0} → PlaneMap V → List (Plane × V)
unfolding entry_at
entries m = entry_at m Plane.execution ++ (entry_at m Plane.planning ++ entry_at m Plane.learning)

abbrev pub DeclaredLane : Type 0
DeclaredLane = String × Plane

specs_of : Option WorkflowPlaneSchedulerPolicyDefinition → PlaneMap String → List DeclaredLane
specs_of (some policy) loop_ids =
    sort_by (λ (lane : DeclaredLane). lane.0)
      (map (λ (lane : WorkflowLaneDefinition). (lane.lane_id, lane.plane)) policy.lanes)
specs_of none loop_ids =
    map (λ (e : Plane × String). (default_lane_id_for_plane e.0, e.0)) (entries loop_ids)

unfoldable pub declared_lane_specs : CompiledRunPlan → List DeclaredLane
unfolding specs_of
declared_lane_specs plan = specs_of plan.lane_policy plan.loop_ids_by_plane

-- The runs that `active_runs_by_lane` groups under a lane.
unfoldable pub active_runs_on : String → List ActiveRunState → List ActiveRunState
active_runs_on lane_id runs = filter (λ run. lane_id_of_run run == lane_id) runs

abbrev fresh_lane : String → Plane → String → String → LaneRuntimeState
fresh_lane lane_id plane compiled_plan_id fingerprint = record {
  lane_id = lane_id;
  plane = plane;
  status = LaneRuntimeStatus.idle;
  compiled_plan_id = compiled_plan_id;
  compiled_plan_fingerprint = fingerprint;
  active_run_ids = [];
  active_work_refs = [];
  pause_requested = false;
  stop_requested = false;
  drain_requested = false;
  mutation_lock_refs = [];
  completion_target_refs = [];
  failure_counter_refs = [];
  last_claim_attempt_at = none;
  last_terminal_outcome = none;
}

unfoldable pub settled : LaneRuntimeStatus → LaneRuntimeStatus
settled LaneRuntimeStatus.active = LaneRuntimeStatus.idle
settled status = status

-- The state that `ensure_snapshot_lanes` gives a declared lane.
unfoldable pub ensured_lane :
    String
    → String
    → String
    → Plane
    → List ActiveRunState
    → Option LaneRuntimeState
    → LaneRuntimeState
unfolding settled
ensured_lane compiled_plan_id fingerprint lane_id plane (primary ∷ rest) existing =
    lane_state_for_active_runs lane_id plane primary rest
ensured_lane compiled_plan_id fingerprint lane_id plane [] existing =
    let lane = unwrap_or existing (fresh_lane lane_id plane compiled_plan_id fingerprint) in
    record lane {
      plane = plane;
      compiled_plan_id = compiled_plan_id;
      compiled_plan_fingerprint = fingerprint;
      status = settled lane.status;
      active_run_ids = [];
      active_work_refs = [];
    }

unfoldable pub ensure_lanes :
    String
    → String
    → List ActiveRunState
    → List DeclaredLane
    → List (String × LaneRuntimeState)
    → List (String × LaneRuntimeState)
ensure_lanes compiled_plan_id fingerprint runs [] lanes = lanes
ensure_lanes compiled_plan_id fingerprint runs ((lane_id, plane) ∷ declared) lanes =
    ensure_lanes compiled_plan_id fingerprint runs declared (
      insert lane_id
        (ensured_lane compiled_plan_id fingerprint lane_id plane (active_runs_on lane_id runs)
          (lookup lane_id lanes))
        lanes)

unfoldable pub ensure_snapshot_lanes :
    (CompiledRunPlan → String) → CompiledRunPlan → RuntimeSnapshot → RuntimeSnapshot
ensure_snapshot_lanes compiled_plan_fingerprint_for_runtime plan snapshot =
    let fingerprint = compiled_plan_fingerprint_for_runtime plan in
    record snapshot {
      compiled_plan_fingerprint = fingerprint;
      lanes_by_id =
          ensure_lanes plan.compiled_plan_id fingerprint
            (map (λ (e : Plane × ActiveRunState). e.1) (entries snapshot.active_runs_by_plane))
            (declared_lane_specs plan) snapshot.lanes_by_id;
    }
