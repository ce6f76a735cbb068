-- ===== src/Runtime/ActiveRuns.antt =====
-- runtime/tick.rs: how an activation, the next stage of a run and the end of a run change the snapshot.
pub mod Lanes
pub mod Placed
pub mod NextStage
use millrace_rs.Base.{
  String, ◌==◌, ◌≡◌, Bool, true, false, not, Option, none, some, List, test, unwrap_or,
  if◌then◌else◌, ok, err, ok_or, ◌>>=◌,
}
use millrace_rs.Base.Text.{concat}
use millrace_rs.Contracts.Enums.{Plane, Plane-discrete, StageName}
use millrace_rs.Contracts.Plane
use millrace_rs.Contracts.StageName
use millrace_rs.Runtime.PlaneMap
use millrace_rs.Runtime.State.{
  ActiveRunState, RuntimeSnapshot, RecoveryCounters, StageResultEnvelope, Timestamp, invalid_state,
}
use millrace_rs.Runtime.Plan.{TickResult}
use millrace_rs.Runtime.Router.{RouterDecision}
use millrace_rs.Runtime.Foreground.{project_foreground_active_run}
use millrace_rs.Runtime.Lanes.{
  lane_id_of_run, snapshot_with_lane_active_run, snapshot_without_lane_active_run,
}
use millrace_rs.Runtime.RecoveryCounters.{increment_route_counters}

unfoldable pub snapshot_with_active_run :
    ActiveRunState → Timestamp → RuntimeSnapshot → RuntimeSnapshot
snapshot_with_active_run run now snapshot =
    let laned = snapshot_with_lane_active_run run snapshot in
    record (project_foreground_active_run (record laned {
      active_runs_by_plane = PlaneMap.insert laned.active_runs_by_plane run.plane run;
    })) { updated_at = now }

-- The table and the lanes once the run of a plane is removed.
unfoldable pub released :
    Plane → Timestamp → Option ActiveRunState → RuntimeSnapshot → RuntimeSnapshot
released plane now none snapshot = snapshot
released plane now (some run) snapshot =
    snapshot_without_lane_active_run (lane_id_of_run run) run.run_id now none (record snapshot {
      active_runs_by_plane = PlaneMap.remove snapshot.active_runs_by_plane plane;
    })

unfoldable pub clear_active_plane :
    Plane → Option String → Timestamp → RuntimeSnapshot → RuntimeSnapshot
unfolding released
clear_active_plane plane current_failure_class now snapshot =
    record (project_foreground_active_run
      (released plane now (PlaneMap.get snapshot.active_runs_by_plane plane) snapshot)) {
        current_failure_class = current_failure_class;
        updated_at = now;
      }

unfoldable pub set_next_stage_for_plane :
    Plane
    → StageName
    → String
    → String
    → Timestamp
    → Option String
    → RuntimeSnapshot
    → TickResult RuntimeSnapshot
set_next_stage_for_plane plane stage node_id stage_kind_id now current_failure_class snapshot = do
  run ←
      ok_or (PlaneMap.get snapshot.active_runs_by_plane plane)
        (invalid_state (concat "no active run for plane " (Plane.as_str plane)))
  let run' = record run {
    stage = stage;
    node_id = node_id;
    stage_kind_id = stage_kind_id;
    active_since = now;
    running_status_marker = none;
  }
  ok
      (record (project_foreground_active_run (record snapshot {
        active_runs_by_plane = PlaneMap.insert snapshot.active_runs_by_plane plane run';
      })) { current_failure_class = current_failure_class; updated_at = now })

-- `apply_run_stage_decision` without the queue depths, which are counted in the file system.
unfoldable pub apply_run_stage_decision :
    RuntimeSnapshot
    → RecoveryCounters
    → RouterDecision
    → StageResultEnvelope
    → TickResult (RecoveryCounters × RuntimeSnapshot)
apply_run_stage_decision snapshot counters decision r =
    if not (test (Plane-discrete (unwrap_or decision.next_plane r.plane) r.plane))
    then err (invalid_state "run_stage decisions must stay on the source plane")
    else (do
      next_stage ←
          ok_or decision.next_stage (invalid_state "run_stage decision is missing next_stage")
      snapshot' ←
          set_next_stage_for_plane r.plane next_stage
            (unwrap_or decision.next_node_id (StageName.as_str next_stage))
            (unwrap_or decision.next_stage_kind_id (StageName.as_str next_stage)) r.completed_at
            decision.failure_class snapshot
      increment_route_counters counters snapshot' decision r)
