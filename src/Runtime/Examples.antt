-- ===== src/Runtime/Examples.antt =====
-- Routing on a small compiled graph of the planning plane, in which the arbiter judges an incident.
pub mod Control
pub mod Approvals
pub mod Gates
pub mod Blocked
mod Metadata
pub mod AutoRecovery
pub mod Lanes
pub mod LaneDispatch
pub mod Recurring
pub mod Recovery
use millrace_rs.Base.{find, filter, ◌≡◌, refl, true, false, none, some, [], ◌∷◌, ok}
use millrace_rs.Contracts.Enums.{
  Plane, StageName, StageName-discrete, TerminalResult, PlanningTerminalResult, ResultClass,
  WorkItemKind,
}
use millrace_rs.Base.Int.{pos}
use millrace_rs.Runtime.PlaneMap
use millrace_rs.Contracts.PlanningTerminalResult
use millrace_rs.Contracts.Validation.{terminal_str}
use millrace_rs.Runtime.State.{
  ActiveRunRequestKind, ActiveRunState, RuntimeSnapshot, RecoveryCounters, StageResultEnvelope,
}
use millrace_rs.Runtime.Plan.{
  FrozenGraphPlanePlan, CompiledRunPlan, graph_for_plane, transition_for_source, first_by_priority,
  min_by_priority, resume_policy_for_source,
}
use millrace_rs.Runtime.Router.{
  RouterDecision, handoff, route_stage_result_from_graph, validate_stage_result_matches_snapshot,
  active_run_for_plane, resumed, route_planning_stage_result, planning_terminal,
}
use millrace_rs.Runtime.Router.Sound.{IsSound}
use millrace_rs.Runtime.Router.RoutesSound.{route-IsSound}

abbrev pub arbiter_run : ActiveRunState
arbiter_run = record {
  plane = Plane.planning;
  lane_id = "planning.main";
  stage = StageName.arbiter;
  node_id = "arbiter";
  stage_kind_id = "arbiter";
  run_id = "run-1";
  compiled_plan_id = "plan-1";
  compiled_plan_fingerprint = "print-1";
  request_kind = ActiveRunRequestKind.closure_target;
  work_item_family_id = none;
  work_item_kind = none;
  work_item_id = none;
  closure_target_root_spec_id = some "spec-1";
  closure_target_root_idea_id = some "idea-1";
  active_since = "2026-01-01T00:00:00Z";
  running_status_marker = none;
}

abbrev pub snapshot : RuntimeSnapshot
snapshot = record {
  process_running = true;
  paused = false;
  pause_sources = [];
  stop_requested = false;
  compiled_plan_id = "plan-1";
  compiled_plan_fingerprint = "print-1";
  active_plane = some Plane.planning;
  active_stage = some StageName.arbiter;
  active_node_id = some "arbiter";
  active_stage_kind_id = some "arbiter";
  active_run_id = some "run-1";
  active_work_item_family_id = none;
  active_work_item_kind = none;
  active_work_item_id = none;
  active_since = some "2026-01-01T00:00:00Z";
  active_runs_by_plane = PlaneMap.insert PlaneMap.empty Plane.planning arbiter_run;
  lanes_by_id = [];
  execution_status_marker = "### IDLE";
  planning_status_marker = "### ARBITER_RUNNING";
  learning_status_marker = "### IDLE";
  status_markers_by_plane = PlaneMap.empty;
  queue_depth_execution = 0;
  queue_depth_planning = 0;
  queue_depth_learning = 0;
  queue_depths_by_plane = PlaneMap.empty;
  current_failure_class = none;
  troubleshoot_attempt_count = 0;
  mechanic_attempt_count = 0;
  fix_cycle_count = 0;
  consultant_invocations = 0;
  updated_at = "2026-01-01T00:00:00Z";
}

abbrev arbiter_result : StageResultEnvelope
arbiter_result = record {
  run_id = "run-1";
  plane = Plane.planning;
  stage = StageName.arbiter;
  node_id = "arbiter";
  stage_kind_id = "arbiter";
  work_item_kind = WorkItemKind.spec;
  work_item_id = "spec-1";
  terminal_result = TerminalResult.planning PlanningTerminalResult.remediation_needed;
  result_class = ResultClass.followup_needed;
  metadata = λ _. none;
  metadata_flag = λ _. none;
  stdout_path = none;
  stderr_path = none;
  completed_at = "2026-01-01T01:00:00Z";
}

abbrev pub empty_graph : Plane → FrozenGraphPlanePlan
empty_graph plane = record {
  plane = plane;
  nodes = [];
  compiled_transitions = [];
  compiled_resume_policies = [];
  compiled_threshold_policies = [];
  terminal_states = [];
}

abbrev planning_graph : FrozenGraphPlanePlan
planning_graph = record {
  plane = Plane.planning;
  nodes = record { node_id = "arbiter"; stage_kind_id = "arbiter" } ∷ [];
  compiled_transitions =
      record {
        source_node_id = "arbiter";
        outcome = "REMEDIATION_NEEDED";
        target_node_id = none;
        terminal_state_id = some "remediation_needed";
        priority = pos 0;
      }
      ∷ [];
  compiled_resume_policies = [];
  compiled_threshold_policies = [];
  terminal_states = [];
}

abbrev pub plan : CompiledRunPlan
plan = record {
  compiled_plan_id = "plan-1";
  lane_policy = none;
  loop_ids_by_plane = PlaneMap.empty;
  execution_graph = empty_graph Plane.execution;
  planning_graph = planning_graph;
  learning_graph = none;
}

abbrev pub no_counters : RecoveryCounters
no_counters = record { entries = [] }

abbrev remediation : RouterDecision
remediation = record {
  action = handoff;
  next_plane = some Plane.planning;
  next_stage = some StageName.auditor;
  reason = "arbiter_remediation_needed";
  next_node_id = none;
  next_stage_kind_id = none;
  failure_class = some "arbiter_parity_gap";
  counter_key = none;
  create_incident = true;
}

remediation_routed :
    route_stage_result_from_graph plan snapshot arbiter_result no_counters ≡ ok remediation
unfolding route_stage_result_from_graph validate_stage_result_matches_snapshot active_run_for_plane
    PlaneMap.get PlaneMap.insert StageName-discrete graph_for_plane route_planning_stage_result
    terminal_str PlanningTerminalResult.as_str resumed resume_policy_for_source find
    transition_for_source first_by_priority filter min_by_priority planning_terminal
remediation_routed = refl

route-IsSound_example :
    (graph : FrozenGraphPlanePlan) × (graph_for_plane plan Plane.planning ≡ ok graph)
    × IsSound graph arbiter_result remediation
route-IsSound_example =
    route-IsSound plan snapshot arbiter_result no_counters remediation remediation_routed
