-- ===== src/Runtime/Examples/Recurring.antt =====
-- A planner that blocks for the same reason until its two attempts are used up, and the runtime that
-- applies the decision of the router.
use millrace_rs.Base.{ℕ, ◌≡◌, refl, ok, some, none, [], ◌∷◌, arith, filter, Has}
use millrace_rs.Contracts.Enums.{Plane, StageName, StageName-discrete, WorkItemKind}
use millrace_rs.Contracts.StageName
use millrace_rs.Runtime.PlaneMap
use millrace_rs.Runtime.State.{
  ActiveRunState, ActiveRunRequestKind, RuntimeSnapshot, RecoveryCounters,
}
use millrace_rs.Runtime.Plan.{
  CompiledRunPlan, MaterializedGraphNodePlan, graph_for_plane, resume_policy_for_source,
}
use millrace_rs.Runtime.Router.{
  RouterDecision, counter_attempts, route_planning_stage_result, route_stage_result_from_graph,
  validate_stage_result_matches_snapshot, active_run_for_plane, resumed,
}
use millrace_rs.Runtime.Router.Exhausted.{RunsAt}
use millrace_rs.Runtime.Foreground.{project_foreground_active_run}
use millrace_rs.Runtime.RecoveryCounters.{
  route_counter_field, is_stored_for, recovery_counter_entry, write_entry, count_of,
  increment_entry, show_count, increment_counter_field, increment_for, increment_route_counters,
}
use millrace_rs.Runtime.RecoveryCounters.Attempts.{IsNormal}
use millrace_rs.Runtime.RecoveryCounters.Ends.{
  SendsToMechanic, Attempted, none_yet, once_more, recovery_ends,
}
use millrace_rs.Runtime.ActiveRuns.{set_next_stage_for_plane, apply_run_stage_decision}
use millrace_rs.Runtime.ActiveRuns.NextStage.{applied-own_stage}
use millrace_rs.Runtime.Examples.{arbiter_run, plan, no_counters}
use millrace_rs.Runtime.Examples.Recovery.{
  planning_spec, planner_blocked, two_attempts, recovery_graph, attempted_twice, escalated, program,
  outcome_blocked, class_resolved, policy_found,
}

abbrev counted : ℕ → RecoveryCounters
counted n = record {
  entries =
      record {
        failure_class = "stuck";
        work_item_id = "spec-1";
        work_item_kind = WorkItemKind.spec;
        troubleshoot_attempt_count = 0;
        mechanic_attempt_count = n;
        fix_cycle_count = 0;
        consultant_invocations = 0;
        last_updated_at = "2026-01-01T02:00:00Z";
      }
      ∷ [];
}

abbrev to_mechanic : RouterDecision
to_mechanic = record escalated { next_stage = some StageName.mechanic }

-- The increment of the counters, opened for computation.
counting : Unit {0}
unfolding program increment_route_counters route_counter_field increment_for increment_counter_field
    recovery_counter_entry is_stored_for write_entry increment_entry count_of show_count
counting = tt

sends : SendsToMechanic "stuck" WorkItemKind.spec "spec-1" to_mechanic planner_blocked
sends = record { stage = refl; named = refl; same_kind = refl; same_item = refl }

first_attempt :
    increment_route_counters no_counters planning_spec to_mechanic planner_blocked
    ≡ ok (counted 1, record planning_spec { mechanic_attempt_count = 1 })
unfolding counting
first_attempt = refl

second_attempt :
    increment_route_counters (counted 1) planning_spec to_mechanic planner_blocked
    ≡ ok (counted 2, record planning_spec { mechanic_attempt_count = 2 })
unfolding counting
second_attempt = refl

two_decisions : Attempted "stuck" WorkItemKind.spec "spec-1" 2 no_counters (counted 2)
two_decisions =
    once_more planning_spec (record planning_spec { mechanic_attempt_count = 2 }) to_mechanic
      planner_blocked
      (once_more planning_spec (record planning_spec { mechanic_attempt_count = 1 }) to_mechanic
        planner_blocked none_yet sends first_attempt)
      sends second_attempt

stuck-IsNormal : IsNormal "stuck"
unfolding program
stuck-IsNormal = refl

nothing_attempted : counter_attempts planning_spec no_counters "stuck" Plane.planning ≡ ok 0
unfolding program
nothing_attempted = refl

escalated_after_two :
    route_planning_stage_result recovery_graph planning_spec planner_blocked (counted 2)
    ≡ ok escalated
unfolding program
escalated_after_two = refl

recovery_ends_example : RunsAt "auditor" escalated
recovery_ends_example =
    recovery_ends recovery_graph planning_spec planner_blocked two_attempts "stuck" "auditor"
      WorkItemKind.spec "spec-1" 2 no_counters (counted 2) escalated tt stuck-IsNormal refl refl
      nothing_attempted two_decisions (omega arith) (omega arith) outcome_blocked class_resolved
      policy_found refl escalated_after_two

abbrev planner_run : ActiveRunState
planner_run = record arbiter_run {
  stage = StageName.planner;
  node_id = "planner";
  stage_kind_id = "planner";
  run_id = "run-2";
  request_kind = ActiveRunRequestKind.active_work_item;
  work_item_family_id = some "spec";
  work_item_kind = some WorkItemKind.spec;
  work_item_id = some "spec-1";
  closure_target_root_spec_id = none;
  closure_target_root_idea_id = none;
}

abbrev planner_active : RuntimeSnapshot
planner_active = record planning_spec {
  active_runs_by_plane = PlaneMap.insert PlaneMap.empty Plane.planning planner_run;
}

abbrev recovery_plan : CompiledRunPlan
recovery_plan = record plan { planning_graph = recovery_graph }

abbrev auditor_run : ActiveRunState
auditor_run = record planner_run {
  stage = StageName.auditor;
  node_id = "auditor";
  stage_kind_id = "auditor";
  active_since = "2026-01-01T02:00:00Z";
  running_status_marker = none;
}

abbrev auditor_active : RuntimeSnapshot
auditor_active =
    record (project_foreground_active_run (record planner_active {
      active_runs_by_plane =
          PlaneMap.insert planner_active.active_runs_by_plane Plane.planning auditor_run;
    })) { current_failure_class = some "stuck"; updated_at = "2026-01-01T02:00:00Z" }

planning_graph_found : graph_for_plane recovery_plan Plane.planning ≡ ok recovery_graph
unfolding graph_for_plane
planning_graph_found = refl

auditor_routed :
    route_stage_result_from_graph recovery_plan planner_active planner_blocked attempted_twice
    ≡ ok escalated
unfolding program route_stage_result_from_graph validate_stage_result_matches_snapshot
    active_run_for_plane PlaneMap.get PlaneMap.insert StageName-discrete graph_for_plane resumed
    resume_policy_for_source filter
auditor_routed = refl

auditor_applied :
    apply_run_stage_decision planner_active attempted_twice escalated planner_blocked
    ≡ ok (attempted_twice, auditor_active)
unfolding counting apply_run_stage_decision set_next_stage_for_plane PlaneMap.get PlaneMap.insert
auditor_applied = refl

applied-own_stage_example :
    (run : ActiveRunState) × (node : MaterializedGraphNodePlan) × (PlaneMap.get
        auditor_active.active_runs_by_plane Plane.planning
      ≡ some run)
    × Has node recovery_graph.nodes
    × (run.node_id ≡ node.node_id)
    × (StageName.plane run.stage ≡ Plane.planning)
applied-own_stage_example =
    applied-own_stage recovery_plan planner_active auditor_active planner_blocked attempted_twice
      attempted_twice escalated recovery_graph planning_graph_found refl auditor_routed refl
      auditor_applied
