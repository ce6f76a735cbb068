-- ===== src/Runtime/Examples/Recovery.antt =====
-- A planner and a builder that block again after their attempts are used up: the exhausted target of
-- the threshold policy runs.
use millrace_rs.Base.{
  eq_iff, true, ◌≢◌, false, ◌≡◌, refl, ok, some, none, [], ◌∷◌, arith, find, any,
}
use millrace_rs.Contracts.Enums.{
  Plane, Plane-discrete, WorkItemKind-discrete, StageName, TerminalResult, ExecutionTerminalResult,
  PlanningTerminalResult, ResultClass, WorkItemKind,
}
use millrace_rs.Base.Text.{
  trim, drop_start, drop_end, is_whitespace, is_ascii_alphanumeric, is_ascii_uppercase,
  to_ascii_lowercase_char,
}
use millrace_rs.Contracts.StageName
use millrace_rs.Contracts.WorkItemKind
use millrace_rs.Contracts.PlanningTerminalResult
use millrace_rs.Contracts.ExecutionTerminalResult
use millrace_rs.Contracts.Validation.{terminal_str, stage_name_for_plane, stage_name_for_value}
use millrace_rs.Runtime.State.{RuntimeSnapshot, RecoveryCounters, StageResultEnvelope}
use millrace_rs.Runtime.Plan.{
  FrozenGraphPlanePlan, CompiledGraphThresholdPolicyPlan, GraphLoopCounterName,
  GraphLoopCounterName-discrete, threshold_policy_for_source, node_plan_by_id,
}
use millrace_rs.Runtime.FailureClass.{
  resolve_failure_class, failure_class_from_stage_result, non_blank, normalize_failure_class,
  normalize_chars, push_normalized,
}
use millrace_rs.Runtime.Router.{
  RouterDecision, run_stage, counter_attempts, route_planning_stage_result,
  route_execution_stage_result, fix_cycles_exhausted, attempts_exhausted, is_entry_for, attempts_of,
  counter_key_from_snapshot, decision_from_threshold_resolution, run_stage_decision, exhausted_at,
}
use millrace_rs.Runtime.Examples.{snapshot}

abbrev pub planning_spec : RuntimeSnapshot
planning_spec = record snapshot {
  active_work_item_kind = some WorkItemKind.spec;
  active_work_item_id = some "spec-1";
}

abbrev pub attempted_twice : RecoveryCounters
attempted_twice = record {
  entries =
      record {
        failure_class = "stuck";
        work_item_id = "spec-1";
        work_item_kind = WorkItemKind.spec;
        troubleshoot_attempt_count = 0;
        mechanic_attempt_count = 2;
        fix_cycle_count = 0;
        consultant_invocations = 0;
        last_updated_at = "2026-01-01T00:00:00Z";
      }
      ∷ [];
}

abbrev pub planner_blocked : StageResultEnvelope
planner_blocked = record {
  run_id = "run-2";
  plane = Plane.planning;
  stage = StageName.planner;
  node_id = "planner";
  stage_kind_id = "planner";
  work_item_kind = WorkItemKind.spec;
  work_item_id = "spec-1";
  terminal_result = TerminalResult.planning PlanningTerminalResult.blocked;
  result_class = ResultClass.blocked;
  metadata = λ _. some "stuck";
  metadata_flag = λ _. none;
  stdout_path = none;
  stderr_path = none;
  completed_at = "2026-01-01T02:00:00Z";
}

abbrev pub two_attempts : CompiledGraphThresholdPolicyPlan
two_attempts = record {
  source_node_ids = "planner" ∷ [];
  on_outcome = "BLOCKED";
  counter_name = GraphLoopCounterName.mechanic_attempt_count;
  threshold = 2;
  exhausted_target_node_id = some "auditor";
  exhausted_terminal_state_id = none;
}

abbrev pub recovery_graph : FrozenGraphPlanePlan
recovery_graph = record {
  plane = Plane.planning;
  nodes = record { node_id = "auditor"; stage_kind_id = "auditor" } ∷ [];
  compiled_transitions = [];
  compiled_resume_policies = [];
  compiled_threshold_policies = two_attempts ∷ [];
  terminal_states = [];
}

abbrev pub escalated : RouterDecision
escalated = record {
  action = run_stage;
  next_plane = some Plane.planning;
  next_stage = some StageName.auditor;
  reason = "planner_blocked";
  next_node_id = some "auditor";
  next_stage_kind_id = some "auditor";
  failure_class = some "stuck";
  counter_key = some "spec:spec-1:stuck";
  create_incident = false;
}

-- The routing of a blocked stage, opened for computation.
unfoldable pub program : Unit {0}
unfolding route_planning_stage_result route_execution_stage_result fix_cycles_exhausted
    ExecutionTerminalResult.as_str attempts_exhausted resolve_failure_class
    failure_class_from_stage_result non_blank normalize_failure_class normalize_chars
    push_normalized trim drop_start drop_end is_whitespace is_ascii_alphanumeric is_ascii_uppercase
    to_ascii_lowercase_char counter_attempts is_entry_for attempts_of counter_key_from_snapshot
    threshold_policy_for_source decision_from_threshold_resolution exhausted_at run_stage_decision
    node_plan_by_id stage_name_for_plane stage_name_for_value StageName.plane terminal_str
    PlanningTerminalResult.as_str WorkItemKind.as_str find any Plane-discrete WorkItemKind-discrete
    GraphLoopCounterName-discrete
program = tt

pub outcome_blocked : terminal_str planner_blocked.terminal_result ≡ "BLOCKED"
unfolding program
outcome_blocked = refl

pub class_resolved :
    resolve_failure_class planning_spec planner_blocked "planner_blocked" ≡ ok "stuck"
unfolding program
class_resolved = refl

pub policy_found :
    threshold_policy_for_source recovery_graph "planner"
      (terminal_str planner_blocked.terminal_result)
      GraphLoopCounterName.mechanic_attempt_count
    ≡ some two_attempts
unfolding program
policy_found = refl

attempts_read : counter_attempts planning_spec attempted_twice "stuck" Plane.planning ≡ ok 2
unfolding program
attempts_read = refl

escalation_routed :
    route_planning_stage_result recovery_graph planning_spec planner_blocked attempted_twice
    ≡ ok escalated
unfolding program
escalation_routed = refl

abbrev execution_task : RuntimeSnapshot
execution_task = record snapshot {
  active_work_item_kind = some WorkItemKind.task;
  active_work_item_id = some "task-1";
}

abbrev troubleshot_once : RecoveryCounters
troubleshot_once = record {
  entries =
      record {
        failure_class = "stuck";
        work_item_id = "task-1";
        work_item_kind = WorkItemKind.task;
        troubleshoot_attempt_count = 1;
        mechanic_attempt_count = 0;
        fix_cycle_count = 0;
        consultant_invocations = 0;
        last_updated_at = "2026-01-01T00:00:00Z";
      }
      ∷ [];
}

abbrev builder_blocked : StageResultEnvelope
builder_blocked = record {
  run_id = "run-3";
  plane = Plane.execution;
  stage = StageName.builder;
  node_id = "builder";
  stage_kind_id = "builder";
  work_item_kind = WorkItemKind.task;
  work_item_id = "task-1";
  terminal_result = TerminalResult.execution ExecutionTerminalResult.blocked;
  result_class = ResultClass.blocked;
  metadata = λ _. some "stuck";
  metadata_flag = λ _. none;
  stdout_path = none;
  stderr_path = none;
  completed_at = "2026-01-01T02:00:00Z";
}

abbrev one_attempt : CompiledGraphThresholdPolicyPlan
one_attempt = record {
  source_node_ids = "builder" ∷ [];
  on_outcome = "BLOCKED";
  counter_name = GraphLoopCounterName.troubleshoot_attempt_count;
  threshold = 1;
  exhausted_target_node_id = some "consultant";
  exhausted_terminal_state_id = none;
}

abbrev execution_graph : FrozenGraphPlanePlan
execution_graph = record {
  plane = Plane.execution;
  nodes = record { node_id = "consultant"; stage_kind_id = "consultant" } ∷ [];
  compiled_transitions = [];
  compiled_resume_policies = [];
  compiled_threshold_policies = one_attempt ∷ [];
  terminal_states = [];
}

abbrev consulted : RouterDecision
consulted = record {
  action = run_stage;
  next_plane = some Plane.execution;
  next_stage = some StageName.consultant;
  reason = "builder_blocked";
  next_node_id = some "consultant";
  next_stage_kind_id = some "consultant";
  failure_class = some "stuck";
  counter_key = some "task:task-1:stuck";
  create_incident = false;
}

not_consultant : builder_blocked.stage_kind_id ≢ "consultant"
not_consultant h =
    let e : false ≡ true = (eq_iff builder_blocked.stage_kind_id "consultant").1 h in
    absurd (ground arith)

builder_outcome_blocked : terminal_str builder_blocked.terminal_result ≡ "BLOCKED"
unfolding program
builder_outcome_blocked = refl

builder_class_resolved :
    resolve_failure_class execution_task builder_blocked "builder_blocked" ≡ ok "stuck"
unfolding program
builder_class_resolved = refl

builder_policy_found :
    threshold_policy_for_source execution_graph "builder"
      (terminal_str builder_blocked.terminal_result)
      GraphLoopCounterName.troubleshoot_attempt_count
    ≡ some one_attempt
unfolding program
builder_policy_found = refl

builder_attempts_read :
    counter_attempts execution_task troubleshot_once "stuck" Plane.execution ≡ ok 1
unfolding program
builder_attempts_read = refl

consultation_routed :
    route_execution_stage_result execution_graph execution_task builder_blocked troubleshot_once
    ≡ ok consulted
unfolding program
consultation_routed = refl
