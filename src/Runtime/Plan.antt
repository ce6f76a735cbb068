-- ===== src/Runtime/Plan.antt =====
-- compiler/contracts.rs: the parts of a compiled plan that routing reads, and the lookups of
-- runtime/tick.rs in them.
use millrace_rs.Base.{
  String, ◌==◌, ℕ, Bool, ◌&&◌, Option, none, some, List, [], ◌∷◌, find, any, filter, test,
  if◌then◌else◌, Result, ok, ok_or,
}
use millrace_rs.Base.Text.{concat}
use millrace_rs.Base.Int.{ℤ, lt_ℤ}
use millrace_rs.Contracts.Enums.{Plane}
use millrace_rs.Runtime.PlaneMap.{PlaneMap}
use millrace_rs.Runtime.SchedulerPolicy.{WorkflowPlaneSchedulerPolicyDefinition}
use millrace_rs.Runtime.State.{RuntimeTickError, invalid_state}

pub data GraphLoopTerminalClass : Type 0 where
  success no_op followup_needed blocked escalate_planning : GraphLoopTerminalClass

pub data GraphLoopCounterName : Type 0 where
  fix_cycle_count troubleshoot_attempt_count mechanic_attempt_count : GraphLoopCounterName

unfoldable pub GraphLoopCounterName-discrete : Discrete GraphLoopCounterName
GraphLoopCounterName-discrete = hlevel

pub record MaterializedGraphNodePlan : Type 0 where
  pub node_id : String
  pub stage_kind_id : String

pub record CompiledGraphTransitionPlan : Type 0 where
  pub source_node_id : String
  pub outcome : String
  pub target_node_id : Option String
  pub terminal_state_id : Option String
  pub priority : ℤ

pub record CompiledGraphResumePolicyPlan : Type 0 where
  pub source_node_id : String
  pub on_outcome : String
  pub default_target_node_id : String
  pub metadata_stage_keys : List String
  pub disallowed_target_node_ids : List String

pub record CompiledGraphThresholdPolicyPlan : Type 0 where
  pub source_node_ids : List String
  pub on_outcome : String
  pub counter_name : GraphLoopCounterName
  pub threshold : ℕ
  pub exhausted_target_node_id : Option String
  pub exhausted_terminal_state_id : Option String

pub record GraphLoopTerminalStateDefinition : Type 0 where
  pub terminal_state_id : String
  pub terminal_class : GraphLoopTerminalClass

pub record FrozenGraphPlanePlan : Type 0 where
  pub plane : Plane
  pub nodes : List MaterializedGraphNodePlan
  pub compiled_transitions : List CompiledGraphTransitionPlan
  pub compiled_resume_policies : List CompiledGraphResumePolicyPlan
  pub compiled_threshold_policies : List CompiledGraphThresholdPolicyPlan
  pub terminal_states : List GraphLoopTerminalStateDefinition

pub record CompiledRunPlan : Type 0 where
  pub compiled_plan_id : String
  pub lane_policy : Option WorkflowPlaneSchedulerPolicyDefinition
  pub loop_ids_by_plane : PlaneMap String
  pub execution_graph : FrozenGraphPlanePlan
  pub planning_graph : FrozenGraphPlanePlan
  pub learning_graph : Option FrozenGraphPlanePlan

abbrev pub TickResult : Type 0 → Type 0
TickResult A = Result RuntimeTickError A

-- `GraphLoopTerminalClass::as_str`
unfoldable pub terminal_class_str : GraphLoopTerminalClass → String
terminal_class_str GraphLoopTerminalClass.success = "success"
terminal_class_str GraphLoopTerminalClass.no_op = "no_op"
terminal_class_str GraphLoopTerminalClass.followup_needed = "followup_needed"
terminal_class_str GraphLoopTerminalClass.blocked = "blocked"
terminal_class_str GraphLoopTerminalClass.escalate_planning = "escalate_planning"

unfoldable pub graph_for_plane : CompiledRunPlan → Plane → TickResult FrozenGraphPlanePlan
graph_for_plane plan Plane.execution = ok plan.execution_graph
graph_for_plane plan Plane.planning = ok plan.planning_graph
graph_for_plane plan Plane.learning =
    ok_or plan.learning_graph (invalid_state "compiled graph is missing learning plane")

unfoldable pub node_plan_by_id :
    FrozenGraphPlanePlan → String → TickResult MaterializedGraphNodePlan
node_plan_by_id graph node_id =
    ok_or (find (λ node. node.node_id == node_id) graph.nodes)
      (invalid_state (concat "compiled graph is missing `" (concat node_id "` node")))

-- `min_by` on the priority: the first of the least.
unfoldable pub min_by_priority :
    CompiledGraphTransitionPlan → List CompiledGraphTransitionPlan → CompiledGraphTransitionPlan
min_by_priority best [] = best
min_by_priority best (t ∷ ts) =
    min_by_priority (if lt_ℤ t.priority best.priority then t else best) ts

unfoldable pub first_by_priority :
    List CompiledGraphTransitionPlan → Option CompiledGraphTransitionPlan
first_by_priority [] = none
first_by_priority (t ∷ ts) = some (min_by_priority t ts)

abbrev pub leaves_by : String → String → CompiledGraphTransitionPlan → Bool
leaves_by source_node_id outcome t = t.source_node_id == source_node_id && t.outcome == outcome

unfoldable pub transition_for_source :
    FrozenGraphPlanePlan → String → String → TickResult CompiledGraphTransitionPlan
transition_for_source graph source_node_id outcome =
    ok_or (first_by_priority (filter (leaves_by source_node_id outcome) graph.compiled_transitions))
      (invalid_state (
        concat "compiled graph is missing transition for "
          (concat source_node_id (concat ":" outcome))))

unfoldable pub resume_policy_for_source :
    FrozenGraphPlanePlan → String → String → Option CompiledGraphResumePolicyPlan
resume_policy_for_source graph source_node_id outcome =
    find (λ policy. policy.source_node_id == source_node_id && policy.on_outcome == outcome)
      graph.compiled_resume_policies

unfoldable pub threshold_policy_for_source :
    FrozenGraphPlanePlan
    → String
    → String
    → GraphLoopCounterName
    → Option CompiledGraphThresholdPolicyPlan
threshold_policy_for_source graph source_node_id outcome counter_name =
    find
      (λ policy.
        any (λ node. node == source_node_id) policy.source_node_ids
        && policy.on_outcome == outcome
        && test (GraphLoopCounterName-discrete policy.counter_name counter_name))
      graph.compiled_threshold_policies

unfoldable pub terminal_state_by_id :
    FrozenGraphPlanePlan → String → TickResult GraphLoopTerminalStateDefinition
terminal_state_by_id graph terminal_state_id =
    ok_or (find (λ state. state.terminal_state_id == terminal_state_id) graph.terminal_states) (
      invalid_state
        (concat "compiled graph is missing terminal state `" (concat terminal_state_id "`")))
