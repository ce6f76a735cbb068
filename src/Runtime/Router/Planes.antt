-- ===== src/Runtime/Router/Planes.antt =====
-- runtime/tick.rs: the routing of a stage result on each plane. An early `return` of the source is a
-- step that yields `some` decision; `none` goes on to the next step.
use millrace_rs.Base.{
  String, ◌==◌, leb, Bool, true, not, ◌&&◌, ◌||◌, Option, none, some, if◌then◌else◌, ok, err, ◌>>=◌,
  to_option,
}
use millrace_rs.Base.Text.{concat}
use millrace_rs.Contracts.Enums.{Plane, StageName}
use millrace_rs.Contracts.Validation.{terminal_str}
use millrace_rs.Runtime.State.{
  RuntimeSnapshot, RecoveryCounters, StageResultEnvelope, invalid_state,
}
use millrace_rs.Runtime.Plan.{
  TickResult, FrozenGraphPlanePlan, CompiledRunPlan, GraphLoopCounterName, graph_for_plane,
  transition_for_source, resume_policy_for_source, threshold_policy_for_source,
}
use millrace_rs.Runtime.FailureClass.{resolve_failure_class}
use millrace_rs.Runtime.Router.Decision.{
  RouterDecision, handoff, idle_decision, blocked_decision, run_stage_decision,
}
use millrace_rs.Runtime.Router.Counters.{counter_attempts, counter_key_from_snapshot}
use millrace_rs.Runtime.Router.Guard.{validate_stage_result_matches_snapshot}
use millrace_rs.Runtime.Router.Resume.{
  decision_from_resume_policy, decision_from_threshold_resolution,
}

infixr 6 ◌or_go_on◌
abbrev pub ◌or_go_on◌ :
    Option (TickResult RouterDecision) → TickResult RouterDecision → TickResult RouterDecision
some returned or_go_on rest = returned
none or_go_on rest = rest

abbrev pub blocked_reason : StageResultEnvelope → String
blocked_reason r = concat r.stage_kind_id "_blocked"

abbrev pub outcome_reason : StageResultEnvelope → String
outcome_reason r = concat r.stage_kind_id (concat ":" (terminal_str r.terminal_result))

-- The first step on the execution plane: too many fix cycles.
unfoldable pub fix_cycles_exhausted :
    FrozenGraphPlanePlan
    → RuntimeSnapshot
    → StageResultEnvelope
    → Option (TickResult RouterDecision)
fix_cycles_exhausted graph snapshot r =
    if terminal_str r.terminal_result == "FIX_NEEDED"
    then elim (threshold_policy_for_source graph r.node_id (terminal_str r.terminal_result)
        GraphLoopCounterName.fix_cycle_count) [
          | none ↦ none
          | some policy ↦
              if leb policy.threshold snapshot.fix_cycle_count
              then some (do
                failure_class ← resolve_failure_class snapshot r "fix_cycle_exhausted"
                decision_from_threshold_resolution graph snapshot policy failure_class
                    "fix_cycle_exhausted")
              else none
        ]
    else none

-- The step that both foreground planes take on a blocked stage: too many recovery attempts for its
-- failure class. An error on the way ends the routing.
unfoldable pub attempts_exhausted :
    FrozenGraphPlanePlan
    → RuntimeSnapshot
    → StageResultEnvelope
    → RecoveryCounters
    → GraphLoopCounterName
    → Plane
    → Option (TickResult RouterDecision)
attempts_exhausted graph snapshot r counters counter_name plane =
    elim (resolve_failure_class snapshot r (blocked_reason r)) [
      | err e ↦ some (err e)
      | ok failure_class ↦
          elim (threshold_policy_for_source graph r.node_id (terminal_str r.terminal_result)
            counter_name) [
              | none ↦ none
              | some policy ↦ elim (counter_attempts snapshot counters failure_class plane) [
                | err e ↦ some (err e)
                | ok attempts ↦
                    if leb policy.threshold attempts
                    then some (
                        decision_from_threshold_resolution graph snapshot policy failure_class
                          (blocked_reason r))
                    else none
              ]
            ]
    ]

unfoldable pub resumed :
    FrozenGraphPlanePlan → StageResultEnvelope → Option (TickResult RouterDecision)
resumed graph r = elim (resume_policy_for_source graph r.node_id (terminal_str r.terminal_result)) [
  | none ↦ none
  | some policy ↦ some (decision_from_resume_policy graph r.stage_kind_id r policy)
]

-- The decision for a transition that has a target, on the foreground planes.
unfoldable pub target_decision :
    FrozenGraphPlanePlan
    → RuntimeSnapshot
    → StageResultEnvelope
    → String
    → TickResult RouterDecision
target_decision graph snapshot r target_node_id =
    if terminal_str r.terminal_result == "BLOCKED"
    then (do
      failure_class ← resolve_failure_class snapshot r (blocked_reason r)
      counter_key ← counter_key_from_snapshot snapshot failure_class
      run_stage_decision graph target_node_id (blocked_reason r) (some failure_class) counter_key)
    else run_stage_decision graph target_node_id (outcome_reason r) none none

-- Both handoffs go to the auditor of the planning plane, with a new incident.
unfoldable pub handoff_decision : String → Option String → RouterDecision
handoff_decision reason failure_class = record {
  action = handoff;
  next_plane = some Plane.planning;
  next_stage = some StageName.auditor;
  reason = reason;
  next_node_id = none;
  next_stage_kind_id = none;
  failure_class = failure_class;
  counter_key = none;
  create_incident = true;
}

abbrev pub is_pair : StageResultEnvelope → String → String → Bool
is_pair r stage outcome = r.stage_kind_id == stage && terminal_str r.terminal_result == outcome

unfoldable pub execution_terminal :
    RuntimeSnapshot → StageResultEnvelope → TickResult RouterDecision
unfolding handoff_decision
execution_terminal snapshot r =
    if is_pair r "updater" "UPDATE_COMPLETE"
    then ok (idle_decision "updater_complete")
    else if is_pair r "consultant" "NEEDS_PLANNING"
    then ok (handoff_decision "consultant_needs_planning" none)
    else if is_pair r "consultant" "BLOCKED"
    then ok (
        blocked_decision "consultant_blocked"
          (to_option (resolve_failure_class snapshot r "consultant_blocked")) none)
    else err
        (invalid_state (concat "unsupported execution terminal transition for " (outcome_reason r)))

unfoldable pub planning_terminal : RuntimeSnapshot → StageResultEnvelope → TickResult RouterDecision
unfolding handoff_decision
planning_terminal snapshot r =
    if is_pair r "recon" "RECON_TO_EXECUTION"
    then ok (idle_decision "recon_to_execution")
    else if is_pair r "recon" "RECON_TO_PLANNING"
    then ok (idle_decision "recon_to_planning")
    else if is_pair r "recon" "RECON_NOOP"
    then ok (idle_decision "recon_noop")
    else if is_pair r "recon" "RECON_BLOCKED" || is_pair r "recon" "BLOCKED"
    then ok (
        blocked_decision "recon_blocked"
          (to_option (resolve_failure_class snapshot r "recon_blocked")) none)
    else if is_pair r "manager" "MANAGER_COMPLETE"
    then ok (idle_decision "manager_complete")
    else if is_pair r "manager_blueprint" "MANAGER_BLUEPRINT_COMPLETE"
    then ok (idle_decision "manager_blueprint_complete")
    else if is_pair r "evaluator_blueprint" "BLUEPRINT_APPROVED"
    then ok (idle_decision "blueprint_approved")
    else if is_pair r "arbiter" "ARBITER_COMPLETE"
    then ok (idle_decision "arbiter_complete")
    else if is_pair r "arbiter" "REMEDIATION_NEEDED"
    then ok (handoff_decision "arbiter_remediation_needed" (some "arbiter_parity_gap"))
    else if is_pair r "arbiter" "BLOCKED"
    then ok (
        blocked_decision "arbiter_blocked"
          (to_option (resolve_failure_class snapshot r "arbiter_blocked")) none)
    else err
        (invalid_state (concat "unsupported planning terminal transition for " (outcome_reason r)))

abbrev pub along :
    Option String
    → (String → TickResult RouterDecision)
    → TickResult RouterDecision
    → TickResult RouterDecision
along (some target_node_id) go terminal = go target_node_id
along none go terminal = terminal

unfoldable pub route_execution_stage_result :
    FrozenGraphPlanePlan
    → RuntimeSnapshot
    → StageResultEnvelope
    → RecoveryCounters
    → TickResult RouterDecision
route_execution_stage_result graph snapshot r counters =
    let outcome = terminal_str r.terminal_result in
    let recovery : Option (TickResult RouterDecision) =
      if outcome == "BLOCKED" && not (r.stage_kind_id == "consultant")
      then attempts_exhausted graph snapshot r counters
          GraphLoopCounterName.troubleshoot_attempt_count Plane.execution
      else none in
    fix_cycles_exhausted graph snapshot r or_go_on recovery or_go_on resumed graph r or_go_on (do
      transition ← transition_for_source graph r.node_id outcome
      along transition.target_node_id
          (λ target_node_id.
            if outcome == "FIX_NEEDED"
            then run_stage_decision graph target_node_id "fix_needed" none none
            else target_decision graph snapshot r target_node_id)
          (execution_terminal snapshot r))

unfoldable pub route_planning_stage_result :
    FrozenGraphPlanePlan
    → RuntimeSnapshot
    → StageResultEnvelope
    → RecoveryCounters
    → TickResult RouterDecision
route_planning_stage_result graph snapshot r counters =
    let outcome = terminal_str r.terminal_result in
    let recovery : Option (TickResult RouterDecision) =
      if outcome == "BLOCKED"
      then attempts_exhausted graph snapshot r counters GraphLoopCounterName.mechanic_attempt_count
          Plane.planning
      else none in
    recovery or_go_on resumed graph r or_go_on (do
      transition ← transition_for_source graph r.node_id outcome
      along transition.target_node_id (target_decision graph snapshot r)
          (planning_terminal snapshot r))

unfoldable pub route_learning_stage_result :
    FrozenGraphPlanePlan → StageResultEnvelope → TickResult RouterDecision
route_learning_stage_result graph r = do
  transition ← transition_for_source graph r.node_id (terminal_str r.terminal_result)
  along transition.target_node_id
      (λ target_node_id. run_stage_decision graph target_node_id (outcome_reason r) none none)
      (if terminal_str r.terminal_result == "BLOCKED"
        then ok (blocked_decision (blocked_reason r) none none)
        else ok (idle_decision (outcome_reason r)))

-- The dispatch on the plane of the stage result.
unfoldable pub route_on :
    Plane
    → FrozenGraphPlanePlan
    → RuntimeSnapshot
    → StageResultEnvelope
    → RecoveryCounters
    → TickResult RouterDecision
route_on Plane.execution graph snapshot r counters =
    route_execution_stage_result graph snapshot r counters
route_on Plane.planning graph snapshot r counters =
    route_planning_stage_result graph snapshot r counters
route_on Plane.learning graph snapshot r counters = route_learning_stage_result graph r

unfoldable pub route_stage_result_from_graph :
    CompiledRunPlan
    → RuntimeSnapshot
    → StageResultEnvelope
    → RecoveryCounters
    → TickResult RouterDecision
unfolding route_on
route_stage_result_from_graph plan snapshot r counters = do
  _ ← validate_stage_result_matches_snapshot snapshot r
  graph ← graph_for_plane plan r.plane
  route_on r.plane graph snapshot r counters
