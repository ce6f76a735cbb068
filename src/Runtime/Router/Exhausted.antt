-- ===== src/Runtime/Router/Exhausted.antt =====
-- Where the router sends a blocked work item once its recovery attempts are used up.
use millrace_rs.Base.{
  ◌==◌, false, Bool-cases, ◌≢◌, String, eq_iff, ◌≡◌, refl, sym, ◌∙◌, ℕ, ◌≤◌, inl, inr, Option, some,
  ok, Result-cases, arith,
}
use millrace_rs.Contracts.Enums.{Plane}
use millrace_rs.Contracts.Validation.{terminal_str, stage_name_for_plane}
use millrace_rs.Runtime.State.{RuntimeSnapshot, RecoveryCounters, StageResultEnvelope, contract}
use millrace_rs.Runtime.Plan.{
  FrozenGraphPlanePlan, CompiledGraphThresholdPolicyPlan, GraphLoopCounterName,
  threshold_policy_for_source, node_plan_by_id,
}
use millrace_rs.Runtime.FailureClass.{resolve_failure_class}
use millrace_rs.Runtime.Router.Decision.{RouterDecision, run_stage, run_stage_decision}
use millrace_rs.Runtime.Router.Counters.{counter_attempts, counter_key_from_snapshot}
use millrace_rs.Runtime.Router.Resume.{decision_from_threshold_resolution, exhausted_at}
use millrace_rs.Runtime.Router.Planes.{
  attempts_exhausted, blocked_reason, route_planning_stage_result, route_execution_stage_result,
  fix_cycles_exhausted,
}
use millrace_rs.Runtime.Router.Sound.{
  Ensures, Ensures-bind, Ensures-ok, Ensures-err, node_plan_by_id-Has,
}

-- The decision runs the stage at a node.
abbrev pub RunsAt : String → RouterDecision → Type 0
RunsAt target d = (d.action ≡ run_stage) × (d.next_node_id ≡ some target)

module _ (graph : FrozenGraphPlanePlan) (snapshot : RuntimeSnapshot) (r : StageResultEnvelope) where
  run_stage_decision-RunsAt :
      (target reason : String) (failure_class counter_key : Option String)
      → Ensures (RunsAt target) (run_stage_decision graph target reason failure_class counter_key)
  unfolding run_stage_decision
  run_stage_decision-RunsAt target reason failure_class counter_key =
      Ensures-bind (RunsAt target) (node_plan_by_id graph target) _ λ node found.
        elim (Result-cases (stage_name_for_plane graph.plane node.stage_kind_id)) [
          | inl (stage, e) ↦ rw e (
              Ensures-ok (RunsAt target)
                (refl, rw (node_plan_by_id-Has graph r target node found).1 refl))
          | inr (c, e) ↦ rw e (Ensures-err (RunsAt target) (contract c))
        ]

  threshold-RunsAt :
      (policy : CompiledGraphThresholdPolicyPlan) (failure_class reason target : String)
      → policy.exhausted_target_node_id ≡ some target
      → Ensures
          (RunsAt target)
          (decision_from_threshold_resolution graph snapshot policy failure_class reason)
  unfolding decision_from_threshold_resolution exhausted_at
  threshold-RunsAt policy failure_class reason target e =
      Ensures-bind (RunsAt target) (counter_key_from_snapshot snapshot failure_class) _
        λ counter_key _.
          rw e (run_stage_decision-RunsAt target reason (some failure_class) counter_key)

  attempts_exhausted-eq :
      (counters : RecoveryCounters) (counter : GraphLoopCounterName) (plane : Plane)
      (policy : CompiledGraphThresholdPolicyPlan) (failure_class : String) (attempts : ℕ)
      → resolve_failure_class snapshot r (blocked_reason r) ≡ ok failure_class
      → threshold_policy_for_source graph r.node_id (terminal_str r.terminal_result) counter
        ≡ some policy
      → counter_attempts snapshot counters failure_class plane ≡ ok attempts
      → policy.threshold ≤ attempts
      → attempts_exhausted graph snapshot r counters counter plane
        ≡ some (
            decision_from_threshold_resolution graph snapshot policy failure_class
              (blocked_reason r))
  unfolding attempts_exhausted
  attempts_exhausted-eq counters counter plane policy failure_class attempts named found read used =
      ground arith

-- On the planning plane, a blocked stage whose failure class has used up the attempts of its threshold
-- policy is not sent to recovery again: the router runs the policy's exhausted target, if it decides.
pub planning-exhausted :
    (graph : FrozenGraphPlanePlan) (snapshot : RuntimeSnapshot) (r : StageResultEnvelope)
    (counters : RecoveryCounters) (policy : CompiledGraphThresholdPolicyPlan)
    (failure_class target : String) (attempts : ℕ) (d : RouterDecision)
    → terminal_str r.terminal_result ≡ "BLOCKED"
    → resolve_failure_class snapshot r (blocked_reason r) ≡ ok failure_class
    → threshold_policy_for_source graph r.node_id
        (terminal_str r.terminal_result)
        GraphLoopCounterName.mechanic_attempt_count
      ≡ some policy
    → counter_attempts snapshot counters failure_class Plane.planning ≡ ok attempts
    → policy.threshold ≤ attempts
    → policy.exhausted_target_node_id ≡ some target
    → route_planning_stage_result graph snapshot r counters ≡ ok d
    → RunsAt target d
unfolding route_planning_stage_result
planning-exhausted graph snapshot r counters policy failure_class target attempts d blocked named
      found read used goes routed =
    (threshold-RunsAt graph snapshot r policy failure_class (blocked_reason r) target goes).holds d
      (sym route ∙ routed)
  where
    route :
        route_planning_stage_result graph snapshot r counters
        ≡ decision_from_threshold_resolution graph snapshot policy failure_class (blocked_reason r)
    route =
        let is_blocked = (eq_iff (terminal_str r.terminal_result) "BLOCKED").1 blocked in
        let step =
          attempts_exhausted-eq graph snapshot r counters
            GraphLoopCounterName.mechanic_attempt_count Plane.planning policy failure_class attempts
            named found read used in
        rw (is_blocked, step) refl

-- On the execution plane, a blocked stage other than the consultant, whose failure class has used up the
-- attempts of its threshold policy, is not sent to recovery again: the router runs the policy's
-- exhausted target, if it decides.
pub execution-exhausted :
    (graph : FrozenGraphPlanePlan) (snapshot : RuntimeSnapshot) (r : StageResultEnvelope)
    (counters : RecoveryCounters) (policy : CompiledGraphThresholdPolicyPlan)
    (failure_class target : String) (attempts : ℕ) (d : RouterDecision)
    → terminal_str r.terminal_result ≡ "BLOCKED"
    → r.stage_kind_id ≢ "consultant"
    → resolve_failure_class snapshot r (blocked_reason r) ≡ ok failure_class
    → threshold_policy_for_source graph r.node_id
        (terminal_str r.terminal_result)
        GraphLoopCounterName.troubleshoot_attempt_count
      ≡ some policy
    → counter_attempts snapshot counters failure_class Plane.execution ≡ ok attempts
    → policy.threshold ≤ attempts
    → policy.exhausted_target_node_id ≡ some target
    → route_execution_stage_result graph snapshot r counters ≡ ok d
    → RunsAt target d
unfolding route_execution_stage_result fix_cycles_exhausted
execution-exhausted graph snapshot r counters policy failure_class target attempts d blocked other
      named found read used goes routed =
    (threshold-RunsAt graph snapshot r policy failure_class (blocked_reason r) target goes).holds d
      (sym route ∙ routed)
  where
    not_consultant : (r.stage_kind_id == "consultant") ≡ false
    not_consultant = elim (Bool-cases (r.stage_kind_id == "consultant")) [
      | inl e ↦ absurd (other ((eq_iff r.stage_kind_id "consultant").0 e))
      | inr e ↦ e
    ]

    not_fix : (terminal_str r.terminal_result == "FIX_NEEDED") ≡ false
    not_fix = rw blocked refl

    route :
        route_execution_stage_result graph snapshot r counters
        ≡ decision_from_threshold_resolution graph snapshot policy failure_class (blocked_reason r)
    route =
        let is_blocked = (eq_iff (terminal_str r.terminal_result) "BLOCKED").1 blocked in
        let step =
          attempts_exhausted-eq graph snapshot r counters
            GraphLoopCounterName.troubleshoot_attempt_count Plane.execution policy failure_class
            attempts named found read used in
        rw (not_fix, is_blocked, not_consultant, step) refl
