-- ===== src/Runtime/Router/RoutesSound.antt =====
-- Every route of the three planes ends in a decision that the applying code can rely on.
use millrace_rs.Base.{
  String, eq_iff, ◌≡◌, refl, inl, inr, true, Bool-cases, leb, &&-left, &&-right, Option, none, some,
  Option-cases, ok, Result-cases,
}
use millrace_rs.Contracts.Enums.{Plane}
use millrace_rs.Contracts.Validation.{terminal_str}
use millrace_rs.Runtime.State.{RuntimeSnapshot, RecoveryCounters, StageResultEnvelope}
use millrace_rs.Runtime.Plan.{
  TickResult, FrozenGraphPlanePlan, CompiledRunPlan, GraphLoopCounterName, graph_for_plane,
  threshold_policy_for_source, resume_policy_for_source,
}
use millrace_rs.Runtime.FailureClass.{resolve_failure_class}
use millrace_rs.Runtime.Router.Counters.{counter_attempts}
use millrace_rs.Runtime.Router.Guard.{validate_stage_result_matches_snapshot}
use millrace_rs.Runtime.Router.Decision.{RouterDecision, idle_decision, blocked_decision}
use millrace_rs.Runtime.Router.Planes.{
  handoff_decision, attempts_exhausted, resumed, target_decision, execution_terminal,
  planning_terminal, route_execution_stage_result, route_planning_stage_result,
  route_learning_stage_result, route_on, route_stage_result_from_graph, along, is_pair,
  blocked_reason,
}
use millrace_rs.Runtime.Router.Sound.{
  Ensures-ok, Ensures-err, EnsuresReturn-none, EnsuresReturn-some, EnsuresReturn-if, IsSound,
  Ensures, Ensures-bind, Ensures-if, EnsuresReturn, or_go_on-IsSound, blocked_decision-IsSound,
  idle_decision-IsSound, handoff_decision-IsSound, resume-IsSound, threshold-IsSound,
  fix_cycles-IsSound, run_stage_decision-IsSound,
}

is_pair-eq :
    (r : StageResultEnvelope) (stage outcome : String)
    → is_pair r stage outcome ≡ true
    → (r.stage_kind_id ≡ stage) × (terminal_str r.terminal_result ≡ outcome)
is_pair-eq r stage outcome h = (
  (eq_iff r.stage_kind_id stage).0 (&&-left _ _ h),
  (eq_iff (terminal_str r.terminal_result) outcome).0 (&&-right _ _ h),
)

module _ (graph : FrozenGraphPlanePlan) (r : StageResultEnvelope) (snapshot : RuntimeSnapshot) where
  nothing : EnsuresReturn (IsSound graph r) none
  nothing = EnsuresReturn-none (IsSound graph r)

  attempts-IsSound :
      (counters : RecoveryCounters) (name : GraphLoopCounterName) (plane : Plane)
      → EnsuresReturn (IsSound graph r) (attempts_exhausted graph snapshot r counters name plane)
  unfolding attempts_exhausted
  attempts-IsSound counters name plane =
      elim (Result-cases (resolve_failure_class snapshot r (blocked_reason r))) [
        | inr (c, e) ↦
            rw (e, attempts_exhausted)
              (EnsuresReturn-some (IsSound graph r) _ (Ensures-err (IsSound graph r) c))
        | inl (failure_class, e) ↦
            rw (e, attempts_exhausted)
              (elim (Option-cases (
                threshold_policy_for_source graph r.node_id (terminal_str r.terminal_result)
                  name)) [
                    | inl o ↦ rw o nothing
                    | inr (policy, o) ↦
                        rw o
                          (elim (Result-cases
                            (counter_attempts snapshot counters failure_class plane)) [
                              | inr (c, a) ↦ rw a (
                                  EnsuresReturn-some (IsSound graph r) _
                                    (Ensures-err (IsSound graph r) c))
                              | inl (attempts, a) ↦
                                  rw a (elim (Bool-cases (leb policy.threshold attempts)) [
                                    | inr b ↦ rw b nothing
                                    | inl b ↦ rw b (
                                        EnsuresReturn-some (IsSound graph r) _ (
                                          threshold-IsSound graph r snapshot policy failure_class
                                            (blocked_reason r)))
                                  ])
                            ])
                  ])
      ]

  resumed-IsSound : EnsuresReturn (IsSound graph r) (resumed graph r)
  unfolding resumed
  resumed-IsSound =
      elim (Option-cases
        (resume_policy_for_source graph r.node_id (terminal_str r.terminal_result))) [
          | inl o ↦ rw (o, resumed) nothing
          | inr (policy, o) ↦
              rw (o, resumed)
                (EnsuresReturn-some (IsSound graph r) _
                  (resume-IsSound graph r r.stage_kind_id policy))
        ]

  target-IsSound :
      (target : String) → Ensures (IsSound graph r) (target_decision graph snapshot r target)
  unfolding target_decision
  target-IsSound target = search (Ensures-if, Ensures-bind, run_stage_decision-IsSound) depth 8

  ok_idle : (reason : String) → Ensures (IsSound graph r) (ok (idle_decision reason))
  ok_idle reason = Ensures-ok (IsSound graph r) (idle_decision-IsSound graph r reason)

  ok_blocked :
      (reason : String) (failure_class counter_key : Option String)
      → Ensures (IsSound graph r) (ok (blocked_decision reason failure_class counter_key))
  ok_blocked reason failure_class counter_key =
      Ensures-ok (IsSound graph r)
        (blocked_decision-IsSound graph r reason failure_class counter_key)

  ok_consultant :
      (reason : String) (failure_class : Option String)
      → r.plane ≡ Plane.execution
      → is_pair r "consultant" "NEEDS_PLANNING" ≡ true
      → Ensures (IsSound graph r) (ok (handoff_decision reason failure_class))
  ok_consultant reason failure_class on h =
      let (stage, outcome) = is_pair-eq r "consultant" "NEEDS_PLANNING" h in
      Ensures-ok (IsSound graph r)
        (handoff_decision-IsSound graph r reason failure_class (inl (on, stage, outcome)))

  ok_arbiter :
      (reason : String) (failure_class : Option String)
      → r.plane ≡ Plane.planning
      → is_pair r "arbiter" "REMEDIATION_NEEDED" ≡ true
      → Ensures (IsSound graph r) (ok (handoff_decision reason failure_class))
  ok_arbiter reason failure_class on h =
      let (stage, outcome) = is_pair-eq r "arbiter" "REMEDIATION_NEEDED" h in
      Ensures-ok (IsSound graph r)
        (handoff_decision-IsSound graph r reason failure_class (inr (on, stage, outcome)))

  execution_terminal-IsSound :
      r.plane ≡ Plane.execution → Ensures (IsSound graph r) (execution_terminal snapshot r)
  unfolding execution_terminal
  execution_terminal-IsSound on =
      search (Ensures-if, Ensures-err, ok_idle, ok_blocked, ok_consultant) depth 8

  planning_terminal-IsSound :
      r.plane ≡ Plane.planning → Ensures (IsSound graph r) (planning_terminal snapshot r)
  unfolding planning_terminal
  planning_terminal-IsSound on =
      search (Ensures-if, Ensures-err, ok_idle, ok_blocked, ok_arbiter) depth 16

  along-IsSound :
      (target : Option String) (go : String → TickResult RouterDecision)
      (terminal : TickResult RouterDecision)
      → ((id : String) → Ensures (IsSound graph r) (go id))
      → Ensures (IsSound graph r) terminal
      → Ensures (IsSound graph r) (along target go terminal)
  along-IsSound (some id) go terminal hg ht = hg id
  along-IsSound none go terminal hg ht = ht

  execution-IsSound :
      (counters : RecoveryCounters)
      → r.plane ≡ Plane.execution
      → Ensures (IsSound graph r) (route_execution_stage_result graph snapshot r counters)
  unfolding route_execution_stage_result
  execution-IsSound counters on =
      search
        (
          or_go_on-IsSound, fix_cycles-IsSound, EnsuresReturn-if, attempts-IsSound, resumed-IsSound,
          Ensures-bind, along-IsSound, Ensures-if, run_stage_decision-IsSound, target-IsSound,
          execution_terminal-IsSound,
        )
        depth 12

  planning-IsSound :
      (counters : RecoveryCounters)
      → r.plane ≡ Plane.planning
      → Ensures (IsSound graph r) (route_planning_stage_result graph snapshot r counters)
  unfolding route_planning_stage_result
  planning-IsSound counters on =
      search
        (
          or_go_on-IsSound, EnsuresReturn-if, attempts-IsSound, resumed-IsSound, Ensures-bind,
          along-IsSound, target-IsSound, planning_terminal-IsSound,
        )
        depth 12

  learning-IsSound : Ensures (IsSound graph r) (route_learning_stage_result graph r)
  unfolding route_learning_stage_result
  learning-IsSound =
      search
        (Ensures-bind, along-IsSound, Ensures-if, run_stage_decision-IsSound, ok_idle, ok_blocked)
        depth 12

  route_on-IsSound :
      (counters : RecoveryCounters) (plane : Plane)
      → r.plane ≡ plane
      → Ensures (IsSound graph r) (route_on plane graph snapshot r counters)
  unfolding route_on
  route_on-IsSound counters Plane.execution on = execution-IsSound counters on
  route_on-IsSound counters Plane.planning on = planning-IsSound counters on
  route_on-IsSound counters Plane.learning on = learning-IsSound

-- Every decision of the router is one of three. It runs a stage of the source's graph: the stage's node is
-- declared in that graph, the stage belongs to the graph's plane, and no incident is made. Or it hands
-- off to the auditor with a new incident, and then the source is the consultant that needs planning or the arbiter
-- that needs remediation. Or it ends the run, idle or blocked, with no next stage and no incident.
pub route-IsSound :
    (plan : CompiledRunPlan) (snapshot : RuntimeSnapshot) (r : StageResultEnvelope)
    (counters : RecoveryCounters) (d : RouterDecision)
    → route_stage_result_from_graph plan snapshot r counters ≡ ok d
    → (graph : FrozenGraphPlanePlan) × (graph_for_plane plan r.plane ≡ ok graph) × IsSound graph r d
unfolding route_stage_result_from_graph
route-IsSound plan snapshot r counters d h =
    (Ensures-bind P (validate_stage_result_matches_snapshot snapshot r) _ λ _ _.
        Ensures-bind P (graph_for_plane plan r.plane) _ λ graph found.
          weaken graph found (route_on r.plane graph snapshot r counters)
            (route_on-IsSound graph r snapshot counters r.plane refl)).holds
      d h
  where
    P : RouterDecision → Type 0
    P x =
        (graph : FrozenGraphPlanePlan) × (graph_for_plane plan r.plane ≡ ok graph)
        × IsSound graph r x

    weaken :
        (graph : FrozenGraphPlanePlan)
        → graph_for_plane plan r.plane ≡ ok graph
        → (m : TickResult RouterDecision) → Ensures (IsSound graph r) m
        → Ensures P m
    weaken graph found m s = record { holds = λ x e. (graph, found, s.holds x e) }
