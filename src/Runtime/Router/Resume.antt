-- ===== src/Runtime/Router/Resume.antt =====
-- runtime/tick.rs: where a recovery stage resumes, and what happens when its attempts are used up.
use millrace_rs.Base.{
  String, ◌==◌, Bool, not, ◌||◌, Option, none, some, List, [], ◌∷◌, any, all, if◌then◌else◌, ok,
  err, ◌>>=◌, ok_or,
}
use millrace_rs.Base.Text.{concat, is_blank, trim, to_ascii_lowercase}
use millrace_rs.Runtime.State.{RuntimeSnapshot, StageResultEnvelope, invalid_state}
use millrace_rs.Runtime.Plan.{
  TickResult, FrozenGraphPlanePlan, CompiledGraphResumePolicyPlan, CompiledGraphThresholdPolicyPlan,
  GraphLoopTerminalClass, terminal_class_str, terminal_state_by_id,
}
use millrace_rs.Runtime.Router.Decision.{RouterDecision, run_stage_decision, blocked_decision}
use millrace_rs.Runtime.Router.Counters.{counter_key_from_snapshot}

-- Whether a stage may ask to be resumed at a node.
unfoldable pub usable_target : FrozenGraphPlanePlan → CompiledGraphResumePolicyPlan → String → Bool
usable_target graph policy normalized = not (
    is_blank normalized
    || any (λ node_id. node_id == normalized) policy.disallowed_target_node_ids
    || all (λ node. not (node.node_id == normalized)) graph.nodes)

-- The loop over the metadata keys: the first usable target that the stage names, or the default.
unfoldable pub target_from_keys :
    FrozenGraphPlanePlan
    → CompiledGraphResumePolicyPlan
    → StageResultEnvelope
    → List String
    → String
target_from_keys graph policy r [] = policy.default_target_node_id
target_from_keys graph policy r (key ∷ keys) =
    let rest = target_from_keys graph policy r keys in
    elim (r.metadata key) [
      | none ↦ rest
      | some candidate ↦
          let normalized = to_ascii_lowercase (trim candidate) in
          if usable_target graph policy normalized then normalized else rest
    ]

unfoldable pub resume_target :
    FrozenGraphPlanePlan → CompiledGraphResumePolicyPlan → StageResultEnvelope → String
unfolding target_from_keys
resume_target graph policy r = target_from_keys graph policy r policy.metadata_stage_keys

unfoldable pub resume_reason : String → TickResult String
resume_reason source_stage =
    if source_stage == "troubleshooter"
    then ok "troubleshoot_complete"
    else if source_stage == "consultant"
    then ok "consultant_local_recovery"
    else if source_stage == "mechanic"
    then ok "mechanic_complete"
    else err (invalid_state (concat "unsupported resume-policy source stage: " source_stage))

unfoldable pub decision_from_resume_policy :
    FrozenGraphPlanePlan
    → String
    → StageResultEnvelope
    → CompiledGraphResumePolicyPlan
    → TickResult RouterDecision
unfolding resume_reason
decision_from_resume_policy graph source_stage r policy = do
  reason ← resume_reason source_stage
  run_stage_decision graph (resume_target graph policy r) reason none none

-- The end of an exhausted policy that names a terminal state.
unfoldable pub blocked_at :
    GraphLoopTerminalClass → String → String → Option String → TickResult RouterDecision
blocked_at GraphLoopTerminalClass.blocked reason failure_class counter_key = ok (
    blocked_decision (concat reason ":mechanic_attempts_exhausted") (some failure_class)
      counter_key)
blocked_at c reason failure_class counter_key =
    err (invalid_state (concat "unsupported threshold terminal class: " (terminal_class_str c)))

unfoldable pub exhausted_at :
    FrozenGraphPlanePlan
    → CompiledGraphThresholdPolicyPlan
    → String
    → String
    → Option String
    → Option String
    → TickResult RouterDecision
unfolding blocked_at
exhausted_at graph policy failure_class reason counter_key (some target_node_id) =
    run_stage_decision graph target_node_id reason (some failure_class) counter_key
exhausted_at graph policy failure_class reason counter_key none = do
  terminal_state_id ←
      ok_or policy.exhausted_terminal_state_id
        (invalid_state "threshold policy is missing exhausted target")
  terminal_state ← terminal_state_by_id graph terminal_state_id
  blocked_at terminal_state.terminal_class reason failure_class counter_key

unfoldable pub decision_from_threshold_resolution :
    FrozenGraphPlanePlan
    → RuntimeSnapshot
    → CompiledGraphThresholdPolicyPlan
    → String
    → String
    → TickResult RouterDecision
unfolding exhausted_at
decision_from_threshold_resolution graph snapshot policy failure_class reason = do
  counter_key ← counter_key_from_snapshot snapshot failure_class
  exhausted_at graph policy failure_class reason counter_key policy.exhausted_target_node_id
