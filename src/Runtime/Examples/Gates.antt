-- ===== src/Runtime/Examples/Gates.antt =====
-- A stage that needs one granted capability and one that an operator has approved.
use millrace_rs.Base.{◌≡◌, refl, true, false, none, some, [], ◌∷◌, any, here, there, ok}
use millrace_rs.Base.Text.{trim, drop_start, drop_end, is_whitespace}
use millrace_rs.Contracts.Enums.{
  CapabilityEnforcementMode, CapabilityEnforcementMode-discrete, CapabilitySupportState,
  CapabilitySupportState-discrete,
}
use millrace_rs.Contracts.Capabilities.{
  ExecutionCapabilityGrant, CapabilitySupportDecision, require_non_empty, validate_string_list,
  validate_support,
}
use millrace_rs.Runtime.Plan.{TickResult}
use millrace_rs.Runtime.Approvals.{ExecutionCapabilityApproval}
use millrace_rs.Runtime.Examples.Approvals.{
  network, deploy, deploy_pending, deploy_approved, approving,
}
use millrace_rs.Runtime.CapabilityGates.{
  CapabilityGateResult, is_approved, push_blocked, required_evidence_missing, failure_class_in,
  failure_class_for_blocks, evidence_is_lacking, support_block, gate_approval, gate_granted,
  gate_by_state, gate_grant, gate_grants, gate_result, evaluate_stage_request_capabilities,
}
use millrace_rs.Runtime.CapabilityGates.Satisfied.{IsSatisfied, allowed-IsSatisfied}
use millrace_rs.Runtime.CapabilityGates.Classes.{Answers, evaluate-Answers}

abbrev approved_by_operator :
    Unit {0} → ExecutionCapabilityGrant → TickResult (ExecutionCapabilityApproval × Unit {0})
approved_by_operator store grant = ok (deploy_approved, store)

abbrev undecided :
    Unit {0} → ExecutionCapabilityGrant → TickResult (ExecutionCapabilityApproval × Unit {0})
undecided store grant = ok (deploy_pending, store)

abbrev runner_support : ExecutionCapabilityGrant → CapabilitySupportDecision
runner_support grant = record {
  runner_id = "runner-1";
  invocation_context_ref = "";
  grant_id = grant.grant_id;
  support_state = CapabilitySupportState.supported;
  enforcement_mode = CapabilityEnforcementMode.runner_enforced;
  limitations = [];
  evidence_available = "proxy_log" ∷ [];
  reason = "supported";
}

abbrev let_through : CapabilityGateResult
let_through = record {
  allowed = true;
  support_decisions = runner_support network ∷ [];
  approval_ids = "approval-1" ∷ [];
  blocked_grant_ids = [];
  blocked_grants = [];
  failure_class = none;
  reason = "all required capability grants satisfied";
}

abbrev held_back : CapabilityGateResult
held_back = record let_through {
  allowed = false;
  blocked_grant_ids = "deploy" ∷ [];
  blocked_grants =
      record {
        grant_id = "deploy";
        failure_class = "capability_approval_required";
        reason = "approval is not resolved as approved";
      }
      ∷ [];
  failure_class = some "capability_approval_required";
  reason = "blocked capability grants: deploy";
}

-- The gate, opened for computation.
gating : Unit {0}
unfolding approving evaluate_stage_request_capabilities gate_result gate_grants gate_grant
    gate_by_state gate_granted gate_approval support_block evidence_is_lacking
    failure_class_for_blocks failure_class_in required_evidence_missing push_blocked is_approved
    validate_support validate_string_list require_non_empty any trim drop_start drop_end
    is_whitespace CapabilityEnforcementMode-discrete CapabilitySupportState-discrete
gating = tt

gate_opens :
    evaluate_stage_request_capabilities approved_by_operator runner_support tt
      (network ∷ deploy ∷ [])
    ≡ ok (let_through, tt)
unfolding gating
gate_opens = refl

gate_closes :
    evaluate_stage_request_capabilities undecided runner_support tt (network ∷ deploy ∷ [])
    ≡ ok (held_back, tt)
unfolding gating
gate_closes = refl

allowed-IsSatisfied_example : IsSatisfied approved_by_operator runner_support tt deploy
allowed-IsSatisfied_example =
    allowed-IsSatisfied approved_by_operator runner_support tt tt (network ∷ deploy ∷ [])
      let_through deploy gate_opens refl (there here)

evaluate-Answers_example : Answers held_back
evaluate-Answers_example =
    evaluate-Answers undecided runner_support tt tt (network ∷ deploy ∷ []) held_back gate_closes
