-- ===== src/Runtime/CapabilityGates.antt =====
-- runtime/capability_gates.rs: whether a stage may start with the capabilities it is granted. The approval of
-- a grant, which `approval_for_request` finds or creates in the store of approvals, is a parameter, and so
-- is the runner's evaluation of a grant.
pub mod Approval
pub mod Supports
pub mod Satisfied
pub mod Classes
use millrace_rs.Base.{
  String, ◌==◌, Bool, true, false, not, ◌&&◌, Option, none, some, List, [], ◌∷◌, ◌++◌, map, any,
  is_empty, test, if◌then◌else◌, Result, ok, err, map_err, ◌>>=◌,
}
use millrace_rs.Base.Text.{concat}
use millrace_rs.Contracts.Enums.{
  CapabilityDecisionState, CapabilityEnforcementMode, CapabilityEnforcementMode-discrete,
  CapabilityEvidenceStatus, CapabilitySupportState, CapabilitySupportState-discrete,
}
use millrace_rs.Contracts.Capabilities.{
  CapabilityContractError, ExecutionCapabilityGrant, CapabilitySupportDecision, validate_support,
}
use millrace_rs.Runtime.State.{Timestamp, invalid_state}
use millrace_rs.Runtime.Plan.{TickResult}
use millrace_rs.Runtime.Approvals.{
  ApprovalStorageError, ApprovalStorageResult, ExecutionCapabilityApprovalStatus,
  ExecutionCapabilityApproval, ExecutionCapabilityApprovalRequest, ApprovalStore,
  find_approval_for_grant, ensure_execution_capability_approval,
}

unfoldable pub is_approved : ExecutionCapabilityApprovalStatus → Bool
is_approved ExecutionCapabilityApprovalStatus.approved = true
is_approved _ = false

pub record CapabilityGateBlockedGrant : Type 0 where
  pub grant_id : String
  pub failure_class : String
  pub reason : String

unfoldable pub push_blocked :
    List CapabilityGateBlockedGrant
    → ExecutionCapabilityGrant
    → String
    → String
    → List CapabilityGateBlockedGrant
push_blocked blocked_grants grant failure_class reason =
    if any (λ (blocked : CapabilityGateBlockedGrant). blocked.grant_id == grant.grant_id)
      blocked_grants
    then blocked_grants
    else blocked_grants
      ++ record { grant_id = grant.grant_id; failure_class = failure_class; reason = reason } ∷ []

unfoldable pub required_evidence_missing :
    ExecutionCapabilityGrant → CapabilitySupportDecision → Bool
required_evidence_missing grant support =
    any
      (λ requirement. not (any (λ available. available == requirement) support.evidence_available))
      grant.evidence_requirements

unfoldable pub failure_class_in : List String → List CapabilityGateBlockedGrant → Option String
failure_class_in [] blocked_grants = none
failure_class_in (failure_class ∷ classes) blocked_grants =
    let rest = failure_class_in classes blocked_grants in
    if any (λ (blocked : CapabilityGateBlockedGrant). blocked.failure_class == failure_class)
      blocked_grants
    then some failure_class
    else rest

abbrev pub failure_classes : List String
failure_classes =
    "capability_grant_denied" ∷ "capability_approval_required" ∷ "capability_grant_unsupported"
    ∷ "capability_evidence_missing" ∷ []

unfoldable pub failure_class_for_blocks : List CapabilityGateBlockedGrant → Option String
failure_class_for_blocks blocked_grants = failure_class_in failure_classes blocked_grants

unfoldable pub evidence_is_lacking : CapabilityEvidenceStatus → Bool
evidence_is_lacking CapabilityEvidenceStatus.missing = true
evidence_is_lacking CapabilityEvidenceStatus.violated = true
evidence_is_lacking _ = false

abbrev pub is_advisory : CapabilityEnforcementMode → Bool
is_advisory mode =
    test (CapabilityEnforcementMode-discrete mode CapabilityEnforcementMode.advisory_only)

-- The failure class and the reason for which a runner's support blocks a grant.
unfoldable pub support_block :
    ExecutionCapabilityGrant → CapabilitySupportDecision → Option (String × String)
support_block grant support =
    if test
      (CapabilitySupportState-discrete support.support_state CapabilitySupportState.unsupported)
    then some ("capability_grant_unsupported", "runner reported unsupported capability grant")
    else if not (is_advisory grant.enforcement_mode) && is_advisory support.enforcement_mode
    then some (
      "capability_grant_unsupported", "runner could not provide required non-advisory enforcement",
    )
    else if required_evidence_missing grant support
    then some
        ("capability_evidence_missing", "runner support is missing required capability evidence")
    else none

abbrev pub push_optional :
    List CapabilityGateBlockedGrant
    → ExecutionCapabilityGrant
    → Option (String × String)
    → List CapabilityGateBlockedGrant
push_optional blocked_grants grant none = blocked_grants
push_optional blocked_grants grant (some (failure_class, reason)) =
    push_blocked blocked_grants grant failure_class reason

-- The variables of the loop, with the store of approvals.
pub record Gate (Store : Type 0) : Type 0 where
  pub store : Store
  pub support_decisions : List CapabilitySupportDecision
  pub approval_ids : List String
  pub blocked_grants : List CapabilityGateBlockedGrant

-- The request with its support decisions is left out: it is passed on as it is.
pub record CapabilityGateResult : Type 0 where
  pub allowed : Bool
  pub support_decisions : List CapabilitySupportDecision
  pub approval_ids : List String
  pub blocked_grant_ids : List String
  pub blocked_grants : List CapabilityGateBlockedGrant
  pub failure_class : Option String
  pub reason : String

join_ids : List String → String
join_ids [] = ""
join_ids (id ∷ []) = id
join_ids (id ∷ other ∷ ids) = concat id (concat ", " (join_ids (other ∷ ids)))

-- What `evaluate_stage_request_capabilities` returns after the loop.
unfoldable pub gate_result : {Store : Type 0} → Gate Store → CapabilityGateResult
unfolding join_ids
gate_result gate =
    let blocked_grant_ids =
      map (λ (blocked : CapabilityGateBlockedGrant). blocked.grant_id) gate.blocked_grants in
    record {
      allowed = is_empty gate.blocked_grants;
      support_decisions = gate.support_decisions;
      approval_ids = gate.approval_ids;
      blocked_grant_ids = blocked_grant_ids;
      blocked_grants = gate.blocked_grants;
      failure_class = failure_class_for_blocks gate.blocked_grants;
      reason =
          if is_empty gate.blocked_grants
          then "all required capability grants satisfied"
          else concat "blocked capability grants: " (join_ids blocked_grant_ids);
    }

module _ {Store : Type 0}
    (approval_for_request : Store
      → ExecutionCapabilityGrant
      → TickResult (ExecutionCapabilityApproval × Store))
    (support_evaluator : ExecutionCapabilityGrant → CapabilitySupportDecision) where
  abbrev block : Gate Store → ExecutionCapabilityGrant → String → String → Gate Store
  block gate grant failure_class reason = record gate {
    blocked_grants = push_blocked gate.blocked_grants grant failure_class reason;
  }

  unfoldable pub gate_approval : Gate Store → ExecutionCapabilityGrant → TickResult (Gate Store)
  gate_approval gate grant = do
    (approval, store) ← approval_for_request gate.store grant
    ok (record gate {
      store = store;
      approval_ids = gate.approval_ids ++ approval.approval_id ∷ [];
      blocked_grants =
          if is_approved approval.status
          then gate.blocked_grants
          else push_blocked gate.blocked_grants grant "capability_approval_required"
              "approval is not resolved as approved";
    })

  unfoldable pub gate_granted : Gate Store → ExecutionCapabilityGrant → TickResult (Gate Store)
  gate_granted gate grant =
      if evidence_is_lacking grant.evidence_status
      then ok (
          block gate grant "capability_evidence_missing"
            "grant evidence status is missing or violated")
      else let support = support_evaluator grant in
        (map_err
            (λ (error : CapabilityContractError).
              invalid_state
                (concat "capability support decision failed validation: " error.message))
            (validate_support support)
          >>= λ _. ok (record gate {
            support_decisions = gate.support_decisions ++ support ∷ [];
            blocked_grants = push_optional gate.blocked_grants grant (support_block grant support);
          }))

  unfoldable pub gate_by_state :
      CapabilityDecisionState → Gate Store → ExecutionCapabilityGrant → TickResult (Gate Store)
  gate_by_state CapabilityDecisionState.denied gate grant =
      ok (block gate grant "capability_grant_denied" "grant decision denied")
  gate_by_state CapabilityDecisionState.unsupported gate grant =
      ok (block gate grant "capability_grant_unsupported" "grant decision unsupported")
  gate_by_state CapabilityDecisionState.approval_required gate grant = gate_approval gate grant
  gate_by_state CapabilityDecisionState.granted gate grant = gate_granted gate grant

  -- One round of the loop.
  unfoldable pub gate_grant : Gate Store → ExecutionCapabilityGrant → TickResult (Gate Store)
  gate_grant gate grant =
      if not grant.required then ok gate else gate_by_state grant.decision_state gate grant

  unfoldable pub gate_grants : Gate Store → List ExecutionCapabilityGrant → TickResult (Gate Store)
  gate_grants gate [] = ok gate
  gate_grants gate (grant ∷ grants) = gate_grant gate grant >>= λ gate'. gate_grants gate' grants

  unfoldable pub evaluate_stage_request_capabilities :
      Store → List ExecutionCapabilityGrant → TickResult (CapabilityGateResult × Store)
  evaluate_stage_request_capabilities store grants = do
    gate ←
        gate_grants
          (record { store = store; support_decisions = []; approval_ids = []; blocked_grants = [] })
          grants
    ok (gate_result gate, gate.store)
