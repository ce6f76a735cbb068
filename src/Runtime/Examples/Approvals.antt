-- ===== src/Runtime/Examples/Approvals.antt =====
-- The deployment of a task waits for an operator, who approves it.
use millrace_rs.Base.{String, ◌≡◌, refl, true, none, some, [], ◌∷◌, find, Result, ok, err}
use millrace_rs.Base.Dict.{lookup, insert, remove}
use millrace_rs.Base.Sort.{sort_by, insert_sorted}
use millrace_rs.Base.Text.{trim, drop_start, drop_end, is_whitespace}
use millrace_rs.Contracts.Enums.{
  Plane, WorkItemKind, CapabilityDecisionState, CapabilityEnforcementMode, CapabilityEvidenceStatus,
}
use millrace_rs.Contracts.Capabilities.{CapabilityContractError, ExecutionCapabilityGrant}
use millrace_rs.Runtime.State.{Timestamp}
use millrace_rs.Runtime.Approvals.{
  ApprovalStorageError, ExecutionCapabilityApprovalStatus, ExecutionCapabilityApproval,
  ExecutionCapabilityApprovalRequest, ApprovalStore, require_value, is_missing, validate_decision,
  validate, pending_approval, list_approvals_in_dir, list_execution_capability_approvals, is_for,
  find_approval_for_grant, store_pending, ensure_found, ensure_execution_capability_approval,
  decide, resolve_approval,
}
use millrace_rs.Runtime.Approvals.Resolved.{resolve_once}
use millrace_rs.Runtime.Approvals.Ensured.{ensure_twice}

abbrev pub network : ExecutionCapabilityGrant
network = record {
  grant_id = "network";
  capability_id = "network.read";
  decision_reason = "needs the registry";
  required = true;
  decision_state = CapabilityDecisionState.granted;
  enforcement_mode = CapabilityEnforcementMode.runner_enforced;
  evidence_requirements = "proxy_log" ∷ [];
  evidence_status = CapabilityEvidenceStatus.pending;
}

abbrev pub deploy : ExecutionCapabilityGrant
deploy = record network {
  grant_id = "deploy";
  decision_state = CapabilityDecisionState.approval_required;
}

abbrev deploy_request : ExecutionCapabilityApprovalRequest
deploy_request = record {
  request_id = "request-1";
  run_id = "run-1";
  plane = Plane.execution;
  node_id = "builder";
  stage_kind_id = "builder";
  work_item_kind = some WorkItemKind.task;
  work_item_id = some "task-1";
  grant = deploy;
  now = "2026-01-01T00:00:00Z";
  requested_by = "runtime";
}

abbrev pub deploy_pending : ExecutionCapabilityApproval
deploy_pending = pending_approval deploy_request "approval-1" "workspace" none

abbrev pub deploy_approved : ExecutionCapabilityApproval
deploy_approved = record {
  schema_version = "1.0";
  kind = "execution_capability_approval";
  approval_id = "approval-1";
  status = ExecutionCapabilityApprovalStatus.approved;
  workspace_id = "workspace";
  run_id = "run-1";
  request_id = "request-1";
  work_item_kind = some WorkItemKind.task;
  work_item_id = some "task-1";
  plane = Plane.execution;
  node_id = "builder";
  stage_kind_id = "builder";
  grant_id = "deploy";
  capability_id = "network.read";
  reason = "needs the registry";
  requested_by = "runtime";
  decided_by = some "operator";
  created_at = "2026-01-01T00:00:00Z";
  decided_at = some "2026-01-01T01:00:00Z";
  expires_at = none;
  decision_reason = some "looks right";
  grant = deploy;
}

abbrev any_grant : ExecutionCapabilityGrant → Result CapabilityContractError (Unit {0})
any_grant grant = ok tt

abbrev no_approvals : ApprovalStore
no_approvals = record { pending_dir = []; resolved_dir = [] }

abbrev one_pending : ApprovalStore
one_pending = record { pending_dir = ("approval-1", deploy_pending) ∷ []; resolved_dir = [] }

abbrev one_resolved : ApprovalStore
one_resolved = record { pending_dir = []; resolved_dir = ("approval-1", deploy_approved) ∷ [] }

-- The store of approvals, opened for computation.
unfoldable pub approving : Unit {0}
unfolding ensure_execution_capability_approval ensure_found store_pending find_approval_for_grant
    is_for list_execution_capability_approvals list_approvals_in_dir validate validate_decision
    is_missing require_value pending_approval resolve_approval decide find lookup insert remove
    sort_by insert_sorted trim drop_start drop_end is_whitespace
approving = tt

deploy_ensured :
    ensure_execution_capability_approval any_grant no_approvals deploy_request "approval-1"
      "workspace"
      (ok none)
    ≡ ok (deploy_pending, one_pending)
unfolding approving
deploy_ensured = refl

deploy_resolved :
    resolve_approval any_grant one_pending "approval-1" ExecutionCapabilityApprovalStatus.approved
      "operator" "looks right" "2026-01-01T01:00:00Z"
    ≡ ok (deploy_approved, one_resolved)
unfolding approving
deploy_resolved = refl

ensure_twice_example :
    (again : ExecutionCapabilityApproval) × (ensure_execution_capability_approval any_grant
        one_pending deploy_request "approval-2" "workspace"
        (ok none)
      ≡ ok (again, one_pending))
ensure_twice_example =
    ensure_twice any_grant no_approvals one_pending deploy_request "approval-1" "workspace"
      (ok none) deploy_pending "approval-2" (ok none) deploy_ensured

resolve_once_example :
    (deploy_approved.status ≡ ExecutionCapabilityApprovalStatus.approved)
    × (lookup "approval-1" one_resolved.resolved_dir ≡ some deploy_approved)
    × (lookup "approval-1" one_resolved.pending_dir ≡ none)
    × ((again : ExecutionCapabilityApprovalStatus) (by why : String) (later : Timestamp)
        → (e : ApprovalStorageError) × (resolve_approval any_grant one_resolved "approval-1" again
              by why later
            ≡ err e))
resolve_once_example =
    resolve_once any_grant one_pending one_resolved "approval-1" "operator" "looks right"
      ExecutionCapabilityApprovalStatus.approved "2026-01-01T01:00:00Z" deploy_approved
      deploy_resolved
