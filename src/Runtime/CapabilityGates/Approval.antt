-- ===== src/Runtime/CapabilityGates/Approval.antt =====
-- runtime/capability_gates.rs: the approval of a grant for the request of a stage.
use millrace_rs.Base.{String, Option, none, some, Result, ok, map_err, ◌>>=◌}
use millrace_rs.Contracts.Capabilities.{CapabilityContractError, ExecutionCapabilityGrant}
use millrace_rs.Runtime.State.{Timestamp, invalid_state}
use millrace_rs.Runtime.Plan.{TickResult}
use millrace_rs.Runtime.Approvals.{
  ApprovalStorageError, ApprovalStorageResult, ExecutionCapabilityApproval,
  ExecutionCapabilityApprovalRequest, ApprovalStore, find_approval_for_grant,
  ensure_execution_capability_approval,
}

-- The approval of a grant in the stores of approvals: the one that is found, or a new one. `ask` makes the
-- request of the stage for the grant, and `approval_id` and `expires_at` are those of a new record.
module _ (validate_grant : ExecutionCapabilityGrant → Result CapabilityContractError (Unit {0}))
    (ask : ExecutionCapabilityGrant → ExecutionCapabilityApprovalRequest)
    (approval_id : ExecutionCapabilityGrant → String) (workspace_id : String)
    (expires_at : ExecutionCapabilityGrant → ApprovalStorageResult (Option Timestamp))
    (message_of : ApprovalStorageError → String) where
  approval_or_new :
      ApprovalStore
      → ExecutionCapabilityGrant
      → Option ExecutionCapabilityApproval
      → ApprovalStorageResult (ExecutionCapabilityApproval × ApprovalStore)
  approval_or_new store grant (some existing) = ok (existing, store)
  approval_or_new store grant none =
      ensure_execution_capability_approval validate_grant store (ask grant) (approval_id grant)
        workspace_id (expires_at grant)

  unfoldable pub approval_for_request :
      ApprovalStore
      → ExecutionCapabilityGrant
      → TickResult (ExecutionCapabilityApproval × ApprovalStore)
  unfolding approval_or_new
  approval_for_request store grant =
      map_err (λ error. invalid_state (message_of error))
        (find_approval_for_grant validate_grant store (ask grant).run_id (ask grant).request_id
            grant.grant_id
          >>= approval_or_new store grant)
