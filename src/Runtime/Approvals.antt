-- ===== src/Runtime/Approvals.antt =====
-- runtime/approvals.rs: the approvals of execution capabilities that operators give. A directory of approvals
-- is a table from the id that names the file to the record that it holds as JSON. The identifier of a new
-- approval, which is a hash, the time at which it expires, and the contract of grants are parameters.
pub mod Resolved
pub mod Ensured
use millrace_rs.Base.{
  String, ◌==◌, Bool, true, false, not, ◌&&◌, ◌||◌, Option, none, some, List, [], ◌∷◌, ◌++◌, find,
  if◌then◌else◌, Result, ok, err, map_err, ok_or, ◌>>=◌,
}
use millrace_rs.Base.Text.{concat, trim, is_blank}
use millrace_rs.Base.Dict.{lookup, insert, remove}
use millrace_rs.Base.Sort.{sort_by}
use millrace_rs.Contracts.Enums.{Plane, WorkItemKind}
use millrace_rs.Contracts.Capabilities.{CapabilityContractError, ExecutionCapabilityGrant}
use millrace_rs.Runtime.State.{Timestamp}

pub data ApprovalStorageError : Type 0 where
  invalid : String → ApprovalStorageError
  not_found : String → ApprovalStorageError
  time : String → String → ApprovalStorageError

pub data ExecutionCapabilityApprovalStatus : Type 0 where
  pending approved denied expired cancelled : ExecutionCapabilityApprovalStatus

pub record ExecutionCapabilityApproval : Type 0 where
  pub schema_version : String
  pub kind : String
  pub approval_id : String
  pub status : ExecutionCapabilityApprovalStatus
  pub workspace_id : String
  pub run_id : String
  pub request_id : String
  pub work_item_kind : Option WorkItemKind
  pub work_item_id : Option String
  pub plane : Plane
  pub node_id : String
  pub stage_kind_id : String
  pub grant_id : String
  pub capability_id : String
  pub reason : String
  pub requested_by : String
  pub decided_by : Option String
  pub created_at : Timestamp
  pub decided_at : Option Timestamp
  pub expires_at : Option Timestamp
  pub decision_reason : Option String
  pub grant : ExecutionCapabilityGrant

abbrev pub ApprovalStorageResult : Type 0 → Type 0
ApprovalStorageResult A = Result ApprovalStorageError A

unfoldable pub require_value : String → String → ApprovalStorageResult (Unit {0})
require_value field_name value =
    if is_blank (trim value) then err (invalid (concat field_name " is required")) else ok tt

-- `is_none_or(|value| value.trim().is_empty())`
unfoldable pub is_missing : Option String → Bool
is_missing none = true
is_missing (some value) = is_blank (trim value)

abbrev is_decided : ExecutionCapabilityApprovalStatus → Bool
is_decided ExecutionCapabilityApprovalStatus.approved = true
is_decided ExecutionCapabilityApprovalStatus.denied = true
is_decided _ = false

abbrev has_time : Option Timestamp → Bool
has_time none = false
has_time (some moment) = true

check : Bool → String → ApprovalStorageResult (Unit {0})
check true message = ok tt
check false message = err (invalid message)

-- The checks on approvals that an operator has decided.
unfoldable pub validate_decision : ExecutionCapabilityApproval → ApprovalStorageResult (Unit {0})
unfolding check
validate_decision approval =
    if is_decided approval.status
    then (do
      _ ← check (not (is_missing approval.decided_by)) "resolved approvals require decided_by"
      _ ← check (has_time approval.decided_at) "resolved approvals require decided_at"
      check (not (is_missing approval.decision_reason))
          "resolved approvals require decision_reason")
    else ok tt

unfoldable pub validate :
    (ExecutionCapabilityGrant → Result CapabilityContractError (Unit {0}))
    → ExecutionCapabilityApproval
    → ApprovalStorageResult (Unit {0})
unfolding check
validate validate_grant approval = do
  _ ← require_value "schema_version" approval.schema_version
  _ ← require_value "kind" approval.kind
  _ ←
      check (approval.schema_version == "1.0")
        "execution capability approval schema_version must be 1.0"
  _ ←
      check (approval.kind == "execution_capability_approval")
        "execution capability approval kind must be execution_capability_approval"
  _ ← require_value "approval_id" approval.approval_id
  _ ← require_value "workspace_id" approval.workspace_id
  _ ← require_value "run_id" approval.run_id
  _ ← require_value "request_id" approval.request_id
  _ ← require_value "node_id" approval.node_id
  _ ← require_value "stage_kind_id" approval.stage_kind_id
  _ ← require_value "grant_id" approval.grant_id
  _ ← require_value "capability_id" approval.capability_id
  _ ← require_value "reason" approval.reason
  _ ← require_value "requested_by" approval.requested_by
  _ ← validate_decision approval
  _ ←
      map_err (λ (error : CapabilityContractError). invalid error.message)
        (validate_grant approval.grant)
  check
      (approval.grant_id == approval.grant.grant_id
        && approval.capability_id == approval.grant.capability_id)
      "approval grant identity must match embedded grant"

-- The two directories of approvals.
pub record ApprovalStore : Type 0 where
  pub pending_dir : List (String × ExecutionCapabilityApproval)
  pub resolved_dir : List (String × ExecutionCapabilityApproval)

pub record ExecutionCapabilityApprovalRequest : Type 0 where
  pub request_id : String
  pub run_id : String
  pub plane : Plane
  pub node_id : String
  pub stage_kind_id : String
  pub work_item_kind : Option WorkItemKind
  pub work_item_id : Option String
  pub grant : ExecutionCapabilityGrant
  pub now : Timestamp
  pub requested_by : String

-- The record that `ensure_execution_capability_approval` makes.
unfoldable pub pending_approval :
    ExecutionCapabilityApprovalRequest
    → String
    → String
    → Option Timestamp
    → ExecutionCapabilityApproval
pending_approval request approval_id workspace_id expires_at = record {
  schema_version = "1.0";
  kind = "execution_capability_approval";
  approval_id = approval_id;
  status = ExecutionCapabilityApprovalStatus.pending;
  workspace_id = workspace_id;
  run_id = request.run_id;
  request_id = request.request_id;
  work_item_kind = request.work_item_kind;
  work_item_id = request.work_item_id;
  plane = request.plane;
  node_id = request.node_id;
  stage_kind_id = request.stage_kind_id;
  grant_id = request.grant.grant_id;
  capability_id = request.grant.capability_id;
  reason = request.grant.decision_reason;
  requested_by = request.requested_by;
  decided_by = none;
  created_at = request.now;
  decided_at = none;
  expires_at = expires_at;
  decision_reason = none;
  grant = request.grant;
}

module _
    (validate_grant : ExecutionCapabilityGrant → Result CapabilityContractError (Unit {0})) where
  unfoldable pub list_approvals_in_dir :
      List (String × ExecutionCapabilityApproval)
      → ApprovalStorageResult (List ExecutionCapabilityApproval)
  list_approvals_in_dir [] = ok []
  list_approvals_in_dir ((approval_id, approval) ∷ files) = do
    _ ← validate validate_grant approval
    approvals ← list_approvals_in_dir files
    ok (approval ∷ approvals)

  abbrev pub by_id : List ExecutionCapabilityApproval → List ExecutionCapabilityApproval
  by_id approvals =
      sort_by (λ (approval : ExecutionCapabilityApproval). approval.approval_id) approvals

  -- The listing, pending approvals first.
  unfoldable pub list_execution_capability_approvals :
      ApprovalStore → ApprovalStorageResult (List ExecutionCapabilityApproval)
  list_execution_capability_approvals store = do
    waiting ← list_approvals_in_dir store.pending_dir
    resolved ← list_approvals_in_dir store.resolved_dir
    ok (by_id waiting ++ by_id resolved)

  unfoldable pub is_for : String → String → String → ExecutionCapabilityApproval → Bool
  is_for run_id request_id grant_id approval =
      approval.run_id == run_id
      && approval.request_id == request_id
      && approval.grant_id == grant_id

  unfoldable pub find_approval_for_grant :
      ApprovalStore
      → String
      → String
      → String
      → ApprovalStorageResult (Option ExecutionCapabilityApproval)
  find_approval_for_grant store run_id request_id grant_id = do
    approvals ← list_execution_capability_approvals store
    ok (find (is_for run_id request_id grant_id) approvals)

  -- The last steps of `ensure_execution_capability_approval`, on the new record.
  unfoldable pub store_pending :
      ApprovalStore
      → ExecutionCapabilityApproval
      → ApprovalStorageResult (ExecutionCapabilityApproval × ApprovalStore)
  store_pending store approval = do
    _ ← validate validate_grant approval
    ok (
      approval,
      record store { pending_dir = insert approval.approval_id approval store.pending_dir },
    )

  unfoldable pub ensure_found :
      ApprovalStore
      → ApprovalStorageResult ExecutionCapabilityApproval
      → Option ExecutionCapabilityApproval
      → ApprovalStorageResult (ExecutionCapabilityApproval × ApprovalStore)
  ensure_found store fresh (some existing) = ok (existing, store)
  ensure_found store fresh none = fresh >>= store_pending store

  unfoldable pub ensure_execution_capability_approval :
      ApprovalStore
      → ExecutionCapabilityApprovalRequest
      → String
      → String
      → ApprovalStorageResult (Option Timestamp)
      → ApprovalStorageResult (ExecutionCapabilityApproval × ApprovalStore)
  ensure_execution_capability_approval store request approval_id workspace_id expires_at =
      find_approval_for_grant store request.run_id request.request_id request.grant.grant_id
      >>= ensure_found store
          (expires_at >>= λ expiry. ok (pending_approval request approval_id workspace_id expiry))

  unfoldable pub decide :
      ExecutionCapabilityApprovalStatus
      → String
      → String
      → Timestamp
      → ExecutionCapabilityApproval
      → ExecutionCapabilityApproval
  decide status decided_by reason now approval = record approval {
    status = status;
    decided_by = some (trim decided_by);
    decided_at = some now;
    decision_reason = some (trim reason);
  }

  unfoldable pub resolve_approval :
      ApprovalStore
      → String
      → ExecutionCapabilityApprovalStatus
      → String
      → String
      → Timestamp
      → ApprovalStorageResult (ExecutionCapabilityApproval × ApprovalStore)
  resolve_approval store approval_id status decided_by reason now = do
    _ ← require_value "approval_id" approval_id
    _ ← require_value "decided_by" decided_by
    _ ← require_value "reason" reason
    approval ← ok_or (lookup approval_id store.pending_dir) (not_found approval_id)
    _ ← validate validate_grant approval
    _ ← validate validate_grant (decide status decided_by reason now approval)
    let decided = decide status decided_by reason now approval
    ok (
      decided,
      record {
        pending_dir = remove approval_id store.pending_dir;
        resolved_dir = insert approval_id decided store.resolved_dir;
      },
    )
