-- ===== src/Contracts/PlanningTerminalResult.antt =====
-- contracts/enums.rs: the terminal results of the planning plane, as texts (`string_enum!`).
use millrace_rs.Base.{String, ◌==◌, ◌≡◌, refl, if◌then◌else◌, Result, ok, err}
use millrace_rs.Contracts.Enums.{PlanningTerminalResult}
use millrace_rs.Contracts.Error.{ContractError, unknown_enum_value}

unfoldable pub as_str : PlanningTerminalResult → String
as_str PlanningTerminalResult.recon_to_execution = "RECON_TO_EXECUTION"
as_str PlanningTerminalResult.recon_to_planning = "RECON_TO_PLANNING"
as_str PlanningTerminalResult.recon_blocked = "RECON_BLOCKED"
as_str PlanningTerminalResult.recon_noop = "RECON_NOOP"
as_str PlanningTerminalResult.planner_complete = "PLANNER_COMPLETE"
as_str PlanningTerminalResult.manager_complete = "MANAGER_COMPLETE"
as_str PlanningTerminalResult.manager_blueprint_complete = "MANAGER_BLUEPRINT_COMPLETE"
as_str PlanningTerminalResult.blueprint_candidate_ready = "BLUEPRINT_CANDIDATE_READY"
as_str PlanningTerminalResult.blueprint_approved = "BLUEPRINT_APPROVED"
as_str PlanningTerminalResult.blueprint_rejected = "BLUEPRINT_REJECTED"
as_str PlanningTerminalResult.mechanic_complete = "MECHANIC_COMPLETE"
as_str PlanningTerminalResult.mechanic_blueprint_complete = "MECHANIC_BLUEPRINT_COMPLETE"
as_str PlanningTerminalResult.auditor_complete = "AUDITOR_COMPLETE"
as_str PlanningTerminalResult.arbiter_complete = "ARBITER_COMPLETE"
as_str PlanningTerminalResult.remediation_needed = "REMEDIATION_NEEDED"
as_str PlanningTerminalResult.blocked = "BLOCKED"

unfoldable pub from_value : String → Result ContractError PlanningTerminalResult
from_value value =
    if value == "RECON_TO_EXECUTION"
    then ok PlanningTerminalResult.recon_to_execution
    else if value == "RECON_TO_PLANNING"
    then ok PlanningTerminalResult.recon_to_planning
    else if value == "RECON_BLOCKED"
    then ok PlanningTerminalResult.recon_blocked
    else if value == "RECON_NOOP"
    then ok PlanningTerminalResult.recon_noop
    else if value == "PLANNER_COMPLETE"
    then ok PlanningTerminalResult.planner_complete
    else if value == "MANAGER_COMPLETE"
    then ok PlanningTerminalResult.manager_complete
    else if value == "MANAGER_BLUEPRINT_COMPLETE"
    then ok PlanningTerminalResult.manager_blueprint_complete
    else if value == "BLUEPRINT_CANDIDATE_READY"
    then ok PlanningTerminalResult.blueprint_candidate_ready
    else if value == "BLUEPRINT_APPROVED"
    then ok PlanningTerminalResult.blueprint_approved
    else if value == "BLUEPRINT_REJECTED"
    then ok PlanningTerminalResult.blueprint_rejected
    else if value == "MECHANIC_COMPLETE"
    then ok PlanningTerminalResult.mechanic_complete
    else if value == "MECHANIC_BLUEPRINT_COMPLETE"
    then ok PlanningTerminalResult.mechanic_blueprint_complete
    else if value == "AUDITOR_COMPLETE"
    then ok PlanningTerminalResult.auditor_complete
    else if value == "ARBITER_COMPLETE"
    then ok PlanningTerminalResult.arbiter_complete
    else if value == "REMEDIATION_NEEDED"
    then ok PlanningTerminalResult.remediation_needed
    else if value == "BLOCKED"
    then ok PlanningTerminalResult.blocked
    else err (unknown_enum_value "PlanningTerminalResult" value)

-- Every PlanningTerminalResult is read back from its own text.
pub from_value-as_str : (x : PlanningTerminalResult) → from_value (as_str x) ≡ ok x
unfolding from_value as_str
from_value-as_str PlanningTerminalResult.recon_to_execution = refl
from_value-as_str _ = refl
