-- ===== src/Contracts/ExecutionTerminalResult.antt =====
-- contracts/enums.rs: the terminal results of the execution plane, as texts (`string_enum!`).
use millrace_rs.Base.{String, ◌==◌, ◌≡◌, refl, if◌then◌else◌, Result, ok, err}
use millrace_rs.Contracts.Enums.{ExecutionTerminalResult}
use millrace_rs.Contracts.Error.{ContractError, unknown_enum_value}

unfoldable pub as_str : ExecutionTerminalResult → String
as_str ExecutionTerminalResult.builder_complete = "BUILDER_COMPLETE"
as_str ExecutionTerminalResult.integration_complete = "INTEGRATION_COMPLETE"
as_str ExecutionTerminalResult.checker_pass = "CHECKER_PASS"
as_str ExecutionTerminalResult.fix_needed = "FIX_NEEDED"
as_str ExecutionTerminalResult.fixer_complete = "FIXER_COMPLETE"
as_str ExecutionTerminalResult.doublecheck_pass = "DOUBLECHECK_PASS"
as_str ExecutionTerminalResult.update_complete = "UPDATE_COMPLETE"
as_str ExecutionTerminalResult.troubleshoot_complete = "TROUBLESHOOT_COMPLETE"
as_str ExecutionTerminalResult.consult_complete = "CONSULT_COMPLETE"
as_str ExecutionTerminalResult.needs_planning = "NEEDS_PLANNING"
as_str ExecutionTerminalResult.blocked = "BLOCKED"

unfoldable pub from_value : String → Result ContractError ExecutionTerminalResult
from_value value =
    if value == "BUILDER_COMPLETE"
    then ok ExecutionTerminalResult.builder_complete
    else if value == "INTEGRATION_COMPLETE"
    then ok ExecutionTerminalResult.integration_complete
    else if value == "CHECKER_PASS"
    then ok ExecutionTerminalResult.checker_pass
    else if value == "FIX_NEEDED"
    then ok ExecutionTerminalResult.fix_needed
    else if value == "FIXER_COMPLETE"
    then ok ExecutionTerminalResult.fixer_complete
    else if value == "DOUBLECHECK_PASS"
    then ok ExecutionTerminalResult.doublecheck_pass
    else if value == "UPDATE_COMPLETE"
    then ok ExecutionTerminalResult.update_complete
    else if value == "TROUBLESHOOT_COMPLETE"
    then ok ExecutionTerminalResult.troubleshoot_complete
    else if value == "CONSULT_COMPLETE"
    then ok ExecutionTerminalResult.consult_complete
    else if value == "NEEDS_PLANNING"
    then ok ExecutionTerminalResult.needs_planning
    else if value == "BLOCKED"
    then ok ExecutionTerminalResult.blocked
    else err (unknown_enum_value "ExecutionTerminalResult" value)

-- Every ExecutionTerminalResult is read back from its own text.
pub from_value-as_str : (x : ExecutionTerminalResult) → from_value (as_str x) ≡ ok x
unfolding from_value as_str
from_value-as_str ExecutionTerminalResult.builder_complete = refl
from_value-as_str _ = refl
