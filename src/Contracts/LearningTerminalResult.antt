-- ===== src/Contracts/LearningTerminalResult.antt =====
-- contracts/enums.rs: the terminal results of the learning plane, as texts (`string_enum!`).
use millrace_rs.Base.{String, ◌==◌, ◌≡◌, refl, if◌then◌else◌, Result, ok, err}
use millrace_rs.Contracts.Enums.{LearningTerminalResult}
use millrace_rs.Contracts.Error.{ContractError, unknown_enum_value}

unfoldable pub as_str : LearningTerminalResult → String
as_str LearningTerminalResult.analyst_complete = "ANALYST_COMPLETE"
as_str LearningTerminalResult.analyst_noop = "ANALYST_NOOP"
as_str LearningTerminalResult.professor_complete = "PROFESSOR_COMPLETE"
as_str LearningTerminalResult.professor_noop = "PROFESSOR_NOOP"
as_str LearningTerminalResult.curator_complete = "CURATOR_COMPLETE"
as_str LearningTerminalResult.curator_noop = "CURATOR_NOOP"
as_str LearningTerminalResult.librarian_complete = "LIBRARIAN_COMPLETE"
as_str LearningTerminalResult.librarian_noop = "LIBRARIAN_NOOP"
as_str LearningTerminalResult.blocked = "BLOCKED"

unfoldable pub from_value : String → Result ContractError LearningTerminalResult
from_value value =
    if value == "ANALYST_COMPLETE"
    then ok LearningTerminalResult.analyst_complete
    else if value == "ANALYST_NOOP"
    then ok LearningTerminalResult.analyst_noop
    else if value == "PROFESSOR_COMPLETE"
    then ok LearningTerminalResult.professor_complete
    else if value == "PROFESSOR_NOOP"
    then ok LearningTerminalResult.professor_noop
    else if value == "CURATOR_COMPLETE"
    then ok LearningTerminalResult.curator_complete
    else if value == "CURATOR_NOOP"
    then ok LearningTerminalResult.curator_noop
    else if value == "LIBRARIAN_COMPLETE"
    then ok LearningTerminalResult.librarian_complete
    else if value == "LIBRARIAN_NOOP"
    then ok LearningTerminalResult.librarian_noop
    else if value == "BLOCKED"
    then ok LearningTerminalResult.blocked
    else err (unknown_enum_value "LearningTerminalResult" value)

-- Every LearningTerminalResult is read back from its own text.
pub from_value-as_str : (x : LearningTerminalResult) → from_value (as_str x) ≡ ok x
unfolding from_value as_str
from_value-as_str LearningTerminalResult.analyst_complete = refl
from_value-as_str _ = refl
