-- ===== src/Contracts/WorkItemKind.antt =====
-- contracts/enums.rs: the kinds of work items, as texts (`string_enum!`).
use millrace_rs.Base.{String, ◌==◌, ◌≡◌, refl, if◌then◌else◌, Result, ok, err}
use millrace_rs.Contracts.Enums.{WorkItemKind}
use millrace_rs.Contracts.Error.{ContractError, unknown_enum_value}

unfoldable pub as_str : WorkItemKind → String
as_str WorkItemKind.task = "task"
as_str WorkItemKind.probe = "probe"
as_str WorkItemKind.spec = "spec"
as_str WorkItemKind.incident = "incident"
as_str WorkItemKind.learning_request = "learning_request"
as_str WorkItemKind.blueprint_draft = "blueprint_draft"

unfoldable pub from_value : String → Result ContractError WorkItemKind
from_value value =
    if value == "task"
    then ok WorkItemKind.task
    else if value == "probe"
    then ok WorkItemKind.probe
    else if value == "spec"
    then ok WorkItemKind.spec
    else if value == "incident"
    then ok WorkItemKind.incident
    else if value == "learning_request"
    then ok WorkItemKind.learning_request
    else if value == "blueprint_draft"
    then ok WorkItemKind.blueprint_draft
    else err (unknown_enum_value "WorkItemKind" value)

-- Every WorkItemKind is read back from its own text.
pub from_value-as_str : (x : WorkItemKind) → from_value (as_str x) ≡ ok x
unfolding from_value as_str
from_value-as_str WorkItemKind.task = refl
from_value-as_str _ = refl
