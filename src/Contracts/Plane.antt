-- ===== src/Contracts/Plane.antt =====
-- contracts/enums.rs: the runtime planes, as texts (`string_enum!`).
use millrace_rs.Base.{String, ◌==◌, ◌≡◌, refl, if◌then◌else◌, Result, ok, err}
use millrace_rs.Contracts.Enums.{Plane}
use millrace_rs.Contracts.Error.{ContractError, unknown_enum_value}

unfoldable pub as_str : Plane → String
as_str Plane.execution = "execution"
as_str Plane.planning = "planning"
as_str Plane.learning = "learning"

unfoldable pub from_value : String → Result ContractError Plane
from_value value =
    if value == "execution"
    then ok Plane.execution
    else if value == "planning"
    then ok Plane.planning
    else if value == "learning"
    then ok Plane.learning
    else err (unknown_enum_value "Plane" value)

-- Every Plane is read back from its own text.
pub from_value-as_str : (x : Plane) → from_value (as_str x) ≡ ok x
unfolding from_value as_str
from_value-as_str Plane.execution = refl
from_value-as_str _ = refl
