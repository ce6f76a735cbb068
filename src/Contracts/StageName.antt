-- ===== src/Contracts/StageName.antt =====
-- contracts/enums.rs: the stage names, as texts (`string_enum!`).
use millrace_rs.Base.{String, ◌==◌, ◌≡◌, refl, if◌then◌else◌, Result, ok, err}
use millrace_rs.Contracts.Enums.{StageName, Plane}
use millrace_rs.Contracts.Error.{ContractError, unknown_enum_value}

unfoldable pub as_str : StageName → String
as_str StageName.builder = "builder"
as_str StageName.integrator = "integrator"
as_str StageName.checker = "checker"
as_str StageName.fixer = "fixer"
as_str StageName.doublechecker = "doublechecker"
as_str StageName.updater = "updater"
as_str StageName.troubleshooter = "troubleshooter"
as_str StageName.consultant = "consultant"
as_str StageName.recon = "recon"
as_str StageName.planner = "planner"
as_str StageName.manager = "manager"
as_str StageName.manager_blueprint = "manager_blueprint"
as_str StageName.contractor_blueprint = "contractor_blueprint"
as_str StageName.evaluator_blueprint = "evaluator_blueprint"
as_str StageName.mechanic = "mechanic"
as_str StageName.mechanic_blueprint = "mechanic_blueprint"
as_str StageName.auditor = "auditor"
as_str StageName.arbiter = "arbiter"
as_str StageName.analyst = "analyst"
as_str StageName.professor = "professor"
as_str StageName.curator = "curator"
as_str StageName.librarian = "librarian"

unfoldable pub from_value : String → Result ContractError StageName
from_value value =
    if value == "builder"
    then ok StageName.builder
    else if value == "integrator"
    then ok StageName.integrator
    else if value == "checker"
    then ok StageName.checker
    else if value == "fixer"
    then ok StageName.fixer
    else if value == "doublechecker"
    then ok StageName.doublechecker
    else if value == "updater"
    then ok StageName.updater
    else if value == "troubleshooter"
    then ok StageName.troubleshooter
    else if value == "consultant"
    then ok StageName.consultant
    else if value == "recon"
    then ok StageName.recon
    else if value == "planner"
    then ok StageName.planner
    else if value == "manager"
    then ok StageName.manager
    else if value == "manager_blueprint"
    then ok StageName.manager_blueprint
    else if value == "contractor_blueprint"
    then ok StageName.contractor_blueprint
    else if value == "evaluator_blueprint"
    then ok StageName.evaluator_blueprint
    else if value == "mechanic"
    then ok StageName.mechanic
    else if value == "mechanic_blueprint"
    then ok StageName.mechanic_blueprint
    else if value == "auditor"
    then ok StageName.auditor
    else if value == "arbiter"
    then ok StageName.arbiter
    else if value == "analyst"
    then ok StageName.analyst
    else if value == "professor"
    then ok StageName.professor
    else if value == "curator"
    then ok StageName.curator
    else if value == "librarian"
    then ok StageName.librarian
    else err (unknown_enum_value "StageName" value)

-- `StageName::plane`
unfoldable pub plane : StageName → Plane
plane StageName.builder = Plane.execution
plane StageName.integrator = Plane.execution
plane StageName.checker = Plane.execution
plane StageName.fixer = Plane.execution
plane StageName.doublechecker = Plane.execution
plane StageName.updater = Plane.execution
plane StageName.troubleshooter = Plane.execution
plane StageName.consultant = Plane.execution
plane StageName.recon = Plane.planning
plane StageName.planner = Plane.planning
plane StageName.manager = Plane.planning
plane StageName.manager_blueprint = Plane.planning
plane StageName.contractor_blueprint = Plane.planning
plane StageName.evaluator_blueprint = Plane.planning
plane StageName.mechanic = Plane.planning
plane StageName.mechanic_blueprint = Plane.planning
plane StageName.auditor = Plane.planning
plane StageName.arbiter = Plane.planning
plane StageName.analyst = Plane.learning
plane StageName.professor = Plane.learning
plane StageName.curator = Plane.learning
plane StageName.librarian = Plane.learning

-- Every StageName is read back from its own text.
pub from_value-as_str : (x : StageName) → from_value (as_str x) ≡ ok x
unfolding from_value as_str
from_value-as_str StageName.builder = refl
from_value-as_str _ = refl
