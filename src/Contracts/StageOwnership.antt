-- ===== src/Contracts/StageOwnership.antt =====
-- contracts/stage_metadata.rs: which kinds of work items a stage may own, and the status that it shows while it runs.
use millrace_rs.Base.{String, Bool, List, [], ◌∷◌, contains}
use millrace_rs.Contracts.Enums.{StageName, WorkItemKind, WorkItemKind-discrete}

unfoldable pub allowed_work_item_kinds : StageName → List WorkItemKind
allowed_work_item_kinds StageName.builder = WorkItemKind.task ∷ []
allowed_work_item_kinds StageName.integrator = WorkItemKind.task ∷ []
allowed_work_item_kinds StageName.checker = WorkItemKind.task ∷ []
allowed_work_item_kinds StageName.fixer = WorkItemKind.task ∷ []
allowed_work_item_kinds StageName.doublechecker = WorkItemKind.task ∷ []
allowed_work_item_kinds StageName.updater = WorkItemKind.task ∷ []
allowed_work_item_kinds StageName.troubleshooter = WorkItemKind.task ∷ []
allowed_work_item_kinds StageName.consultant = WorkItemKind.task ∷ []
allowed_work_item_kinds StageName.recon = WorkItemKind.probe ∷ []
allowed_work_item_kinds StageName.planner = WorkItemKind.spec ∷ WorkItemKind.incident ∷ []
allowed_work_item_kinds StageName.manager = WorkItemKind.spec ∷ WorkItemKind.incident ∷ []
allowed_work_item_kinds StageName.manager_blueprint = WorkItemKind.spec ∷ WorkItemKind.incident ∷ []
allowed_work_item_kinds StageName.contractor_blueprint = WorkItemKind.blueprint_draft ∷ []
allowed_work_item_kinds StageName.evaluator_blueprint = WorkItemKind.blueprint_draft ∷ []
allowed_work_item_kinds StageName.mechanic = WorkItemKind.spec ∷ WorkItemKind.incident ∷ []
allowed_work_item_kinds StageName.mechanic_blueprint =
    WorkItemKind.spec ∷ WorkItemKind.incident ∷ WorkItemKind.blueprint_draft ∷ []
allowed_work_item_kinds StageName.auditor = WorkItemKind.incident ∷ []
allowed_work_item_kinds StageName.arbiter = []
allowed_work_item_kinds StageName.analyst = WorkItemKind.learning_request ∷ []
allowed_work_item_kinds StageName.professor = WorkItemKind.learning_request ∷ []
allowed_work_item_kinds StageName.curator = WorkItemKind.learning_request ∷ []
allowed_work_item_kinds StageName.librarian = WorkItemKind.learning_request ∷ []

unfoldable pub stage_allows_work_item_kind : StageName → WorkItemKind → Bool
stage_allows_work_item_kind stage kind =
    contains WorkItemKind-discrete (allowed_work_item_kinds stage) kind

unfoldable pub running_status_marker : StageName → String
running_status_marker StageName.builder = "BUILDER_RUNNING"
running_status_marker StageName.integrator = "INTEGRATOR_RUNNING"
running_status_marker StageName.checker = "CHECKER_RUNNING"
running_status_marker StageName.fixer = "FIXER_RUNNING"
running_status_marker StageName.doublechecker = "DOUBLECHECKER_RUNNING"
running_status_marker StageName.updater = "UPDATER_RUNNING"
running_status_marker StageName.troubleshooter = "TROUBLESHOOTER_RUNNING"
running_status_marker StageName.consultant = "CONSULTANT_RUNNING"
running_status_marker StageName.recon = "RECON_RUNNING"
running_status_marker StageName.planner = "PLANNER_RUNNING"
running_status_marker StageName.manager = "MANAGER_RUNNING"
running_status_marker StageName.manager_blueprint = "MANAGER_BLUEPRINT_RUNNING"
running_status_marker StageName.contractor_blueprint = "CONTRACTOR_BLUEPRINT_RUNNING"
running_status_marker StageName.evaluator_blueprint = "EVALUATOR_BLUEPRINT_RUNNING"
running_status_marker StageName.mechanic = "MECHANIC_RUNNING"
running_status_marker StageName.mechanic_blueprint = "MECHANIC_BLUEPRINT_RUNNING"
running_status_marker StageName.auditor = "AUDITOR_RUNNING"
running_status_marker StageName.arbiter = "ARBITER_RUNNING"
running_status_marker StageName.analyst = "ANALYST_RUNNING"
running_status_marker StageName.professor = "PROFESSOR_RUNNING"
running_status_marker StageName.curator = "CURATOR_RUNNING"
running_status_marker StageName.librarian = "LIBRARIAN_RUNNING"
