-- ===== src/Contracts/StageMetadata.antt =====
-- contracts/stage_metadata.rs: which terminal results and result classes each stage may report.
use millrace_rs.Base.{List, [], ◌∷◌}
use millrace_rs.Contracts.Enums.{
  Plane, StageName, TerminalResult, ExecutionTerminalResult, PlanningTerminalResult,
  LearningTerminalResult, ResultClass,
}

-- `OutcomeResultClasses`
pub record OutcomeResultClasses : Type 0 where
  pub terminal_result : TerminalResult
  pub result_classes : List ResultClass

-- `StageMetadata`
pub record StageMetadata : Type 0 where
  pub stage : StageName
  pub plane : Plane
  pub legal_terminal_results : List TerminalResult
  pub allowed_result_classes_by_outcome : List OutcomeResultClasses

abbrev pub e : ExecutionTerminalResult → TerminalResult
e r = TerminalResult.execution r

abbrev pub p : PlanningTerminalResult → TerminalResult
p r = TerminalResult.planning r

abbrev pub l : LearningTerminalResult → TerminalResult
l r = TerminalResult.learning r

abbrev entry : TerminalResult → List ResultClass → OutcomeResultClasses
entry r cs = record { terminal_result = r; result_classes = cs }

abbrev success_classes : List ResultClass
success_classes = ResultClass.success ∷ []

abbrev no_op_classes : List ResultClass
no_op_classes = ResultClass.no_op ∷ []

abbrev followup_classes : List ResultClass
followup_classes = ResultClass.followup_needed ∷ []

abbrev escalate_planning_classes : List ResultClass
escalate_planning_classes = ResultClass.escalate_planning ∷ []

abbrev only_blocked_classes : List ResultClass
only_blocked_classes = ResultClass.blocked ∷ []

abbrev blocked_classes : List ResultClass
blocked_classes = ResultClass.blocked ∷ ResultClass.recoverable_failure ∷ []

-- The `_LEGAL` tables.
unfoldable pub legal_results : StageName → List TerminalResult
legal_results StageName.builder =
    e ExecutionTerminalResult.builder_complete ∷ e ExecutionTerminalResult.blocked ∷ []
legal_results StageName.integrator =
    e ExecutionTerminalResult.integration_complete ∷ e ExecutionTerminalResult.blocked ∷ []
legal_results StageName.checker =
    e ExecutionTerminalResult.checker_pass
    ∷ e ExecutionTerminalResult.fix_needed
    ∷ e ExecutionTerminalResult.blocked
    ∷ []
legal_results StageName.fixer =
    e ExecutionTerminalResult.fixer_complete ∷ e ExecutionTerminalResult.blocked ∷ []
legal_results StageName.doublechecker =
    e ExecutionTerminalResult.doublecheck_pass
    ∷ e ExecutionTerminalResult.fix_needed
    ∷ e ExecutionTerminalResult.blocked
    ∷ []
legal_results StageName.updater =
    e ExecutionTerminalResult.update_complete ∷ e ExecutionTerminalResult.blocked ∷ []
legal_results StageName.troubleshooter =
    e ExecutionTerminalResult.troubleshoot_complete ∷ e ExecutionTerminalResult.blocked ∷ []
legal_results StageName.consultant =
    e ExecutionTerminalResult.consult_complete
    ∷ e ExecutionTerminalResult.needs_planning
    ∷ e ExecutionTerminalResult.blocked
    ∷ []
legal_results StageName.recon =
    p PlanningTerminalResult.recon_to_execution
    ∷ p PlanningTerminalResult.recon_to_planning
    ∷ p PlanningTerminalResult.recon_noop
    ∷ p PlanningTerminalResult.recon_blocked
    ∷ p PlanningTerminalResult.blocked
    ∷ []
legal_results StageName.planner =
    p PlanningTerminalResult.planner_complete ∷ p PlanningTerminalResult.blocked ∷ []
legal_results StageName.manager =
    p PlanningTerminalResult.manager_complete ∷ p PlanningTerminalResult.blocked ∷ []
legal_results StageName.manager_blueprint =
    p PlanningTerminalResult.manager_blueprint_complete ∷ p PlanningTerminalResult.blocked ∷ []
legal_results StageName.contractor_blueprint =
    p PlanningTerminalResult.blueprint_candidate_ready ∷ p PlanningTerminalResult.blocked ∷ []
legal_results StageName.evaluator_blueprint =
    p PlanningTerminalResult.blueprint_approved
    ∷ p PlanningTerminalResult.blueprint_rejected
    ∷ p PlanningTerminalResult.blocked
    ∷ []
legal_results StageName.mechanic =
    p PlanningTerminalResult.mechanic_complete ∷ p PlanningTerminalResult.blocked ∷ []
legal_results StageName.mechanic_blueprint =
    p PlanningTerminalResult.mechanic_blueprint_complete ∷ p PlanningTerminalResult.blocked ∷ []
legal_results StageName.auditor =
    p PlanningTerminalResult.auditor_complete ∷ p PlanningTerminalResult.blocked ∷ []
legal_results StageName.arbiter =
    p PlanningTerminalResult.arbiter_complete
    ∷ p PlanningTerminalResult.remediation_needed
    ∷ p PlanningTerminalResult.blocked
    ∷ []
legal_results StageName.analyst =
    l LearningTerminalResult.analyst_complete
    ∷ l LearningTerminalResult.analyst_noop
    ∷ l LearningTerminalResult.blocked
    ∷ []
legal_results StageName.professor =
    l LearningTerminalResult.professor_complete
    ∷ l LearningTerminalResult.professor_noop
    ∷ l LearningTerminalResult.blocked
    ∷ []
legal_results StageName.curator =
    l LearningTerminalResult.curator_complete
    ∷ l LearningTerminalResult.curator_noop
    ∷ l LearningTerminalResult.blocked
    ∷ []
legal_results StageName.librarian =
    l LearningTerminalResult.librarian_complete
    ∷ l LearningTerminalResult.librarian_noop
    ∷ l LearningTerminalResult.blocked
    ∷ []

-- The `_ALLOWED` tables.
unfoldable pub allowed_classes : StageName → List OutcomeResultClasses
allowed_classes StageName.builder =
    entry (e ExecutionTerminalResult.builder_complete) success_classes
    ∷ entry (e ExecutionTerminalResult.blocked) blocked_classes
    ∷ []
allowed_classes StageName.integrator =
    entry (e ExecutionTerminalResult.integration_complete) success_classes
    ∷ entry (e ExecutionTerminalResult.blocked) blocked_classes
    ∷ []
allowed_classes StageName.checker =
    entry (e ExecutionTerminalResult.checker_pass) success_classes
    ∷ entry (e ExecutionTerminalResult.fix_needed) followup_classes
    ∷ entry (e ExecutionTerminalResult.blocked) blocked_classes
    ∷ []
allowed_classes StageName.fixer =
    entry (e ExecutionTerminalResult.fixer_complete) success_classes
    ∷ entry (e ExecutionTerminalResult.blocked) blocked_classes
    ∷ []
allowed_classes StageName.doublechecker =
    entry (e ExecutionTerminalResult.doublecheck_pass) success_classes
    ∷ entry (e ExecutionTerminalResult.fix_needed) followup_classes
    ∷ entry (e ExecutionTerminalResult.blocked) blocked_classes
    ∷ []
allowed_classes StageName.updater =
    entry (e ExecutionTerminalResult.update_complete) success_classes
    ∷ entry (e ExecutionTerminalResult.blocked) blocked_classes
    ∷ []
allowed_classes StageName.troubleshooter =
    entry (e ExecutionTerminalResult.troubleshoot_complete) success_classes
    ∷ entry (e ExecutionTerminalResult.blocked) blocked_classes
    ∷ []
allowed_classes StageName.consultant =
    entry (e ExecutionTerminalResult.consult_complete) success_classes
    ∷ entry (e ExecutionTerminalResult.needs_planning) escalate_planning_classes
    ∷ entry (e ExecutionTerminalResult.blocked) blocked_classes
    ∷ []
allowed_classes StageName.recon =
    entry (p PlanningTerminalResult.recon_to_execution) success_classes
    ∷ entry (p PlanningTerminalResult.recon_to_planning) success_classes
    ∷ entry (p PlanningTerminalResult.recon_noop) no_op_classes
    ∷ entry (p PlanningTerminalResult.recon_blocked) only_blocked_classes
    ∷ entry (p PlanningTerminalResult.blocked) blocked_classes
    ∷ []
allowed_classes StageName.planner =
    entry (p PlanningTerminalResult.planner_complete) success_classes
    ∷ entry (p PlanningTerminalResult.blocked) blocked_classes
    ∷ []
allowed_classes StageName.manager =
    entry (p PlanningTerminalResult.manager_complete) success_classes
    ∷ entry (p PlanningTerminalResult.blocked) blocked_classes
    ∷ []
allowed_classes StageName.manager_blueprint =
    entry (p PlanningTerminalResult.manager_blueprint_complete) success_classes
    ∷ entry (p PlanningTerminalResult.blocked) blocked_classes
    ∷ []
allowed_classes StageName.contractor_blueprint =
    entry (p PlanningTerminalResult.blueprint_candidate_ready) success_classes
    ∷ entry (p PlanningTerminalResult.blocked) blocked_classes
    ∷ []
allowed_classes StageName.evaluator_blueprint =
    entry (p PlanningTerminalResult.blueprint_approved) success_classes
    ∷ entry (p PlanningTerminalResult.blueprint_rejected) followup_classes
    ∷ entry (p PlanningTerminalResult.blocked) blocked_classes
    ∷ []
allowed_classes StageName.mechanic =
    entry (p PlanningTerminalResult.mechanic_complete) success_classes
    ∷ entry (p PlanningTerminalResult.blocked) blocked_classes
    ∷ []
allowed_classes StageName.mechanic_blueprint =
    entry (p PlanningTerminalResult.mechanic_blueprint_complete) success_classes
    ∷ entry (p PlanningTerminalResult.blocked) blocked_classes
    ∷ []
allowed_classes StageName.auditor =
    entry (p PlanningTerminalResult.auditor_complete) success_classes
    ∷ entry (p PlanningTerminalResult.blocked) blocked_classes
    ∷ []
allowed_classes StageName.arbiter =
    entry (p PlanningTerminalResult.arbiter_complete) success_classes
    ∷ entry (p PlanningTerminalResult.remediation_needed) followup_classes
    ∷ entry (p PlanningTerminalResult.blocked) blocked_classes
    ∷ []
allowed_classes StageName.analyst =
    entry (l LearningTerminalResult.analyst_complete) success_classes
    ∷ entry (l LearningTerminalResult.analyst_noop) no_op_classes
    ∷ entry (l LearningTerminalResult.blocked) blocked_classes
    ∷ []
allowed_classes StageName.professor =
    entry (l LearningTerminalResult.professor_complete) success_classes
    ∷ entry (l LearningTerminalResult.professor_noop) no_op_classes
    ∷ entry (l LearningTerminalResult.blocked) blocked_classes
    ∷ []
allowed_classes StageName.curator =
    entry (l LearningTerminalResult.curator_complete) success_classes
    ∷ entry (l LearningTerminalResult.curator_noop) no_op_classes
    ∷ entry (l LearningTerminalResult.blocked) blocked_classes
    ∷ []
allowed_classes StageName.librarian =
    entry (l LearningTerminalResult.librarian_complete) success_classes
    ∷ entry (l LearningTerminalResult.librarian_noop) no_op_classes
    ∷ entry (l LearningTerminalResult.blocked) blocked_classes
    ∷ []

-- `stage_metadata`, with the `_METADATA` constants.
unfoldable pub stage_metadata : StageName → StageMetadata
unfolding legal_results allowed_classes
stage_metadata StageName.builder = record {
  stage = StageName.builder;
  plane = Plane.execution;
  legal_terminal_results = legal_results StageName.builder;
  allowed_result_classes_by_outcome = allowed_classes StageName.builder;
}
stage_metadata StageName.integrator = record {
  stage = StageName.integrator;
  plane = Plane.execution;
  legal_terminal_results = legal_results StageName.integrator;
  allowed_result_classes_by_outcome = allowed_classes StageName.integrator;
}
stage_metadata StageName.checker = record {
  stage = StageName.checker;
  plane = Plane.execution;
  legal_terminal_results = legal_results StageName.checker;
  allowed_result_classes_by_outcome = allowed_classes StageName.checker;
}
stage_metadata StageName.fixer = record {
  stage = StageName.fixer;
  plane = Plane.execution;
  legal_terminal_results = legal_results StageName.fixer;
  allowed_result_classes_by_outcome = allowed_classes StageName.fixer;
}
stage_metadata StageName.doublechecker = record {
  stage = StageName.doublechecker;
  plane = Plane.execution;
  legal_terminal_results = legal_results StageName.doublechecker;
  allowed_result_classes_by_outcome = allowed_classes StageName.doublechecker;
}
stage_metadata StageName.updater = record {
  stage = StageName.updater;
  plane = Plane.execution;
  legal_terminal_results = legal_results StageName.updater;
  allowed_result_classes_by_outcome = allowed_classes StageName.updater;
}
stage_metadata StageName.troubleshooter = record {
  stage = StageName.troubleshooter;
  plane = Plane.execution;
  legal_terminal_results = legal_results StageName.troubleshooter;
  allowed_result_classes_by_outcome = allowed_classes StageName.troubleshooter;
}
stage_metadata StageName.consultant = record {
  stage = StageName.consultant;
  plane = Plane.execution;
  legal_terminal_results = legal_results StageName.consultant;
  allowed_result_classes_by_outcome = allowed_classes StageName.consultant;
}
stage_metadata StageName.recon = record {
  stage = StageName.recon;
  plane = Plane.planning;
  legal_terminal_results = legal_results StageName.recon;
  allowed_result_classes_by_outcome = allowed_classes StageName.recon;
}
stage_metadata StageName.planner = record {
  stage = StageName.planner;
  plane = Plane.planning;
  legal_terminal_results = legal_results StageName.planner;
  allowed_result_classes_by_outcome = allowed_classes StageName.planner;
}
stage_metadata StageName.manager = record {
  stage = StageName.manager;
  plane = Plane.planning;
  legal_terminal_results = legal_results StageName.manager;
  allowed_result_classes_by_outcome = allowed_classes StageName.manager;
}
stage_metadata StageName.manager_blueprint = record {
  stage = StageName.manager_blueprint;
  plane = Plane.planning;
  legal_terminal_results = legal_results StageName.manager_blueprint;
  allowed_result_classes_by_outcome = allowed_classes StageName.manager_blueprint;
}
stage_metadata StageName.contractor_blueprint = record {
  stage = StageName.contractor_blueprint;
  plane = Plane.planning;
  legal_terminal_results = legal_results StageName.contractor_blueprint;
  allowed_result_classes_by_outcome = allowed_classes StageName.contractor_blueprint;
}
stage_metadata StageName.evaluator_blueprint = record {
  stage = StageName.evaluator_blueprint;
  plane = Plane.planning;
  legal_terminal_results = legal_results StageName.evaluator_blueprint;
  allowed_result_classes_by_outcome = allowed_classes StageName.evaluator_blueprint;
}
stage_metadata StageName.mechanic = record {
  stage = StageName.mechanic;
  plane = Plane.planning;
  legal_terminal_results = legal_results StageName.mechanic;
  allowed_result_classes_by_outcome = allowed_classes StageName.mechanic;
}
stage_metadata StageName.mechanic_blueprint = record {
  stage = StageName.mechanic_blueprint;
  plane = Plane.planning;
  legal_terminal_results = legal_results StageName.mechanic_blueprint;
  allowed_result_classes_by_outcome = allowed_classes StageName.mechanic_blueprint;
}
stage_metadata StageName.auditor = record {
  stage = StageName.auditor;
  plane = Plane.planning;
  legal_terminal_results = legal_results StageName.auditor;
  allowed_result_classes_by_outcome = allowed_classes StageName.auditor;
}
stage_metadata StageName.arbiter = record {
  stage = StageName.arbiter;
  plane = Plane.planning;
  legal_terminal_results = legal_results StageName.arbiter;
  allowed_result_classes_by_outcome = allowed_classes StageName.arbiter;
}
stage_metadata StageName.analyst = record {
  stage = StageName.analyst;
  plane = Plane.learning;
  legal_terminal_results = legal_results StageName.analyst;
  allowed_result_classes_by_outcome = allowed_classes StageName.analyst;
}
stage_metadata StageName.professor = record {
  stage = StageName.professor;
  plane = Plane.learning;
  legal_terminal_results = legal_results StageName.professor;
  allowed_result_classes_by_outcome = allowed_classes StageName.professor;
}
stage_metadata StageName.curator = record {
  stage = StageName.curator;
  plane = Plane.learning;
  legal_terminal_results = legal_results StageName.curator;
  allowed_result_classes_by_outcome = allowed_classes StageName.curator;
}
stage_metadata StageName.librarian = record {
  stage = StageName.librarian;
  plane = Plane.learning;
  legal_terminal_results = legal_results StageName.librarian;
  allowed_result_classes_by_outcome = allowed_classes StageName.librarian;
}
