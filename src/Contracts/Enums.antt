-- ===== src/Contracts/Enums.antt =====
-- contracts/enums.rs: the enumerations that the runtime's contracts share. Their texts and parsers
-- are in the modules named after them.

pub data Plane : Type 0 where
  execution planning learning : Plane

pub data ExecutionStageName : Type 0 where
  builder integrator checker fixer doublechecker updater troubleshooter consultant :
      ExecutionStageName

pub data PlanningStageName : Type 0 where
  recon planner manager manager_blueprint contractor_blueprint evaluator_blueprint :
      PlanningStageName
  mechanic mechanic_blueprint auditor arbiter : PlanningStageName

pub data LearningStageName : Type 0 where
  analyst professor curator librarian : LearningStageName

pub data StageName : Type 0 where
  builder integrator checker fixer doublechecker updater troubleshooter consultant recon : StageName
  planner manager manager_blueprint contractor_blueprint evaluator_blueprint mechanic : StageName
  mechanic_blueprint auditor arbiter analyst professor curator librarian : StageName

pub data ExecutionTerminalResult : Type 0 where
  builder_complete integration_complete checker_pass fix_needed fixer_complete :
      ExecutionTerminalResult
  doublecheck_pass update_complete troubleshoot_complete consult_complete needs_planning :
      ExecutionTerminalResult
  blocked : ExecutionTerminalResult

pub data PlanningTerminalResult : Type 0 where
  recon_to_execution recon_to_planning recon_blocked recon_noop planner_complete :
      PlanningTerminalResult
  manager_complete manager_blueprint_complete blueprint_candidate_ready : PlanningTerminalResult
  blueprint_approved blueprint_rejected mechanic_complete mechanic_blueprint_complete :
      PlanningTerminalResult
  auditor_complete arbiter_complete remediation_needed blocked : PlanningTerminalResult

pub data LearningTerminalResult : Type 0 where
  analyst_complete analyst_noop professor_complete professor_noop curator_complete :
      LearningTerminalResult
  curator_noop librarian_complete librarian_noop blocked : LearningTerminalResult

-- A terminal result with the plane that it belongs to.
pub data TerminalResult : Type 0 where
  execution : ExecutionTerminalResult → TerminalResult
  planning : PlanningTerminalResult → TerminalResult
  learning : LearningTerminalResult → TerminalResult

pub data ResultClass : Type 0 where
  success no_op followup_needed recoverable_failure escalate_planning blocked : ResultClass

pub data WorkItemKind : Type 0 where
  task probe spec incident learning_request blueprint_draft : WorkItemKind

pub data CapabilityDecisionState : Type 0 where
  granted denied approval_required unsupported : CapabilityDecisionState

pub data CapabilityEnforcementMode : Type 0 where
  runner_enforced runtime_enforced adapter_enforced external_api_enforced advisory_only :
      CapabilityEnforcementMode
  not_applicable : CapabilityEnforcementMode

pub data CapabilityEvidenceStatus : Type 0 where
  not_required pending satisfied missing waived violated : CapabilityEvidenceStatus

pub data CapabilitySupportState : Type 0 where
  supported unsupported partially_supported : CapabilitySupportState

unfoldable pub Plane-discrete : Discrete Plane
Plane-discrete = hlevel

unfoldable pub StageName-discrete : Discrete StageName
StageName-discrete = hlevel

unfoldable pub WorkItemKind-discrete : Discrete WorkItemKind
WorkItemKind-discrete = hlevel

unfoldable pub ResultClass-discrete : Discrete ResultClass
ResultClass-discrete = hlevel

unfoldable pub ExecutionTerminalResult-discrete : Discrete ExecutionTerminalResult
ExecutionTerminalResult-discrete = hlevel

unfoldable pub PlanningTerminalResult-discrete : Discrete PlanningTerminalResult
PlanningTerminalResult-discrete = hlevel

unfoldable pub LearningTerminalResult-discrete : Discrete LearningTerminalResult
LearningTerminalResult-discrete = hlevel

unfoldable pub TerminalResult-discrete : Discrete TerminalResult
TerminalResult-discrete = hlevel

unfoldable pub CapabilityEnforcementMode-discrete : Discrete CapabilityEnforcementMode
CapabilityEnforcementMode-discrete = hlevel

unfoldable pub CapabilitySupportState-discrete : Discrete CapabilitySupportState
CapabilitySupportState-discrete = hlevel
