-- ===== src/Contracts/Validation.antt =====
-- contracts/stage_metadata.rs: stage values, terminal markers and result classes, parsed and validated.
use Prim.Native.String.{slice, len}
use text.Mathlib.Text.{starts_with, find?}
use millrace_rs.Base.{
  String, ◌==◌, not, ◌||◌, Option, none, some, List, [], map, find, contains, is_some,
  if◌then◌else◌, Result, ok, err, ◌>>=◌, map_err, test,
}
use millrace_rs.Base.Text.{concat, is_blank, trim}
use millrace_rs.Contracts.Enums.{
  ExecutionTerminalResult, PlanningTerminalResult, LearningTerminalResult, Plane, Plane-discrete,
  StageName, TerminalResult, TerminalResult-discrete, ResultClass, ResultClass-discrete,
}
use millrace_rs.Contracts.Error.{
  ContractError, unknown_stage_value, stage_plane_mismatch, unknown_terminal_result,
  invalid_terminal_marker, terminal_result_not_allowed, result_class_not_allowed,
}
use millrace_rs.Contracts.StageName
use millrace_rs.Contracts.ExecutionTerminalResult
use millrace_rs.Contracts.PlanningTerminalResult
use millrace_rs.Contracts.LearningTerminalResult
use millrace_rs.Contracts.StageMetadata.{OutcomeResultClasses, stage_metadata, e, p, l}

-- `TerminalResult::plane`
unfoldable pub terminal_plane : TerminalResult → Plane
terminal_plane (TerminalResult.execution _) = Plane.execution
terminal_plane (TerminalResult.planning _) = Plane.planning
terminal_plane (TerminalResult.learning _) = Plane.learning

-- `TerminalResult::as_str`
unfoldable pub terminal_str : TerminalResult → String
terminal_str (TerminalResult.execution r) = ExecutionTerminalResult.as_str r
terminal_str (TerminalResult.planning r) = PlanningTerminalResult.as_str r
terminal_str (TerminalResult.learning r) = LearningTerminalResult.as_str r

-- `TerminalResult::marker`
unfoldable pub marker : TerminalResult → String
marker r = concat "### " (terminal_str r)

unfoldable pub legal_terminal_results : StageName → List TerminalResult
legal_terminal_results stage = (stage_metadata stage).legal_terminal_results

unfoldable pub legal_terminal_markers : StageName → List String
legal_terminal_markers stage = map marker (legal_terminal_results stage)

unfoldable pub allowed_result_classes_by_outcome : StageName → List OutcomeResultClasses
allowed_result_classes_by_outcome stage = (stage_metadata stage).allowed_result_classes_by_outcome

unfoldable pub stage_name_for_value : String → Result ContractError StageName
stage_name_for_value stage_value =
    if stage_value == "builder"
    then ok StageName.builder
    else if stage_value == "integrator"
    then ok StageName.integrator
    else if stage_value == "checker"
    then ok StageName.checker
    else if stage_value == "fixer"
    then ok StageName.fixer
    else if stage_value == "doublechecker"
    then ok StageName.doublechecker
    else if stage_value == "updater"
    then ok StageName.updater
    else if stage_value == "troubleshooter"
    then ok StageName.troubleshooter
    else if stage_value == "consultant"
    then ok StageName.consultant
    else if stage_value == "recon"
    then ok StageName.recon
    else if stage_value == "planner"
    then ok StageName.planner
    else if stage_value == "manager"
    then ok StageName.manager
    else if stage_value == "manager_blueprint"
    then ok StageName.manager_blueprint
    else if stage_value == "contractor_blueprint"
    then ok StageName.contractor_blueprint
    else if stage_value == "evaluator_blueprint"
    then ok StageName.evaluator_blueprint
    else if stage_value == "mechanic"
    then ok StageName.mechanic
    else if stage_value == "mechanic_blueprint"
    then ok StageName.mechanic_blueprint
    else if stage_value == "auditor"
    then ok StageName.auditor
    else if stage_value == "arbiter"
    then ok StageName.arbiter
    else if stage_value == "analyst"
    then ok StageName.analyst
    else if stage_value == "professor"
    then ok StageName.professor
    else if stage_value == "curator"
    then ok StageName.curator
    else if stage_value == "librarian"
    then ok StageName.librarian
    else err (unknown_stage_value stage_value)

unfoldable pub stage_name_for_plane : Plane → String → Result ContractError StageName
stage_name_for_plane plane stage_value = do
  stage ← stage_name_for_value stage_value
  if test (Plane-discrete (StageName.plane stage) plane)
      then ok stage
      else err (stage_plane_mismatch plane stage)

unfoldable pub terminal_result_for_plane : Plane → String → Result ContractError TerminalResult
terminal_result_for_plane Plane.execution token =
    map_err (λ _. unknown_terminal_result Plane.execution token)
      (ExecutionTerminalResult.from_value token >>= λ r. ok (e r))
terminal_result_for_plane Plane.planning token =
    map_err (λ _. unknown_terminal_result Plane.planning token)
      (PlanningTerminalResult.from_value token >>= λ r. ok (p r))
terminal_result_for_plane Plane.learning token =
    map_err (λ _. unknown_terminal_result Plane.learning token)
      (LearningTerminalResult.from_value token >>= λ r. ok (l r))

-- `E_BLOCKED`, `P_BLOCKED` and `L_BLOCKED`
unfoldable pub blocked_terminal_for_plane : Plane → TerminalResult
blocked_terminal_for_plane Plane.execution =
    TerminalResult.execution ExecutionTerminalResult.blocked
blocked_terminal_for_plane Plane.planning = TerminalResult.planning PlanningTerminalResult.blocked
blocked_terminal_for_plane Plane.learning = TerminalResult.learning LearningTerminalResult.blocked

-- `marker.strip_prefix("### ")`
unfoldable pub strip_prefix : String → String → Option String
strip_prefix pre s = if starts_with s pre then some (slice s (len pre) (len s)) else none

unfoldable pub parse_terminal_marker_for_plane :
    Plane → String → Result ContractError TerminalResult
parse_terminal_marker_for_plane plane text = elim (strip_prefix "### " text) [
  | none ↦ err (invalid_terminal_marker text)
  | some token ↦
      if is_blank token || not (trim token == token) || is_some (find? token " ")
      then err (invalid_terminal_marker text)
      else terminal_result_for_plane plane token
]

unfoldable pub validate_terminal_marker_for_stage :
    StageName → String → Result ContractError TerminalResult
validate_terminal_marker_for_stage stage text = do
  terminal_result ← parse_terminal_marker_for_plane (StageName.plane stage) text
  (if contains TerminalResult-discrete (legal_terminal_results stage) terminal_result
      then ok terminal_result
      else err (terminal_result_not_allowed stage terminal_result))

-- The classes that a stage's table lists for an outcome; none if it does not list the outcome.
unfoldable pub classes_for_outcome : StageName → TerminalResult → List ResultClass
classes_for_outcome stage r =
    elim (find (λ entry. test (TerminalResult-discrete entry.terminal_result r))
      (allowed_result_classes_by_outcome stage)) [ some entry ↦ entry.result_classes | none ↦ [] ]

unfoldable pub validate_stage_result_class :
    StageName → TerminalResult → ResultClass → Result ContractError (Unit {0})
validate_stage_result_class stage r result_class =
    if not (test (Plane-discrete (terminal_plane r) (StageName.plane stage)))
      || not (contains TerminalResult-discrete (legal_terminal_results stage) r)
    then err (terminal_result_not_allowed stage r)
    else if contains ResultClass-discrete (classes_for_outcome stage r) result_class
    then ok tt
    else err (result_class_not_allowed stage r result_class)
