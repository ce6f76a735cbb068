-- ===== src/Contracts/Examples.antt =====
-- The laws of contracts/stage_metadata.rs at the checker, the arbiter and their results.
use millrace_rs.Base.{contains, ◌≡◌, refl, true, here, there, Has}
use millrace_rs.Contracts.Enums.{
  StageName, TerminalResult, ExecutionTerminalResult, WorkItemKind, WorkItemKind-discrete,
}
use millrace_rs.Contracts.StageMetadata.{stage_metadata, legal_results}
use millrace_rs.Contracts.StageOwnership.{stage_allows_work_item_kind, allowed_work_item_kinds}
use millrace_rs.Contracts.Validation.{legal_terminal_results}

abbrev fix_needed : TerminalResult
fix_needed = TerminalResult.execution ExecutionTerminalResult.fix_needed

fix_needed_legal : Has fix_needed (legal_terminal_results StageName.checker)
unfolding legal_terminal_results stage_metadata legal_results
fix_needed_legal = there here

incident_allowed : stage_allows_work_item_kind StageName.auditor WorkItemKind.incident ≡ true
unfolding stage_allows_work_item_kind allowed_work_item_kinds contains WorkItemKind-discrete
incident_allowed = refl
