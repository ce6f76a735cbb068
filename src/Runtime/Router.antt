-- ===== src/Runtime/Router.antt =====
-- runtime/tick.rs: the router. One normalized stage result, the compiled graph of its plane, the
-- snapshot and the persisted recovery counters decide what the runtime does next.
mod Decision
mod Counters
mod Guard
mod Resume
mod Planes
pub mod Sound
pub mod RoutesSound
pub mod Exhausted
pub use Decision.{RouterAction, run_stage, handoff, idle, blocked, RouterDecision}
unfoldable pub use Decision.{idle_decision, blocked_decision, run_stage_decision}
unfoldable pub use Counters.{counter_attempts, counter_key_from_snapshot, attempts_of, is_entry_for}
pub use Guard.{is_plane, ◌and_then◌}
unfoldable pub use Guard.{
  active_run_for_plane, legacy_active_run_for_plane, validate_stage_result_matches_snapshot,
}
unfoldable pub use Resume.{
  decision_from_resume_policy, decision_from_threshold_resolution, exhausted_at, resume_target,
  usable_target,
}
pub use Planes.{blocked_reason}
unfoldable pub use Planes.{
  route_execution_stage_result, route_planning_stage_result, route_learning_stage_result,
  route_stage_result_from_graph, fix_cycles_exhausted, attempts_exhausted, resumed, target_decision,
  execution_terminal, planning_terminal,
}
