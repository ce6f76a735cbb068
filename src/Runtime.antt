-- ===== src/Runtime.antt =====
-- runtime/: the state of the runtime, the graph router, and the operations on the snapshot.
pub mod PlaneMap
pub mod State
pub mod SchedulerPolicy
pub mod Plan
pub mod FailureClass
pub mod FailureClassifierCode
pub mod Router
pub mod Dispatch
pub mod Lanes
pub mod LaneState
pub mod LaneDispatch
pub mod FailurePolicy
pub mod RunnerFailureClass
pub mod BlockedRecovery
pub mod Pause
pub mod Foreground
pub mod RecoveryCounters
pub mod ActiveRuns
pub mod Approvals
pub mod CapabilityGates
mod Examples
