-- ===== src/Contracts.antt =====
-- contracts/: the enumerations, the stage metadata and the validators that the runtime rests on.
pub mod Enums
pub mod Error
pub mod Plane
pub mod StageName
pub mod ExecutionTerminalResult
pub mod PlanningTerminalResult
pub mod LearningTerminalResult
pub mod WorkItemKind
pub mod StageMetadata
pub mod StageOwnership
pub mod Validation
pub mod WorkRefs
pub mod Capabilities
pub mod QueueClaims
pub mod Laws
mod Examples
