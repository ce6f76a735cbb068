-- ===== src/Workspace.antt =====
-- workspace/: the queue directories of work items, and the moves of an item between them.
pub mod Files
pub mod Queue
pub mod QueueLifecycle
pub mod Claims
pub mod StaleState
pub mod Interventions
pub mod Samples
mod Examples
