-- ===== src/Contracts/QueueClaims.antt =====
-- workspace/queue_claims.rs: the plane that owns a claimed item of a built-in kind.
use millrace_rs.Contracts.Enums.{Plane, WorkItemKind}

unfoldable pub plane_for_builtin_kind : WorkItemKind → Plane
plane_for_builtin_kind WorkItemKind.task = Plane.execution
plane_for_builtin_kind WorkItemKind.probe = Plane.planning
plane_for_builtin_kind WorkItemKind.spec = Plane.planning
plane_for_builtin_kind WorkItemKind.incident = Plane.planning
plane_for_builtin_kind WorkItemKind.learning_request = Plane.learning
plane_for_builtin_kind WorkItemKind.blueprint_draft = Plane.planning
