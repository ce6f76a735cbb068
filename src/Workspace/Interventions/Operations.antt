-- ===== src/Workspace/Interventions/Operations.antt =====
-- workspace/queue_store.rs: the interventions that archive one item.
use millrace_rs.Base.{String, Option, none, some, [], ◌∷◌}
use millrace_rs.Contracts.Enums.{WorkItemKind}
use millrace_rs.Contracts.WorkRefs.{validate_safe_identifier}
use millrace_rs.Workspace.Files.{FileStep, ◌>>=◌, lift}
use millrace_rs.Workspace.Queue.{WorkspacePaths}
use millrace_rs.Workspace.Interventions.{
  OperatorInterventionAction, OperatorInterventionContext, OperatorInterventionResult, Clerk,
}
use millrace_rs.Workspace.Interventions.Archive.{
  archive_located_item, locate_cancelable_work_item, locate_exact_task, locate_incident,
}

module _ (clerk : Clerk) (paths : WorkspacePaths) where
  -- The source's argument `force` is left out: it does nothing.
  unfoldable pub cancel_work_item :
      String
      → Option WorkItemKind
      → String
      → OperatorInterventionContext
      → FileStep OperatorInterventionResult
  cancel_work_item work_item_id work_item_kind reason context =
      lift (validate_safe_identifier work_item_id "work_item_id") >>= λ _.
      (locate_cancelable_work_item paths work_item_id work_item_kind >>= λ item.
      archive_located_item clerk paths item (record {
        action = OperatorInterventionAction.cancel;
        destination_state = "cancelled";
        archive_name = "cancelled";
        event_type = "work_item_cancelled";
        reason = reason;
        context = context;
        replacement_work_item_id = none;
        affected_dependents = [];
        explicit_archive_parent = none;
      }))

  unfoldable pub archive_blocked_task :
      String → String → OperatorInterventionContext → FileStep OperatorInterventionResult
  archive_blocked_task task_id reason context =
      lift (validate_safe_identifier task_id "task_id") >>= λ _.
      (locate_exact_task paths task_id (("blocked", paths.tasks_blocked_dir) ∷ []) >>= λ item.
      archive_located_item clerk paths item (record {
        action = OperatorInterventionAction.archive_blocked_task;
        destination_state = "cancelled";
        archive_name = "cancelled";
        event_type = "blocked_task_archived";
        reason = reason;
        context = context;
        replacement_work_item_id = none;
        affected_dependents = [];
        explicit_archive_parent = none;
      }))

  unfoldable pub resolve_incident_by_operator :
      String → String → OperatorInterventionContext → FileStep OperatorInterventionResult
  resolve_incident_by_operator incident_id reason context =
      lift (validate_safe_identifier incident_id "incident_id") >>= λ _.
      (locate_incident paths incident_id >>= λ item. archive_located_item clerk paths item (record {
        action = OperatorInterventionAction.resolve_incident;
        destination_state = "resolved";
        archive_name = "operator";
        event_type = "incident_resolved_by_operator";
        reason = reason;
        context = context;
        replacement_work_item_id = none;
        affected_dependents = [];
        explicit_archive_parent = some paths.incidents_resolved_dir;
      }))

  unfoldable pub cancel_incident :
      String → String → OperatorInterventionContext → FileStep OperatorInterventionResult
  cancel_incident incident_id reason context =
      lift (validate_safe_identifier incident_id "incident_id") >>= λ _.
      (locate_incident paths incident_id >>= λ item. archive_located_item clerk paths item (record {
        action = OperatorInterventionAction.cancel_incident;
        destination_state = "cancelled";
        archive_name = "cancelled";
        event_type = "incident_cancelled";
        reason = reason;
        context = context;
        replacement_work_item_id = none;
        affected_dependents = [];
        explicit_archive_parent = none;
      }))
